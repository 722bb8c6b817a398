-- ===== src/Mpmc/Refinement.antt =====
-- channels/mpmc.rs: a channel against a list of messages.
use crossync.Prelude.{
  ℕ, suc, ◌+◌, ◌^◌, ◌≤◌, ◌≡◌, refl, ap, ◌∙◌, arith, some, List, [], ◌∷◌, ◌>>=◌, length,
}
use mathlib.Core.Path.{subst}
use crossync.Vec.Queue.{new_vec-Holds}
use crossync.Mpmc.Channel.{Channel, ChannelCall, new_channel, call_channels}
use crossync.Mpmc.Messages.{Messages, call_messages, calls_messages, Carries, new_messages}
use crossync.Mpmc.Steps.{call-Follows}

module _ {T : Type 0} where
  calls-Carries :
      (calls : List (ChannelCall T)) (c : Channel T) (q : Messages T) (n : ℕ)
      → Carries c q n
      → n + length calls ≤ 2 ^ 62
      → (d : Channel T) × (call_channels calls c ≡ some ((calls_messages calls q).0, d))
        × Carries d (calls_messages calls q).1 (n + length calls)
  calls-Carries [] c q n h room =
      (c, refl, subst (Carries c q) (let z : n ≡ n + 0 = omega arith in z) h)
  calls-Carries (a ∷ rest) c q n h room =
      let one = call-Follows c n a q h (omega (arith, room)) in
      let (d, e, held) =
        calls-Carries rest one.after (call_messages a q).1 (n + 1) one.carries
          (omega (arith, room)) in
      (
        d,
        ap (λ o. o >>= λ r. call_channels rest r.1 >>= λ s. some (r.0 ∷ s.0, s.1)) one.returns
            ∙ ap (λ o. o >>= λ s. some ((call_messages a q).0 ∷ s.0, s.1)) e,
        subst (Carries d (calls_messages rest (call_messages a q).1).1)
            (let z : n + 1 + length rest ≡ n + suc (length rest) = omega arith in z) held,
      )

  -- In any order of at most 2 ^ 62 calls on a new channel, each in its critical section, every call
  -- returns what the list of messages says: messages come out in the order of their sends, a send is
  -- refused exactly if the channel is closed or full; and a channel with a limit never has more
  -- messages than that.
  pub call_channels_refines :
      (limit : ℕ) (calls : List (ChannelCall T))
      → length calls ≤ 2 ^ 62
      → (d : Channel T) × (call_channels calls (new_channel limit)
          ≡ some ((calls_messages calls (new_messages limit)).0, d))
        × Carries d (calls_messages calls (new_messages limit)).1 (length calls)
  call_channels_refines limit calls room =
      let (d, e, held) =
        calls-Carries calls (new_channel limit) (new_messages limit) 0
          (record {
            pushed = 0;
            few = omega arith;
            holds = new_vec-Holds;
            limited = refl;
            closing = refl;
            waiting = refl;
            bound = λ pos. omega arith;
          })
          (omega (arith, room)) in
      (
        d,
        e,
        subst (Carries d (calls_messages calls (new_messages limit)).1)
            (let z : 0 + length calls ≡ length calls = omega arith in z) held,
      )
