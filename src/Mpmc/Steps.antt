-- ===== src/Mpmc/Steps.antt =====
-- channels/mpmc.rs: what one call of a channel does to its messages.
use crossync.Prelude.{
  ℕ, ◌+◌, ◌^◌, ◌≤◌, ◌<◌, ◌≡◌, ◌⊎◌, inl, inr, refl, sym, ap, ◌∙◌, arith, true, false, Option, none,
  some, List, [], ◌∷◌, ◌++◌, ◌>>=◌, length, length-append, Bool-cases,
}
use mathlib.Core.Path.{subst}
use crossync.Vec.Memory.{InnerVec}
use crossync.Vec.Ends.{push_internal}
use crossync.Vec.Rep.{Holds}
use crossync.Vec.Calls.{len, pop}
use crossync.Vec.Push.{push_lem}
use crossync.Vec.Queue.{len_lem, pop-Holds, pop-none}
use crossync.Mpmc.Channel.{
  notify_one, notify_all, register_waiter, consume_token, Channel, ChannelResult, sent, refused,
  received, finished, done, waits, woken, ChannelCall, send, try_recv, recv, wake, close,
  take_message, recv_message, call_channel,
}
use crossync.Mpmc.Messages.{Messages, has_room, call_messages, Carries}

List-cases : {T : Type 0} (xs : List T) → (xs ≡ []) ⊎ ((x : T) × (ys : List T) × (xs ≡ x ∷ ys))
List-cases [] = inl refl
List-cases (x ∷ xs) = inr (x, xs, refl)

module _ {T : Type 0} where
  pub record Follows (a : ChannelCall T) (c : Channel T) (q : Messages T) (n : ℕ) : Type 0 where
    pub after : Channel T
    pub returns : call_channel a c ≡ some ((call_messages a q).0, after)
    pub carries : Carries after (call_messages a q).1 (n + 1)

  module _ (c : Channel T) (n : ℕ) where
    Follows-by :
        (a : ChannelCall T) (q q' : Messages T) (r : ChannelResult T) (c' : Channel T)
        → call_messages a q ≡ (r, q')
        → call_channel a c ≡ some (r, c')
        → Carries c' q' (n + 1)
        → Follows a c q n
    Follows-by a q q' r c' listed returns carries = record {
      after = c';
      returns = returns ∙ ap (λ s. some (s.0, c')) (sym listed);
      carries = subst (λ s. Carries c' s.1 (n + 1)) (sym listed) carries;
    }

    later : (q : Messages T) → Carries c q n → Carries c q (n + 1)
    later q h = record {
      pushed = h.pushed;
      few = omega (arith, h.few);
      holds = h.holds;
      limited = h.limited;
      closing = h.closing;
      waiting = h.waiting;
      bound = h.bound;
    }

    send-Follows : (x : T) (q : Messages T) → Carries c q n → n < 2 ^ 62 → Follows (send x) c q n
    unfolding call_channel
    send-Follows x q h room = elim (Bool-cases q.shut) [
      | inl shut ↦
          Follows-by (send x) q q (refused x) c (ground (arith, shut))
            (closed_refuses (h.closing ∙ shut)) (later q h)
      | inr opened ↦ elim (Bool-cases (has_room q)) [
        | inl free ↦
            let (w, e, held) =
              push_lem c.buffer q.queue h.pushed x h.holds (omega (arith, h.few, room)) in
            Follows-by (send x) q
              (record q { queue = q.queue ++ x ∷ []; waiting = notify_one q.waiting }) sent
              (record c { buffer = w; condvar = notify_one c.condvar })
              (ground (arith, opened, free))
              (free_pushes (h.closing ∙ opened) (
                  roomy q free (len c.buffer) (len_lem c.buffer q.queue h.pushed h.holds) h.limited)
                ∙ ap
                    (λ o. o >>= λ buffer.
                      some (sent, record c { buffer = buffer; condvar = notify_one c.condvar }))
                    e)
              (record {
                pushed = h.pushed + 1;
                few = omega (arith, h.few);
                holds = held;
                limited = h.limited;
                closing = h.closing;
                waiting = ap notify_one h.waiting;
                bound = λ pos. omega (arith, length-append q.queue (x ∷ []), shorter q free pos);
              })
        | inr full ↦
            Follows-by (send x) q q (refused x) c (ground (arith, opened, full))
              (full_refuses (h.closing ∙ opened) (
                crowded q full (len c.buffer) (len_lem c.buffer q.queue h.pushed h.holds)
                  h.limited))
              (later q h)
      ]
    ]
      where
        closed_refuses : c.closed ≡ true → call_channel (send x) c ≡ some (refused x, c)
        closed_refuses e = ground (arith, e)

        full_refuses :
            c.closed ≡ false
            → (0 < c.bounded) × (c.bounded ≤ len c.buffer)
            → call_channel (send x) c ≡ some (refused x, c)
        full_refuses e f = ground (arith, e, f)

        free_pushes :
            c.closed ≡ false
            → (c.bounded ≡ 0) ⊎ (len c.buffer < c.bounded)
            → call_channel (send x) c ≡ (
                push_internal c.buffer x >>= λ buffer.
                some (sent, record c { buffer = buffer; condvar = notify_one c.condvar }))
        free_pushes e f = ground (arith, e, f)

        roomy :
            (q : Messages T)
            → has_room q ≡ true
            → (k : ℕ) → k ≡ length q.queue
            → c.bounded ≡ q.limit
            → (c.bounded ≡ 0) ⊎ (k < c.bounded)
        roomy q e k size limited = ground (arith, e, size, limited)

        crowded :
            (q : Messages T)
            → has_room q ≡ false
            → (k : ℕ) → k ≡ length q.queue
            → c.bounded ≡ q.limit
            → (0 < c.bounded) × (c.bounded ≤ k)
        crowded q e k size limited = ground (arith, e, size, limited)

        shorter : (q : Messages T) → has_room q ≡ true → 0 < q.limit → length q.queue < q.limit
        shorter q e pos = ground (arith, e, pos)

    -- A call that takes the first message.
    takes :
        (a : ChannelCall T) (q : Messages T)
        (f : Option T × InnerVec T → ChannelResult T × Channel T) (x : T) (xs : List T)
        → Carries c q n
        → q.queue ≡ x ∷ xs
        → call_channel a c ≡ (pop c.buffer >>= λ r. some (f r))
        → ((w : InnerVec T) → f (some x, w) ≡ (received x, record c { buffer = w }))
        → call_messages a q ≡ (received x, record q { queue = xs })
        → Follows a c q n
    takes a q f x xs h first code body listed =
        let (w, e, held) =
          pop-Holds c.buffer x xs h.pushed (subst (λ l. Holds c.buffer l h.pushed) first h.holds) in
        Follows-by a q (record q { queue = xs }) (received x) (record c { buffer = w }) listed
          (code ∙ ap (λ o. o >>= λ r. some (f r)) e ∙ ap some (body w))
          (record {
            pushed = h.pushed;
            few = omega (arith, h.few);
            holds = held;
            limited = h.limited;
            closing = h.closing;
            waiting = h.waiting;
            bound = λ pos. omega (arith, h.bound pos, ap length first);
          })

    -- A call that finds no message.
    none_there :
        (a : ChannelCall T) (q : Messages T)
        (f : Option T × InnerVec T → ChannelResult T × Channel T)
        → Carries c q n
        → q.queue ≡ []
        → call_channel a c ≡ (pop c.buffer >>= λ r. some (f r))
        → call_channel a c ≡ some (f (none, c.buffer))
    none_there a q f h first code =
        code
        ∙ ap (λ o. o >>= λ r. some (f r))
            (pop-none c.buffer h.pushed (subst (λ l. Holds c.buffer l h.pushed) first h.holds))

    try_recv-Follows : (q : Messages T) → Carries c q n → Follows try_recv c q n
    unfolding call_channel
    try_recv-Follows q h = elim (List-cases q.queue) [
      | inl first ↦
          Follows-by try_recv q q finished c (ground (arith, first))
            (none_there try_recv q (take_message c) h first refl) (later q h)
      | inr (x, xs, first) ↦
          takes try_recv q (take_message c) x xs h first refl (λ w. refl) (ground (arith, first))
    ]

    recv-Follows : (q : Messages T) → Carries c q n → Follows recv c q n
    unfolding call_channel
    recv-Follows q h = elim (List-cases q.queue) [
      | inl first ↦ elim (Bool-cases q.shut) [
        | inl shut ↦
            Follows-by recv q q finished c (ground (arith, first, shut))
              (none_there recv q (recv_message c) h first refl
                ∙ ap some (shut_end (h.closing ∙ shut)))
              (later q h)
        | inr opened ↦
            Follows-by recv q (record q { waiting = register_waiter q.waiting }) waits
              (record c { condvar = register_waiter c.condvar }) (ground (arith, first, opened))
              (none_there recv q (recv_message c) h first refl
                ∙ ap some (open_wait (h.closing ∙ opened)))
              (record {
                pushed = h.pushed;
                few = omega (arith, h.few);
                holds = h.holds;
                limited = h.limited;
                closing = h.closing;
                waiting = ap register_waiter h.waiting;
                bound = h.bound;
              })
      ]
      | inr (x, xs, first) ↦
          takes recv q (recv_message c) x xs h first refl (λ w. refl) (ground (arith, first))
    ]
      where
        shut_end : c.closed ≡ true → recv_message c (none, c.buffer) ≡ (finished, c)
        shut_end e = ground (arith, e)

        open_wait :
            c.closed ≡ false
            → recv_message c (none, c.buffer)
              ≡ (waits, record c { condvar = register_waiter c.condvar })
        open_wait e = ground (arith, e)

    pub call-Follows :
        (a : ChannelCall T) (q : Messages T) → Carries c q n → n < 2 ^ 62 → Follows a c q n
    unfolding call_channel
    call-Follows (send x) q h room = send-Follows x q h room
    call-Follows try_recv q h room = try_recv-Follows q h
    call-Follows recv q h room = recv-Follows q h
    call-Follows wake q h room =
        Follows-by wake q (record q { waiting = (consume_token q.waiting).1 })
          (woken (consume_token q.waiting).0) (record c { condvar = (consume_token c.condvar).1 })
          refl
          (ap
            (λ v.
              some (woken (consume_token v).0, record c { condvar = (consume_token c.condvar).1 }))
            h.waiting)
          (record {
            pushed = h.pushed;
            few = omega (arith, h.few);
            holds = h.holds;
            limited = h.limited;
            closing = h.closing;
            waiting = ap (λ v. (consume_token v).1) h.waiting;
            bound = h.bound;
          })
    call-Follows close q h room =
        Follows-by close q (record q { shut = true; waiting = notify_all q.waiting }) done
          (record c { closed = true; condvar = notify_all c.condvar }) refl refl
          (record {
            pushed = h.pushed;
            few = omega (arith, h.few);
            holds = h.holds;
            limited = h.limited;
            closing = refl;
            waiting = ap notify_all h.waiting;
            bound = h.bound;
          })
