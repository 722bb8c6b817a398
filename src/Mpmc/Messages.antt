-- ===== src/Mpmc/Messages.antt =====
-- channels/mpmc.rs: the calls of a channel on a list of messages, and which channel stands for one.
use crossync.Prelude.{
  ℕ, ◌≤◌, ◌<◌, ◌≡◌, Bool, true, false, List, [], ◌∷◌, ◌++◌, ltb, ◌==◌, if◌then◌else◌, length,
}
use crossync.Vec.Rep.{Holds}
use crossync.Mpmc.Channel.{
  CondVar, notify_one, notify_all, register_waiter, consume_token, Channel, ChannelResult, sent,
  refused, received, finished, done, waits, woken, ChannelCall, send, try_recv, recv, wake, close,
}

-- A channel as a list of messages.
pub record Messages (T : Type 0) : Type 0 where
  pub queue : List T
  pub limit : ℕ
  pub shut : Bool
  pub waiting : CondVar

module _ {T : Type 0} where
  abbrev pub has_room : Messages T → Bool
  has_room q = if q.limit == 0 then true else ltb (length q.queue) q.limit

  abbrev take_first : Messages T → ChannelResult T × Messages T → ChannelResult T × Messages T
  take_first q else_ = elim q.queue [ [] ↦ else_ | x ∷ xs ↦ (received x, record q { queue = xs }) ]

  abbrev pub call_messages : ChannelCall T → Messages T → ChannelResult T × Messages T
  call_messages (send x) q =
      if q.shut
      then (refused x, q)
      else if has_room q
      then (sent, record q { queue = q.queue ++ x ∷ []; waiting = notify_one q.waiting })
      else (refused x, q)
  call_messages try_recv q = take_first q (finished, q)
  call_messages recv q =
      take_first q (
        if q.shut then (finished, q) else (waits, record q { waiting = register_waiter q.waiting }))
  call_messages wake q =
      (woken (consume_token q.waiting).0, record q { waiting = (consume_token q.waiting).1 })
  call_messages close q = (done, record q { shut = true; waiting = notify_all q.waiting })

  abbrev pub calls_messages :
      List (ChannelCall T) → Messages T → List (ChannelResult T) × Messages T
  calls_messages [] q = ([], q)
  calls_messages (a ∷ rest) q =
      let (r, q') = call_messages a q in let (rs, q'') = calls_messages rest q' in (r ∷ rs, q'')

  -- The channel stands for the messages, after `n` sends at most.
  pub record Carries (c : Channel T) (q : Messages T) (n : ℕ) : Type 0 where
    pub pushed : ℕ
    pub few : pushed ≤ n
    pub holds : Holds c.buffer q.queue pushed
    pub limited : c.bounded ≡ q.limit
    pub closing : c.closed ≡ q.shut
    pub waiting : c.condvar ≡ q.waiting
    pub bound : 0 < q.limit → length q.queue ≤ q.limit

  abbrev pub new_messages : ℕ → Messages T
  new_messages limit = record {
    queue = [];
    limit = limit;
    shut = false;
    waiting = record { futex = 0; waiters = 0; to_wake = 0 };
  }
