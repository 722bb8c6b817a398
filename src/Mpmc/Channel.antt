-- ===== src/Mpmc/Channel.antt =====
-- channels/mpmc.rs and core/scondvar.rs: the calls of a channel. Each is one step, its critical section
-- under the `SMutex`, in which the thread is alone with the buffer. `none` is as for the buffer.
use crossync.Prelude.{
  ℕ, ◌+◌, ◌-◌, ◌%◌, ◌^◌, Bool, true, false, ◌&&◌, Option, none, some, List, [], ◌∷◌, ltb, leb,
  if◌then◌else◌, ◌>>=◌,
}
use crossync.Vec.Memory.{InnerVec}
use crossync.Vec.Ends.{new_vec, push_internal}
use crossync.Vec.Calls.{len, pop}

pub record CondVar : Type 0 where
  pub futex : ℕ
  pub waiters : ℕ
  pub to_wake : ℕ

abbrev pub notify_one : CondVar → CondVar
notify_one v =
    if ltb 0 v.waiters
    then record v { to_wake = (v.to_wake + 1) % 2 ^ 64; futex = (v.futex + 1) % 2 ^ 32 }
    else v

abbrev pub notify_all : CondVar → CondVar
notify_all v =
    if ltb 0 v.waiters
    then record v { to_wake = (v.to_wake + v.waiters) % 2 ^ 64; futex = (v.futex + 1) % 2 ^ 32 }
    else v

-- The registration of `wait`.
abbrev pub register_waiter : CondVar → CondVar
register_waiter v = record v { waiters = (v.waiters + 1) % 2 ^ 64 }

-- A turn of the loop of `wait`: whether it ends with a token.
abbrev pub consume_token : CondVar → Bool × CondVar
consume_token v =
    if ltb 0 v.to_wake
    then (true, record v { to_wake = v.to_wake - 1; waiters = (v.waiters + 2 ^ 64 - 1) % 2 ^ 64 })
    else (false, v)

pub record Channel (T : Type 0) : Type 0 where
  pub buffer : InnerVec T
  pub condvar : CondVar
  pub bounded : ℕ
  pub closed : Bool

-- What a call returns: `finished` is `None`, `done` the end of `close`, and `waits` is a turn of `recv` that waits for a sender.
pub data ChannelResult (T : Type 0) : Type 0 where
  sent : ChannelResult T
  refused : (value : T) → ChannelResult T
  received : (value : T) → ChannelResult T
  finished : ChannelResult T
  done : ChannelResult T
  waits : ChannelResult T
  woken : (token : Bool) → ChannelResult T

pub data ChannelCall (T : Type 0) : Type 0 where
  send : (value : T) → ChannelCall T
  try_recv : ChannelCall T
  recv : ChannelCall T  -- one turn of its loop
  wake : ChannelCall T  -- a turn of the loop in `wait`, with the mutex free
  close : ChannelCall T

module _ {T : Type 0} where
  abbrev pub new_channel : ℕ → Channel T
  new_channel n = record {
    buffer = new_vec;
    condvar = record { futex = 0; waiters = 0; to_wake = 0 };
    bounded = n;
    closed = false;
  }

  abbrev pub send_value : Channel T → T → Option (ChannelResult T × Channel T)
  send_value c value =
      let pushed = push_internal c.buffer value in
      if c.closed
      then some (refused value, c)
      else if ltb 0 c.bounded && leb c.bounded (len c.buffer)
      then some (refused value, c)
      else (pushed >>= λ buffer.
          some (sent, record c { buffer = buffer; condvar = notify_one c.condvar }))

  -- What `try_recv` makes of the popped value, and a turn of `recv`.
  abbrev pub take_message : Channel T → Option T × InnerVec T → ChannelResult T × Channel T
  take_message c (none, buffer) = (finished, record c { buffer = buffer })
  take_message c (some value, buffer) = (received value, record c { buffer = buffer })

  abbrev pub recv_message : Channel T → Option T × InnerVec T → ChannelResult T × Channel T
  recv_message c (some value, buffer) = (received value, record c { buffer = buffer })
  recv_message c (none, buffer) =
      if c.closed
      then (finished, record c { buffer = buffer })
      else (waits, record c { buffer = buffer; condvar = register_waiter c.condvar })

  unfoldable pub call_channel : ChannelCall T → Channel T → Option (ChannelResult T × Channel T)
  call_channel (send value) c = send_value c value
  call_channel try_recv c = pop c.buffer >>= λ r. some (take_message c r)
  call_channel recv c = pop c.buffer >>= λ r. some (recv_message c r)
  call_channel wake c =
      let (token, v) = consume_token c.condvar in some (woken token, record c { condvar = v })
  call_channel close c = some (done, record c { closed = true; condvar = notify_all c.condvar })

  abbrev pub call_channels :
      List (ChannelCall T) → Channel T → Option (List (ChannelResult T) × Channel T)
  call_channels [] c = some ([], c)
  call_channels (a ∷ rest) c =
      call_channel a c >>= λ r. call_channels rest r.1 >>= λ s. some (r.0 ∷ s.0, s.1)
