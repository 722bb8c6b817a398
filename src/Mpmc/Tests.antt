-- ===== src/Mpmc/Tests.antt =====
-- channels/mpmc.rs: a channel of one message that is filled, emptied and closed, and the theorem there.
use crossync.Prelude.{ℕ, ◌≡◌, arith, true, some, List, [], ◌∷◌}
use crossync.Mpmc.Channel.{
  Channel, sent, refused, received, finished, done, waits, woken, ChannelCall, send, recv, wake,
  close, new_channel, call_channels,
}
use crossync.Mpmc.Messages.{calls_messages, new_messages, Carries}
use crossync.Mpmc.Refinement.{call_channels_refines}

-- A receiver waits; a sender wakes it up, and a second message finds no room.
abbrev exchange : List (ChannelCall ℕ)
exchange = recv ∷ send 5 ∷ send 6 ∷ wake ∷ recv ∷ close ∷ send 7 ∷ recv ∷ []

call_channels_refines_example :
    (d : Channel ℕ) × (call_channels exchange (new_channel 1)
      ≡ some (
        waits ∷ sent ∷ refused 6 ∷ woken true ∷ received 5 ∷ done ∷ refused 7 ∷ finished ∷ [],
        d,
      ))
    × Carries d (calls_messages exchange (new_messages 1)).1 8
call_channels_refines_example = call_channels_refines 1 exchange (omega arith)
