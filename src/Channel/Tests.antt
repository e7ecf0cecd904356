-- ===== src/Channel/Tests.antt =====
-- Channels at concrete values.
use reticulum.Prelude.{
  ℕ, ◌+◌, ◌%◌, ◌≤◌, ◌≡◌, refl, Bytes, replicate, none, some, List, [], ◌∷◌, true, false, ◌==◌,
  arith, if◌then◌else◌,
}
use reticulum.Prelude.Results.{err}
use reticulum.Channel.{Message, Factories, Envelope, Channel}
use reticulum.Channel.Codec.{pack_message, unpack, make_message, too_big}
use reticulum.Channel.Ring.{emplace_envelope}
use reticulum.Channel.Receive.{
  received_envelope, receive, receive_envelope, is_valid_sequence, collect, collect_wrapped,
  deliver, run_callbacks, remove,
}
use reticulum.Channel.Order.{InOrder, receive-InOrder}
use reticulum.Channel.Window.{init}
use reticulum.Channel.Bounds.{delivery, timeout, run, IsBounded, init-IsBounded, run-IsBounded}
use reticulum.Channel.Send.{Outlet, is_ready_to_send, outstanding, send, new_envelope}
use reticulum.Channel.Stall.{unsent, send-too_big}

abbrev factories : Factories
factories t = if t == 7 then some (λ bs. some (record { msgtype = some 7; payload = bs })) else none

abbrev channel : Channel
channel = record (init 100000) { message_factories = factories; next_rx_sequence = 65535 }

abbrev message : ℕ → Message
message b = record { msgtype = some 7; payload = b ∷ [] }

-- The next message of three is missing: those with the numbers 0 and 1 are held.
abbrev waiting : Channel
waiting = record channel {
  rx_ring = received_envelope 0 (message 20) [] ∷ received_envelope 1 (message 30) [] ∷ [];
}

abbrev last_before_wrap : Bytes
last_before_wrap = 0 ∷ 7 ∷ 255 ∷ 255 ∷ 0 ∷ 1 ∷ 10 ∷ []

receive-InOrder_example : InOrder waiting last_before_wrap (receive last_before_wrap waiting)
receive-InOrder_example =
    receive-InOrder last_before_wrap waiting ((message 20, refl), ((message 30, refl), tt))

-- Across the wrap all three messages come out, in order, and the next expected number is 2.
wrap_delivers :
    ((receive last_before_wrap waiting).delivered ≡ message 10 ∷ message 20 ∷ message 30 ∷ [])
    × ((receive last_before_wrap waiting).channel.next_rx_sequence ≡ 2)
unfolding receive receive_envelope unpack make_message is_valid_sequence emplace_envelope collect
    collect_wrapped deliver run_callbacks remove
wrap_delivers = (refl, refl)

abbrev third : Envelope
third = new_envelope 3 (message 1)

abbrev ring : List Envelope
ring = new_envelope 2 (message 1) ∷ new_envelope 4 (message 1) ∷ []

new_channel : IsBounded 3 (init 100000)
new_channel = (init-IsBounded 100000).0 (omega arith)

run-IsBounded_example : IsBounded 3 (run (delivery 1000 1 ∷ timeout false 1 ∷ []) (init 100000))
run-IsBounded_example =
    run-IsBounded 3 (delivery 1000 1 ∷ timeout false 1 ∷ []) (init 100000) new_channel

abbrev tiny : Outlet
tiny = record { is_usable = true; mdu = 6; is_delivered = λ p. false }

send-too_big_example :
    ((send tiny 1 (message 9) (init 100000)).0 ≡ err too_big)
    × ((send tiny 1 (message 9) (init 100000)).1.next_sequence
        ≡ ((init 100000).next_sequence + 1) % 65536)
    × (unsent (send tiny 1 (message 9) (init 100000)).1.tx_ring ≡ unsent (init 100000).tx_ring + 1)
unfolding pack_message is_ready_to_send outstanding init
send-too_big_example =
    send-too_big tiny 1 (message 9) (init 100000) {raw = 0 ∷ 7 ∷ 0 ∷ 0 ∷ 0 ∷ 1 ∷ 9 ∷ []} refl refl
      (omega arith) (λ h. h)

abbrev stuck : Channel
stuck = record (init 100000) { tx_ring = replicate 48 (new_envelope 0 (message 9)) }

stuck-IsBounded : IsBounded 0 stuck
unfolding init
stuck-IsBounded = omega arith

stuck_unsent : 48 ≤ unsent stuck.tx_ring
unfolding unsent
stuck_unsent = omega arith
