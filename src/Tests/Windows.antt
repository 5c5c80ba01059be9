-- ===== src/Tests/Windows.antt =====
-- A packet for a new receiver of four slots.
use yojimbo_rs.Prelude.{ℕ, ◌≡◌, refl, inr, arith}
use yojimbo_rs.Prelude.{some}
use yojimbo_rs.Run.{ok}
use yojimbo_rs.Word.{wrapping_add}
use yojimbo_rs.Reliable.Awaited.{awaited_delivers}
use yojimbo_rs.Reliable.{Reliable, receive_message}
use yojimbo_rs.Reliable.Receive.{process_packet_data}
use yojimbo_rs.Reliable.Receiving.{IsReceiving}
use yojimbo_rs.Reliable.InWindow.{process_packet_data_returns}
use yojimbo_rs.Tests.Slots.{slots-IsValid, slots-IsRecent}
use yojimbo_rs.Tests.Sessions.{fresh, packet}

pub fresh-IsReceiving : IsReceiving 0 fresh.message_receive_queue
fresh-IsReceiving = record {
  valid = slots-IsValid;
  recent = slots-IsRecent;
  narrow = omega arith;
  within = omega arith;
}

process_packet_data_returns_example :
    (r : Reliable ℕ ℕ) × (process_packet_data fresh packet ≡ ok r)
    × (r.receive_message_id ≡ 0)
    × IsReceiving 0 r.message_receive_queue
process_packet_data_returns_example =
    process_packet_data_returns fresh packet (omega arith) fresh-IsReceiving
      (omega arith, inr (omega arith), tt)

awaited_delivers_example :
    (r : Reliable ℕ ℕ) × (r' : Reliable ℕ ℕ) × (process_packet_data fresh packet ≡ ok r)
    × (receive_message r ≡ ok (r', some (0, 77)))
    × (r'.receive_message_id ≡ wrapping_add 0 1)
awaited_delivers_example =
    awaited_delivers fresh packet 77 (omega arith) fresh-IsReceiving
      (omega arith, inr (omega arith), tt) refl refl
