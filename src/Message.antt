-- ===== src/Message.antt =====
-- The trait `NetworkMessage` (src/message.rs), which the user of the library implements, and the
-- writer that measures a message (src/channel/channel_packet_data.rs).
use yojimbo_rs.Prelude.{ℕ, ◌+◌, ◌*◌, Option, none, List, length}
use yojimbo_rs.Result.{Result}
use yojimbo_rs.Run.{Run, ok, panic, unwrap_error, ◌>>=◌}

-- `Result::unwrap` and `Result::expect`.
abbrev pub unwrap : {E A : Type 0} → Result E A → Run A
unwrap (Result.ok a) = Run.ok a
unwrap (Result.err e) = panic unwrap_error

pub record NetworkMessage (M : Type 0) : Type 1 where
  pub Error : Type 0
  -- The bytes that a message writes, to a writer with room for so many bytes (`none`: for any).
  pub serialize : M → Option ℕ → Result Error (List ℕ)
  -- The message that the bytes of a reader begin with, and the bytes after it.
  pub deserialize : List ℕ → Result Error (M × List ℕ)

-- `MeasureSink`: it takes all bytes and counts them.
pub record MeasureSink : Type 0 where
  pub bytes : ℕ

abbrev pub new : MeasureSink
new = record { bytes = 0 }

unfoldable pub write : MeasureSink → List ℕ → MeasureSink
write s buf = record { bytes = s.bytes + length buf }

-- `message.serialize(&mut sink).unwrap()` and `8 * sink.bytes`.
unfoldable pub measured_bits : {M : Type 0} ⦃m : NetworkMessage M⦄ → M → Run ℕ
unfolding write
measured_bits ⦃m⦄ message = do
  buf ← unwrap (m.serialize message none)
  ok (8 * (write new buf).bytes)
