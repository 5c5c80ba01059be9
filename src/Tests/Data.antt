-- ===== src/Tests/Data.antt =====
-- A number type, a message type and small channels to run the model on.
use yojimbo_rs.Prelude.{
  ℕ, ◌+◌, ◌/◌, ◌%◌, ◌⊎◌, ◌≡◌, ap, sym, inl, inr, Bool-cases, Bool, true, ◌&&◌, Option, none, some,
  List, [], ◌∷◌, ◌++◌, ltb, leb, ◌==◌, if◌then◌else◌, arith,
}
use yojimbo_rs.Run.{Run, ok, panic}
use yojimbo_rs.Result.{Result}
use yojimbo_rs.Float.{Float}
use yojimbo_rs.Message.{NetworkMessage}
use yojimbo_rs.Config.{ChannelType, ChannelConfig, ConnectionConfig}
use yojimbo_rs.Packet.RoundTrip.{IsLawful}

-- Whole numbers of ticks.
instance abbrev pub ticks : Float ℕ
ticks = record {
  add = λ a b. a + b;
  div = λ a b. a / b;
  neg = λ a. 0;
  le = leb;
  lt = ltb;
  eq = λ a b. a == b;
  decimal = λ digits places. digits;
}

-- A message is one byte.
abbrev has_room : Option ℕ → Bool
has_room none = true
has_room (some room) = ltb 0 room

abbrev write_byte : ℕ → Option ℕ → Result Unit (List ℕ)
write_byte n room = if ltb n 256 && has_room room then Result.ok (n ∷ []) else Result.err tt

abbrev read_byte : List ℕ → Result Unit (ℕ × List ℕ)
read_byte [] = Result.err tt
read_byte (n ∷ rest) = Result.ok (n, rest)

instance abbrev pub byte : NetworkMessage ℕ
byte = record { Error = Unit; serialize = write_byte; deserialize = read_byte }

write_byte-ok :
    (n : ℕ) (room : Option ℕ) (bytes : List ℕ)
    → write_byte n room ≡ Result.ok bytes
    → n ∷ [] ≡ bytes
write_byte-ok n room bytes h = elim (Bool-cases (ltb n 256 && has_room room)) [
  | inl fits ↦
      let e : ◌≡◌ {A = Result Unit (List ℕ)} (Result.ok (n ∷ [])) (Result.ok bytes) =
        rw fits at h in
      cc
  | inr over ↦
      let e : ◌≡◌ {A = Result Unit (List ℕ)} (Result.err tt) (Result.ok bytes) = rw over at h in
      absurd (cc)
]

pub byte-IsLawful : IsLawful byte
byte-IsLawful = record {
  reads_back =
      λ n room bytes rest h. ap (λ b. read_byte (b ++ rest)) (sym (write_byte-ok n room bytes h));
}

abbrev pub small_config : ChannelType → ChannelConfig ℕ
small_config kind = record {
  kind = kind;
  sent_packet_buffer_size = 4;
  message_send_queue_size = 4;
  message_receive_queue_size = 4;
  max_messages_per_packet = 2;
  packet_budget = none;
  message_resend_time = 1;
  block_fragment_resend_time = 1;
}

abbrev pub two_channels : ConnectionConfig ℕ
two_channels = record {
  max_packet_size = 64;
  channels =
      small_config ChannelType.reliable_ordered
      ∷ small_config ChannelType.unreliable_unordered
      ∷ [];
}

-- What a call returned.
abbrev pub value : {A : Type 0} → A → Run A → A
value a (ok b) = b
value a (panic p) = a

-- The slots of a buffer of four.
pub slot_cases : (s : ℕ) → (s % 4 ≡ 0) ⊎ ((s % 4 ≡ 1) ⊎ ((s % 4 ≡ 2) ⊎ (s % 4 ≡ 3)))
slot_cases s = ground arith
