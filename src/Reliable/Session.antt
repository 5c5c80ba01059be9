-- ===== src/Reliable/Session.antt =====
-- Two reliable channels and a network that may lose, repeat and reorder packets, run by the
-- operations of src/channel/reliable.rs in any order.
use yojimbo_rs.Prelude.{ℕ, ◌<◌, ◌≡◌, Option, none, some, List, [], ◌∷◌, ◌++◌, get_elem?}
use yojimbo_rs.Run.{ok}
use yojimbo_rs.Float.{Float}
use yojimbo_rs.Message.{NetworkMessage}
use yojimbo_rs.Config.{ChannelConfig}
use yojimbo_rs.Packet.{ChannelPacketData}
use yojimbo_rs.Reliable.{Reliable, new, advance_time, send_message, receive_message}
use yojimbo_rs.Reliable.Send.{packet_data}
use yojimbo_rs.Reliable.Receive.{process_packet_data}
use yojimbo_rs.Reliable.Ack.{process_ack}

pub record Session (F M : Type 0) : Type 0 where
  pub sender : Reliable F M
  pub receiver : Reliable F M
  -- Every packet that was made. One that is lost never arrives, and one may arrive many times.
  pub network : List (ChannelPacketData M)
  -- What `send_message` took and what `receive_message` gave, in order.
  pub sent : List M
  pub delivered : List M

-- The message of a `receive_message`, if there is one.
abbrev pub messages_of : {M : Type 0} → Option (ℕ × M) → List M
messages_of none = []
messages_of (some (id, m)) = m ∷ []

module _ {F M : Type 0} ⦃f : Float F⦄ ⦃w : NetworkMessage M⦄ where
  -- One operation that returns, on one of the two channels. An ack may name any packet.
  pub data Step (s : Session F M) : Session F M → Type 0 where
    send :
        (m : M) (r : Reliable F M)
        → send_message s.sender m ≡ ok r
        → Step s (record s { sender = r; sent = s.sent ++ (m ∷ []) })
    transmit :
        (channel seq available bits : ℕ) (r : Reliable F M) (packet : ChannelPacketData M)
        → packet_data s.sender channel seq available ≡ ok (r, packet, bits)
        → Step s (record s { sender = r; network = packet ∷ s.network })
    ack :
        (seq : ℕ) (r : Reliable F M)
        → process_ack s.sender seq ≡ ok r
        → Step s (record s { sender = r })
    arrive :
        (i : ℕ) (packet : ChannelPacketData M) (r : Reliable F M)
        → get_elem? s.network i ≡ some packet
        → process_packet_data s.receiver packet ≡ ok r
        → Step s (record s { receiver = r })
    receive :
        (r : Reliable F M) (got : Option (ℕ × M))
        → receive_message s.receiver ≡ ok (r, got)
        → Step s (record s { receiver = r; delivered = s.delivered ++ messages_of got })
    tick_sender : (t : F) → Step s (record s { sender = advance_time s.sender t })
    tick_receiver : (t : F) → Step s (record s { receiver = advance_time s.receiver t })

  -- The sessions that new channels with queues that are not empty come to.
  pub data Reach : Session F M → Type 0 where
    start :
        (c d : ChannelConfig F) (t u : F) (sender receiver : Reliable F M)
        → 0 < c.message_send_queue_size
        → 0 < c.message_receive_queue_size
        → 0 < d.message_send_queue_size
        → 0 < d.message_receive_queue_size
        → new c t ≡ ok sender
        → new d u ≡ ok receiver
        → Reach (record {
          sender = sender;
          receiver = receiver;
          network = [];
          sent = [];
          delivered = [];
        })
    later : {s s' : Session F M} → Reach s → Step s s' → Reach s'
