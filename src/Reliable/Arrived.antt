-- ===== src/Reliable/Arrived.antt =====
-- A packet of the history keeps the receive queue on it (`process_packet_data` in
-- src/channel/reliable.rs).
use yojimbo_rs.Prelude.{
  ℕ, ◌%◌, ◌≡◌, refl, ap, ◌∙◌, sym, subst, ◌⊎◌, inl, inr, Bool, some, List, [], ◌∷◌, get_elem?,
  if◌then◌else◌, arith,
}
use yojimbo_rs.Run.{ok, panic, desync_newer, >>=-eq-ok, sub_usize}
use yojimbo_rs.Word.{u16_modulus, wrapping_add, sequence_less_than, sequence_greater_than}
use yojimbo_rs.SequenceBuffer
use yojimbo_rs.SequenceBuffer.{SequenceBuffer, capacity, overwrite, vacate}
use yojimbo_rs.SequenceBuffer.Sound.{insert_with_sound}
use yojimbo_rs.Reliable.{Reliable, MessageReceiveQueueEntry}
use yojimbo_rs.Reliable.Receive.{receive_one, receive_all, process_packet_data}
use yojimbo_rs.Reliable.History.{Tracks, FromHistory}
use yojimbo_rs.Packet.{ChannelPacketData}

abbrev pub received_message : {M : Type 0} → MessageReceiveQueueEntry M → M
received_message e = e.message

module _ {M : Type 0} (history : List M) where
  abbrev pub KeptReceived : SequenceBuffer (MessageReceiveQueueEntry M) → Type 0
  KeptReceived = Tracks received_message history

  insert_received :
      (queue queue' : SequenceBuffer (MessageReceiveQueueEntry M)) (id : ℕ) (message : M) (b : Bool)
      → KeptReceived queue
      → get_elem? history id ≡ some message
      → SequenceBuffer.insert_with queue id (ok (record { message_id = id; message = message }))
        ≡ ok (queue', b)
      → KeptReceived queue'
  insert_received queue queue' id message b k at h =
      let i =
        insert_with_sound k.valid id (ok (record { message_id = id; message = message })) queue' b
          h in
      record {
        valid = i.valid;
        tracks = λ t e here. elim (i.sound t e here) [
          | inl (there, is) ↦
              let stored : message ≡ e.message = cc in
              subst (λ n. get_elem? history n ≡ some e.message) (sym there) (at ∙ ap some stored)
          | inr old ↦ k.tracks t e old
        ];
      }

  receive_one_keeps :
      (queue queue' : SequenceBuffer (MessageReceiveQueueEntry M)) (id : ℕ) (message : M)
      → KeptReceived queue
      → get_elem? history id ≡ some message
      → receive_one queue id message ≡ ok queue'
      → KeptReceived queue'
  unfolding receive_one
  receive_one_keeps queue queue' id message k at h =
      let ((q, b), e, h1) =
        >>=-eq-ok
          (SequenceBuffer.insert_with queue id (ok (record { message_id = id; message = message })))
          _ h in
      let same : q ≡ queue' = ground arith in
      subst KeptReceived same (insert_received queue q id message b k at e)

  receive_all_keeps :
      (least most : ℕ) (queue queue' : SequenceBuffer (MessageReceiveQueueEntry M))
      (ms : List (ℕ × M))
      → KeptReceived queue
      → FromHistory history ms
      → receive_all least most queue ms ≡ ok queue'
      → KeptReceived queue'
  unfolding receive_all
  receive_all_keeps least most queue queue' [] k from h =
      let same : queue ≡ queue' = cc in subst KeptReceived same k
  receive_all_keeps least most queue queue' ((id, message) ∷ rest) k (at, from) h =
      let (q, e, h1) =
        >>=-eq-ok
          (if sequence_less_than id least
            then ok queue
            else if sequence_greater_than id most
            then panic desync_newer
            else receive_one queue id message)
          _ h in
      let here : (queue ≡ q) ⊎ (receive_one queue id message ≡ ok q) = ground arith in
      receive_all_keeps least most q queue' rest
        (elim here [
          | inl same ↦ subst KeptReceived same k
          | inr new ↦ receive_one_keeps queue q id message k at new
        ])
        from h1

-- The sending side and the id to receive next are as before, and the receive queue still tracks the
-- history.
pub record KeepsReceiving {F M : Type 0} (history : List M) (r r' : Reliable F M) : Type 0 where
  pub kept : Tracks received_message history r'.message_receive_queue
  pub same_send_id : r'.send_message_id ≡ r.send_message_id
  pub same_receive_id : r'.receive_message_id ≡ r.receive_message_id
  pub same_send_queue : r'.message_send_queue ≡ r.message_send_queue

module _ {F M : Type 0} (history : List M) (r r' : Reliable F M) where
  pub process_packet_data_keeps :
      (packet : ChannelPacketData M)
      → Tracks received_message history r.message_receive_queue
      → FromHistory history packet.messages
      → process_packet_data r packet ≡ ok r'
      → KeepsReceiving history r r'
  unfolding process_packet_data
  process_packet_data_keeps packet k from h =
      let (last, _, h1) = >>=-eq-ok (sub_usize (capacity r.message_receive_queue) 1) _ h in
      let most = wrapping_add r.receive_message_id (last % u16_modulus) in
      let (queue, e, h2) =
        >>=-eq-ok (receive_all r.receive_message_id most r.message_receive_queue packet.messages) _
          h1 in
      let same : record r { message_receive_queue = queue } ≡ r' = cc in
      subst (KeepsReceiving history r) same (record {
        kept =
            receive_all_keeps history r.receive_message_id most r.message_receive_queue queue
              packet.messages k from e;
        same_send_id = refl;
        same_receive_id = refl;
        same_send_queue = refl;
      })
