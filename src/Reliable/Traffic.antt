-- ===== src/Reliable/Traffic.antt =====
-- The operations of the sending side against the history (src/channel/reliable.rs): packets carry
-- only messages of the history, and packets and acks change nothing but the send queue's state.
use yojimbo_rs.Prelude.{
  ℕ, ◌*◌, ◌%◌, ◌≡◌, refl, ap, ◌∙◌, subst, ◌⊎◌, inl, inr, false, some, List, [], ◌∷◌, length,
  if◌then◌else◌, arith, Bool-cases,
}
use yojimbo_rs.Run.{Run, ok, panic, >>=-eq-ok, assert, expect_some, unwrap_none, remainder_by_zero}
use yojimbo_rs.Float.{Float}
use yojimbo_rs.SequenceBuffer
use yojimbo_rs.SequenceBuffer.{SequenceBuffer, capacity, overwrite, vacate}
use yojimbo_rs.SequenceBuffer.View.{entry, get-eq}
use yojimbo_rs.Reliable.{Reliable, MessageSendQueueEntry}
use yojimbo_rs.Reliable.Send.{
  get_messages_to_send, copy_messages, get_message_packet_data, write_ids, add_entry_at,
  add_message_packet_entry, packet_of, packet_data,
}
use yojimbo_rs.Packet.{ChannelPacketData, empty}
use yojimbo_rs.Reliable.{has_messages_to_send}
use yojimbo_rs.Reliable.History.{Tracks, FromHistory, sent_message, gather_keeps}

-- The receiving side and the ids of the sender are as before, and the send queue still tracks the
-- history.
pub record KeepsSending {F M : Type 0} (history : List M) (r r' : Reliable F M) : Type 0 where
  pub kept : Tracks sent_message history r'.message_send_queue
  pub same_send_id : r'.send_message_id ≡ r.send_message_id
  pub same_receive_id : r'.receive_message_id ≡ r.receive_message_id
  pub same_receive_queue : r'.message_receive_queue ≡ r.message_receive_queue

pub unchanged :
    {F M : Type 0} (history : List M) (r : Reliable F M)
    → Tracks sent_message history r.message_send_queue
    → KeepsSending history r r
unchanged history r k = record {
  kept = k;
  same_send_id = refl;
  same_receive_id = refl;
  same_receive_queue = refl;
}

-- The oldest unacked id is as before, too.
pub record KeepsPacking {F M : Type 0} (history : List M) (r r' : Reliable F M) : Type 0 where
  pub sending : KeepsSending history r r'
  pub same_oldest_id : r'.oldest_unacked_message_id ≡ r.oldest_unacked_message_id

module _ {F M : Type 0} (history : List M) where
  copy_messages-FromHistory :
      (queue : SequenceBuffer (MessageSendQueueEntry F M)) (ids : List ℕ) (ms : List (ℕ × M))
      → Tracks sent_message history queue
      → copy_messages queue ids ≡ ok ms
      → FromHistory history ms
  unfolding copy_messages
  copy_messages-FromHistory queue [] ms k h =
      let same : [] ≡ ms = cc in subst (FromHistory history) same tt
  copy_messages-FromHistory queue (id ∷ ids) ms k h =
      let (e, p, q) = >>=-eq-ok (SequenceBuffer.get queue id) _ h in
      let (a, p1, q1) = >>=-eq-ok (expect_some unwrap_none e) _ q in
      let (rest, p2, q2) = >>=-eq-ok (copy_messages queue ids) _ q1 in
      let same : (id, a.message) ∷ rest ≡ ms = cc in
      let here : entry queue id ≡ some a = ground (arith, get-eq k.valid id, p, p1) in
      subst (FromHistory history) same
        (k.tracks id a here, copy_messages-FromHistory queue ids rest k p2)

  entry_at_keeps :
      (r r' : Reliable F M) (ids : List ℕ) (seq index : ℕ)
      → Tracks sent_message history r.message_send_queue
      → add_entry_at r ids seq index ≡ ok r'
      → KeepsPacking history r r'
  unfolding add_entry_at
  entry_at_keeps r r' ids seq index k h =
      let ((sent, inserted), p, q) =
        >>=-eq-ok
          (SequenceBuffer.insert_with r.sent_packets seq
            (ok (record { acked = false; time_sent = r.time; message_ids = (index, length ids) })))
          _ h in
      let (written, p1, q1) =
        >>=-eq-ok
          (if inserted
            then write_ids r.sent_packet_message_ids index ids
            else ok r.sent_packet_message_ids)
          _ q in
      let same : record r { sent_packets = sent; sent_packet_message_ids = written } ≡ r' = cc in
      subst (KeepsPacking history r) same (record {
        sending = record {
          kept = k;
          same_send_id = refl;
          same_receive_id = refl;
          same_receive_queue = refl;
        };
        same_oldest_id = refl;
      })

  add_entry_keeps :
      (r r' : Reliable F M) (ids : List ℕ) (seq : ℕ)
      → Tracks sent_message history r.message_send_queue
      → add_message_packet_entry r ids seq ≡ ok r'
      → KeepsPacking history r r'
  unfolding add_message_packet_entry
  add_entry_keeps r r' ids seq k h =
      entry_at_keeps r r' ids seq
        (seq % r.config.sent_packet_buffer_size * r.config.max_messages_per_packet) k
        (elim split [ inl e ↦ absurd (cc e) | inr e ↦ e ])
    where
      split :
          (◌≡◌ {A = Run (Reliable F M)} (panic remainder_by_zero) (ok r'))
          ⊎ (add_entry_at r ids seq
                (seq % r.config.sent_packet_buffer_size * r.config.max_messages_per_packet)
              ≡ ok r')
      split = ground arith

  abbrev Sends : Reliable F M → Reliable F M → ChannelPacketData M → Type 0
  Sends r r' packet = KeepsPacking history r r' × FromHistory history packet.messages

  same_Sends :
      (r : Reliable F M) → Tracks sent_message history r.message_send_queue → Sends r r empty
  unfolding empty
  same_Sends r k = (record { sending = unchanged history r k; same_oldest_id = refl }, tt)

  packet_of_keeps :
      (r r' : Reliable F M) (channel seq : ℕ) (ids : List ℕ) (bits bits' : ℕ)
      (packet : ChannelPacketData M)
      → Tracks sent_message history r.message_send_queue
      → packet_of r channel seq ids bits ≡ ok (r', packet, bits')
      → Sends r r' packet
  unfolding packet_of get_message_packet_data
  packet_of_keeps r r' channel seq [] bits bits' packet k h =
      let same_r : r ≡ r' = cc in
      let same_p : empty ≡ packet = cc in
      subst (Sends r r') same_p (subst (λ x. Sends r x empty) same_r (same_Sends r k))
  packet_of_keeps r r' channel seq (id ∷ ids) bits bits' packet k h =
      let (p, e, q) = >>=-eq-ok (get_message_packet_data r channel (id ∷ ids)) _ h in
      let (r1, e1, q1) = >>=-eq-ok (add_message_packet_entry r (id ∷ ids) seq) _ q in
      let (ms, e2, q2) = >>=-eq-ok (copy_messages r.message_send_queue (id ∷ ids)) _ e in
      let same_r : r1 ≡ r' = cc in
      let same_p : ms ≡ packet.messages = cc in
      (
        add_entry_keeps r r' (id ∷ ids) seq k (e1 ∙ ap ok same_r),
        subst (FromHistory history) same_p
            (copy_messages-FromHistory r.message_send_queue (id ∷ ids) ms k e2),
      )

  module _ ⦃f : Float F⦄ where
    get_messages_keeps :
        (r r' : Reliable F M) (available bits : ℕ) (ids : List ℕ)
        → Tracks sent_message history r.message_send_queue
        → get_messages_to_send r available ≡ ok (r', ids, bits)
        → KeepsPacking history r r'
    unfolding get_messages_to_send
    get_messages_keeps r r' available bits ids k h =
        let (_, p, q) = >>=-eq-ok (assert (has_messages_to_send r)) _ h in
        let (g, p1, q1) = >>=-eq-ok _ _ q in
        let same : record r { message_send_queue = g.queue } ≡ r' = cc in
        subst (KeepsPacking history r) same (record {
          sending = record {
            kept = gather_keeps history r _ _ 0 _ g k p1;
            same_send_id = refl;
            same_receive_id = refl;
            same_receive_queue = refl;
          };
          same_oldest_id = refl;
        })

    -- If the send queue tracks the history and `packet_data` returns, then the send queue still
    -- does, the next id to send, the next id to receive, the oldest unacked id and the receive
    -- queue are unchanged, and each message of the packet is the one that was sent under its id.
    pub packet_data_keeps :
        (r r' : Reliable F M) (channel seq available bits : ℕ) (packet : ChannelPacketData M)
        → Tracks sent_message history r.message_send_queue
        → packet_data r channel seq available ≡ ok (r', packet, bits)
        → KeepsPacking history r r' × FromHistory history packet.messages
    unfolding packet_data
    packet_data_keeps r r' channel seq available bits packet k h = elim split [
      | inl e ↦
          let same_r : r ≡ r' = cc in
          let same_p : empty ≡ packet = cc in
          subst (Sends r r') same_p (subst (λ x. Sends r x empty) same_r (same_Sends r k))
      | inr ((r1, ids, b), e, q) ↦
          let g = get_messages_keeps r r1 available b ids k e in
          let (p, from) = packet_of_keeps r1 r' channel seq ids b bits packet g.sending.kept q in
          (
            record {
              sending = record {
                kept = p.sending.kept;
                same_send_id = p.sending.same_send_id ∙ g.sending.same_send_id;
                same_receive_id = p.sending.same_receive_id ∙ g.sending.same_receive_id;
                same_receive_queue = p.sending.same_receive_queue ∙ g.sending.same_receive_queue;
              };
              same_oldest_id = p.same_oldest_id ∙ g.same_oldest_id;
            },
            from,
          )
    ]
      where
        rest : Reliable F M × List ℕ × ℕ → Run (Reliable F M × ChannelPacketData M × ℕ)
        rest (r1, ids, b) = packet_of r1 channel seq ids b

        split :
            (◌≡◌ {A = Run (Reliable F M × ChannelPacketData M × ℕ)}
              (ok (r, empty, 0))
              (ok (r', packet, bits)))
            ⊎ ((x : Reliable F M × List ℕ × ℕ) × (get_messages_to_send r available ≡ ok x)
                × (rest x ≡ ok (r', packet, bits)))
        split = elim (Bool-cases (has_messages_to_send r)) [
          | inr idle ↦ inl (rw idle at h)
          | inl busy ↦ inr (>>=-eq-ok (get_messages_to_send r available) rest (rw busy at h))
        ]
