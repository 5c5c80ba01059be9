-- ===== src/Reliable/Acked.antt =====
-- An ack keeps the send queue on the history (`process_ack` in src/channel/reliable.rs).
use yojimbo_rs.Prelude.{
  ℕ, ◌%◌, ◌≡◌, refl, subst, inl, inr, true, Option, none, some, List, [], ◌∷◌, ◌==◌, not,
  if◌then◌else◌, Bool-cases,
}
use yojimbo_rs.Run.{ok, ◌>>◌, >>=-eq-ok, assert}
use yojimbo_rs.SequenceBuffer
use yojimbo_rs.SequenceBuffer.{SequenceBuffer, capacity, overwrite, vacate}
use yojimbo_rs.SequenceBuffer.View.{holds, entry, take-eq}
use yojimbo_rs.Reliable.{Reliable, MessageSendQueueEntry, SentPacketEntry}
use yojimbo_rs.Reliable.Ack.{
  slice, ack_all, ack_packet, process_ack, update_oldest_unacked_message_id,
}
use yojimbo_rs.Reliable.History.{Tracks, Tracks-vacate, sent_message}
use yojimbo_rs.Reliable.Traffic.{KeepsSending, unchanged}

-- A `take` leaves a queue on its history, and gives the entry.
pub take_keeps :
    {A M : Type 0} {message : A → M} {history : List M} (queue queue' : SequenceBuffer A) (s : ℕ)
    (e : Option A)
    → Tracks message history queue
    → SequenceBuffer.take queue s ≡ ok (e, queue')
    → Tracks message history queue' × (e ≡ entry queue s)
take_keeps {message = message} {history = history} queue queue' s e k h =
    let same : (if holds queue s then vacate queue (s % capacity queue) else queue) ≡ queue' =
      cc (take-eq k.valid s) in
    let gives : e ≡ entry queue s = cc (take-eq k.valid s) in
    (
      subst (Tracks message history) same (elim (Bool-cases (holds queue s)) [
        | inl held ↦ rw held (Tracks-vacate k s)
        | inr free ↦ rw free k
      ]),
      gives,
    )

module _ {F M : Type 0} (history : List M) where
  ack_all_keeps :
      (queue : SequenceBuffer (MessageSendQueueEntry F M)) (oldest : ℕ) (ids : List ℕ)
      (queue' : SequenceBuffer (MessageSendQueueEntry F M)) (oldest' : ℕ)
      → Tracks sent_message history queue
      → ack_all queue oldest ids ≡ ok (queue', oldest')
      → Tracks sent_message history queue'
  unfolding ack_all
  ack_all_keeps queue oldest [] queue' oldest' k h =
      let same : queue ≡ queue' = cc in subst (Tracks sent_message history) same k
  ack_all_keeps queue oldest (id ∷ ids) queue' oldest' k h =
      let ((e, q1), p, q) = >>=-eq-ok (SequenceBuffer.take queue id) _ h in
      let (o1, p1, q2) =
        >>=-eq-ok
          (elim e [
            | none ↦ ok oldest
            | some entry ↦ do
              assert (entry.message_id == id)
              update_oldest_unacked_message_id oldest q1
          ])
          _ q in
      ack_all_keeps q1 o1 ids queue' oldest' (take_keeps queue q1 id e k p).0 q2

  ack_packet_keeps :
      (r r' : Reliable F M)
      (e : Option (SentPacketEntry F × (SentPacketEntry F → SequenceBuffer (SentPacketEntry F))))
      → Tracks sent_message history r.message_send_queue
      → ack_packet r e ≡ ok r'
      → KeepsSending history r r'
  unfolding ack_packet
  ack_packet_keeps r r' none k h =
      let same : r ≡ r' = cc in subst (KeepsSending history r) same (unchanged history r k)
  ack_packet_keeps r r' (some (entry, write)) k h =
      let (_, _, h1) = >>=-eq-ok (assert (not entry.acked)) _ h in
      let (ids, _, h2) =
        >>=-eq-ok (slice r.sent_packet_message_ids entry.message_ids.0 entry.message_ids.1) _ h1 in
      let ((queue, oldest), e, h3) =
        >>=-eq-ok (ack_all r.message_send_queue r.oldest_unacked_message_id ids) _ h2 in
      let same : record r {
        sent_packets = write (record entry { acked = true });
        message_send_queue = queue;
        oldest_unacked_message_id = oldest;
      }
          ≡ r' =
        cc in
      subst (KeepsSending history r) same (record {
        kept = ack_all_keeps r.message_send_queue r.oldest_unacked_message_id ids queue oldest k e;
        same_send_id = refl;
        same_receive_id = refl;
        same_receive_queue = refl;
      })

  pub process_ack_keeps :
      (r r' : Reliable F M) (ack : ℕ)
      → Tracks sent_message history r.message_send_queue
      → process_ack r ack ≡ ok r'
      → KeepsSending history r r'
  unfolding process_ack
  process_ack_keeps r r' ack k h =
      let (e, p, q) = >>=-eq-ok (SequenceBuffer.get_mut r.sent_packets ack) _ h in
      ack_packet_keeps r r' e k q
