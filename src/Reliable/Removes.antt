-- ===== src/Reliable/Removes.antt =====
-- What an ack takes out of the send queue (`process_ack` in src/channel/reliable.rs).
use yojimbo_rs.Prelude.{
  ℕ, ◌%◌, ◌≡◌, refl, ap, ◌∙◌, sym, subst, Bool, true, false, not, ◌||◌, Option, none, some, List,
  [], ◌∷◌, ◌==◌, if◌then◌else◌, arith,
}
use yojimbo_rs.Run.{ok, panic, assertion, ◌>>◌, >>=-eq-ok, assert}
use yojimbo_rs.SequenceBuffer
use yojimbo_rs.SequenceBuffer.{SequenceBuffer, capacity, overwrite}
use yojimbo_rs.SequenceBuffer.View.{
  IsValid, entry, get_mut-eq, entry-overwrite, entry-holds, overwrite-IsValid,
}
use yojimbo_rs.SequenceBuffer.Taken.{take-Takes}
use yojimbo_rs.Reliable.{Reliable, MessageSendQueueEntry, SentPacketEntry}
use yojimbo_rs.Reliable.Ack.{
  slice, ack_all, ack_packet, process_ack, update_oldest_unacked_message_id,
}

abbrev pub elem : List ℕ → ℕ → Bool
elem [] t = false
elem (id ∷ ids) t = (id == t) || elem ids t

-- The queue `after` is valid, and is `before` without these numbers.
pub record Without {A : Type 0} (ids : List ℕ) (before after : SequenceBuffer A) : Type 0 where
  pub valid : IsValid after
  pub removed : (t : ℕ) → entry after t ≡ (if elem ids t then none else entry before t)

without_both :
    {A : Type 0} (o o' : Option A) (b c : Bool)
    → o' ≡ (if b then none else o)
    → (if c then none else o') ≡ (if b || c then none else o)
without_both o o' true true h = refl
without_both o o' true false h = h
without_both o o' false true h = refl
without_both o o' false false h = h

module _ {F M : Type 0} where
  pub ack_all-Without :
      (queue queue' : SequenceBuffer (MessageSendQueueEntry F M)) (oldest oldest' : ℕ)
      (ids : List ℕ)
      → IsValid queue
      → ack_all queue oldest ids ≡ ok (queue', oldest')
      → Without ids queue queue'
  unfolding ack_all
  ack_all-Without queue queue' oldest oldest' [] v h =
      let same : queue ≡ queue' = cc in
      subst (Without [] queue) same (record { valid = v; removed = λ t. refl })
  ack_all-Without queue queue' oldest oldest' (id ∷ ids) v h =
      let ((e, q1), p, q) = >>=-eq-ok (SequenceBuffer.take queue id) _ h in
      let (o1, p1, q2) =
        >>=-eq-ok
          (elim e [
            | none ↦ ok oldest
            | some entry ↦ do
              assert (entry.message_id == id)
              update_oldest_unacked_message_id oldest q1
          ])
          _ q in
      let taken = take-Takes queue id v in
      let same : taken.after ≡ q1 = cc taken.returns in
      let w = ack_all-Without q1 queue' o1 oldest' ids (subst IsValid same taken.valid) q2 in
      record {
        valid = w.valid;
        removed = λ t.
            let step : entry q1 t ≡ (if id == t then none else entry queue t) =
              ap (λ b. entry b t) (sym same) ∙ taken.removed t in
            w.removed t ∙ without_both (entry queue t) (entry q1 t) (id == t) (elem ids t) step;
      }

-- What an ack of the packet with this entry does.
pub record Acks {F M : Type 0} (r r' : Reliable F M) (ack : ℕ) (e : SentPacketEntry F)
    : Type 0 where
  pub first_time : e.acked ≡ false
  pub ids : List ℕ
  pub of_packet : slice r.sent_packet_message_ids e.message_ids.0 e.message_ids.1 ≡ ok ids
  pub queue : Without ids r.message_send_queue r'.message_send_queue
  pub marked : entry r'.sent_packets ack ≡ some (record e { acked = true })
  pub same_send_id : r'.send_message_id ≡ r.send_message_id
  pub again : process_ack r' ack ≡ panic assertion

module _ {F M : Type 0} where
  ack_known :
      (r : Reliable F M) (ack : ℕ) (e : SentPacketEntry F)
      → IsValid r.sent_packets
      → entry r.sent_packets ack ≡ some e
      → process_ack r ack
        ≡ ack_packet r (some (e, λ a. overwrite r.sent_packets (ack % capacity r.sent_packets) a))
  unfolding process_ack
  ack_known r ack e v h = rw (get_mut-eq v ack, h)

  -- If the packet buffer and the send queue are valid, the packet was sent, and `process_ack` of
  -- it returns, then it was not acked before, the send queue afterwards is what it was without
  -- exactly the messages of the packet, the packet is marked as acked, and another ack of it
  -- panics.
  pub process_ack-Acks :
      (r r' : Reliable F M) (ack : ℕ) (e : SentPacketEntry F)
      → IsValid r.sent_packets
      → IsValid r.message_send_queue
      → entry r.sent_packets ack ≡ some e
      → process_ack r ack ≡ ok r'
      → Acks r r' ack e
  unfolding ack_packet
  process_ack-Acks r r' ack e v vq here h =
      let (_, p, h1) = >>=-eq-ok (assert (not e.acked)) _ (sym (ack_known r ack e v here) ∙ h) in
      let (ids, p1, h2) =
        >>=-eq-ok (slice r.sent_packet_message_ids e.message_ids.0 e.message_ids.1) _ h1 in
      let ((queue, oldest), p2, h3) =
        >>=-eq-ok (ack_all r.message_send_queue r.oldest_unacked_message_id ids) _ h2 in
      let same : record r {
        sent_packets = sent;
        message_send_queue = queue;
        oldest_unacked_message_id = oldest;
      }
          ≡ r' =
        cc in
      let found : entry sent ack ≡ some (record e { acked = true }) =
        ground
          (arith, entry-overwrite v ack ack (record e { acked = true }) (entry-holds v ack here)) in
      subst (λ x. Acks r x ack e) same
        (record {
          first_time = ground arith;
          ids = ids;
          of_packet = p1;
          queue =
              ack_all-Without r.message_send_queue queue r.oldest_unacked_message_id oldest ids vq
                p2;
          marked = found;
          same_send_id = refl;
          again =
              ack_known _ ack (record e { acked = true })
                (overwrite-IsValid v ack (record e { acked = true })) found;
        })
    where
      sent : SequenceBuffer (SentPacketEntry F)
      sent = overwrite r.sent_packets (ack % capacity r.sent_packets) (record e { acked = true })
