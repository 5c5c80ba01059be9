-- ===== src/Reliable/Ready.antt =====
-- A reliable channel in use: what each operation of src/channel/reliable.rs leaves of what
-- `packet_data` relies on.
use yojimbo_rs.Prelude.{
  ℕ, ◌*◌, ◌%◌, ◌<◌, ◌≡◌, ap, ◌∙◌, sym, subst, not, Option, none, some, leb, length-set,
  length-replicate, arith,
}
use yojimbo_rs.Run.{ok, ok-injective, ◌>>=◌, >>=-eq-ok, assert}
use yojimbo_rs.Config.{ChannelConfig}
use yojimbo_rs.Word.{u16_modulus}
use yojimbo_rs.SequenceBuffer
use yojimbo_rs.SequenceBuffer.{SequenceBuffer, capacity, overwrite}
use yojimbo_rs.SequenceBuffer.View.{IsValid, entry, entry-some, get_mut-eq, overwrite-IsValid}
use yojimbo_rs.SequenceBuffer.Window.{IsRecent}
use yojimbo_rs.SequenceBuffer.Fresh.{Fresh, new-Fresh, reset-Fresh}
use yojimbo_rs.Reliable.{
  Reliable, MessageSendQueueEntry, MessageReceiveQueueEntry, SentPacketEntry, is_reliable, new,
  reset,
}
use yojimbo_rs.Reliable.Ack.{slice, ack_all, ack_packet, process_ack}
use yojimbo_rs.Reliable.Removes.{ack_all-Without}
use yojimbo_rs.Reliable.Rounds.{holds-overwrite}
use yojimbo_rs.Reliable.Packs.{IsPacking}

module _ {A : Type 0} {b : SequenceBuffer A} where
  -- An empty buffer of a size that divides the number of u16 values.
  Fresh-IsRecent :
      (period : ℕ) → Fresh b → capacity b * period ≡ u16_modulus → 1 < capacity b → IsRecent b
  Fresh-IsRecent period k fits wide = record {
    period = period;
    fits = fits;
    wide = wide;
    recent = λ s h. let (a, e) = entry-some k.valid s h in let free = k.free s in absurd (cc);
  }

  overwrite-IsRecent : (i : ℕ) (a : A) → IsRecent b → IsRecent (overwrite b i a)
  overwrite-IsRecent i a k =
      let size = length-set b.entries i (some a) in
      record {
        period = k.period;
        fits = ap (λ n. n * k.period) size ∙ k.fits;
        wide = omega (arith, size, k.wide);
        recent = λ s h.
            let (small, young) = k.recent s (sym (holds-overwrite b i a s) ∙ h) in
            (small, omega (arith, size, young));
      }

new-capacity :
    {A : Type 0} (size : ℕ) (b : SequenceBuffer A)
    → SequenceBuffer.new size ≡ ok b
    → capacity b ≡ size
unfolding SequenceBuffer.new
new-capacity {A = A} size b h =
    let (_, _, q) = >>=-eq-ok (assert (leb size 65535)) _ h in
    ap capacity (sym (ok-injective q)) ∙ length-replicate {A = Option A} size none

-- The sizes that the sender needs.
pub record IsSized {F : Type 0} (c : ChannelConfig F) : Type 0 where
  pub period : ℕ
  pub divides : c.sent_packet_buffer_size * period ≡ u16_modulus
  pub several : 1 < c.sent_packet_buffer_size
  pub some_messages : 0 < c.max_messages_per_packet
  pub some_slots : 0 < c.message_send_queue_size

module _ {F M : Type 0} where
  -- The state but for the sent packets and their ids.
  pub relabel :
      (r : Reliable F M) (time : F) (send receive oldest : ℕ)
      (queue : SequenceBuffer (MessageSendQueueEntry F M))
      (arrived : SequenceBuffer (MessageReceiveQueueEntry M))
      → IsPacking r
      → IsValid queue
      → IsPacking (record r {
        time = time;
        send_message_id = send;
        receive_message_id = receive;
        oldest_unacked_message_id = oldest;
        message_send_queue = queue;
        message_receive_queue = arrived;
      })
  relabel r time send receive oldest queue arrived k v = record {
    valid = v;
    sent_valid = k.sent_valid;
    sent_recent = k.sent_recent;
    some_packets = k.some_packets;
    some_messages = k.some_messages;
    room = k.room;
  }

  pub new-IsPacking :
      (c : ChannelConfig F) (t : F) (r : Reliable F M) → IsSized c → new c t ≡ ok r → IsPacking r
  unfolding new
  new-IsPacking c t r z h =
      let (_, _, h1) = >>=-eq-ok (assert (is_reliable c.kind)) _ h in
      let (sent, e, h2) = >>=-eq-ok (SequenceBuffer.new c.sent_packet_buffer_size) _ h1 in
      let (queue, e1, h3) = >>=-eq-ok (SequenceBuffer.new c.message_send_queue_size) _ h2 in
      let (arrived, _, h4) = >>=-eq-ok (SequenceBuffer.new c.message_receive_queue_size) _ h3 in
      let several = z.several in
      let positive : 0 < c.sent_packet_buffer_size = omega arith in
      let size = new-capacity c.sent_packet_buffer_size sent e in
      let empty_sent = new-Fresh c.sent_packet_buffer_size sent positive e in
      subst IsPacking (ok-injective h4) (record {
        valid = (new-Fresh c.message_send_queue_size queue z.some_slots e1).valid;
        sent_valid = empty_sent.valid;
        sent_recent =
            Fresh-IsRecent z.period empty_sent (ap (λ n. n * z.period) size ∙ z.divides)
              (omega (arith, size, z.several));
        some_packets = positive;
        some_messages = z.some_messages;
        room = length-replicate (c.max_messages_per_packet * c.sent_packet_buffer_size) 0;
      })

  pub reset-IsPacking : (r : Reliable F M) → IsPacking r → IsPacking (reset r)
  unfolding reset
  reset-IsPacking r k =
      let (sent, size) = reset-Fresh r.sent_packets k.sent_valid in
      let old = k.sent_recent in
      record {
        valid = (reset-Fresh r.message_send_queue k.valid).0.valid;
        sent_valid = sent.valid;
        sent_recent =
            Fresh-IsRecent old.period sent (ap (λ n. n * old.period) size ∙ old.fits)
              (omega (arith, size, old.wide));
        some_packets = k.some_packets;
        some_messages = k.some_messages;
        room = k.room;
      }

  ack_packet-IsPacking :
      (r r' : Reliable F M) (ack : ℕ) (e : Option (SentPacketEntry F))
      → IsPacking r
      → ack_packet r (elim e [
        | none ↦ none
        | some a ↦ some (a, λ a'. overwrite r.sent_packets (ack % capacity r.sent_packets) a')
      ])
        ≡ ok r'
      → IsPacking r'
  unfolding ack_packet
  ack_packet-IsPacking r r' ack none k h = subst IsPacking (ok-injective h) k
  ack_packet-IsPacking r r' ack (some e) k h =
      let (_, _, h1) = >>=-eq-ok (assert (not e.acked)) _ h in
      let (ids, _, h2) =
        >>=-eq-ok (slice r.sent_packet_message_ids e.message_ids.0 e.message_ids.1) _ h1 in
      let ((queue, oldest), acked, h3) =
        >>=-eq-ok (ack_all r.message_send_queue r.oldest_unacked_message_id ids) _ h2 in
      subst IsPacking (ok-injective h3) (record {
        valid =
            (ack_all-Without r.message_send_queue queue r.oldest_unacked_message_id oldest ids
              k.valid acked).valid;
        sent_valid = overwrite-IsValid k.sent_valid ack _;
        sent_recent = overwrite-IsRecent (ack % capacity r.sent_packets) _ k.sent_recent;
        some_packets = k.some_packets;
        some_messages = k.some_messages;
        room = k.room;
      })

  pub process_ack-IsPacking :
      (r r' : Reliable F M) (ack : ℕ) → IsPacking r → process_ack r ack ≡ ok r' → IsPacking r'
  unfolding process_ack
  process_ack-IsPacking r r' ack k h =
      ack_packet-IsPacking r r' ack (entry r.sent_packets ack) k
        (sym (ap (λ m. m >>= ack_packet r) (get_mut-eq k.sent_valid ack)) ∙ h)
