-- ===== src/Reliable/Sent.antt =====
-- A send extends the history (`send_message` in src/channel/reliable.rs).
use yojimbo_rs.Prelude.{
  ℕ, ◌≡◌, refl, ap, ◌∙◌, sym, subst, inl, inr, Bool, some, List, [], ◌∷◌, ◌++◌, length, get_elem?,
  get_elem?-append_left, get_elem?-append_end,
}
use yojimbo_rs.Run.{ok, >>=-eq-ok, assert}
use yojimbo_rs.Float.{Float}
use yojimbo_rs.Message.{NetworkMessage, measured_bits}
use yojimbo_rs.Word.{wrapping_add}
use yojimbo_rs.SequenceBuffer
use yojimbo_rs.SequenceBuffer.{SequenceBuffer, capacity, overwrite, vacate}
use yojimbo_rs.SequenceBuffer.Sound.{insert_with_sound}
use yojimbo_rs.Reliable.{
  Reliable, MessageSendQueueEntry, send_entry, send_message, can_send_message,
}
use yojimbo_rs.Reliable.History.{Tracks, sent_message}

-- The send queue tracks the history with the message at its end, under the id that was next.
pub record Extends {F M : Type 0} (history : List M) (m : M) (r r' : Reliable F M) : Type 0 where
  pub kept : Tracks sent_message (history ++ (m ∷ [])) r'.message_send_queue
  pub next_send_id : r'.send_message_id ≡ wrapping_add r.send_message_id 1
  pub same_receive_id : r'.receive_message_id ≡ r.receive_message_id
  pub same_receive_queue : r'.message_receive_queue ≡ r.message_receive_queue

module _ {F M : Type 0} ⦃f : Float F⦄ ⦃w : NetworkMessage M⦄ where
  send_entry-message :
      (id : ℕ) (m : M) (e : MessageSendQueueEntry F M) → send_entry id m ≡ ok e → m ≡ e.message
  unfolding send_entry
  send_entry-message id m e h = let (bits, _, h1) = >>=-eq-ok (measured_bits m) _ h in cc

  send_keeps :
      (history : List M) (queue queue' : SequenceBuffer (MessageSendQueueEntry F M)) (m : M)
      (b : Bool)
      → Tracks sent_message history queue
      → SequenceBuffer.insert_with queue (length history) (send_entry (length history) m)
        ≡ ok (queue', b)
      → Tracks sent_message (history ++ (m ∷ [])) queue'
  send_keeps history queue queue' m b k h =
      let i =
        insert_with_sound k.valid (length history) (send_entry (length history) m) queue' b h in
      record {
        valid = i.valid;
        tracks = λ t e here. elim (i.sound t e here) [
          | inl (there, is) ↦
              subst (λ n. get_elem? (history ++ (m ∷ [])) n ≡ some e.message) (sym there)
                (get_elem?-append_end history m
                  ∙ ap some (send_entry-message (length history) m e is))
          | inr old ↦ get_elem?-append_left history (m ∷ []) t (k.tracks t e old)
        ];
      }

  pub send_message-Extends :
      (history : List M) (m : M) (r r' : Reliable F M)
      → Tracks sent_message history r.message_send_queue
      → r.send_message_id ≡ length history
      → send_message r m ≡ ok r'
      → Extends history m r r'
  unfolding send_message
  send_message-Extends history m r r' k at h =
      let (free, _, h1) = >>=-eq-ok (can_send_message r) _ h in
      let (_, _, h2) = >>=-eq-ok (assert free) _ h1 in
      let ((queue, b), e, h3) =
        >>=-eq-ok
          (SequenceBuffer.insert_with r.message_send_queue r.send_message_id
            (send_entry r.send_message_id m))
          _ h2 in
      let (_, _, h4) = >>=-eq-ok (assert b) _ h3 in
      let same : record r {
        message_send_queue = queue;
        send_message_id = wrapping_add r.send_message_id 1;
      }
          ≡ r' =
        cc in
      subst (Extends history m r) same (record {
        kept = send_keeps history r.message_send_queue queue m b k (
            subst
              (λ n.
                SequenceBuffer.insert_with r.message_send_queue n (send_entry n m) ≡ ok (queue, b))
              at e);
        next_send_id = refl;
        same_receive_id = refl;
        same_receive_queue = refl;
      })
