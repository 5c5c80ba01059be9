-- ===== src/Reliable/Delivered.antt =====
-- A receive gives the next message of the history (`receive_message` in src/channel/reliable.rs).
use yojimbo_rs.Prelude.{
  ℕ, ◌≡◌, refl, ◌∙◌, sym, subst, Option, none, some, List, get_elem?, ◌==◌, arith,
}
use yojimbo_rs.Run.{ok, >>=-eq-ok, assert}
use yojimbo_rs.Word.{wrapping_add}
use yojimbo_rs.SequenceBuffer
use yojimbo_rs.SequenceBuffer.{SequenceBuffer, capacity, overwrite, vacate}
use yojimbo_rs.Reliable.{Reliable, MessageReceiveQueueEntry, deliver_entry, receive_message}
use yojimbo_rs.Reliable.History.{Tracks}
use yojimbo_rs.Reliable.Acked.{take_keeps}
use yojimbo_rs.Reliable.Arrived.{received_message}

-- What a `receive_message` gives: nothing, or the message of the history that is next.
abbrev pub IsNext : {M : Type 0} → List M → ℕ → ℕ → Option (ℕ × M) → Type 0
IsNext history id id' none = id' ≡ id
IsNext history id id' (some (n, m)) =
    (n ≡ id) × (get_elem? history id ≡ some m) × (id' ≡ wrapping_add id 1)

pub record KeepsDelivering {F M : Type 0} (history : List M) (r r' : Reliable F M)
    (got : Option (ℕ × M)) : Type 0 where
  pub kept : Tracks received_message history r'.message_receive_queue
  pub same_send_id : r'.send_message_id ≡ r.send_message_id
  pub same_send_queue : r'.message_send_queue ≡ r.message_send_queue
  pub gives : IsNext history r.receive_message_id r'.receive_message_id got

module _ {F M : Type 0} (history : List M) (r r' : Reliable F M) where
  deliver_entry_keeps :
      (queue : SequenceBuffer (MessageReceiveQueueEntry M))
      (e : Option (MessageReceiveQueueEntry M)) (got : Option (ℕ × M))
      → Tracks received_message history queue
      → ((a : MessageReceiveQueueEntry M)
          → e ≡ some a
          → get_elem? history r.receive_message_id ≡ some a.message)
      → deliver_entry r queue e ≡ ok (r', got)
      → KeepsDelivering history r r' got
  unfolding deliver_entry
  deliver_entry_keeps queue none got k at h =
      let same_r : record r { message_receive_queue = queue } ≡ r' = cc in
      let same_g : none ≡ got = cc in
      subst (KeepsDelivering history r r') same_g (
        subst (λ x. KeepsDelivering history r x none) same_r
          (record { kept = k; same_send_id = refl; same_send_queue = refl; gives = refl }))
  deliver_entry_keeps queue (some a) got k at h =
      let (_, e, h1) = >>=-eq-ok (assert (a.message_id == r.receive_message_id)) _ h in
      let same_r : record r {
        message_receive_queue = queue;
        receive_message_id = wrapping_add r.receive_message_id 1;
      }
          ≡ r' =
        cc in
      let same_g : some (a.message_id, a.message) ≡ got = cc in
      subst (KeepsDelivering history r r') same_g (
        subst (λ x. KeepsDelivering history r x (some (a.message_id, a.message))) same_r
          (record {
            kept = k;
            same_send_id = refl;
            same_send_queue = refl;
            gives = (ground arith, at a refl, refl);
          }))

  pub receive_message_keeps :
      (got : Option (ℕ × M))
      → Tracks received_message history r.message_receive_queue
      → receive_message r ≡ ok (r', got)
      → KeepsDelivering history r r' got
  unfolding receive_message
  receive_message_keeps got k h =
      let ((e, queue), p, h1) =
        >>=-eq-ok (SequenceBuffer.take r.message_receive_queue r.receive_message_id) _ h in
      let (kept, is) = take_keeps r.message_receive_queue queue r.receive_message_id e k p in
      deliver_entry_keeps queue e got kept
        (λ a there. k.tracks r.receive_message_id a (sym is ∙ there)) h1
