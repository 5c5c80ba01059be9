-- ===== src/Reliable/Agreement.antt =====
-- When two reliable channels agree with what was sent (src/channel/reliable.rs).
use yojimbo_rs.Prelude.{
  ℕ, zero, suc, ◌<◌, ◌≤◌, ◌≡◌, ap, ◌∙◌, sym, subst, Option, none, some, List, [], ◌∷◌, ◌++◌, length,
  get_elem?, take, arith, length-append, get_elem?-some-lt, get_elem?-append_left, take-get,
}
use mathlib.Core.List.{append-nil}
use yojimbo_rs.Run.{ok, >>=-eq-ok, assert}
use yojimbo_rs.Config.{ChannelConfig}
use yojimbo_rs.Word.{u16_modulus}
use yojimbo_rs.Packet.{ChannelPacketData}
use yojimbo_rs.SequenceBuffer
use yojimbo_rs.SequenceBuffer.{SequenceBuffer}
use yojimbo_rs.SequenceBuffer.Fresh.{Fresh, new-Fresh}
use yojimbo_rs.Reliable.{Reliable, is_reliable, new}
use yojimbo_rs.Reliable.History.{Tracks, FromHistory, sent_message}
use yojimbo_rs.Reliable.Arrived.{received_message}
use yojimbo_rs.Reliable.Delivered.{IsNext}
use yojimbo_rs.Reliable.Session.{Session, messages_of}

abbrev pub AllFrom : {M : Type 0} → List M → List (ChannelPacketData M) → Type 0
AllFrom history [] = Unit
AllFrom history (p ∷ ps) = FromHistory history p.messages × AllFrom history ps

-- The channels agree with what was sent, and what was delivered is its beginning.
pub record Agrees {F M : Type 0} (s : Session F M) : Type 0 where
  pub sending : Tracks sent_message s.sent s.sender.message_send_queue
  pub receiving : Tracks received_message s.sent s.receiver.message_receive_queue
  pub packets : AllFrom s.sent s.network
  pub send_id : s.sender.send_message_id ≡ length s.sent
  pub receive_id : s.receiver.receive_message_id ≡ length s.delivered
  pub behind : length s.delivered ≤ length s.sent
  pub in_order : s.delivered ≡ take (length s.delivered) s.sent

pub Fresh-Tracks :
    {A M : Type 0} {message : A → M} {b : SequenceBuffer A} → Fresh b → Tracks message [] b
Fresh-Tracks x = record { valid = x.valid; tracks = λ t e h. absurd (cc (x.free t)) }

module _ {M : Type 0} (history : List M) (m : M) where
  FromHistory-append :
      (ms : List (ℕ × M)) → FromHistory history ms → FromHistory (history ++ (m ∷ [])) ms
  FromHistory-append [] h = tt
  FromHistory-append ((id, x) ∷ ms) (at, h) =
      (get_elem?-append_left history (m ∷ []) id at, FromHistory-append ms h)

  pub AllFrom-append :
      (ps : List (ChannelPacketData M)) → AllFrom history ps → AllFrom (history ++ (m ∷ [])) ps
  AllFrom-append [] h = tt
  AllFrom-append (p ∷ ps) (from, h) = (FromHistory-append p.messages from, AllFrom-append ps h)

module _ {M : Type 0} (history : List M) where
  pub AllFrom-get :
      (ps : List (ChannelPacketData M)) (i : ℕ) (p : ChannelPacketData M)
      → AllFrom history ps
      → get_elem? ps i ≡ some p
      → FromHistory history p.messages
  AllFrom-get [] i p h at = absurd (cc at)
  AllFrom-get (q ∷ ps) zero p (from, h) at =
      let same : q ≡ p = cc in subst (λ x. FromHistory history x.messages) same from
  AllFrom-get (q ∷ ps) (suc i) p (from, h) at = AllFrom-get ps i p h at

-- The list that was delivered, one receive later.
pub record Grown {M : Type 0} (sent delivered : List M) (id : ℕ) : Type 0 where
  pub counts : id ≡ length delivered
  pub within : length delivered ≤ length sent
  pub ordered : delivered ≡ take (length delivered) sent

pub delivered_more :
    {M : Type 0} (sent delivered : List M) (id : ℕ) (got : Option (ℕ × M))
    → length sent < u16_modulus
    → length delivered ≤ length sent
    → delivered ≡ take (length delivered) sent
    → IsNext sent (length delivered) id got
    → Grown sent (delivered ++ messages_of got) id
delivered_more sent delivered id none bound within ordered h =
    subst (λ d. Grown sent d id) (sym (append-nil delivered))
      (record { counts = h; within = within; ordered = ordered })
delivered_more sent delivered id (some (n, m)) bound within ordered (_, at, next) =
    let inside = get_elem?-some-lt sent (length delivered) at in
    let more : length (delivered ++ (m ∷ [])) ≡ suc (length delivered) =
      omega (arith, length-append delivered (m ∷ [])) in
    record {
      counts = ground (arith, next, more, inside, bound);
      within = omega (arith, more, inside);
      ordered =
          ap (λ d. d ++ (m ∷ [])) ordered
          ∙ sym (take-get (length delivered) sent at)
          ∙ ap (λ k. take k sent) (sym more);
    }

module _ {F M : Type 0} where
  pub new-Fresh_queues :
      (c : ChannelConfig F) (t : F) (r : Reliable F M)
      → 0 < c.message_send_queue_size
      → 0 < c.message_receive_queue_size
      → new c t ≡ ok r
      → Fresh r.message_send_queue
        × Fresh r.message_receive_queue
        × (r.send_message_id ≡ 0)
        × (r.receive_message_id ≡ 0)
  unfolding new
  new-Fresh_queues c t r hs hr h =
      let (_, _, h1) = >>=-eq-ok (assert (is_reliable c.kind)) _ h in
      let (a, _, h2) = >>=-eq-ok (SequenceBuffer.new c.sent_packet_buffer_size) _ h1 in
      let (b, eb, h3) = >>=-eq-ok (SequenceBuffer.new c.message_send_queue_size) _ h2 in
      let (d, ed, h4) = >>=-eq-ok (SequenceBuffer.new c.message_receive_queue_size) _ h3 in
      let same_b : b ≡ r.message_send_queue = cc in
      let same_d : d ≡ r.message_receive_queue = cc in
      (
        subst Fresh same_b (new-Fresh c.message_send_queue_size b hs eb),
        subst Fresh same_d (new-Fresh c.message_receive_queue_size d hr ed),
        cc,
        cc,
      )
