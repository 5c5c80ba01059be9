-- ===== src/Reliable/Budget.antt =====
-- The size of the packets that a reliable channel makes (src/channel/reliable.rs).
use yojimbo_rs.Prelude.{
  ℕ, suc, ◌≤◌, ◌≡◌, refl, ap, ◌∙◌, sym, subst, ◌⊎◌, inl, inr, max, min, List, [], ◌∷◌, length,
  arith, Bool-cases,
}
use yojimbo_rs.Run.{Run, ok, >>=-eq-ok, assert, expect_some, unwrap_none}
use yojimbo_rs.Float.{Float}
use yojimbo_rs.Config.{conservative_message_header_bits}
use yojimbo_rs.SequenceBuffer
use yojimbo_rs.SequenceBuffer.{SequenceBuffer, capacity}
use yojimbo_rs.Packet.RoundTrip.{SmallIds}
use yojimbo_rs.Packet.{ChannelPacketData, empty}
use yojimbo_rs.Reliable.{Reliable, MessageSendQueueEntry, has_messages_to_send}
use yojimbo_rs.Reliable.Send.{
  Gathered, gather, budget_bits, get_messages_to_send, copy_messages, get_message_packet_data,
  add_message_packet_entry, packet_of, packet_data,
}
use yojimbo_rs.Reliable.Gathering.{AllU16, gather-Fits}

module _ {F M : Type 0} where
  copy_messages-length :
      (queue : SequenceBuffer (MessageSendQueueEntry F M)) (ids : List ℕ) (ms : List (ℕ × M))
      → copy_messages queue ids ≡ ok ms
      → length ms ≡ length ids
  unfolding copy_messages
  copy_messages-length queue [] ms h = let same : [] ≡ ms = cc in ap length (sym same)
  copy_messages-length queue (id ∷ ids) ms h =
      let (e, _, q) = >>=-eq-ok (SequenceBuffer.get queue id) _ h in
      let (a, _, q1) = >>=-eq-ok (expect_some unwrap_none e) _ q in
      let (rest, p, q2) = >>=-eq-ok (copy_messages queue ids) _ q1 in
      let same : (id, a.message) ∷ rest ≡ ms = cc in
      ap length (sym same) ∙ ap suc (copy_messages-length queue ids rest p)

module _ {F M : Type 0} where
  copy_messages-SmallIds :
      (queue : SequenceBuffer (MessageSendQueueEntry F M)) (ids : List ℕ) (ms : List (ℕ × M))
      → AllU16 ids
      → copy_messages queue ids ≡ ok ms
      → SmallIds ms
  unfolding copy_messages
  copy_messages-SmallIds queue [] ms small h = let same : [] ≡ ms = cc in subst SmallIds same tt
  copy_messages-SmallIds queue (id ∷ ids) ms (below, small) h =
      let (e, _, q) = >>=-eq-ok (SequenceBuffer.get queue id) _ h in
      let (a, _, q1) = >>=-eq-ok (expect_some unwrap_none e) _ q in
      let (rest, p, q2) = >>=-eq-ok (copy_messages queue ids) _ q1 in
      let same : (id, a.message) ∷ rest ≡ ms = cc in
      subst SmallIds same (below, copy_messages-SmallIds queue ids rest small p)

-- What a call of `packet_data` gives.
abbrev Bounded : {F M : Type 0} → ℕ → ℕ → Reliable F M × ChannelPacketData M × ℕ → Type 0
Bounded budget limit (r, packet, bits) =
    (bits ≤ budget) × (length packet.messages ≤ max 1 limit) × SmallIds packet.messages

-- What the loop leaves.
abbrev pub FitsIds : ℕ → ℕ → List ℕ → ℕ → Type 0
FitsIds budget limit ids used =
    ((length ids ≡ 0) ⊎ (used ≤ budget)) × (length ids ≤ max 1 limit) × AllU16 ids

module _ {F M : Type 0} (r : Reliable F M) (channel seq budget limit : ℕ) where
  packet_of-Bounded :
      (ids : List ℕ) (used : ℕ) (out : Reliable F M × ChannelPacketData M × ℕ)
      → FitsIds budget limit ids used
      → packet_of r channel seq ids used ≡ ok out
      → Bounded budget limit out
  unfolding packet_of get_message_packet_data empty
  packet_of-Bounded [] used out k e =
      let same : (r, empty, 0) ≡ out = cc in
      subst (Bounded budget limit) same (omega arith, omega arith, tt)
  packet_of-Bounded (id ∷ ids) used out (fits, count, numbers) e =
      let (p, e1, q) = >>=-eq-ok (get_message_packet_data r channel (id ∷ ids)) _ e in
      let (r1, _, q1) = >>=-eq-ok (add_message_packet_entry r (id ∷ ids) seq) _ q in
      let (ms, e2, q2) = >>=-eq-ok (copy_messages r.message_send_queue (id ∷ ids)) _ e1 in
      let n = copy_messages-length r.message_send_queue (id ∷ ids) ms e2 in
      let made : record { channel_index = channel; messages = ms } ≡ p = cc in
      let same : (r1, p, used) ≡ out = cc in
      subst (Bounded budget limit) same (
        elim fits [ inl nothing ↦ absurd (omega (arith, nothing)) | inr inside ↦ inside ],
        subst (λ (x : ChannelPacketData M). length x.messages ≤ max 1 limit) made
            (omega (arith, n, count)),
        subst (λ (x : ChannelPacketData M). SmallIds x.messages) made
            (copy_messages-SmallIds r.message_send_queue (id ∷ ids) ms numbers e2),
      )

module _ {F M : Type 0} ⦃f : Float F⦄ (r : Reliable F M) (available : ℕ) where
  pub get_messages-FitsIds :
      (out : Reliable F M × List ℕ × ℕ)
      → get_messages_to_send r available ≡ ok out
      → FitsIds
          (budget_bits r.config.packet_budget available)
          r.config.max_messages_per_packet
          out.1
          out.2
  unfolding get_messages_to_send
  get_messages-FitsIds out h =
      let (_, _, h1) = >>=-eq-ok (assert (has_messages_to_send r)) _ h in
      let (g, h2, h3) = >>=-eq-ok (gather r budget rounds 0 first) _ h1 in
      let k =
        gather-Fits r budget rounds 0 first g
          (record { bits = inl refl; count = omega arith; numbers = tt }) h2 in
      let same : (record r { message_send_queue = g.queue }, g.message_ids, g.used_bits) ≡ out =
        cc in
      subst
        (λ (o : Reliable F M × List ℕ × ℕ). FitsIds budget r.config.max_messages_per_packet o.1 o.2)
        same (k.bits, omega (arith, k.count), k.numbers)
    where
      budget : ℕ
      budget = budget_bits r.config.packet_budget available

      rounds : ℕ
      rounds = min (capacity r.message_receive_queue) (capacity r.message_send_queue)

      first : Gathered F M
      first = record {
        queue = r.message_send_queue;
        used_bits = conservative_message_header_bits;
        give_up_counter = 0;
        message_ids = [];
      }

-- If `packet_data` of a reliable channel returns, the bits it reports are within the channel's
-- budget and within `available_bits`, the packet has at most `max_messages_per_packet` messages
-- (one, where that is 0), and every id is a u16.
pub packet_data_bounded :
    {F M : Type 0} ⦃f : Float F⦄ (r r' : Reliable F M) (channel seq available bits : ℕ)
    (packet : ChannelPacketData M)
    → packet_data r channel seq available ≡ ok (r', packet, bits)
    → (bits ≤ budget_bits r.config.packet_budget available)
      × (length packet.messages ≤ max 1 r.config.max_messages_per_packet)
      × SmallIds packet.messages
unfolding packet_data empty
packet_data_bounded {F = F} {M = M} r r' channel seq available bits packet h =
    elim (Bool-cases (has_messages_to_send r)) [
      | inr idle ↦
          let e : ◌≡◌ {A = Run (Reliable F M × ChannelPacketData M × ℕ)} (ok (r, empty, 0))
              (ok (r', packet, bits)) =
            rw idle at h in
          let same : (r, empty, 0) ≡ (r', packet, bits) = cc in
          subst (Bounded budget r.config.max_messages_per_packet) same
            (omega arith, omega arith, tt)
      | inl busy ↦
          let ((r1, ids, used), p, q) =
            >>=-eq-ok (get_messages_to_send r available) rest (rw busy at h) in
          packet_of-Bounded r1 channel seq budget r.config.max_messages_per_packet ids used
            (r', packet, bits) (get_messages-FitsIds r available (r1, ids, used) p) q
    ]
  where
    budget : ℕ
    budget = budget_bits r.config.packet_budget available

    rest : Reliable F M × List ℕ × ℕ → Run (Reliable F M × ChannelPacketData M × ℕ)
    rest (r1, ids, b) = packet_of r1 channel seq ids b
