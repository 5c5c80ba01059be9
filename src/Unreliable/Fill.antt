-- ===== src/Unreliable/Fill.antt =====
-- What `packet_data` puts in a packet (src/channel/unreliable.rs).
use yojimbo_rs.Prelude.{
  ℕ, ◌+◌, ◌≤◌, ◌≡◌, refl, subst, ◌⊎◌, inl, inr, false, List, [], ◌∷◌, ◌++◌, length, ◌==◌, arith,
  length-append,
}
use yojimbo_rs.Run.{Run, ok, ◌>>=◌, >>=-eq-ok}
use yojimbo_rs.Message.{NetworkMessage, measured_bits}
use yojimbo_rs.Config.{ChannelConfig, conservative_message_header_bits}
use yojimbo_rs.Packet.{ChannelPacketData, empty}
use yojimbo_rs.Unreliable.{Unreliable, consider, fill, budget_bits, packet_of, packet_data}

-- Every message has this id.
abbrev pub AllAt : {M : Type 0} → ℕ → List (ℕ × M) → Type 0
AllAt id [] = Unit
AllAt id ((n, m) ∷ ms) = (n ≡ id) × AllAt id ms

AllAt-append :
    {M : Type 0} (id : ℕ) (ms : List (ℕ × M)) (m : M)
    → AllAt id ms
    → AllAt id (ms ++ ((id, m) ∷ []))
AllAt-append id [] m h = (refl, tt)
AllAt-append id ((n, x) ∷ ms) m (e, h) = (e, AllAt-append id ms m h)

-- What holds of the bits used and the messages taken.
record Fits {M : Type 0} (available limit seq used : ℕ) (taken : List (ℕ × M)) : Type 0 where
  bits : (length taken ≡ 0) ⊎ (used ≤ available)
  count : length taken ≤ limit
  numbers : AllAt seq taken

abbrev FitsState : {M : Type 0} → ℕ → ℕ → ℕ → ℕ × List (ℕ × M) → Type 0
FitsState available limit seq (used, taken) = Fits available limit seq used taken

module _ {M : Type 0} ⦃m : NetworkMessage M⦄ (available limit seq : ℕ) where
  consider-Fits :
      (message : M) (bits used : ℕ) (taken : List (ℕ × M)) (state : ℕ × List (ℕ × M))
      → FitsState available limit seq (used, taken)
      → (length taken == limit) ≡ false
      → consider available limit seq message bits (used, taken) ≡ ok state
      → FitsState available limit seq state
  unfolding consider
  consider-Fits message bits used taken state k room h = elim split [
    | inl same ↦ subst (FitsState available limit seq) same k
    | inr (inside, same) ↦ subst (FitsState available limit seq) same (record {
      bits = inr inside;
      count = ground (arith, k.count, room, length-append taken ((seq, message) ∷ []));
      numbers = AllAt-append seq taken message k.numbers;
    })
  ]
    where
      more : List (ℕ × M)
      more = taken ++ ((seq, message) ∷ [])

      split : ((used, taken) ≡ state) ⊎ ((used + bits ≤ available) × ((used + bits, more) ≡ state))
      split = ground arith

  fill-Fits :
      (queue left : List M) (used used' : ℕ) (taken taken' : List (ℕ × M))
      → Fits available limit seq used taken
      → fill available limit seq queue (used, taken) ≡ ok (left, used', taken')
      → Fits available limit seq used' taken'
  unfolding fill
  fill-Fits [] left used used' taken taken' k h =
      let same : (used, taken) ≡ (used', taken') = cc in
      subst (FitsState available limit seq) same k
  fill-Fits (message ∷ rest) left used used' taken taken' k h = elim stop_or_go [
    | inl e ↦
        let same : (used, taken) ≡ (used', taken') = cc in
        subst (FitsState available limit seq) same k
    | inr (room, e) ↦
        let (bits, _, q) = >>=-eq-ok (measured_bits message) _ e in
        let ((u, t), p, q1) =
          >>=-eq-ok (consider available limit seq message bits (used, taken)) _ q in
        fill-Fits rest left u used' t taken' (consider-Fits message bits used taken (u, t) k room p)
          q1
  ]
    where
      stop_or_go :
          (◌≡◌ {A = Run (List M × ℕ × List (ℕ × M))}
            (ok (message ∷ rest, used, taken))
            (ok (left, used', taken')))
          ⊎ (((length taken == limit) ≡ false)
              × ((do
                bits ← measured_bits message
                state ← consider available limit seq message bits (used, taken)
                fill available limit seq rest state)
                  ≡ ok (left, used', taken')))
      stop_or_go = ground arith

-- What a call of `packet_data` gives.
abbrev Bounded : {M : Type 0} → ℕ → ℕ → ℕ → Unreliable M × ChannelPacketData M × ℕ → Type 0
Bounded budget limit seq (u, packet, bits) =
    (bits ≤ budget) × (length packet.messages ≤ limit) × AllAt seq packet.messages

packet_of-Bounded :
    {M : Type 0} (budget limit seq : ℕ) (u : Unreliable M) (channel used : ℕ) (left : List M)
    (taken : List (ℕ × M))
    → Fits budget limit seq used taken
    → Bounded budget limit seq (packet_of u channel left used taken)
unfolding packet_of empty
packet_of-Bounded budget limit seq u channel used left [] k = (omega arith, omega arith, tt)
packet_of-Bounded budget limit seq u channel used left (x ∷ taken) k = (
  elim k.bits [ inl empty_taken ↦ absurd (omega (arith, empty_taken)) | inr inside ↦ inside ],
  k.count,
  k.numbers,
)

-- If `packet_data` of an unreliable channel returns, the bits it reports are within the channel's
-- budget and within `available_bits`, the packet has at most `max_messages_per_packet` messages,
-- and every message has the packet's sequence number.
pub packet_data_fits :
    {F M : Type 0} ⦃m : NetworkMessage M⦄ (u u' : Unreliable M) (config : ChannelConfig F)
    (channel seq available bits : ℕ) (packet : ChannelPacketData M)
    → packet_data u config channel seq available ≡ ok (u', packet, bits)
    → (bits ≤ budget_bits config.packet_budget available)
      × (length packet.messages ≤ config.max_messages_per_packet)
      × AllAt seq packet.messages
unfolding packet_data empty
packet_data_fits {M = M} u u' config channel seq available bits packet h = elim split [
  | inl e ↦
      let same : (u, empty, 0) ≡ (u', packet, bits) = cc in
      subst (Bounded budget config.max_messages_per_packet seq) same (omega arith, omega arith, tt)
  | inr e ↦
      let ((left, used, taken), p, q) =
        >>=-eq-ok
          (fill budget config.max_messages_per_packet seq u.message_send_queue.items
            (conservative_message_header_bits, []))
          _ e in
      let same : packet_of u channel left used taken ≡ (u', packet, bits) = cc in
      subst (Bounded budget config.max_messages_per_packet seq) same (
        packet_of-Bounded budget config.max_messages_per_packet seq u channel used left taken (
          fill-Fits budget config.max_messages_per_packet seq u.message_send_queue.items left
            conservative_message_header_bits used [] taken
            (record { bits = inl refl; count = omega arith; numbers = tt }) p))
]
  where
    budget : ℕ
    budget = budget_bits config.packet_budget available

    split :
        (◌≡◌ {A = Run (Unreliable M × ChannelPacketData M × ℕ)}
          (ok (u, empty, 0))
          (ok (u', packet, bits)))
        ⊎ ((do
          (left, used, taken) ←
              fill
                (budget_bits config.packet_budget available)
                config.max_messages_per_packet
                seq
                u.message_send_queue.items
                (conservative_message_header_bits, [])
          ok (packet_of u channel left used taken))
            ≡ ok (u', packet, bits))
    split = ground arith
