-- ===== src/Unreliable/Taking.antt =====
-- How an unreliable channel takes messages and gives them out (src/channel/unreliable.rs).
use yojimbo_rs.Prelude.{
  ℕ, zero, suc, ◌-◌, ◌<◌, ◌≤◌, ◌≡◌, refl, ap, ◌∙◌, sym, inl, inr, List, [], ◌∷◌, ◌++◌, length, take,
  ltb, ltb→lt, ltb→ge, arith, Bool-cases, length-append,
}
use mathlib.Core.List.{append-nil, append_assoc}
use yojimbo_rs.Deque.{Deque}
use yojimbo_rs.Packet.{ChannelPacketData}
use yojimbo_rs.Unreliable.{Unreliable, receive_all, process_packet_data}

-- The messages under the number of the packet, whatever their own ids.
abbrev pub tagged : {M : Type 0} → ℕ → List (ℕ × M) → List (ℕ × M)
tagged seq [] = []
tagged seq ((_, message) ∷ rest) = (seq, message) ∷ tagged seq rest

take-nil : {A : Type 0} (n : ℕ) → ◌≡◌ {A = List A} (take n []) []
take-nil zero = refl
take-nil (suc n) = refl

module _ {M : Type 0} (seq : ℕ) where
  after : List (ℕ × M) → ℕ → List (ℕ × M) → Deque (ℕ × M)
  after items capacity ms = record {
    items = items ++ take (capacity - length items) ms;
    capacity = capacity;
  }

  after-nil :
      (items : List (ℕ × M)) (capacity : ℕ)
      → after items capacity [] ≡ record { items = items; capacity = capacity }
  unfolding after
  after-nil items capacity =
      rw (take-nil (capacity - length items))
        (ap (λ is. record { items = is; capacity = capacity }) (append-nil items))

  after-room :
      (items : List (ℕ × M)) (capacity : ℕ) (x : ℕ × M) (ms : List (ℕ × M))
      → length items < capacity
      → after (items ++ (x ∷ [])) capacity ms ≡ after items capacity (x ∷ ms)
  unfolding after
  after-room items capacity x ms h =
      let less : capacity - length items ≡ suc (capacity - length (items ++ (x ∷ []))) =
        omega (arith, h, length-append items (x ∷ [])) in
      rw less (
        ap (λ is. record { items = is; capacity = capacity })
          (append_assoc items (x ∷ []) (take (capacity - length (items ++ (x ∷ []))) ms)))

  after-full :
      (items : List (ℕ × M)) (capacity : ℕ) (xs ys : List (ℕ × M))
      → capacity ≤ length items
      → after items capacity xs ≡ after items capacity ys
  unfolding after
  after-full items capacity xs ys h =
      let none_left : capacity - length items ≡ 0 = omega (arith, h) in rw none_left

  receive_all-takes :
      (items : List (ℕ × M)) (capacity : ℕ) (ms : List (ℕ × M))
      → receive_all seq (record { items = items; capacity = capacity }) ms
        ≡ after items capacity (tagged seq ms)
  unfolding receive_all
  receive_all-takes items capacity [] = sym (after-nil items capacity)
  receive_all-takes items capacity ((n, m) ∷ ms) = elim (Bool-cases (ltb (length items) capacity)) [
    | inl room ↦
        let h = ltb→lt (length items) capacity room in
        rw room (
          receive_all-takes (items ++ ((seq, m) ∷ [])) capacity ms
          ∙ after-room items capacity (seq, m) (tagged seq ms) h)
    | inr full ↦ rw full (
        receive_all-takes items capacity ms
        ∙ after-full items capacity (tagged seq ms) ((seq, m) ∷ tagged seq ms)
            (ltb→ge (length items) capacity full))
  ]

-- `process_packet_data` of an unreliable channel appends the packet's messages to the receive
-- queue, under the packet's sequence number and in their order, as far as there is room; the rest
-- is dropped, and nothing else changes.
pub process_packet_data_takes :
    {M : Type 0} (u : Unreliable M) (packet : ChannelPacketData M) (seq : ℕ)
    → process_packet_data u packet seq ≡ record u {
      message_receive_queue = record (u.message_receive_queue) {
        items =
            u.message_receive_queue.items
            ++ take
                (u.message_receive_queue.capacity - length u.message_receive_queue.items)
                (tagged seq packet.messages);
      };
    }
unfolding process_packet_data after
process_packet_data_takes u packet seq =
    ap (λ q. record u { message_receive_queue = q })
      (receive_all-takes seq u.message_receive_queue.items u.message_receive_queue.capacity
        packet.messages)
