-- ===== src/NetworkSimulator/Delivery.antt =====
-- Each packet is handed out once, when its time has come (src/network_simulator.rs).
use yojimbo_rs.Prelude.{
  ℕ, ◌≡◌, refl, ap, inl, inr, Bool, true, false, not, List, [], ◌∷◌, map, if◌then◌else◌, Bool-cases,
}
use yojimbo_rs.Run.{ok}
use yojimbo_rs.Float.{Float}
use yojimbo_rs.NetworkSimulator.{
  NetworkSimulator, PacketEntry, retain, deliver, receive_packets, advance_time,
}

-- No entry is consumed.
abbrev pub AllPending : {F : Type 0} → List (PacketEntry F) → Type 0
AllPending [] = Unit
AllPending (e ∷ es) = (e.consumed ≡ false) × AllPending es

module _ {F : Type 0} ⦃f : Float F⦄ (time : F) where
  abbrev pub is_due : PacketEntry F → Bool
  is_due e = f.lt e.delivery_time time

  abbrev pub payload : PacketEntry F → ℕ × List ℕ
  payload e = (e.destination_client_index, e.packet_data)

  abbrev mark : PacketEntry F → PacketEntry F
  mark e = if is_due e then record e { consumed = true } else e

  deliver-eq :
      (es : List (PacketEntry F))
      → AllPending es
      → deliver time es ≡ ok (map mark es, map payload (retain is_due es))
  unfolding deliver
  deliver-eq [] h = refl
  deliver-eq (e ∷ es) (pending, h) = elim (Bool-cases (is_due e)) [
    | inl due ↦ rw (pending, due, deliver-eq es h)
    | inr later ↦ rw (pending, later, deliver-eq es h)
  ]

  keep-eq :
      (es : List (PacketEntry F))
      → AllPending es
      → retain (λ e. not e.consumed) (map mark es) ≡ retain (λ e. not (is_due e)) es
  keep-eq [] h = refl
  keep-eq (e ∷ es) (pending, h) = elim (Bool-cases (is_due e)) [
    | inl due ↦ rw due (keep-eq es h)
    | inr later ↦ rw (later, pending) (ap (λ r. record e { consumed = false } ∷ r) (keep-eq es h))
  ]

-- What `receive_packets` and then `advance_time` give.
pub record Delivers {F G : Type 0} ⦃f : Float F⦄ ⦃g : Float G⦄ (n : NetworkSimulator F G) (time : F)
    : Type 0 where
  pub after : NetworkSimulator F G
  pub returns :
      receive_packets n ≡ ok (after, map (payload n.time) (retain (is_due n.time) n.entries.items))
  pub left :
      (advance_time after time).entries.items ≡ retain (λ e. not (is_due n.time e)) n.entries.items
  pub same_capacity : after.entries.capacity ≡ n.entries.capacity

-- On an active simulator none of whose packets was handed out yet, `receive_packets` run to its
-- end returns and yields the packets whose delivery time is before the simulator's time, in the
-- order they were queued, and the next `advance_time` leaves exactly the other packets, in their
-- order.
pub receive_packets-Delivers :
    {F G : Type 0} ⦃f : Float F⦄ ⦃g : Float G⦄ (n : NetworkSimulator F G) (time : F)
    → n.active ≡ true
    → AllPending n.entries.items
    → Delivers n time
unfolding receive_packets advance_time
receive_packets-Delivers n time active h = record {
  after = record n { entries = record (n.entries) { items = map (mark n.time) n.entries.items } };
  returns = rw (active, deliver-eq n.time n.entries.items h);
  left = keep-eq n.time n.entries.items h;
  same_capacity = refl;
}
