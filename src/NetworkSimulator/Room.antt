-- ===== src/NetworkSimulator/Room.antt =====
-- The simulator never holds more packets than it has room for (src/network_simulator.rs).
use yojimbo_rs.Prelude.{
  ℕ, ◌+◌, ◌-◌, ◌<◌, ◌≤◌, ◌≡◌, refl, ◌∙◌, inl, inr, Bool, true, not, ◌||◌, is_some, Option-cases,
  false, some, List, [], ◌∷◌, ◌++◌, length, ◌==◌, if◌then◌else◌, arith, Bool-cases, length-append,
}
use yojimbo_rs.Run.{ok}
use yojimbo_rs.Float.{Float}
use yojimbo_rs.Deque.{Deque, len, push_back, pop_front}
use yojimbo_rs.NetworkSimulator.{
  NetworkSimulator, PacketEntry, Draws, last?, push_packet, send_packet, delay_of,
}

-- The queue is within its capacity, which is not 0.
pub record HasRoom {F G : Type 0} (n : NetworkSimulator F G) : Type 0 where
  pub within : length n.entries.items ≤ n.entries.capacity
  pub positive : 0 < n.entries.capacity

module _ {A : Type 0} where
  pop-length :
      (xs : List A) (n : ℕ)
      → length (pop_front (record { items = xs; capacity = n })).1.items ≡ length xs - 1
  unfolding pop_front
  pop-length [] n = refl
  pop-length (x ∷ xs) n = omega arith

  pop-capacity :
      (xs : List A) (n : ℕ) → (pop_front (record { items = xs; capacity = n })).1.capacity ≡ n
  unfolding pop_front
  pop-capacity [] n = refl
  pop-capacity (x ∷ xs) n = refl

  push-length : (q : Deque A) (x : A) → length (push_back q x).items ≡ length q.items + 1
  unfolding push_back
  push-length q x = length-append q.items (x ∷ [])

  push-capacity :
      (q : Deque A) (x : A) → length q.items < q.capacity → (push_back q x).capacity ≡ q.capacity
  unfolding push_back
  push-capacity q x h = ground arith

module _ {F G : Type 0} where
  push_packet-HasRoom :
      (n : NetworkSimulator F G) (e : PacketEntry F)
      → HasRoom n
      → HasRoom (push_packet n e) × ((push_packet n e).entries.capacity ≡ n.entries.capacity)
  unfolding push_packet
  push_packet-HasRoom n e h =
      let room =
        if len n.entries == n.entries.capacity then (pop_front n.entries).1 else n.entries in
      let len_room : length room.items < n.entries.capacity =
        ground (arith, h.within, h.positive, pop-length n.entries.items n.entries.capacity) in
      let cap_room : room.capacity ≡ n.entries.capacity =
        ground (arith, pop-capacity n.entries.items n.entries.capacity) in
      let cap_push = push-capacity room e (omega (arith, len_room, cap_room)) in
      (
        record {
          within = omega (arith, push-length room e, cap_push, len_room, cap_room);
          positive = omega (arith, cap_push, cap_room, h.positive);
        },
        cap_push ∙ cap_room,
      )

last?-some : {A : Type 0} (xs : List A) (x : A) → last? (xs ++ (x ∷ [])) ≡ some x
last?-some [] x = refl
last?-some (y ∷ []) x = refl
last?-some (y ∷ z ∷ xs) x = last?-some (z ∷ xs) x

module _ {F G : Type 0} where
  push_packet-last :
      (n : NetworkSimulator F G) (e : PacketEntry F)
      → last? (push_packet n e).entries.items ≡ some e
  unfolding push_packet push_back
  push_packet-last n e =
      last?-some
        ((if len n.entries == n.entries.capacity then (pop_front n.entries).1 else n.entries).items)
        e

-- What a call of `send_packet` gives.
pub record Sent {F G : Type 0} ⦃f : Float F⦄ ⦃g : Float G⦄ (n : NetworkSimulator F G)
    (draws : Draws F G) (client : ℕ) (bytes : List ℕ) : Type 0 where
  pub after : NetworkSimulator F G
  pub returns : send_packet n draws client bytes ≡ ok after
  pub room : HasRoom after
  pub same_capacity : after.entries.capacity ≡ n.entries.capacity

-- The jitter is 0 or less, or a value can be drawn from its range.
abbrev pub can_draw : {F G : Type 0} ⦃f : Float F⦄ → NetworkSimulator F G → Draws F G → Bool
can_draw ⦃f⦄ n draws =
    not (f.lt (f.decimal 0 1) n.jitter) || is_some (draws.gen_range (f.neg n.jitter) n.jitter)

delay_of-ok :
    {F G : Type 0} ⦃f : Float F⦄ ⦃g : Float G⦄ (n : NetworkSimulator F G) (draws : Draws F G)
    → can_draw n draws ≡ true
    → (delay : F) × (delay_of n draws ≡ ok delay)
delay_of-ok ⦃f⦄ n draws h = elim (Bool-cases (f.lt (f.decimal 0 1) n.jitter)) [
  | inr off ↦ (f.div n.latency (f.decimal 10000 1), rw off)
  | inl on ↦ elim (Option-cases (draws.gen_range (f.neg n.jitter) n.jitter)) [
    | inl fails ↦ let never : false ≡ true = rw (on, fails) at h in absurd (cc)
    | inr (jitter, drawn) ↦ (
      f.add (f.div n.latency (f.decimal 10000 1)) (f.div jitter (f.decimal 10000 1)),
      rw (on, drawn),
    )
  ]
]

-- The packet as it is queued.
abbrev entry_after :
    {F G : Type 0} ⦃f : Float F⦄ → NetworkSimulator F G → F → ℕ → List ℕ → PacketEntry F
entry_after ⦃f⦄ n delay client bytes = record {
  destination_client_index = client;
  delivery_time = f.add n.time delay;
  packet_data = bytes;
  consumed = false;
}

-- With a queue that has room for a packet and is within its capacity, and a jitter that is not
-- positive or from whose range `rand` can draw, `send_packet` returns, whatever is drawn, and
-- leaves the queue within the same capacity.
pub send_packet-Sent :
    {F G : Type 0} ⦃f : Float F⦄ ⦃g : Float G⦄ (n : NetworkSimulator F G) (draws : Draws F G)
    (client : ℕ) (bytes : List ℕ)
    → HasRoom n
    → can_draw n draws ≡ true
    → Sent n draws client bytes
unfolding send_packet
send_packet-Sent {F = F} ⦃f⦄ ⦃g⦄ n draws client bytes h draw =
    let (delay, drawn) = delay_of-ok n draws draw in
    let entry = entry_after n delay client bytes in
    let (k1, c1) = push_packet-HasRoom n entry h in
    elim (Bool-cases (g.lt draws.loss n.packet_loss)) [
      | inl lost ↦ record { after = n; returns = rw lost; room = h; same_capacity = refl }
      | inr kept ↦ elim (Bool-cases (g.lt draws.duplicate n.duplicates)) [
        | inl twice ↦
            let again : PacketEntry F = record entry {
              delivery_time = f.add (f.add n.time delay) draws.duplicate_delay;
            } in
            let (k2, c2) = push_packet-HasRoom (push_packet n entry) again k1 in
            record {
              after = push_packet (push_packet n entry) again;
              returns = rw (kept, drawn, twice, push_packet-last n entry);
              room = k2;
              same_capacity = c2 ∙ c1;
            }
        | inr once ↦ record {
          after = push_packet n entry;
          returns = rw (kept, drawn, once);
          room = k1;
          same_capacity = c1;
        }
      ]
    ]
