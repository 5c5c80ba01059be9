-- ===== src/NetworkSimulator.antt =====
-- The network simulator (src/network_simulator.rs): packets that wait for their delivery time.
-- `F` stands for f64 and `G` for f32. What `rand` draws is an argument.
pub mod Room
pub mod Delivery
pub mod Quiet
use yojimbo_rs.Prelude.{
  ℕ, ◌*◌, Bool, true, false, not, ◌&&◌, ◌||◌, Option, none, some, List, [], ◌∷◌, ◌++◌, length, ◌==◌,
  if◌then◌else◌,
}
use yojimbo_rs.Run.{Run, ok, panic, ◌>>=◌, ◌>>◌, assert, expect_some, unwrap_none, range_overflow}
use yojimbo_rs.Float.{Float}
use yojimbo_rs.Deque.{Deque, with_capacity, len, clear, push_back, pop_front}

-- `NetworkSimulatorConfig::default`
abbrev pub default_max_simulator_packets : ℕ
default_max_simulator_packets = 4 * 1024

pub record PacketEntry (F : Type 0) : Type 0 where
  pub destination_client_index : ℕ
  pub delivery_time : F
  pub packet_data : List ℕ
  pub consumed : Bool

pub record NetworkSimulator (F G : Type 0) : Type 0 where
  pub latency : F
  pub jitter : F
  pub packet_loss : G
  pub duplicates : G
  pub active : Bool
  pub time : F
  pub entries : Deque (PacketEntry F)

-- What one call of `send_packet` draws, if it comes to it.
pub record Draws (F G : Type 0) : Type 0 where
  pub loss : G
  -- `gen_range` of a lowest and a highest value; `none` where it panics, which `rand` documents for
  -- a range whose size is not finite.
  pub gen_range : F → F → Option F
  pub duplicate : G
  pub duplicate_delay : F

-- `VecDeque::retain`
module _ {A : Type 0} where
  abbrev pub retain : (A → Bool) → List A → List A
  retain p [] = []
  retain p (x ∷ xs) = if p x then x ∷ retain p xs else retain p xs

  abbrev pub last? : List A → Option A
  last? [] = none
  last? (x ∷ []) = some x
  last? (x ∷ y ∷ xs) = last? (y ∷ xs)

module _ {G : Type 0} ⦃g : Float G⦄ where
  -- `(0.0..=1.0).contains(&percent)`
  abbrev pub is_percent : G → Bool
  is_percent percent = g.le (g.decimal 0 1) percent && g.le percent (g.decimal 10 1)

module _ {F G : Type 0} where
  unfoldable pub push_packet : NetworkSimulator F G → PacketEntry F → NetworkSimulator F G
  unfolding push_back pop_front
  push_packet n entry =
      let room =
        if len n.entries == n.entries.capacity then (pop_front n.entries).1 else n.entries in
      record n { entries = push_back room entry }

module _ {F G : Type 0} ⦃f : Float F⦄ ⦃g : Float G⦄ where
  unfoldable pub new : ℕ → F → NetworkSimulator F G
  new max_packets time = record {
    entries = with_capacity max_packets;
    time = time;
    latency = f.decimal 0 1;
    jitter = f.decimal 0 1;
    packet_loss = g.decimal 0 1;
    duplicates = g.decimal 0 1;
    active = false;
  }

  abbrev pub any_set : NetworkSimulator F G → Bool
  any_set n =
      not (f.eq n.latency (f.decimal 0 1))
      || (not (f.eq n.jitter (f.decimal 0 1))
          || (not (g.eq n.packet_loss (g.decimal 0 1)) || not (g.eq n.duplicates (g.decimal 0 1))))

  unfoldable pub update_active : NetworkSimulator F G → NetworkSimulator F G
  update_active n = record n {
    active = any_set n;
    entries = if n.active && not (any_set n) then clear n.entries else n.entries;
  }

  unfoldable pub set_latency : NetworkSimulator F G → F → NetworkSimulator F G
  unfolding update_active
  set_latency n milliseconds = update_active (record n { latency = milliseconds })

  unfoldable pub set_jitter : NetworkSimulator F G → F → NetworkSimulator F G
  unfolding update_active
  set_jitter n milliseconds = update_active (record n { jitter = milliseconds })

  unfoldable pub set_packet_loss : NetworkSimulator F G → G → Run (NetworkSimulator F G)
  unfolding update_active
  set_packet_loss n percent = do
    assert (is_percent percent)
    ok (update_active (record n { packet_loss = percent }))

  unfoldable pub set_duplicates : NetworkSimulator F G → G → Run (NetworkSimulator F G)
  unfolding update_active
  set_duplicates n percent = do
    assert (is_percent percent)
    ok (update_active (record n { duplicates = percent }))

  unfoldable pub discard_packets : NetworkSimulator F G → NetworkSimulator F G
  discard_packets n = record n { entries = clear n.entries }

  unfoldable pub discard_client_packets : NetworkSimulator F G → ℕ → NetworkSimulator F G
  discard_client_packets n client_index = record n {
    entries = record (n.entries) {
      items = retain (λ e. not (e.destination_client_index == client_index)) n.entries.items;
    };
  }

  unfoldable pub advance_time : NetworkSimulator F G → F → NetworkSimulator F G
  advance_time n time = record n {
    time = time;
    entries = record (n.entries) { items = retain (λ e. not e.consumed) n.entries.items };
  }

  -- The delay of a packet that is not lost.
  abbrev pub delay_of : NetworkSimulator F G → Draws F G → Run F
  delay_of n draws = do
    let delay = f.div n.latency (f.decimal 10000 1)
    let jittered = do
      jitter ← expect_some range_overflow (draws.gen_range (f.neg n.jitter) n.jitter)
      ok (f.add delay (f.div jitter (f.decimal 10000 1)))
    if f.lt (f.decimal 0 1) n.jitter then jittered else ok delay

  unfoldable pub send_packet :
      NetworkSimulator F G → Draws F G → ℕ → List ℕ → Run (NetworkSimulator F G)
  unfolding push_packet
  send_packet n draws client_index packet_data = if g.lt draws.loss n.packet_loss then ok n else do
    delay ← delay_of n draws
    let n' = push_packet n (record {
      destination_client_index = client_index;
      delivery_time = f.add n.time delay;
      packet_data = packet_data;
      consumed = false;
    })
    let again = do
      entry ← expect_some unwrap_none (last? n'.entries.items)
      ok (
          push_packet n'
            (record entry { delivery_time = f.add (f.add n.time delay) draws.duplicate_delay }))
    if g.lt draws.duplicate n.duplicates then again else ok n'

-- The iterator of `receive_packets` run to its end: the entries, and what it yields.
module _ {F : Type 0} ⦃f : Float F⦄ where
  unfoldable pub deliver : F → List (PacketEntry F) → Run (List (PacketEntry F) × List (ℕ × List ℕ))
  deliver time [] = ok ([], [])
  deliver time (entry ∷ rest) = do
    assert (not entry.consumed)
    (rest', packets) ← deliver time rest
    ok (
        if f.lt entry.delivery_time time
        then (
          record entry { consumed = true } ∷ rest',
          (entry.destination_client_index, entry.packet_data) ∷ packets,
        )
        else (entry ∷ rest', packets))

module _ {F G : Type 0} ⦃f : Float F⦄ where
  unfoldable pub receive_packets :
      NetworkSimulator F G → Run (NetworkSimulator F G × List (ℕ × List ℕ))
  unfolding deliver
  receive_packets n = do
    assert n.active
    (items, packets) ← deliver n.time n.entries.items
    ok (record n { entries = record (n.entries) { items = items } }, packets)
