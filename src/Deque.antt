-- ===== src/Deque.antt =====
-- `VecDeque`: its items, oldest first, and the capacity that the code asks for. (The capacity is
-- what `with_capacity` was given until a push onto a full queue has to grow it.)
use yojimbo_rs.Prelude.{
  ℕ, ◌+◌, ◌*◌, max, Option, none, some, List, [], ◌∷◌, ◌++◌, length, ltb, if◌then◌else◌,
}

pub record Deque (A : Type 0) : Type 0 where
  pub items : List A
  pub capacity : ℕ

module _ {A : Type 0} where
  abbrev pub with_capacity : ℕ → Deque A
  with_capacity n = record { items = []; capacity = n }

  abbrev pub len : Deque A → ℕ
  len q = length q.items

  abbrev pub clear : Deque A → Deque A
  clear q = record q { items = [] }

  -- A full queue doubles, to 4 at least.
  abbrev pub grown : Deque A → ℕ
  grown q = if ltb (len q) q.capacity then q.capacity else max (2 * q.capacity) (max 4 (len q + 1))

  unfoldable pub push_back : Deque A → A → Deque A
  push_back q a = record { items = q.items ++ (a ∷ []); capacity = grown q }

  abbrev split_front : List A → ℕ → Option A × Deque A
  split_front [] n = (none, record { items = []; capacity = n })
  split_front (a ∷ rest) n = (some a, record { items = rest; capacity = n })

  unfoldable pub pop_front : Deque A → Option A × Deque A
  pop_front q = split_front q.items q.capacity
