-- ===== src/Run.antt =====
-- Panics as values: what `assert!`, `panic!`, `unwrap`, `expect`, an index out of bounds, an
-- overflow (with overflow checks on) and a remainder by zero make of a call.
use yojimbo_rs.Prelude.{
  ℕ, ◌-◌, leb, if◌then◌else◌, ◌≡◌, refl, Bool, true, false, Option, none, some,
}

pub data Panic : Type 0 where
  assertion unwrap_none unwrap_error index_out_of_bounds overflow remainder_by_zero : Panic
  -- `gen_range` of `rand` on a range whose size overflows.
  range_overflow : Panic
  -- The two panics of `Reliable::process_packet_data`.
  desync_newer desync_older : Panic
  -- No panic of the program: a C library is called with a null pointer.
  null_pointer : Panic
  -- No panic of the program: a loop of the model has used up its fuel.
  out_of_fuel : Panic

pub data Run {ℓ} (A : Type ℓ) : Type ℓ where
  ok : A → Run A
  panic : Panic → Run A

infixl 5 ◌>>=◌ ◌>>◌
-- A panic ends the call; what follows it does not run.
abbrev pub ◌>>=◌ {ℓ κ} : {A : Type ℓ} {B : Type κ} → Run A → (A → Run B) → Run B
panic why >>= next = panic why
ok result >>= next = next result

abbrev pub ◌>>◌ {ℓ} : {B : Type ℓ} → Run (Unit {0}) → Run B → Run B
first >> second = first >>= (λ _. second)

abbrev pub assert : Bool → Run (Unit {0})
assert true = ok tt
assert false = panic assertion

abbrev pub expect_some {ℓ} : {A : Type ℓ} → Panic → Option A → Run A
expect_some p none = panic p
expect_some p (some a) = ok a

pub >>=-eq-ok {ℓ κ} :
    {A : Type ℓ} {B : Type κ} (first : Run A) (next : A → Run B) {end : B}
    → (first >>= next) ≡ ok end
    → (result : A) × (first ≡ ok result) × (next result ≡ ok end)
>>=-eq-ok (panic why) next h = cc
>>=-eq-ok (ok result) next h = (result, refl, h)

pub >>=_assoc {ℓ} :
    {A B C : Type ℓ} (first : Run A) (next : A → Run B) (last : B → Run C)
    → ((first >>= next) >>= last) ≡ (first >>= (λ a. next a >>= last))
>>=_assoc (panic why) next last = refl
>>=_assoc (ok a) next last = refl

pub >>=_cong {ℓ} :
    {A B : Type ℓ} (first : Run A) (next other : A → Run B)
    → ((a : A) → next a ≡ other a)
    → (first >>= next) ≡ (first >>= other)
>>=_cong (panic why) next other h = refl
>>=_cong (ok a) next other h = h a

pub >>=_cong-ok {ℓ} :
    {A B : Type ℓ} (first : Run A) (next other : A → Run B)
    → ((a : A) → first ≡ ok a → next a ≡ other a)
    → (first >>= next) ≡ (first >>= other)
>>=_cong-ok (panic why) next other h = refl
>>=_cong-ok (ok a) next other h = h a refl

pub ok-injective {ℓ} : {A : Type ℓ} {a b : A} → ◌≡◌ {A = Run A} (ok a) (ok b) → a ≡ b
ok-injective h = cc

-- `option.map(f)`, where `f` may panic.
abbrev pub map_run {ℓ κ} : {A : Type ℓ} {B : Type κ} → (A → Run B) → Option A → Run (Option B)
map_run f none = ok none
map_run f (some a) = f a >>= (λ b. ok (some b))

-- `usize` subtraction with overflow checks.
abbrev pub sub_usize : ℕ → ℕ → Run ℕ
sub_usize a b = if leb b a then ok (a - b) else panic overflow
