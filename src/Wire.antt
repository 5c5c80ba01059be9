-- ===== src/Wire.antt =====
-- Little-endian numbers read and written through `std::io::Cursor` with `byteorder`, whose calls
-- the code unwraps (src/channel/channel_packet_data.rs and src/connection.rs).
use yojimbo_rs.Prelude.{
  ℕ, ◌+◌, ◌-◌, ◌*◌, ◌/◌, ◌%◌, List, [], ◌∷◌, ◌++◌, length, leb, ltb, ◌≡◌, refl, ◌≤◌, arith,
  if◌then◌else◌,
}
use yojimbo_rs.Run.{Run, ok, panic, unwrap_error}
use yojimbo_rs.Result.{Result}

-- A call that returns a `Result`, and may panic. `?` is the bind.
abbrev pub Io : Type 0 → Type 0 → Type 0
Io E A = Run (Result E A)

abbrev pub pure : {E A : Type 0} → A → Io E A
pure a = ok (Result.ok a)

infixl 5 ◌>>=◌ ◌>>◌
abbrev pub ◌>>=◌ : {E A B : Type 0} → Io E A → (A → Io E B) → Io E B
panic p >>= f = panic p
ok (Result.err e) >>= f = ok (Result.err e)
ok (Result.ok a) >>= f = f a

abbrev pub ◌>>◌ : {E B : Type 0} → Io E (Unit {0}) → Io E B → Io E B
m >> k = m >>= (λ _. k)

-- A call that can only panic.
abbrev pub lift : {E A : Type 0} → Run A → Io E A
lift (panic p) = panic p
lift (ok a) = ok (Result.ok a)

-- A cursor over a slice that is written: the bytes before the position, and the room behind it.
pub record Cursor : Type 0 where
  pub written : List ℕ
  pub room : ℕ

abbrev pub put : Cursor → List ℕ → Cursor
put c bytes = record { written = c.written ++ bytes; room = c.room - length bytes }

-- Without the room the write fails, and `unwrap` panics.
abbrev pub write_bytes : Cursor → List ℕ → Run Cursor
write_bytes c bytes = if leb (length bytes) c.room then ok (put c bytes) else panic unwrap_error

-- `value.try_into().unwrap()`
abbrev pub convert : ℕ → ℕ → Run ℕ
convert modulus value = if ltb value modulus then ok value else panic unwrap_error

abbrev pub u8_bytes : ℕ → List ℕ
u8_bytes v = v ∷ []

abbrev pub u16_bytes : ℕ → List ℕ
u16_bytes v = v % 256 ∷ v / 256 % 256 ∷ []

abbrev pub u32_bytes : ℕ → List ℕ
u32_bytes v = v % 256 ∷ v / 256 % 256 ∷ v / 65536 % 256 ∷ v / 16777216 % 256 ∷ []

-- At the end of the stream the read fails, and `unwrap` panics.
abbrev pub read_u8 : List ℕ → Run (ℕ × List ℕ)
read_u8 [] = panic unwrap_error
read_u8 (a ∷ rest) = ok (a, rest)

abbrev pub read_u16 : List ℕ → Run (ℕ × List ℕ)
read_u16 (a ∷ b ∷ rest) = ok (a + 256 * b, rest)
read_u16 _ = panic unwrap_error

abbrev pub read_u32 : List ℕ → Run (ℕ × List ℕ)
read_u32 (a ∷ b ∷ c ∷ d ∷ rest) = ok (a + 256 * b + 65536 * c + 16777216 * d, rest)
read_u32 _ = panic unwrap_error

-- Inversion of a successful bind.
pub >>=-eq-pure :
    {E A B : Type 0} (m : Io E A) (k : A → Io E B) {b : B}
    → (m >>= k) ≡ pure b
    → (a : A) × (m ≡ pure a) × (k a ≡ pure b)
>>=-eq-pure (panic p) k h = cc
>>=-eq-pure (ok (Result.err e)) k h = cc
>>=-eq-pure (ok (Result.ok a)) k h = (a, refl, h)

pub lift-eq-pure :
    {E A : Type 0} (m : Run A) {a : A} → ◌≡◌ {A = Io E A} (lift m) (pure a) → m ≡ ok a
lift-eq-pure (panic p) h = cc
lift-eq-pure (ok a) h = cc

pub write_bytes-ok :
    (c : Cursor) (bytes : List ℕ) {c' : Cursor}
    → write_bytes c bytes ≡ ok c'
    → (c' ≡ put c bytes) × (length bytes ≤ c.room)
write_bytes-ok c bytes h = ground arith
