-- ===== src/Foreign/Strings.antt =====
-- Texts as C strings (src/client.rs, src/server.rs).
use yojimbo_rs.Prelude.{
  if_false, ℕ, ◌≡◌, sym, ap, ◌∙◌, inl, inr, ◌==◌, List, [], ◌∷◌, Bool-cases, arith, if◌then◌else◌,
}
use yojimbo_rs.Run.{ok, panic, unwrap_error, ok-injective, ◌>>=◌, >>=-eq-ok}
use yojimbo_rs.Foreign.{c_string, c_strings}

-- A text that becomes a C string is unchanged.
pub c_string-same : (bytes : List ℕ) {bytes' : List ℕ} → c_string bytes ≡ ok bytes' → bytes' ≡ bytes
unfolding c_string
c_string-same [] h = ok-injective (sym h)
c_string-same (b ∷ bytes) {bytes'} h =
    let (rest, e, h1) =
      >>=-eq-ok (c_string bytes) (λ rest. if b == 0 then panic unwrap_error else ok (b ∷ rest)) h in
    elim (Bool-cases (b == 0)) [
      | inl zero_byte ↦ absurd (ground (arith, zero_byte, h1))
      | inr fine ↦
          sym (ok-injective (if_false (b == 0) (panic unwrap_error) (ok (b ∷ rest)) fine ∙ h1))
          ∙ ap (λ r. b ∷ r) (c_string-same bytes e)
    ]

pub c_strings-same :
    (texts : List (List ℕ)) {texts' : List (List ℕ)} → c_strings texts ≡ ok texts' → texts' ≡ texts
unfolding c_strings
c_strings-same [] h = ok-injective (sym h)
c_strings-same (text ∷ texts) h =
    let (first, e, h1) =
      >>=-eq-ok (c_string text) (λ first. do rest ← c_strings texts; ok (first ∷ rest)) h in
    let (rest, e1, h2) = >>=-eq-ok (c_strings texts) (λ rest. ok (first ∷ rest)) h1 in
    sym (ok-injective h2)
    ∙ ap (λ x. x ∷ rest) (c_string-same text e)
    ∙ ap (λ r. text ∷ r) (c_strings-same texts e1)
