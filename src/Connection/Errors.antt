-- ===== src/Connection/Errors.antt =====
-- How an error of a channel reaches its connection (src/connection.rs).
use yojimbo_rs.Prelude.{
  ◌≡◌, refl, ap, inl, inr, Bool, false, ◌||◌, List, [], ◌∷◌, map, arith, Bool-cases,
}
use yojimbo_rs.Float.{Float}
use yojimbo_rs.ErrorLevel.{is_error}
use yojimbo_rs.Channel
use yojimbo_rs.Channel.{Channel}
use yojimbo_rs.Connection.{Connection, advance_channels, advance_time}

module _ {F M : Type 0} where
  -- Some channel is in an error state.
  abbrev pub any_error : List (Channel F M) → Bool
  any_error [] = false
  any_error (c ∷ cs) = is_error c.error_level || any_error cs

  advance_channels-failed :
      (cs : List (Channel F M)) (t : F) → (advance_channels cs t).1 ≡ any_error cs
  unfolding advance_channels Channel.advance_time
  advance_channels-failed [] t = refl
  advance_channels-failed (c ∷ cs) t = elim (Bool-cases (is_error c.error_level)) [
    | inl bad ↦ rw bad
    | inr fine ↦ rw fine (advance_channels-failed cs t)
  ]

  advance_channels-all :
      (cs : List (Channel F M)) (t : F)
      → any_error cs ≡ false
      → (advance_channels cs t).0 ≡ map (λ c. Channel.advance_time c t) cs
  unfolding advance_channels Channel.advance_time
  advance_channels-all [] t h = refl
  advance_channels-all (c ∷ cs) t h = elim (Bool-cases (is_error c.error_level)) [
    | inl bad ↦ absurd (ground (arith, bad, h))
    | inr fine ↦
        rw fine (ap (λ r. Channel.advance_time c t ∷ r) (advance_channels-all cs t (rw fine at h)))
  ]

  -- If no channel is in an error state, `advance_time` advances every channel and leaves the error
  -- level alone.
  advance_time_all :
      (c : Connection F M) (t : F)
      → any_error c.channels ≡ false
      → advance_time c t ≡ record c { channels = map (λ x. Channel.advance_time x t) c.channels }
  unfolding advance_time
  advance_time_all c t h =
      rw (advance_channels-failed c.channels t, h, advance_channels-all c.channels t h)
