-- ===== src/Reliable/Rising.antt =====
-- The ids of a packet are in the order of the window (`get_messages_to_send` in
-- src/channel/reliable.rs).
use yojimbo_rs.Prelude.{
  ℕ, ◌+◌, ◌%◌, ◌<◌, ◌≤◌, ◌≡◌, refl, sym, ap, subst, ◌∙◌, inr, false, some, Option, List, [], ◌∷◌,
  ◌++◌, min, arith, ◌==◌, if◌then◌else◌,
}
use yojimbo_rs.Run.{ok, ok-injective, >>=-eq-ok, assert, expect_some, unwrap_none}
use yojimbo_rs.Float.{Float}
use yojimbo_rs.Config.{conservative_message_header_bits}
use yojimbo_rs.Word.{u16_modulus, wrapping_add, wrapping_sub}
use yojimbo_rs.SequenceBuffer
use yojimbo_rs.SequenceBuffer.{SequenceBuffer, capacity}
use yojimbo_rs.Reliable.{Reliable, MessageSendQueueEntry, has_messages_to_send}
use yojimbo_rs.Reliable.Send.{Gathered, gather, budget_bits, get_messages_to_send, copy_messages}
use yojimbo_rs.Reliable.Loop.{consider-keeps, gather-keeps}
use yojimbo_rs.Reliable.InWindow.{AllExpected, brought}

-- The ids are u16 numbers in the order of their distance from the first one, which is at least
-- `low` and less than `high`.
abbrev pub Rising : ℕ → ℕ → ℕ → List ℕ → Type 0
Rising first low high [] = low ≤ high
Rising first low high (id ∷ ids) =
    (id < u16_modulus)
    × (low ≤ wrapping_sub id first)
    × Rising first (wrapping_sub id first + 1) high ids

Rising-wider :
    (first low high high' : ℕ) (ids : List ℕ)
    → high ≤ high'
    → Rising first low high ids
    → Rising first low high' ids
Rising-wider first low high high' [] le h = omega (arith, le, h)
Rising-wider first low high high' (id ∷ ids) le (small, above, rest) =
    (small, above, Rising-wider first (wrapping_sub id first + 1) high high' ids le rest)

Rising-append :
    (first low high id : ℕ) (ids : List ℕ)
    → id < u16_modulus
    → wrapping_sub id first ≡ high
    → Rising first low high ids
    → Rising first low (high + 1) (ids ++ (id ∷ []))
Rising-append first low high id [] small at h = (small, omega (arith, at, h), omega (arith, at))
Rising-append first low high id (x ∷ ids) small at (x_small, above, rest) =
    (x_small, above, Rising-append first (wrapping_sub x first + 1) high id ids small at rest)

Rising-bound : (first low high : ℕ) (ids : List ℕ) → Rising first low high ids → low ≤ high
Rising-bound first low high [] h = h
Rising-bound first low high (id ∷ ids) (small, above, rest) =
    let b = Rising-bound first (wrapping_sub id first + 1) high ids rest in omega (arith, b, above)

module _ {F M : Type 0} ⦃f : Float F⦄ where
  -- The state before round `i`.
  abbrev Before : Reliable F M → ℕ → Gathered F M → Type 0
  Before r i g = Rising r.oldest_unacked_message_id 0 i g.message_ids

  gather-Rising :
      (r : Reliable F M) (available rounds : ℕ) (g g' : Gathered F M)
      → r.oldest_unacked_message_id < u16_modulus
      → rounds < 32768
      → g.message_ids ≡ []
      → gather r available rounds 0 g ≡ ok g'
      → Rising r.oldest_unacked_message_id 0 rounds g'.message_ids
  gather-Rising r available rounds g g' oldest few none_yet h =
      let first = r.oldest_unacked_message_id in
      gather-keeps r available rounds (Before r)
        (λ i j x le p. Rising-wider first 0 i j x.message_ids le p)
        (λ i e write x inside p.
          let id = wrapping_add first (i % u16_modulus) in
          let still = Rising-wider first 0 i (i + 1) x.message_ids (omega arith) p in
          consider-keeps r available (Before r (i + 1)) id e write x still still
            (λ fits. Rising-append first 0 i id x.message_ids (omega arith) (omega arith) p))
        rounds 0 g g' (omega arith) (subst (Rising first 0 0) (sym none_yet) (omega arith)) h

  pub get_messages_to_send-Rising :
      (r : Reliable F M) (total : ℕ) {r' : Reliable F M} {ids : List ℕ} {bits : ℕ}
      → r.oldest_unacked_message_id < u16_modulus
      → capacity r.message_receive_queue < 32768
      → get_messages_to_send r total ≡ ok (r', ids, bits)
      → Rising r.oldest_unacked_message_id 0 (capacity r.message_receive_queue) ids
  unfolding get_messages_to_send
  get_messages_to_send-Rising r total {ids = ids} oldest narrow h =
      let first = r.oldest_unacked_message_id in
      let limit = min (capacity r.message_receive_queue) (capacity r.message_send_queue) in
      let start : Gathered F M = record {
        queue = r.message_send_queue;
        used_bits = conservative_message_header_bits;
        give_up_counter = 0;
        message_ids = [];
      } in
      let (_, _, h1) = >>=-eq-ok (assert (has_messages_to_send r)) _ h in
      let (g, gathered, h2) =
        >>=-eq-ok (gather r (budget_bits r.config.packet_budget total) limit 0 start) _ h1 in
      let rising =
        gather-Rising r (budget_bits r.config.packet_budget total) limit start g oldest
          (omega (arith, narrow)) refl gathered in
      subst (Rising first 0 (capacity r.message_receive_queue)) (ap (λ x. x.1) (ok-injective h2)) (
        Rising-wider first 0 limit (capacity r.message_receive_queue) g.message_ids (omega arith)
          rising)

module _ {F M : Type 0} (queue : SequenceBuffer (MessageSendQueueEntry F M)) (first : ℕ) where
  -- The messages of such ids are those that a receiver which waits for the first one expects.
  pub copy_messages-AllExpected :
      (low high size : ℕ) (ids : List ℕ) (ms : List (ℕ × M))
      → high ≤ size
      → Rising first low high ids
      → copy_messages queue ids ≡ ok ms
      → AllExpected first size ms
  unfolding copy_messages
  copy_messages-AllExpected low high size [] ms le rising h =
      subst (AllExpected first size) (ok-injective h) tt
  copy_messages-AllExpected low high size (id ∷ ids) ms le (small, above, rising) h =
      let (e, _, h1) = >>=-eq-ok (SequenceBuffer.get queue id) _ h in
      let (a, _, h2) = >>=-eq-ok (expect_some unwrap_none e) _ h1 in
      let (rest, copied, h3) = >>=-eq-ok (copy_messages queue ids) _ h2 in
      let bound = Rising-bound first (wrapping_sub id first + 1) high ids rising in
      subst (AllExpected first size) (ok-injective h3) (
        small,
        inr (omega (arith, bound, le)),
        copy_messages-AllExpected (wrapping_sub id first + 1) high size ids rest le rising copied,
      )

  -- None of them is the first one again.
  pub copy_messages-brought :
      (low high : ℕ) (ids : List ℕ) (ms : List (ℕ × M)) (old : Option M)
      → 0 < low
      → first < u16_modulus
      → Rising first low high ids
      → copy_messages queue ids ≡ ok ms
      → brought first ms old ≡ old
  unfolding copy_messages
  copy_messages-brought low high [] ms old positive first_u16 rising h =
      ap (λ x. brought first x old) (sym (ok-injective h))
  copy_messages-brought low high (id ∷ ids) ms old positive first_u16 (small, above, rising) h =
      let (e, _, h1) = >>=-eq-ok (SequenceBuffer.get queue id) _ h in
      let (a, _, h2) = >>=-eq-ok (expect_some unwrap_none e) _ h1 in
      let (rest, copied, h3) = >>=-eq-ok (copy_messages queue ids) _ h2 in
      let other : (id == first) ≡ false = ground arith in
      let further =
        copy_messages-brought (wrapping_sub id first + 1) high ids rest old (omega arith) first_u16
          rising copied in
      ap (λ x. brought first x old) (sym (ok-injective h3))
      ∙ ap (λ b. brought first rest (if b then some a.message else old)) other
      ∙ further
