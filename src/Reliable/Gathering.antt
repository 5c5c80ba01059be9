-- ===== src/Reliable/Gathering.antt =====
-- The ids that `get_messages_to_send` gathers (src/channel/reliable.rs).
use yojimbo_rs.Prelude.{
  ℕ, ◌<◌, zero, suc, ◌+◌, ◌≤◌, ◌≡◌, subst, ◌⊎◌, inl, inr, max, Bool, Option, none, some, List, [],
  ◌∷◌, ◌++◌, length, ltb, ltb→ge, ◌&&◌, ◌*◌, ◌%◌, leb, arith, Bool-cases, length-append,
}
use yojimbo_rs.Run.{ok, >>=-eq-ok}
use yojimbo_rs.Float.{Float}
use yojimbo_rs.Word.{u16_modulus, wrapping_add}
use yojimbo_rs.SequenceBuffer
use yojimbo_rs.SequenceBuffer.{SequenceBuffer, capacity}
use yojimbo_rs.Reliable.{Reliable, MessageSendQueueEntry}
use yojimbo_rs.Reliable.Send.{
  Gathered, Flow, stop, next, check_limit, consider, gather_entry, gather_step, gather,
}
use yojimbo_rs.Reliable.History.{loop_next-ok}

abbrev pub AllU16 : List ℕ → Type 0
AllU16 [] = Unit
AllU16 (id ∷ ids) = (id < 65536) × AllU16 ids

AllU16-append : (ids : List ℕ) (id : ℕ) → AllU16 ids → id < 65536 → AllU16 (ids ++ (id ∷ []))
AllU16-append [] id all h = (h, tt)
AllU16-append (x ∷ ids) id (hx, all) h = (hx, AllU16-append ids id all h)

-- What holds of the loop's state after it, and, with room for one id more, between its rounds.
pub record Fits {F M : Type 0} (available limit more : ℕ) (g : Gathered F M) : Type 0 where
  pub bits : (length g.message_ids ≡ 0) ⊎ (g.used_bits ≤ available)
  pub count : length g.message_ids + more ≤ max 1 limit
  pub numbers : AllU16 g.message_ids

-- After a round.
abbrev FitsFlow : {F M : Type 0} → ℕ → ℕ → Flow (Gathered F M) → Type 0
FitsFlow available limit (stop g) = Fits available limit 0 g
FitsFlow available limit (next g) = Fits available limit 1 g

module _ {F M : Type 0} ⦃f : Float F⦄ (available limit : ℕ) where
  Fits-stop : (g : Gathered F M) → Fits available limit 1 g → Fits available limit 0 g
  Fits-stop g k = record { bits = k.bits; count = omega (arith, k.count); numbers = k.numbers }

  check_limit-Fits :
      (g : Gathered F M) → Fits available limit 0 g → FitsFlow available limit (check_limit limit g)
  unfolding check_limit
  check_limit-Fits g k = elim (Bool-cases (leb limit (length g.message_ids))) [
    | inl full ↦ rw full k
    | inr room ↦
        rw room
          (record { bits = k.bits; count = ground (arith, room, k.count); numbers = k.numbers })
  ]

module _ {F M : Type 0} ⦃f : Float F⦄ (r : Reliable F M) (available : ℕ) where
  abbrev limit : ℕ
  limit = r.config.max_messages_per_packet

  consider-Fits :
      (id : ℕ) (e : MessageSendQueueEntry F M)
      (write : MessageSendQueueEntry F M → SequenceBuffer (MessageSendQueueEntry F M))
      (g : Gathered F M)
      → id < 65536
      → Fits available limit 1 g
      → FitsFlow available limit (consider r available id e write g)
  unfolding consider
  consider-Fits id e write g small k = elim (Bool-cases due) [
    | inr idle ↦ rw idle (check_limit-Fits available limit g (Fits-stop available limit g k))
    | inl ready ↦ elim (Bool-cases (ltb available (g.used_bits + (e.measured_bits + 2 * 8)))) [
      | inl over ↦ rw (ready, over) (record { bits = k.bits; count = k.count; numbers = k.numbers })
      | inr inside ↦
          rw (ready, inside)
            (check_limit-Fits available limit
              (record {
                queue = write (record e { time_last_sent = r.time });
                used_bits = g.used_bits + (e.measured_bits + 2 * 8);
                give_up_counter = g.give_up_counter;
                message_ids = g.message_ids ++ (id ∷ []);
              })
              (record {
                bits = inr (ltb→ge _ _ inside);
                count = omega (arith, k.count, length-append g.message_ids (id ∷ []));
                numbers = AllU16-append g.message_ids id k.numbers small;
              }))
    ]
  ]
    where
      due : Bool
      due =
          f.le (f.add e.time_last_sent r.config.message_resend_time) r.time
          && leb e.measured_bits available

  gather_entry-Fits :
      (i : ℕ) (g : Gathered F M) (flow : Flow (Gathered F M))
      → Fits available limit 1 g
      → gather_entry r available i g ≡ ok flow
      → FitsFlow available limit flow
  unfolding gather_entry
  gather_entry-Fits i g flow k h =
      let id = wrapping_add r.oldest_unacked_message_id (i % u16_modulus) in
      let (e, _, q) = >>=-eq-ok (SequenceBuffer.get_mut g.queue id) _ h in found e (cc)
    where
      found :
          (e : Option (
            MessageSendQueueEntry F M
            × (MessageSendQueueEntry F M → SequenceBuffer (MessageSendQueueEntry F M))))
          → (elim e [
            | none ↦ next g
            | some (a, write) ↦
                consider r available
                  (wrapping_add r.oldest_unacked_message_id (i % u16_modulus))
                  a
                  write
                  g
          ])
            ≡ flow
          → FitsFlow available limit flow
      found none same = subst (FitsFlow available limit) same k
      found (some (a, write)) same = subst (FitsFlow available limit) same (
          consider-Fits (wrapping_add r.oldest_unacked_message_id (i % u16_modulus)) a write g
            (omega arith) k)

  gather_step-Fits :
      (i : ℕ) (g : Gathered F M) (flow : Flow (Gathered F M))
      → Fits available limit 1 g
      → gather_step r available i g ≡ ok flow
      → FitsFlow available limit flow
  unfolding gather_step
  gather_step-Fits i g flow k h = elim split [
    | inl same ↦ subst (FitsFlow available limit) same (Fits-stop available limit g k)
    | inr e ↦ gather_entry-Fits i g flow k e
  ]
    where
      split : (stop g ≡ flow) ⊎ (gather_entry r available i g ≡ ok flow)
      split = ground arith

  pub gather-Fits :
      (n i : ℕ) (g g' : Gathered F M)
      → Fits available limit 1 g
      → gather r available n i g ≡ ok g'
      → Fits available limit 0 g'
  unfolding gather
  gather-Fits zero i g g' k h =
      let same : g ≡ g' = cc in subst (Fits available limit 0) same (Fits-stop available limit g k)
  gather-Fits (suc n) i g g' k h = elim (loop_next-ok (gather_step r available i g) _ h) [
    | inl e ↦ gather_step-Fits i g (stop g') k e
    | inr (g1, e, rest) ↦ gather-Fits n (i + 1) g1 g' (gather_step-Fits i g (next g1) k e) rest
  ]
