-- ===== src/Reliable/Rounds.antt =====
-- The loop of `get_messages_to_send` does not panic (src/channel/reliable.rs), and what it has
-- gathered is in the send queue.
use yojimbo_rs.Prelude.{
  ℕ, zero, suc, ◌+◌, ◌-◌, ◌%◌, ◌≤◌, ◌≡◌, refl, ap, ◌∙◌, inl, inr, true, ◌||◌, some, List, [], ◌∷◌,
  ◌++◌, get_elem?, ltb, leb, ltb→ge, arith, Bool-cases, Option-cases, length-set,
}
use yojimbo_rs.Run.{Run, ok}
use yojimbo_rs.Float.{Float}
use yojimbo_rs.Config.{give_up_bits}
use yojimbo_rs.SequenceBuffer.{SequenceBuffer, capacity, overwrite}
use yojimbo_rs.SequenceBuffer.View.{IsValid, holds, marks, entry, entry-holds, overwrite-IsValid}
use yojimbo_rs.Reliable.{Reliable, MessageSendQueueEntry}
use yojimbo_rs.Reliable.Send.{
  Gathered, Flow, stop, next, loop_next, consider, gather_entry, gather_step, gather,
}
use yojimbo_rs.Reliable.History.{round_id, gather_entry-none, gather_entry-some}
use yojimbo_rs.Reliable.Loop.{EitherWay, consider-keeps}

-- The queue has a message under each of the ids.
abbrev pub AllHeld : {A : Type 0} → SequenceBuffer A → List ℕ → Type 0
AllHeld queue [] = Unit
AllHeld queue (id ∷ ids) = (holds queue id ≡ true) × AllHeld queue ids

module _ {A : Type 0} where
  AllHeld-append :
      (queue : SequenceBuffer A) (ids : List ℕ) (id : ℕ)
      → holds queue id ≡ true
      → AllHeld queue ids
      → AllHeld queue (ids ++ (id ∷ []))
  AllHeld-append queue [] id h all = (h, tt)
  AllHeld-append queue (x ∷ ids) id h (here, all) = (here, AllHeld-append queue ids id h all)

  -- Writing through a reference leaves the numbers of the slots.
  pub holds-overwrite :
      (queue : SequenceBuffer A) (i : ℕ) (a : A) (s : ℕ)
      → holds (overwrite queue i a) s ≡ holds queue s
  holds-overwrite queue i a s =
      ap (λ n. marks (get_elem? queue.entry_sequence (s % n)) s)
        (length-set queue.entries i (some a))

  AllHeld-overwrite :
      (queue : SequenceBuffer A) (i : ℕ) (a : A) (ids : List ℕ)
      → AllHeld queue ids
      → AllHeld (overwrite queue i a) ids
  AllHeld-overwrite queue i a [] all = tt
  AllHeld-overwrite queue i a (id ∷ ids) (here, all) =
      (holds-overwrite queue i a id ∙ here, AllHeld-overwrite queue i a ids all)

-- The state of the loop, between its rounds.
pub record Packs {F M : Type 0} (available : ℕ) (g : Gathered F M) : Type 0 where
  pub valid : IsValid g.queue
  pub bits : g.used_bits ≤ available
  pub held : AllHeld g.queue g.message_ids

-- A call that returns, with a property of what it returns.
abbrev pub Returns : {A : Type 0} → (A → Type 0) → Run A → Type 0
Returns {A = A} P m = (a : A) × (m ≡ ok a) × P a

-- The rest of the loop after a round.
follow :
    {F M : Type 0} (P : Gathered F M → Type 0) (flow : Flow (Gathered F M))
    (rest : Gathered F M → Run (Gathered F M))
    → EitherWay P flow
    → ((g : Gathered F M) → P g → Returns P (rest g))
    → Returns P (loop_next (ok flow) rest)
follow P (stop g) rest p go = (g, refl, p)
follow P (next g) rest p go = go g p

module _ {F M : Type 0} ⦃f : Float F⦄ (r : Reliable F M) (available : ℕ) where
  gather_entry-Returns :
      (i : ℕ) (g : Gathered F M)
      → Packs available g
      → Returns (EitherWay (Packs available)) (gather_entry r available i g)
  gather_entry-Returns i g p = elim (Option-cases (entry g.queue (round_id r i))) [
    | inl e ↦ (next g, gather_entry-none r available i g p.valid e, p)
    | inr (a, e) ↦
        let id = round_id r i in
        let write : MessageSendQueueEntry F M → SequenceBuffer (MessageSendQueueEntry F M) =
          λ a'. overwrite g.queue (id % capacity g.queue) a' in
        let sent : MessageSendQueueEntry F M = record a { time_last_sent = r.time } in
        (
          consider r available id a write g,
          gather_entry-some r available i g a p.valid e,
          consider-keeps r available (Packs available) id a write g p
              (record { valid = p.valid; bits = p.bits; held = p.held })
              (λ fits. record {
                valid = overwrite-IsValid p.valid id sent;
                bits = ltb→ge _ _ fits;
                held =
                    AllHeld-overwrite g.queue (id % capacity g.queue) sent
                      (g.message_ids ++ (id ∷ []))
                      (AllHeld-append g.queue g.message_ids id (entry-holds p.valid id e) p.held);
              }),
        )
  ]

  gather_step-Returns :
      (i : ℕ) (g : Gathered F M)
      → Packs available g
      → Returns (EitherWay (Packs available)) (gather_step r available i g)
  unfolding gather_step
  gather_step-Returns i g p =
      let enough : leb g.used_bits available ≡ true = ground (arith, p.bits) in
      let left = available - g.used_bits in
      let full = ltb left give_up_bits || ltb (capacity g.queue) g.give_up_counter in
      elim (Bool-cases full) [
        | inl over ↦ (stop g, rw (enough, over), p)
        | inr room ↦ let (flow, e, q) = gather_entry-Returns i g p in (flow, rw (enough, room) e, q)
      ]

  pub gather-Returns :
      (n i : ℕ) (g : Gathered F M)
      → Packs available g
      → Returns (Packs available) (gather r available n i g)
  unfolding gather
  gather-Returns zero i g p = (g, refl, p)
  gather-Returns (suc n) i g p =
      let (flow, e, q) = gather_step-Returns i g p in
      let rest : Gathered F M → Run (Gathered F M) = λ g'. gather r available n (i + 1) g' in
      let (g', e', p') =
        follow (Packs available) flow rest q (λ g1 p1. gather-Returns n (i + 1) g1 p1) in
      (g', ap (λ m. loop_next m rest) e ∙ e', p')
