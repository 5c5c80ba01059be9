-- ===== src/Reliable/History.antt =====
-- A queue against the list of all messages that were ever sent: the entry for an id holds the
-- message that was sent under that id. What `packet_data` and `process_ack` do to the send queue
-- keeps this, and the packets carry nothing else (src/channel/reliable.rs).
use yojimbo_rs.Prelude.{
  ℕ, zero, suc, ◌+◌, ◌%◌, ◌≡◌, refl, sym, subst, ◌⊎◌, inl, inr, none, some, List, [], ◌∷◌,
  get_elem?, arith, Option-cases,
}
use yojimbo_rs.Run.{Run, ok, panic}
use yojimbo_rs.Float.{Float}
use yojimbo_rs.Word.{u16_modulus, wrapping_add}
use yojimbo_rs.SequenceBuffer.{SequenceBuffer, capacity, overwrite, vacate}
use yojimbo_rs.SequenceBuffer.View.{
  IsValid, entry, get_mut-eq, entry-holds, entry-overwrite, overwrite-IsValid, entry-vacate,
  vacate-IsValid,
}
use yojimbo_rs.Reliable.{Reliable, MessageSendQueueEntry}
use yojimbo_rs.Reliable.Send.{
  Gathered, Flow, stop, next, loop_next, check_limit, consider, gather_entry, gather_step, gather,
}

-- A valid queue whose entries hold the messages of the history, at their ids.
pub record Tracks {A M : Type 0} (message : A → M) (history : List M) (queue : SequenceBuffer A)
    : Type 0 where
  pub valid : IsValid queue
  pub tracks : (t : ℕ) (e : A) → entry queue t ≡ some e → get_elem? history t ≡ some (message e)

-- Each message is the one that was sent under its id.
abbrev pub FromHistory : {M : Type 0} → List M → List (ℕ × M) → Type 0
FromHistory history [] = Unit
FromHistory history ((id, message) ∷ rest) =
    (get_elem? history id ≡ some message) × FromHistory history rest

module _ {A M : Type 0} {message : A → M} {history : List M} {queue : SequenceBuffer A}
    (k : Tracks message history queue) where
  pub Tracks-overwrite :
      (s : ℕ) (a a' : A)
      → entry queue s ≡ some a
      → message a' ≡ message a
      → Tracks message history (overwrite queue (s % capacity queue) a')
  Tracks-overwrite s a a' here same = record {
    valid = overwrite-IsValid k.valid s a';
    tracks = λ t e h. ground (
      arith,
      entry-overwrite k.valid s t a' (entry-holds k.valid s here),
      k.tracks t e,
      k.tracks s a here,
    );
  }

  pub Tracks-vacate : (s : ℕ) → Tracks message history (vacate queue (s % capacity queue))
  Tracks-vacate s = record {
    valid = vacate-IsValid k.valid s;
    tracks = λ t e h. ground (arith, entry-vacate k.valid s t, k.tracks t e);
  }

abbrev flow_queue :
    {F M : Type 0} → Flow (Gathered F M) → SequenceBuffer (MessageSendQueueEntry F M)
flow_queue (stop g) = g.queue
flow_queue (next g) = g.queue

abbrev pub sent_message : {F M : Type 0} → MessageSendQueueEntry F M → M
sent_message e = e.message

pub loop_next-ok :
    {A : Type 0} (m : Run (Flow A)) (rest : A → Run A) {b : A}
    → loop_next m rest ≡ ok b
    → (m ≡ ok (stop b)) ⊎ ((a : A) × (m ≡ ok (next a)) × (rest a ≡ ok b))
loop_next-ok (panic p) rest h = cc
loop_next-ok (ok (stop a)) rest h = inl (cc)
loop_next-ok (ok (next a)) rest h = inr (a, refl, h)

module _ {F M : Type 0} ⦃f : Float F⦄ where
  -- The id of round `i`.
  abbrev pub round_id : Reliable F M → ℕ → ℕ
  round_id r i = wrapping_add r.oldest_unacked_message_id (i % u16_modulus)

  pub gather_entry-none :
      (r : Reliable F M) (available i : ℕ) (g : Gathered F M)
      → IsValid g.queue
      → entry g.queue (round_id r i) ≡ none
      → gather_entry r available i g ≡ ok (next g)
  unfolding gather_entry
  gather_entry-none r available i g v e = rw (get_mut-eq v (round_id r i), e)

  pub gather_entry-some :
      (r : Reliable F M) (available i : ℕ) (g : Gathered F M) (a : MessageSendQueueEntry F M)
      → IsValid g.queue
      → entry g.queue (round_id r i) ≡ some a
      → gather_entry r available i g
        ≡ ok (
            consider r available
              (round_id r i)
              a
              (λ a'. overwrite g.queue (round_id r i % capacity g.queue) a')
              g)
  unfolding gather_entry
  gather_entry-some r available i g a v e = rw (get_mut-eq v (round_id r i), e)

module _ {F M : Type 0} ⦃f : Float F⦄ (history : List M) where
  abbrev pub Kept : SequenceBuffer (MessageSendQueueEntry F M) → Type 0
  Kept = Tracks sent_message history

  consider_queue :
      (r : Reliable F M) (available id : ℕ) (e : MessageSendQueueEntry F M)
      (write : MessageSendQueueEntry F M → SequenceBuffer (MessageSendQueueEntry F M))
      (g : Gathered F M)
      → (flow_queue (consider r available id e write g) ≡ g.queue)
        ⊎ (flow_queue (consider r available id e write g)
            ≡ write (record e { time_last_sent = r.time }))
  unfolding consider check_limit
  consider_queue r available id e write g = ground arith

  gather_entry_keeps :
      (r : Reliable F M) (available i : ℕ) (g : Gathered F M) (flow : Flow (Gathered F M))
      → Kept g.queue
      → gather_entry r available i g ≡ ok flow
      → Kept (flow_queue flow)
  gather_entry_keeps r available i g flow k h = elim (Option-cases (entry g.queue (round_id r i))) [
    | inl e ↦
        let same : next g ≡ flow = cc (gather_entry-none r available i g k.valid e) in
        subst (λ w. Kept (flow_queue w)) same k
    | inr (a, e) ↦
        let write = λ (a' : MessageSendQueueEntry F M).
          overwrite g.queue (round_id r i % capacity g.queue) a' in
        let same : consider r available (round_id r i) a write g ≡ flow =
          cc (gather_entry-some r available i g a k.valid e) in
        subst (λ w. Kept (flow_queue w)) same
          (elim (consider_queue r available (round_id r i) a write g) [
            | inl q ↦ subst Kept (sym q) k
            | inr q ↦ subst Kept (sym q) (Tracks-overwrite k (round_id r i) a _ e refl)
          ])
  ]

  gather_step_keeps :
      (r : Reliable F M) (available i : ℕ) (g : Gathered F M) (flow : Flow (Gathered F M))
      → Kept g.queue
      → gather_step r available i g ≡ ok flow
      → Kept (flow_queue flow)
  unfolding gather_step
  gather_step_keeps r available i g flow k h = elim split [
    | inl same ↦ subst (λ w. Kept (flow_queue w)) same k
    | inr e ↦ gather_entry_keeps r available i g flow k e
  ]
    where
      split : (stop g ≡ flow) ⊎ (gather_entry r available i g ≡ ok flow)
      split = ground arith

  pub gather_keeps :
      (r : Reliable F M) (available n i : ℕ) (g g' : Gathered F M)
      → Kept g.queue
      → gather r available n i g ≡ ok g'
      → Kept g'.queue
  unfolding gather
  gather_keeps r available zero i g g' k h =
      let same : g ≡ g' = cc in subst (λ (w : Gathered F M). Kept w.queue) same k
  gather_keeps r available (suc n) i g g' k h =
      elim (loop_next-ok (gather_step r available i g) _ h) [
        | inl e ↦ gather_step_keeps r available i g (stop g') k e
        | inr (g1, e, rest) ↦
            gather_keeps r available n (i + 1) g1 g'
              (gather_step_keeps r available i g (next g1) k e) rest
      ]
