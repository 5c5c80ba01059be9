-- ===== src/Reliable/Loop.antt =====
-- What each round that considers a message keeps, the whole loop of `get_messages_to_send` keeps
-- (src/channel/reliable.rs).
use yojimbo_rs.Prelude.{
  ℕ, ◌*◌, ◌&&◌, Bool, leb, length, [], ◌∷◌, ◌++◌, arith, ◌<◌, ◌≤◌, zero, suc, ◌+◌, ◌%◌, ◌≡◌, false,
  subst, ◌∙◌, inl, inr, ◌||◌, Option, none, some, ltb, Bool-cases, if_true, if_false,
}
use yojimbo_rs.Run.{ok, ok-injective, >>=-eq-ok, sub_usize}
use yojimbo_rs.Float.{Float}
use yojimbo_rs.Config.{give_up_bits}
use yojimbo_rs.Word.{u16_modulus, wrapping_add}
use yojimbo_rs.SequenceBuffer
use yojimbo_rs.SequenceBuffer.{SequenceBuffer, capacity}
use yojimbo_rs.Reliable.{Reliable, MessageSendQueueEntry}
use yojimbo_rs.Reliable.Send.{
  Gathered, Flow, stop, next, check_limit, consider, gather_entry, gather_step, gather,
}
use yojimbo_rs.Reliable.History.{loop_next-ok}

-- A property of the state, whether the loop goes on or not.
abbrev pub EitherWay : {F M : Type 0} → (Gathered F M → Type 0) → Flow (Gathered F M) → Type 0
EitherWay P (stop g) = P g
EitherWay P (next g) = P g

module _ {F M : Type 0} ⦃f : Float F⦄ (r : Reliable F M) (available : ℕ) where
  -- The entry is due and can fit.
  abbrev pub is_due : MessageSendQueueEntry F M → Bool
  is_due e =
      f.le (f.add e.time_last_sent r.config.message_resend_time) r.time
      && leb e.measured_bits available

  -- The state with the entry's id pushed.
  abbrev pub pushed :
      ℕ
      → MessageSendQueueEntry F M
      → (MessageSendQueueEntry F M → SequenceBuffer (MessageSendQueueEntry F M))
      → Gathered F M
      → Gathered F M
  pushed id e write g = record {
    queue = write (record e { time_last_sent = r.time });
    used_bits = g.used_bits + (e.measured_bits + 2 * 8);
    give_up_counter = g.give_up_counter;
    message_ids = g.message_ids ++ (id ∷ []);
  }

  pub check_limit-keeps :
      (P : Gathered F M → Type 0) (limit : ℕ) (g : Gathered F M)
      → P g
      → EitherWay P (check_limit limit g)
  unfolding check_limit
  check_limit-keeps P limit g p = elim (Bool-cases (leb limit (length g.message_ids))) [
    | inl full ↦ rw full p
    | inr room ↦ rw room p
  ]

  -- A round leaves the state, counts a message that does not fit, or pushes one.
  pub consider-keeps :
      (P : Gathered F M → Type 0) (id : ℕ) (e : MessageSendQueueEntry F M)
      (write : MessageSendQueueEntry F M → SequenceBuffer (MessageSendQueueEntry F M))
      (g : Gathered F M)
      → P g
      → P (record g { give_up_counter = g.give_up_counter + 1 })
      → (ltb available (g.used_bits + (e.measured_bits + 2 * 8)) ≡ false → P (pushed id e write g))
      → EitherWay P (consider r available id e write g)
  unfolding consider
  consider-keeps P id e write g same counted with_it = elim (Bool-cases (is_due e)) [
    | inr idle ↦ rw idle (check_limit-keeps P r.config.max_messages_per_packet g same)
    | inl ready ↦ elim (Bool-cases (ltb available (g.used_bits + (e.measured_bits + 2 * 8)))) [
      | inl over ↦ rw (ready, over) counted
      | inr inside ↦
          rw (ready, inside)
            (check_limit-keeps P r.config.max_messages_per_packet (pushed id e write g)
              (with_it inside))
    ]
  ]

-- A property of the state before round `i`, of the rounds before the given number.
module _ {F M : Type 0} ⦃f : Float F⦄ (r : Reliable F M) (available rounds : ℕ)
    (P : ℕ → Gathered F M → Type 0) (later : (i j : ℕ) (g : Gathered F M) → i ≤ j → P i g → P j g)
    (considered : (i : ℕ) (e : MessageSendQueueEntry F M)
        (write : MessageSendQueueEntry F M → SequenceBuffer (MessageSendQueueEntry F M))
        (g : Gathered F M)
      → i < rounds
      → P i g
      → EitherWay (P (i + 1)) (
          consider r available
            (wrapping_add r.oldest_unacked_message_id (i % u16_modulus))
            e
            write
            g)) where
  found :
      (i : ℕ) (g : Gathered F M)
      (e : Option (
        MessageSendQueueEntry F M
        × (MessageSendQueueEntry F M → SequenceBuffer (MessageSendQueueEntry F M))))
      → i < rounds
      → P i g
      → EitherWay (P (i + 1)) (elim e [
        | none ↦ next g
        | some (a, write) ↦
            consider r available
              (wrapping_add r.oldest_unacked_message_id (i % u16_modulus))
              a
              write
              g
      ])
  found i g none inside p = later i (i + 1) g (omega arith) p
  found i g (some (a, write)) inside p = considered i a write g inside p

  gather_step-keeps :
      (i : ℕ) (g : Gathered F M) (flow : Flow (Gathered F M))
      → i < rounds
      → P i g
      → gather_step r available i g ≡ ok flow
      → EitherWay (P (i + 1)) flow
  unfolding gather_step gather_entry
  gather_step-keeps i g flow inside p h =
      let id = wrapping_add r.oldest_unacked_message_id (i % u16_modulus) in
      let (left, _, h1) = >>=-eq-ok (sub_usize available g.used_bits) _ h in
      let full = ltb left give_up_bits || ltb (capacity g.queue) g.give_up_counter in
      elim (Bool-cases full) [
        | inl enough ↦
            subst (EitherWay (P (i + 1)))
              (ok-injective (if_true full (ok (stop g)) (gather_entry r available i g) enough ∙ h1))
              (later i (i + 1) g (omega arith) p)
        | inr room ↦
            let (e, _, h2) =
              >>=-eq-ok (SequenceBuffer.get_mut g.queue id) _
                (if_false full (ok (stop g)) (gather_entry r available i g) room ∙ h1) in
            subst (EitherWay (P (i + 1))) (ok-injective h2) (found i g e inside p)
      ]

  pub gather-keeps :
      (n i : ℕ) (g g' : Gathered F M)
      → i + n ≤ rounds
      → P i g
      → gather r available n i g ≡ ok g'
      → P rounds g'
  unfolding gather
  gather-keeps zero i g g' inside p h =
      subst (P rounds) (ok-injective h) (later i rounds g (omega (arith, inside)) p)
  gather-keeps (suc n) i g g' inside p h = elim (loop_next-ok (gather_step r available i g) _ h) [
    | inl e ↦
        later (i + 1) rounds g' (omega (arith, inside))
          (gather_step-keeps i g (stop g') (omega (arith, inside)) p e)
    | inr (g1, e, rest) ↦
        gather-keeps n (i + 1) g1 g' (omega (arith, inside))
          (gather_step-keeps i g (next g1) (omega (arith, inside)) p e) rest
  ]
