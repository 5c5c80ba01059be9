-- ===== src/Reliable/Due.antt =====
-- The oldest unacked message of a reliable channel is sent again once it is due
-- (`packet_data` in src/channel/reliable.rs).
use yojimbo_rs.Prelude.{
  ℕ, suc, ◌+◌, ◌-◌, ◌*◌, ◌%◌, ◌<◌, ◌≤◌, ◌≡◌, refl, sym, ap, subst, ◌∙◌, inl, inr, true, false, not,
  ◌||◌, Option, none, some, List, [], ◌∷◌, ◌++◌, min, ltb, arith, if_false, some-injective,
}
use yojimbo_rs.Run.{
  Run, ok, ok-injective, ◌>>=◌, >>=-eq-ok, assert, expect_some, unwrap_none, sub_usize,
}
use yojimbo_rs.Float.{Float}
use yojimbo_rs.Config.{conservative_message_header_bits, give_up_bits}
use yojimbo_rs.Word.{u16_modulus, wrapping_add}
use yojimbo_rs.SequenceBuffer
use yojimbo_rs.SequenceBuffer.{SequenceBuffer, capacity}
use yojimbo_rs.SequenceBuffer.View.{IsValid, entry, get_mut-eq}
use yojimbo_rs.Packet.{ChannelPacketData, empty}
use yojimbo_rs.Reliable.{Reliable, MessageSendQueueEntry, has_messages_to_send}
use yojimbo_rs.Reliable.Send.{
  Gathered, Flow, stop, next, consider, gather_entry, gather_step, gather, budget_bits,
  get_messages_to_send, copy_messages, get_message_packet_data, add_message_packet_entry, packet_of,
  packet_data,
}
use yojimbo_rs.Reliable.History.{loop_next-ok}
use yojimbo_rs.Reliable.Loop.{
  EitherWay, is_due, pushed, check_limit-keeps, consider-keeps, gather-keeps,
}

abbrev pub head? : List ℕ → Option ℕ
head? [] = none
head? (x ∷ xs) = some x

head?-append : (xs ys : List ℕ) {x : ℕ} → head? xs ≡ some x → head? (xs ++ ys) ≡ some x
head?-append [] ys h = absurd (cc)
head?-append (x ∷ xs) ys h = h

module _ {F M : Type 0} ⦃f : Float F⦄ (r : Reliable F M) (available : ℕ) where
  -- The first id that was gathered is this one.
  abbrev Begins : ℕ → Gathered F M → Type 0
  Begins first g = head? g.message_ids ≡ some first

  -- A due entry that fits is pushed; it is the first if none was before it.
  consider-first :
      (id : ℕ) (e : MessageSendQueueEntry F M)
      (write : MessageSendQueueEntry F M → SequenceBuffer (MessageSendQueueEntry F M))
      (g : Gathered F M)
      → is_due r available e ≡ true
      → ltb available (g.used_bits + (e.measured_bits + 2 * 8)) ≡ false
      → g.message_ids ≡ []
      → EitherWay (Begins id) (consider r available id e write g)
  unfolding consider
  consider-first id e write g ready inside none_yet =
      rw (ready, inside)
        (check_limit-keeps r available (Begins id) r.config.max_messages_per_packet
          (pushed r available id e write g) (ap (λ ids. head? (ids ++ (id ∷ []))) none_yet))

-- The state before the loop.
abbrev start_of : {F M : Type 0} → Reliable F M → Gathered F M
start_of r = record {
  queue = r.message_send_queue;
  used_bits = conservative_message_header_bits;
  give_up_counter = 0;
  message_ids = [];
}

-- The oldest unacked message is in the send queue, it is due, and it fits.
pub record IsDue {F M : Type 0} ⦃f : Float F⦄ (r : Reliable F M) (available : ℕ) : Type 0 where
  pub valid : IsValid r.message_send_queue
  pub oldest : r.oldest_unacked_message_id < u16_modulus
  pub due_entry : MessageSendQueueEntry F M
  pub queued : entry r.message_send_queue r.oldest_unacked_message_id ≡ some due_entry
  pub due : f.le (f.add due_entry.time_last_sent r.config.message_resend_time) r.time ≡ true
  pub fits : due_entry.measured_bits + 48 ≤ available
  pub worth : 64 ≤ available

module _ {F M : Type 0} ⦃f : Float F⦄ (r : Reliable F M) (available : ℕ)
    (d : IsDue r available) where
  gather_step-first :
      (flow : Flow (Gathered F M))
      → gather_step r available 0 (start_of r) ≡ ok flow
      → EitherWay (Begins r available r.oldest_unacked_message_id) flow
  unfolding gather_step gather_entry
  gather_step-first flow h =
      let id = wrapping_add r.oldest_unacked_message_id (0 % u16_modulus) in
      let same_id : r.oldest_unacked_message_id ≡ id = let o = d.oldest in omega arith in
      let queue = r.message_send_queue in
      let (left, e1, h1) = >>=-eq-ok (sub_usize available conservative_message_header_bits) _ h in
      let full = ltb left give_up_bits || ltb (capacity queue) 0 in
      let room : full ≡ false = let w = d.worth in ground arith in
      let write : MessageSendQueueEntry F M → SequenceBuffer (MessageSendQueueEntry F M) =
        λ a. SequenceBuffer.overwrite queue (id % capacity queue) a in
      let has : entry queue id ≡ some d.due_entry =
        subst (λ x. entry queue x ≡ some d.due_entry) same_id d.queued in
      let reached : SequenceBuffer.get_mut queue id ≡ ok (some (d.due_entry, write)) =
        get_mut-eq d.valid id
        ∙ ap
            (λ x. ok (elim x [
              | none ↦ none
              | some a ↦ some (a, λ a'. SequenceBuffer.overwrite queue (id % capacity queue) a')
            ]))
            has in
      let look : Option (
            MessageSendQueueEntry F M
            × (MessageSendQueueEntry F M → SequenceBuffer (MessageSendQueueEntry F M)))
          → Run (Flow (Gathered F M)) =
        λ x. ok (elim x [
          | none ↦ next (start_of r)
          | some (a, w) ↦ consider r available id a w (start_of r)
        ]) in
      let h2 =
        if_false full (ok (stop (start_of r))) (gather_entry r available 0 (start_of r)) room
        ∙ h1 in
      let step : consider r available id d.due_entry write (start_of r) ≡ flow =
        ok-injective (sym (ap (λ o. o >>= look) reached) ∙ h2) in
      subst (λ x. EitherWay (Begins r available x) flow) (sym same_id)
        (subst (EitherWay (Begins r available id)) step (
          consider-first r available id d.due_entry write (start_of r) (is_due-due) fits_first
            refl))
    where
      is_due-due : is_due r available d.due_entry ≡ true
      is_due-due = let w = d.fits in let t = d.due in rw t (ground arith)

      fits_first :
          ltb available (conservative_message_header_bits + (d.due_entry.measured_bits + 2 * 8))
          ≡ false
      fits_first = let w = d.fits in ground arith

  gather-first :
      (n : ℕ) (g : Gathered F M)
      → gather r available (suc n) 0 (start_of r) ≡ ok g
      → Begins r available r.oldest_unacked_message_id g
  unfolding gather
  gather-first n g h = elim (loop_next-ok (gather_step r available 0 (start_of r)) _ h) [
    | inl e ↦ gather_step-first (stop g) e
    | inr (g1, e, rest) ↦
        let first = r.oldest_unacked_message_id in
        gather-keeps r available (n + 1) (λ i. Begins r available first) (λ i j x le p. p)
          (λ i e write x inside p.
            consider-keeps r available (Begins r available first)
              (wrapping_add first (i % u16_modulus)) e write x p p
              (λ fits. head?-append x.message_ids (wrapping_add first (i % u16_modulus) ∷ []) p))
          n 1 g1 g (omega arith) (gather_step-first (next g1) e) rest
  ]

  pub get_messages_to_send-first :
      (total : ℕ) {r' : Reliable F M} {ids : List ℕ} {bits : ℕ}
      → available ≡ budget_bits r.config.packet_budget total
      → 0 < capacity r.message_receive_queue
      → get_messages_to_send r total ≡ ok (r', ids, bits)
      → head? ids ≡ some r.oldest_unacked_message_id
  unfolding get_messages_to_send
  get_messages_to_send-first total budget open_queue h =
      let limit = min (capacity r.message_receive_queue) (capacity r.message_send_queue) in
      let (_, _, h1) = >>=-eq-ok (assert (has_messages_to_send r)) _ h in
      let (g, gathered, h2) =
        >>=-eq-ok (gather r (budget_bits r.config.packet_budget total) limit 0 (start_of r)) _ h1 in
      let p = d.valid.positive in
      let rounds : limit ≡ suc (limit - 1) = omega arith in
      let begins = gather-first (limit - 1) g (
        subst (λ n. gather r available n 0 (start_of r) ≡ ok g) rounds
          (subst (λ a. gather r a limit 0 (start_of r) ≡ ok g) (sym budget) gathered)) in
      ap head? (sym (ap (λ x. x.1) (ok-injective h2))) ∙ begins

module _ {F M : Type 0} where
  copy_messages-first :
      (queue : SequenceBuffer (MessageSendQueueEntry F M)) (id : ℕ) (ids : List ℕ)
      {messages : List (ℕ × M)}
      → copy_messages queue (id ∷ ids) ≡ ok messages
      → (m : M) × (rest : List (ℕ × M)) × (messages ≡ (id, m) ∷ rest)
  unfolding copy_messages
  copy_messages-first queue id ids h =
      let (e, _, h1) = >>=-eq-ok (SequenceBuffer.get queue id) _ h in
      let (a, _, h2) = >>=-eq-ok (expect_some unwrap_none e) _ h1 in
      let (rest, _, h3) = >>=-eq-ok (copy_messages queue ids) _ h2 in
      (a.message, rest, sym (ok-injective h3))

  packet_of-first :
      (r r' : Reliable F M) (channel_index sequence oldest bits bits' : ℕ) (ids : List ℕ)
      (packet : ChannelPacketData M)
      → head? ids ≡ some oldest
      → packet_of r channel_index sequence ids bits ≡ ok (r', packet, bits')
      → (m : M) × (rest : List (ℕ × M)) × (packet.messages ≡ (oldest, m) ∷ rest)
  unfolding packet_of get_message_packet_data
  packet_of-first r r' channel_index sequence oldest bits bits' [] packet begins h = absurd (cc)
  packet_of-first r r' channel_index sequence oldest bits bits' (id ∷ ids) packet begins h =
      let (p, e, h1) = >>=-eq-ok (get_message_packet_data r channel_index (id ∷ ids)) _ h in
      let (r1, _, h2) = >>=-eq-ok (add_message_packet_entry r (id ∷ ids) sequence) _ h1 in
      let (ms, copied, h3) = >>=-eq-ok (copy_messages r.message_send_queue (id ∷ ids)) _ e in
      let (m, rest, first) = copy_messages-first r.message_send_queue id ids copied in
      let same_packet : packet.messages ≡ ms =
        ap (λ x. x.1.messages) (sym (ok-injective h2))
        ∙ ap (λ x. x.messages) (sym (ok-injective h3)) in
      (m, rest, same_packet ∙ first ∙ ap (λ x. (x, m) ∷ rest) (some-injective begins))

-- If a channel has messages to send, its receive queue has slots, and its oldest unacked message
-- is in its valid send queue, is due at the channel's time, and fits into the budget (which has
-- room for the give-up limit beside the header), then every packet that `packet_data` returns
-- begins with that message's id: it is never put off for a newer one.
pub packet_data-Oldest :
    {F M : Type 0} ⦃f : Float F⦄ (r r' : Reliable F M) (channel_index sequence available bits : ℕ)
    (packet : ChannelPacketData M)
    → has_messages_to_send r ≡ true
    → IsDue r (budget_bits r.config.packet_budget available)
    → 0 < capacity r.message_receive_queue
    → packet_data r channel_index sequence available ≡ ok (r', packet, bits)
    → (m : M) × (rest : List (ℕ × M)) × (packet.messages ≡ (r.oldest_unacked_message_id, m) ∷ rest)
unfolding packet_data
packet_data-Oldest r r' channel_index sequence available bits packet waiting d open_queue h =
    let ((r1, ids, gathered_bits), e, h1) =
      >>=-eq-ok (get_messages_to_send r available) _
        (if_false (not (has_messages_to_send r)) (ok (r, empty, 0)) _ (ap not waiting) ∙ h) in
    packet_of-first r1 r' channel_index sequence r.oldest_unacked_message_id gathered_bits bits ids
      packet
      (get_messages_to_send-first r (budget_bits r.config.packet_budget available) d available refl
        open_queue e)
      h1
