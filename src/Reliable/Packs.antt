-- ===== src/Reliable/Packs.antt =====
-- `packet_data` of a well-formed reliable channel does not panic (src/channel/reliable.rs).
use yojimbo_rs.Prelude.{
  ℕ, suc, ◌+◌, ◌*◌, ◌%◌, ◌<◌, ◌≤◌, ◌≡◌, refl, ◌∙◌, sym, subst, inl, inr, true, false, List, [], ◌∷◌,
  length, set, min, ltb, ◌==◌, lt→ltb, arith, Bool-cases, length-set,
}
use native.Mathlib.Nat.{mul-le-mul_right, mul_comm, suc-mul, mod-lt}
use yojimbo_rs.Run.{ok}
use yojimbo_rs.Float.{Float}
use yojimbo_rs.Config.{conservative_message_header_bits}
use yojimbo_rs.Word.{u16_modulus}
use yojimbo_rs.SequenceBuffer.{SequenceBuffer, capacity}
use yojimbo_rs.SequenceBuffer.View.{IsValid, get-eq, entry-some}
use yojimbo_rs.SequenceBuffer.Window.{IsRecent}
use yojimbo_rs.SequenceBuffer.Refine.{insert_with-Slides}
use yojimbo_rs.Packet.{ChannelPacketData, empty}
use yojimbo_rs.Reliable.{Reliable, MessageSendQueueEntry, SentPacketEntry, has_messages_to_send}
use yojimbo_rs.Reliable.Send.{
  Gathered, budget_bits, get_messages_to_send, copy_messages, get_message_packet_data, write_ids,
  add_entry_at, add_message_packet_entry, packet_of, packet_data,
}
use yojimbo_rs.Reliable.Rounds.{AllHeld, Returns, gather-Returns}
use yojimbo_rs.Reliable.Budget.{get_messages-FitsIds}

-- What `packet_data` relies on: both queues of the sender are valid, and the sent packets have
-- room for their ids.
pub record IsPacking {F M : Type 0} (r : Reliable F M) : Type 0 where
  pub valid : IsValid r.message_send_queue
  pub sent_valid : IsValid r.sent_packets
  pub sent_recent : IsRecent r.sent_packets
  pub some_packets : 0 < r.config.sent_packet_buffer_size
  pub some_messages : 0 < r.config.max_messages_per_packet
  pub room :
      length r.sent_packet_message_ids
      ≡ r.config.max_messages_per_packet * r.config.sent_packet_buffer_size

write_ids-Returns :
    (ids all : List ℕ) (index : ℕ)
    → index + length ids ≤ length all
    → Returns (λ all'. length all' ≡ length all) (write_ids all index ids)
unfolding write_ids
write_ids-Returns [] all index le = (all, refl, refl)
write_ids-Returns (id ∷ ids) all index le =
    let same = length-set all index id in
    let (all', e, n) = write_ids-Returns ids (set all index id) (index + 1) (omega arith) in
    let inside : ltb index (length all) ≡ true = lt→ltb index (length all) (omega arith) in
    (all', rw inside e, n ∙ same)

module _ {F M : Type 0} where
  copy_messages_returns :
      (queue : SequenceBuffer (MessageSendQueueEntry F M)) (ids : List ℕ)
      → IsValid queue
      → AllHeld queue ids
      → (ms : List (ℕ × M)) × (copy_messages queue ids ≡ ok ms)
  unfolding copy_messages
  copy_messages_returns queue [] v all = ([], refl)
  copy_messages_returns queue (id ∷ ids) v (here, all) =
      let (a, e) = entry-some v id here in
      let (rest, copied) = copy_messages_returns queue ids v all in
      ((id, a.message) ∷ rest, rw (get-eq v id, e, copied))

  add_entry_at-Returns :
      (r : Reliable F M) (ids : List ℕ) (sequence index : ℕ)
      → IsPacking r
      → sequence < u16_modulus
      → index + length ids ≤ length r.sent_packet_message_ids
      → Returns IsPacking (add_entry_at r ids sequence index)
  unfolding add_entry_at
  add_entry_at-Returns r ids sequence index k small inside =
      let a : SentPacketEntry F = record {
        acked = false;
        time_sent = r.time;
        message_ids = (index, length ids);
      } in
      let s = insert_with-Slides sequence a k.sent_valid k.sent_recent small in
      let (all, written, same) = write_ids-Returns ids r.sent_packet_message_ids index inside in
      let with_ids : List ℕ → Reliable F M =
        λ ids'. record r { sent_packets = s.after; sent_packet_message_ids = ids' } in
      let packing : (ids' : List ℕ)
          → length ids' ≡ length r.sent_packet_message_ids
          → IsPacking (with_ids ids') =
        λ ids' n. record {
          valid = k.valid;
          sent_valid = s.valid;
          sent_recent = s.recent;
          some_packets = k.some_packets;
          some_messages = k.some_messages;
          room = n ∙ k.room;
        } in
      elim (Bool-cases s.accepted) [
        | inl taken ↦ (with_ids all, rw (s.returns, taken, written), packing all same)
        | inr refused ↦ (
          with_ids r.sent_packet_message_ids,
          rw (s.returns, refused),
          packing r.sent_packet_message_ids refl,
        )
      ]

-- The ids of the packet in a slot end inside the vector.
slot_end :
    (slot size most count : ℕ) → slot < size → count ≤ most → slot * most + count ≤ most * size
slot_end slot size most count inside few =
    let up : suc slot * most ≤ size * most = mul-le-mul_right most (omega (arith, inside)) in
    let turned = mul_comm size most in let more = suc-mul slot most in omega arith

module _ {F M : Type 0} where
  add_message_packet_entry-Returns :
      (r : Reliable F M) (ids : List ℕ) (sequence : ℕ)
      → IsPacking r
      → sequence < u16_modulus
      → length ids ≤ r.config.max_messages_per_packet
      → Returns IsPacking (add_message_packet_entry r ids sequence)
  unfolding add_message_packet_entry
  add_message_packet_entry-Returns r ids sequence k small few =
      let size = r.config.sent_packet_buffer_size in
      let most = r.config.max_messages_per_packet in
      let index = sequence % size * most in
      let positive = k.some_packets in
      let not_empty : (size == 0) ≡ false = ground arith in
      let fits : index + length ids ≤ length r.sent_packet_message_ids =
        subst (λ n. index + length ids ≤ n) (sym k.room)
          (slot_end (sequence % size) size most (length ids) (mod-lt sequence positive) few) in
      let (r', e, packing) = add_entry_at-Returns r ids sequence index k small fits in
      (r', rw not_empty e, packing)

  packet_of-Returns :
      (r : Reliable F M) (channel_index sequence : ℕ) (ids : List ℕ) (bits : ℕ)
      → IsPacking r
      → sequence < u16_modulus
      → AllHeld r.message_send_queue ids
      → length ids ≤ r.config.max_messages_per_packet
      → Returns (λ x. IsPacking x.0) (packet_of r channel_index sequence ids bits)
  unfolding packet_of get_message_packet_data
  packet_of-Returns r channel_index sequence [] bits k small all few = ((r, empty, 0), refl, k)
  packet_of-Returns r channel_index sequence (id ∷ ids) bits k small all few =
      let (ms, copied) = copy_messages_returns r.message_send_queue (id ∷ ids) k.valid all in
      let (r', e, packing) = add_message_packet_entry-Returns r (id ∷ ids) sequence k small few in
      ((r', record { channel_index = channel_index; messages = ms }, bits), rw (copied, e), packing)

module _ {F M : Type 0} ⦃f : Float F⦄ (r : Reliable F M) where
  get_messages_to_send-Returns :
      (available : ℕ)
      → IsPacking r
      → has_messages_to_send r ≡ true
      → 32 ≤ budget_bits r.config.packet_budget available
      → Returns
          (λ x. IsPacking x.0 × AllHeld x.0.message_send_queue x.1 × (x.0.config ≡ r.config))
          (get_messages_to_send r available)
  unfolding get_messages_to_send
  get_messages_to_send-Returns available k waiting header =
      let limit = min (capacity r.message_receive_queue) (capacity r.message_send_queue) in
      let budget = budget_bits r.config.packet_budget available in
      let start : Gathered F M = record {
        queue = r.message_send_queue;
        used_bits = conservative_message_header_bits;
        give_up_counter = 0;
        message_ids = [];
      } in
      let (g, e, p) =
        gather-Returns r budget limit 0 start
          (record { valid = k.valid; bits = header; held = tt }) in
      (
        (record r { message_send_queue = g.queue }, g.message_ids, g.used_bits),
        rw (waiting, e),
        (
          record {
            valid = p.valid;
            sent_valid = k.sent_valid;
            sent_recent = k.sent_recent;
            some_packets = k.some_packets;
            some_messages = k.some_messages;
            room = k.room;
          },
          p.held,
          refl,
        ),
      )

  -- If the send queue of a reliable channel and its sent packets are valid, the sent packets
  -- recent, the sizes above 0, the vector of packet ids of its size, and the budget holds the
  -- header, then `packet_data` under a u16 packet number returns, without any of its panics, and
  -- leaves the channel so.
  pub packet_data_returns :
      (channel_index sequence available : ℕ)
      → IsPacking r
      → sequence < u16_modulus
      → 32 ≤ budget_bits r.config.packet_budget available
      → (r' : Reliable F M) × (packet : ChannelPacketData M) × (bits : ℕ) × (packet_data r
            channel_index sequence available
          ≡ ok (r', packet, bits))
        × IsPacking r'
  unfolding packet_data
  packet_data_returns channel_index sequence available k small header =
      elim (Bool-cases (has_messages_to_send r)) [
        | inr idle ↦ (r, empty, 0, rw idle, k)
        | inl waiting ↦
            let ((r1, ids, bits), e, (packing, held, same_config)) =
              get_messages_to_send-Returns available k waiting header in
            let (bound, count, numbers) = get_messages-FitsIds r available (r1, ids, bits) e in
            let positive = k.some_messages in
            let few : length ids ≤ r1.config.max_messages_per_packet =
              subst (λ c. length ids ≤ c.max_messages_per_packet) (sym same_config) (omega arith) in
            let ((r', packet, bits'), e', packing') =
              packet_of-Returns r1 channel_index sequence ids bits packing small held few in
            (r', packet, bits', rw (waiting, e) e', packing')
      ]
