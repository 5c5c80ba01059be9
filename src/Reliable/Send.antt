-- ===== src/Reliable/Send.antt =====
-- How a reliable channel fills a packet (src/channel/reliable.rs): `packet_data` and its parts.
use yojimbo_rs.Prelude.{
  ℕ, zero, suc, ◌+◌, ◌*◌, ◌%◌, min, false, not, ◌&&◌, ◌||◌, Option, none, some, List, [], ◌∷◌, ◌++◌,
  length, set, ltb, leb, ◌==◌, if◌then◌else◌,
}
use yojimbo_rs.Run.{
  Run, ok, panic, ◌>>=◌, ◌>>◌, assert, expect_some, sub_usize, unwrap_none, index_out_of_bounds,
  remainder_by_zero,
}
use yojimbo_rs.Float.{Float}
use yojimbo_rs.Config.{conservative_message_header_bits, give_up_bits}
use yojimbo_rs.Word.{wrapping_add, u16_modulus}
use yojimbo_rs.SequenceBuffer
use yojimbo_rs.SequenceBuffer.{SequenceBuffer, capacity, sequence_pointer}
use yojimbo_rs.Packet.{ChannelPacketData, empty}
use yojimbo_rs.Reliable.{Reliable, MessageSendQueueEntry, has_messages_to_send}

abbrev pub budget_bits : Option ℕ → ℕ → ℕ
budget_bits none available = available
budget_bits (some bytes) available = min (bytes * 8) available

-- The loop of the callback in `add_message_packet_entry`.
unfoldable pub write_ids : List ℕ → ℕ → List ℕ → Run (List ℕ)
write_ids all index [] = ok all
write_ids all index (id ∷ ids) =
    let rest = write_ids (set all index id) (index + 1) ids in
    if ltb index (length all) then rest else panic index_out_of_bounds

-- The loop of `get_messages_to_send`: what it has gathered, and whether it goes on.
pub record Gathered (F M : Type 0) : Type 0 where
  pub queue : SequenceBuffer (MessageSendQueueEntry F M)
  pub used_bits : ℕ
  pub give_up_counter : ℕ
  -- In the order of the pushes.
  pub message_ids : List ℕ

pub data Flow (A : Type 0) : Type 0 where
  stop next : A → Flow A

-- What a round of the loop makes of the rest: `break` or `continue`.
abbrev pub loop_next : {A : Type 0} → Run (Flow A) → (A → Run A) → Run A
loop_next (panic p) rest = panic p
loop_next (ok (stop a)) rest = ok a
loop_next (ok (next a)) rest = rest a

module _ {F M : Type 0} ⦃f : Float F⦄ where
  -- The end of the loop's body.
  unfoldable pub check_limit : ℕ → Gathered F M → Flow (Gathered F M)
  check_limit limit g = if leb limit (length g.message_ids) then stop g else next g

  -- The body of the loop for an entry of the send queue.
  unfoldable pub consider :
      Reliable F M
      → ℕ
      → ℕ
      → MessageSendQueueEntry F M
      → (MessageSendQueueEntry F M → SequenceBuffer (MessageSendQueueEntry F M))
      → Gathered F M
      → Flow (Gathered F M)
  unfolding check_limit
  consider r available id entry write g =
      if f.le (f.add entry.time_last_sent r.config.message_resend_time) r.time
        && leb entry.measured_bits available
      then if ltb available (g.used_bits + (entry.measured_bits + 2 * 8))
        then next (record g { give_up_counter = g.give_up_counter + 1 })
        else check_limit r.config.max_messages_per_packet (record {
          queue = write (record entry { time_last_sent = r.time });
          used_bits = g.used_bits + (entry.measured_bits + 2 * 8);
          give_up_counter = g.give_up_counter;
          message_ids = g.message_ids ++ (id ∷ []);
        })
      else check_limit r.config.max_messages_per_packet g

  -- The body of the loop past its first two tests.
  unfoldable pub gather_entry : Reliable F M → ℕ → ℕ → Gathered F M → Run (Flow (Gathered F M))
  gather_entry r available i g = do
    let id = wrapping_add r.oldest_unacked_message_id (i % u16_modulus)
    e ← SequenceBuffer.get_mut g.queue id
    ok (elim e [ none ↦ next g | some (entry, write) ↦ consider r available id entry write g ])

  -- `available_bits - used_bits` is a `usize` subtraction.
  unfoldable pub gather_step : Reliable F M → ℕ → ℕ → Gathered F M → Run (Flow (Gathered F M))
  gather_step r available i g = do
    left ← sub_usize available g.used_bits
    if ltb left give_up_bits || ltb (capacity g.queue) g.give_up_counter
        then ok (stop g)
        else gather_entry r available i g

  -- `n` more rounds from round `i`.
  unfoldable pub gather : Reliable F M → ℕ → ℕ → ℕ → Gathered F M → Run (Gathered F M)
  gather r available zero i g = ok g
  gather r available (suc n) i g =
      loop_next (gather_step r available i g) (λ g'. gather r available n (i + 1) g')

  -- The channel afterwards, the ids and the bits used.
  unfoldable pub get_messages_to_send : Reliable F M → ℕ → Run (Reliable F M × List ℕ × ℕ)
  get_messages_to_send r available_bits = do
    assert (has_messages_to_send r)
    let limit = min (capacity r.message_receive_queue) (capacity r.message_send_queue)
    g ← gather r (budget_bits r.config.packet_budget available_bits) limit 0 (record {
      queue = r.message_send_queue;
      used_bits = conservative_message_header_bits;
      give_up_counter = 0;
      message_ids = [];
    })
    ok (record r { message_send_queue = g.queue }, g.message_ids, g.used_bits)

module _ {F M : Type 0} where
  -- The loop of `get_message_packet_data`.
  unfoldable pub copy_messages :
      SequenceBuffer (MessageSendQueueEntry F M) → List ℕ → Run (List (ℕ × M))
  copy_messages queue [] = ok []
  copy_messages queue (id ∷ ids) = do
    e ← SequenceBuffer.get queue id
    entry ← expect_some unwrap_none e
    rest ← copy_messages queue ids
    ok ((id, entry.message) ∷ rest)

  unfoldable pub get_message_packet_data : Reliable F M → ℕ → List ℕ → Run (ChannelPacketData M)
  get_message_packet_data r channel_index message_ids = do
    messages ← copy_messages r.message_send_queue message_ids
    ok (record { channel_index = channel_index; messages = messages })

  -- The insertion of `add_message_packet_entry`, where `index` is the start of the ids. They are
  -- written only if the callback of `insert_with` runs.
  unfoldable pub add_entry_at : Reliable F M → List ℕ → ℕ → ℕ → Run (Reliable F M)
  add_entry_at r message_ids packet_sequence index = do
    (sent, inserted) ← SequenceBuffer.insert_with r.sent_packets packet_sequence (
        ok
          (record { acked = false; time_sent = r.time; message_ids = (index, length message_ids) }))
    ids ←
        if inserted
        then write_ids r.sent_packet_message_ids index message_ids
        else ok r.sent_packet_message_ids
    ok (record r { sent_packets = sent; sent_packet_message_ids = ids })

  unfoldable pub add_message_packet_entry : Reliable F M → List ℕ → ℕ → Run (Reliable F M)
  add_message_packet_entry r message_ids packet_sequence =
      if r.config.sent_packet_buffer_size == 0
      then panic remainder_by_zero
      else add_entry_at r message_ids packet_sequence
          (packet_sequence % r.config.sent_packet_buffer_size * r.config.max_messages_per_packet)

  -- The rest of `packet_data`, from the ids that were gathered and their bits.
  unfoldable pub packet_of :
      Reliable F M → ℕ → ℕ → List ℕ → ℕ → Run (Reliable F M × ChannelPacketData M × ℕ)
  packet_of r channel_index packet_sequence [] message_bits = ok (r, empty, 0)
  packet_of r channel_index packet_sequence (id ∷ ids) message_bits = do
    packet ← get_message_packet_data r channel_index (id ∷ ids)
    r' ← add_message_packet_entry r (id ∷ ids) packet_sequence
    ok (r', packet, message_bits)

module _ {F M : Type 0} ⦃f : Float F⦄ where
  unfoldable pub packet_data :
      Reliable F M → ℕ → ℕ → ℕ → Run (Reliable F M × ChannelPacketData M × ℕ)
  packet_data r channel_index packet_sequence available_bits =
      if not (has_messages_to_send r) then ok (r, empty, 0) else do
        (r', message_ids, message_bits) ← get_messages_to_send r available_bits
        packet_of r' channel_index packet_sequence message_ids message_bits
