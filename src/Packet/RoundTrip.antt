-- ===== src/Packet/RoundTrip.antt =====
-- What `deserialize` reads back from the bytes that `serialize` wrote
-- (src/channel/channel_packet_data.rs).
use yojimbo_rs.Prelude.{
  ℕ, ◌+◌, ◌-◌, ◌*◌, ◌/◌, ◌%◌, ◌<◌, ◌≤◌, ◌≡◌, refl, ap, ◌∙◌, sym, Bool, true, false, Option, some,
  List, [], ◌∷◌, ◌++◌, length, ◌==◌, arith, append_assoc, append-nil,
}
use yojimbo_rs.Run.{ok}
use yojimbo_rs.Result.{Result}
use yojimbo_rs.Message.{NetworkMessage}
use yojimbo_rs.Config.{ChannelConfig, ChannelType}
use yojimbo_rs.Wire.{
  Io, pure, lift, Cursor, put, write_bytes, u8_bytes, u16_bytes, u32_bytes, read_u16, >>=-eq-pure,
  lift-eq-pure, write_bytes-ok,
}
use yojimbo_rs.Packet.Serialize.{
  serialize_check, deserialize_check, write_message, serialize_contents, serialize_ids,
  serialize_messages, serialize_some, deserialize_unordered, deserialize_ids, deserialize_contents,
  deserialize_messages, deserialize_some, serialize_check_value,
}

-- What a user's serialization has to satisfy: a message is read back from the bytes that it wrote,
-- whatever follows them.
pub record IsLawful {M : Type 0} (m : NetworkMessage M) : Type 0 where
  pub reads_back :
      (message : M) (room : Option ℕ) (bytes rest : List ℕ)
      → m.serialize message room ≡ Result.ok bytes
      → m.deserialize (bytes ++ rest) ≡ Result.ok (message, rest)

-- A reader takes these bytes off its input, and gives this value.
abbrev pub Reads : {E A : Type 0} → (List ℕ → Io E (A × List ℕ)) → List ℕ → A → Type 0
Reads {E} {A} read bytes a =
    (rest : List ℕ) → read (bytes ++ rest) ≡ pure {A = A × List ℕ} (a, rest)

-- The writer has gone on by these bytes.
abbrev pub Wrote : Cursor → Cursor → List ℕ → Type 0
Wrote c c' bytes = c'.written ≡ c.written ++ bytes

pub put-put :
    (c : Cursor) (c' c'' : Cursor) (xs ys : List ℕ)
    → Wrote c c' xs
    → Wrote c' c'' ys
    → Wrote c c'' (xs ++ ys)
put-put c c' c'' xs ys p q = q ∙ ap (λ w. w ++ ys) p ∙ append_assoc c.written xs ys

pub u16_value : (v : ℕ) → v < 65536 → v % 256 + 256 * (v / 256 % 256) ≡ v
u16_value v h = omega arith

pub read_u16-u16_bytes :
    (v : ℕ) (rest : List ℕ) → v < 65536 → read_u16 (u16_bytes v ++ rest) ≡ ok (v, rest)
read_u16-u16_bytes v rest h = ground arith

pub written :
    {E : Type 0} (c c' : Cursor) (bytes : List ℕ)
    → ◌≡◌ {A = Io E Cursor} (lift (write_bytes c bytes)) (pure c')
    → Wrote c c' bytes
written c c' bytes h =
    ap (λ (w : Cursor). w.written) (write_bytes-ok c bytes (lift-eq-pure (write_bytes c bytes) h)).0

abbrev pub ids_of : {M : Type 0} → List (ℕ × M) → List ℕ
ids_of [] = []
ids_of ((id, _) ∷ rest) = id ∷ ids_of rest

length-ids_of : {M : Type 0} (ms : List (ℕ × M)) → (length ms == length (ids_of ms)) ≡ true
length-ids_of [] = refl
length-ids_of (x ∷ ms) = ground (arith, length-ids_of ms)

-- On an unreliable channel the ids are not sent: they are read as 0.
abbrev pub without_ids : {M : Type 0} → List (ℕ × M) → List (ℕ × M)
without_ids [] = []
without_ids ((_, message) ∷ rest) = (0, message) ∷ without_ids rest

pub stayed : {E : Type 0} (c c' : Cursor) → ◌≡◌ {A = Io E Cursor} (pure c) (pure c') → Wrote c c' []
stayed c c' h =
    let same : c ≡ c' = cc in ap (λ (w : Cursor). w.written) (sym same) ∙ sym (append-nil c.written)

serialize_check-ok :
    {E : Type 0} (check : Bool) (c c' : Cursor)
    → serialize_check check {E = E} c ≡ pure c'
    → (bytes : List ℕ) × Wrote c c' bytes
      × ((rest : List ℕ) → deserialize_check check {E = E} (bytes ++ rest) ≡ pure rest)
unfolding serialize_check deserialize_check
serialize_check-ok true c c' h = (
  u32_bytes serialize_check_value,
  written c c' (u32_bytes serialize_check_value) h,
  λ rest. refl,
)
serialize_check-ok false c c' h = ([], stayed c c' h, λ rest. refl)

-- Message ids are u16.
abbrev pub SmallIds : {M : Type 0} → List (ℕ × M) → Type 0
SmallIds [] = Unit
SmallIds ((id, _) ∷ rest) = (id < 65536) × SmallIds rest

-- The messages that the receiver of a packet gets on a channel of this kind.
abbrev pub sent : {M : Type 0} → ChannelType → List (ℕ × M) → List (ℕ × M)
sent ChannelType.unreliable_unordered ms = without_ids ms
sent ChannelType.reliable_ordered ms = ms

module _ (check : Bool) {M : Type 0} ⦃m : NetworkMessage M⦄ where
  serialize_ids-ok :
      (c c' : Cursor) (ms : List (ℕ × M))
      → SmallIds ms
      → serialize_ids check c ms ≡ pure c'
      → (bytes : List ℕ) × Wrote c c' bytes
        × Reads (deserialize_ids {E = m.Error} (length ms)) bytes (ids_of ms)
  unfolding serialize_ids deserialize_ids
  serialize_ids-ok c c' [] small h = ([], stayed c c' h, λ rest. refl)
  serialize_ids-ok c c' ((id, message) ∷ ms) small h =
      let (c1, p, q) = >>=-eq-pure (lift (write_bytes c (u16_bytes id))) _ h in
      let (bytes, w, r) = serialize_ids-ok c1 c' ms small.1 q in
      (
        u16_bytes id ++ bytes,
        put-put c c1 c' (u16_bytes id) bytes (written c c1 (u16_bytes id) p) w,
        λ rest. rw (r rest) (ap (λ (n : ℕ). pure (n ∷ ids_of ms, rest)) (u16_value id small.0)),
      )

  module _ (lawful : IsLawful m) where
    write_message-ok :
        (c c' : Cursor) (message : M)
        → write_message check c message ≡ pure c'
        → (bytes : List ℕ) × Wrote c c' bytes
          × ((rest : List ℕ) → m.deserialize (bytes ++ rest) ≡ Result.ok (message, rest))
    unfolding write_message
    write_message-ok c c' message h =
        let (bytes, p, q) = >>=-eq-pure (ok (m.serialize message (some c.room))) _ h in
        (
          bytes,
          written c c' bytes q,
          λ rest. lawful.reads_back message (some c.room) bytes rest (cc),
        )

    -- The contents are read back by both loops.
    serialize_contents-ok :
        (c c' : Cursor) (ms : List (ℕ × M))
        → serialize_contents check c ms ≡ pure c'
        → (bytes : List ℕ) × Wrote c c' bytes
          × Reads (deserialize_contents check (ids_of ms)) bytes ms
          × Reads (deserialize_unordered check (length ms)) bytes (without_ids ms)
    unfolding serialize_contents deserialize_contents deserialize_unordered
    serialize_contents-ok c c' [] h = ([], stayed c c' h, λ rest. refl, λ rest. refl)
    serialize_contents-ok c c' ((id, message) ∷ ms) h =
        let (c1, p, q) = >>=-eq-pure (write_message check c message) _ h in
        let (c2, p2, q2) = >>=-eq-pure (serialize_check check c1) _ q in
        let (b1, w1, r1) = write_message-ok c c1 message p in
        let (b2, w2, r2) = serialize_check-ok check c1 c2 p2 in
        let (b3, w3, r3, r4) = serialize_contents-ok c2 c' ms q2 in
        (
          b1 ++ (b2 ++ b3),
          put-put c c1 c' b1 (b2 ++ b3) w1 (put-put c1 c2 c' b2 b3 w2 w3),
          λ rest. simp (append_assoc, r1, r2, r3),
          λ rest. simp (append_assoc, r1, r2, r4),
        )

    serialize_messages-ok :
        (kind : ChannelType) (c c' : Cursor) (ms : List (ℕ × M))
        → SmallIds ms
        → serialize_messages check kind c ms ≡ pure c'
        → (bytes : List ℕ) × Wrote c c' bytes
          × Reads (deserialize_messages check kind (length ms)) bytes (sent kind ms)
    unfolding serialize_messages deserialize_messages
    serialize_messages-ok ChannelType.unreliable_unordered c c' ms small h =
        let (b, w, r3, r4) = serialize_contents-ok c c' ms h in (b, w, r4)
    serialize_messages-ok ChannelType.reliable_ordered c c' ms small h =
        let (c1, p, q) = >>=-eq-pure (serialize_ids check c ms) _ h in
        let (c2, p2, q2) = >>=-eq-pure (serialize_check check c1) _ q in
        let (b1, w1, r1) = serialize_ids-ok c c1 ms small p in
        let (b2, w2, r2) = serialize_check-ok check c1 c2 p2 in
        let (b3, w3, r3, r4) = serialize_contents-ok c2 c' ms q2 in
        (
          b1 ++ (b2 ++ b3),
          put-put c c1 c' b1 (b2 ++ b3) w1 (put-put c1 c2 c' b2 b3 w2 w3),
          λ rest. simp (append_assoc, r1, r2, r3, length-ids_of ms),
        )

    -- What has passed the tests of `serialize`.
    serialize_some-passes :
        {F : Type 0} (config : ChannelConfig F) (c c' : Cursor) (ms : List (ℕ × M))
        → serialize_some check config ms c ≡ pure c'
        → (1 ≤ config.max_messages_per_packet)
          × (config.max_messages_per_packet ≤ 256)
          × (length ms ≤ config.max_messages_per_packet)
          × (serialize_messages check config.kind (put c (u8_bytes (length ms - 1))) ms ≡ pure c')
    unfolding serialize_some
    serialize_some-passes config c c' ms h = ground arith

    deserialize_some-passes :
        {F : Type 0} (config : ChannelConfig F) (index n : ℕ) (src rest : List ℕ)
        (ms : List (ℕ × M))
        → 0 < n
        → 1 ≤ config.max_messages_per_packet
        → config.max_messages_per_packet ≤ 256
        → n ≤ config.max_messages_per_packet
        → deserialize_messages check config.kind n src ≡ pure (ms, rest)
        → deserialize_some check config index ((n - 1) ∷ src)
          ≡ pure (record { channel_index = index; messages = ms }, rest)
    unfolding deserialize_some
    deserialize_some-passes config index n src rest ms a b c d e =
        let back : 1 + (n - 1) ≡ n = omega arith in rw back (ground (arith, e))

    pub serialize_some-ok :
        {F : Type 0} (config : ChannelConfig F) (index : ℕ) (c c' : Cursor) (ms : List (ℕ × M))
        → SmallIds ms
        → 0 < length ms
        → serialize_some check config ms c ≡ pure c'
        → (bytes : List ℕ) × Wrote c c' bytes
          × Reads
              (deserialize_some check config index)
              bytes
              (record { channel_index = index; messages = sent config.kind ms })
    serialize_some-ok config index c c' ms small some_ms h =
        let (p1, p2, p3, p) = serialize_some-passes config c c' ms h in
        let (b, w, r) =
          serialize_messages-ok config.kind (put c (u8_bytes (length ms - 1))) c' ms small p in
        (
          (length ms - 1) ∷ b,
          put-put c (put c (u8_bytes (length ms - 1))) c' (u8_bytes (length ms - 1)) b refl w,
          λ rest.
              deserialize_some-passes config index (length ms) (b ++ rest) rest
                (sent config.kind ms) some_ms p1 p2 p3 (r rest),
        )
