-- ===== src/Channel/Latch.antt =====
-- A channel in an error state (src/channel.rs).
use yojimbo_rs.Prelude.{
  ℕ, ◌≡◌, refl, sym, ap, subst, ◌∙◌, true, false, Option, none, some, List, [], ◌∷◌, ◌++◌, if_true,
  if◌then◌else◌,
}
use yojimbo_rs.Run.{Run, ok, ok-injective, >>=-eq-ok}
use yojimbo_rs.Float.{Float}
use yojimbo_rs.Message.{NetworkMessage}
use yojimbo_rs.Config.{ChannelConfig}
use yojimbo_rs.Packet.{ChannelPacketData}
use yojimbo_rs.ErrorLevel.{ChannelErrorLevel, is_error, send_queue_full}
use yojimbo_rs.Processor
use yojimbo_rs.Processor.{Processor}
use yojimbo_rs.Channel.{
  Channel, can_send_message, send_message, receive_message, process_packet_data, process_ack,
  packet_data, advance_time, reset_counters,
}

-- The message of a `receive_message`, if there is one.
abbrev given : {M : Type 0} → Option (ℕ × M) → List (ℕ × M)
given none = []
given (some m) = m ∷ []

module _ {F M : Type 0} ⦃f : Float F⦄ ⦃m : NetworkMessage M⦄ where
  -- Calls on a channel that return, in any order, of every operation but `reset`; and the messages
  -- that its `receive_message` gave.
  pub data Used (c : Channel F M) : List (ℕ × M) → Channel F M → Type 0 where
    start : Used c [] c
    send :
        {d : List (ℕ × M)} {c1 c2 : Channel F M} (message : M)
        → Used c d c1
        → send_message c1 message ≡ ok c2
        → Used c d c2
    receive :
        {d : List (ℕ × M)} {c1 c2 : Channel F M} (got : Option (ℕ × M))
        → Used c d c1
        → receive_message c1 ≡ ok (c2, got)
        → Used c (d ++ given got) c2
    arrive :
        {d : List (ℕ × M)} {c1 c2 : Channel F M} (packet : ChannelPacketData M) (sequence : ℕ)
        → Used c d c1
        → process_packet_data c1 packet sequence ≡ ok c2
        → Used c d c2
    pack :
        {d : List (ℕ × M)} {c1 c2 : Channel F M} (sequence available bits : ℕ)
        (packet : ChannelPacketData M)
        → Used c d c1
        → packet_data c1 sequence available ≡ ok (c2, packet, bits)
        → Used c d c2
    ack :
        {d : List (ℕ × M)} {c1 c2 : Channel F M} (sequence : ℕ)
        → Used c d c1
        → process_ack c1 sequence ≡ ok c2
        → Used c d c2
    tick :
        {d : List (ℕ × M)} {c1 : Channel F M} (time : F)
        → Used c d c1
        → Used c d (advance_time c1 time)
    count_anew : {d : List (ℕ × M)} {c1 : Channel F M} → Used c d c1 → Used c d (reset_counters c1)

  -- A processor that was only asked for packets, given acks and told the time: no message was
  -- sent through it or received from it, and no packet reached it.
  pub data Serves (p : Processor F M) : Processor F M → Type 0 where
    same : Serves p p
    pack :
        {q q' : Processor F M} (config : ChannelConfig F) (index sequence available bits : ℕ)
        (packet : ChannelPacketData M)
        → Serves p q
        → Processor.packet_data q config index sequence available ≡ ok (q', packet, bits)
        → Serves p q'
    ack :
        {q q' : Processor F M} (sequence : ℕ)
        → Serves p q
        → Processor.process_ack q sequence ≡ ok q'
        → Serves p q'
    tick : {q : Processor F M} (time : F) → Serves p q → Serves p (Processor.advance_time q time)

  -- What such calls leave of a channel with this error level and processor, and what they give.
  pub record Latched (level : ChannelErrorLevel) (p : Processor F M) (d : List (ℕ × M))
      (c : Channel F M) : Type 0 where
    pub stays : c.error_level ≡ level
    pub gives : d ≡ []
    pub serves : Serves p c.processor

  -- A call that returns the channel, as each does that is refused.
  refused :
      {level : ChannelErrorLevel} {p : Processor F M} {d : List (ℕ × M)} {A : Type 0}
      (c : Channel F M) (rest : Run A) (out end : A)
      → is_error level ≡ true
      → Latched level p d c
      → (if is_error c.error_level then ok out else rest) ≡ ok end
      → out ≡ end
  refused c rest out end bad l h =
      ok-injective (if_true (is_error c.error_level) (ok out) rest (ap is_error l.stays ∙ bad) ∙ h)

  Used-Latched :
      {c c' : Channel F M} {d : List (ℕ × M)}
      → is_error c.error_level ≡ true
      → Used c d c'
      → Latched c.error_level c.processor d c'
  unfolding send_message receive_message process_packet_data packet_data process_ack advance_time
      reset_counters
  Used-Latched bad start = record { stays = refl; gives = refl; serves = Serves.same }
  Used-Latched {c} {c'} {d} bad (send {c1 = c1} message u h) =
      let l = Used-Latched bad u in
      subst (Latched c.error_level c.processor d) (refused c1 _ c1 c' bad l h) l
  Used-Latched {c} {c'} bad (receive {d = d} {c1 = c1} got u h) =
      let l = Used-Latched bad u in
      let e = refused c1 _ (c1, none) (c', got) bad l h in
      let none_given : d ++ given got ≡ [] =
        ap (λ x. d ++ given x.1) (sym e) ∙ ap (λ x. x ++ []) l.gives in
      subst (Latched c.error_level c.processor (d ++ given got)) (ap (λ x. x.0) e)
        (record { stays = l.stays; gives = none_given; serves = l.serves })
  Used-Latched {c} {c'} {d} bad (arrive {c1 = c1} packet sequence u h) =
      let l = Used-Latched bad u in
      subst (Latched c.error_level c.processor d) (refused c1 _ c1 c' bad l h) l
  Used-Latched {c} {c'} {d} bad (pack {c1 = c1} sequence available bits packet u h) =
      let l = Used-Latched bad u in
      let ((q, made, used), e, h1) =
        >>=-eq-ok (Processor.packet_data c1.processor c1.config c1.channel_index sequence available)
          _ h in
      subst (Latched c.error_level c.processor d) (ap (λ x. x.0) (ok-injective h1)) (record {
        stays = l.stays;
        gives = l.gives;
        serves = Serves.pack c1.config c1.channel_index sequence available used made l.serves e;
      })
  Used-Latched {c} {c'} {d} bad (ack {c1 = c1} sequence u h) =
      let l = Used-Latched bad u in
      let (q, e, h1) = >>=-eq-ok (Processor.process_ack c1.processor sequence) _ h in
      subst (Latched c.error_level c.processor d) (ok-injective h1)
        (record { stays = l.stays; gives = l.gives; serves = Serves.ack sequence l.serves e })
  Used-Latched bad (tick time u) =
      let l = Used-Latched bad u in
      record { stays = l.stays; gives = l.gives; serves = Serves.tick time l.serves }
  Used-Latched bad (count_anew u) =
      let l = Used-Latched bad u in record { stays = l.stays; gives = l.gives; serves = l.serves }

  -- On a channel that is in no error state and whose processor has no room, `send_message` returns
  -- with the error level `SendQueueFull` and otherwise as it was. Whatever is then called on the
  -- channel but `reset`, in any order, as long as no call panics: the error level stays, no
  -- `receive_message` gives a message, and the processor is what it comes to from the one before
  -- by asking it for packets, acks and the time alone.
  pub full_queue-Latched :
      (c c' : Channel F M) (message : M) (d : List (ℕ × M))
      → is_error c.error_level ≡ false
      → can_send_message c ≡ ok false
      → Used (record c { error_level = send_queue_full }) d c'
      → (send_message c message ≡ ok (record c { error_level = send_queue_full }))
        × Latched send_queue_full c.processor d c'
  unfolding send_message
  full_queue-Latched c c' message d fine full u = (rw (fine, full), Used-Latched refl u)
