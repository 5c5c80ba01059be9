-- ===== src/Reliable/InOrder.antt =====
-- The reliable channel delivers in order (src/channel/reliable.rs).
use yojimbo_rs.Prelude.{
  ℕ, ◌<◌, ◌≤◌, ◌≡◌, refl, ◌∙◌, sym, subst, Option, [], ◌∷◌, ◌++◌, length, take, arith,
  length-append, get_elem?-append_left, take-append,
}
use yojimbo_rs.Run.{ok}
use yojimbo_rs.Float.{Float}
use yojimbo_rs.Message.{NetworkMessage}
use yojimbo_rs.Config.{ChannelConfig}
use yojimbo_rs.Word.{u16_modulus}
use yojimbo_rs.Reliable.{Reliable, new, advance_time, send_message, receive_message}
use yojimbo_rs.Reliable.Traffic.{packet_data_keeps}
use yojimbo_rs.Reliable.Acked.{process_ack_keeps}
use yojimbo_rs.Reliable.Arrived.{process_packet_data_keeps}
use yojimbo_rs.Reliable.Delivered.{IsNext, receive_message_keeps}
use yojimbo_rs.Reliable.Sent.{send_message-Extends}
use yojimbo_rs.Reliable.Session.{Session, messages_of, Step, Reach}
use yojimbo_rs.Reliable.Agreement.{
  AllFrom-append, AllFrom-get, Agrees, Fresh-Tracks, delivered_more, new-Fresh_queues,
}

module _ {F M : Type 0} ⦃f : Float F⦄ ⦃w : NetworkMessage M⦄ where
  start-Agrees :
      (c d : ChannelConfig F) (t u : F) (sender receiver : Reliable F M)
      → 0 < c.message_send_queue_size
      → 0 < c.message_receive_queue_size
      → 0 < d.message_send_queue_size
      → 0 < d.message_receive_queue_size
      → new c t ≡ ok sender
      → new d u ≡ ok receiver
      → Agrees
          (record { sender = sender; receiver = receiver; network = []; sent = []; delivered = [] })
  start-Agrees c d t u sender receiver cs cr ds dr hc hd =
      let (qs, _, si, _) = new-Fresh_queues c t sender cs cr hc in
      let (_, qr, _, ri) = new-Fresh_queues d u receiver ds dr hd in
      record {
        sending = Fresh-Tracks qs;
        receiving = Fresh-Tracks qr;
        packets = tt;
        send_id = si;
        receive_id = ri;
        behind = omega arith;
        in_order = refl;
      }

  module _ (s : Session F M) (g : Agrees s) where
    send-Agrees :
        (m : M) (r : Reliable F M)
        → length (s.sent ++ (m ∷ [])) < u16_modulus
        → send_message s.sender m ≡ ok r
        → Agrees (record s { sender = r; sent = s.sent ++ (m ∷ []) })
    send-Agrees m r bound h =
        let e = send_message-Extends s.sent m s.sender r g.sending g.send_id h in
        let grown = length-append s.sent (m ∷ []) in
        record {
          sending = e.kept;
          receiving = record {
            valid = g.receiving.valid;
            tracks =
                λ t a here. get_elem?-append_left s.sent (m ∷ []) t (g.receiving.tracks t a here);
          };
          packets = AllFrom-append s.sent m s.network g.packets;
          send_id = ground (arith, e.next_send_id, g.send_id, grown);
          receive_id = g.receive_id;
          behind = omega (arith, g.behind, grown);
          in_order = g.in_order ∙ sym (take-append (length s.delivered) s.sent (m ∷ []) g.behind);
        }

    receive-Agrees :
        (r : Reliable F M) (got : Option (ℕ × M))
        → length s.sent < u16_modulus
        → receive_message s.receiver ≡ ok (r, got)
        → Agrees (record s { receiver = r; delivered = s.delivered ++ messages_of got })
    receive-Agrees r got bound h =
        let e = receive_message_keeps s.sent s.receiver r got g.receiving h in
        let n =
          delivered_more s.sent s.delivered r.receive_message_id got bound g.behind g.in_order
            (subst (λ k. IsNext s.sent k r.receive_message_id got) g.receive_id e.gives) in
        record {
          sending = g.sending;
          receiving = e.kept;
          packets = g.packets;
          send_id = g.send_id;
          receive_id = n.counts;
          behind = n.within;
          in_order = n.ordered;
        }

  Step-Agrees :
      (s s' : Session F M) → Step s s' → length s'.sent < u16_modulus → Agrees s → Agrees s'
  unfolding advance_time
  Step-Agrees s _ (Step.send m r h) bound g = send-Agrees s g m r bound h
  Step-Agrees s _ (Step.receive r got h) bound g = receive-Agrees s g r got bound h
  Step-Agrees s _ (Step.transmit channel seq available bits r packet h) bound g =
      let (packs, from) =
        packet_data_keeps s.sent s.sender r channel seq available bits packet g.sending h in
      let e = packs.sending in
      record {
        sending = e.kept;
        receiving = g.receiving;
        packets = (from, g.packets);
        send_id = e.same_send_id ∙ g.send_id;
        receive_id = g.receive_id;
        behind = g.behind;
        in_order = g.in_order;
      }
  Step-Agrees s _ (Step.ack seq r h) bound g =
      let e = process_ack_keeps s.sent s.sender r seq g.sending h in
      record {
        sending = e.kept;
        receiving = g.receiving;
        packets = g.packets;
        send_id = e.same_send_id ∙ g.send_id;
        receive_id = g.receive_id;
        behind = g.behind;
        in_order = g.in_order;
      }
  Step-Agrees s _ (Step.arrive i packet r at h) bound g =
      let from = AllFrom-get s.sent s.network i packet g.packets at in
      let e = process_packet_data_keeps s.sent s.receiver r packet g.receiving from h in
      record {
        sending = g.sending;
        receiving = e.kept;
        packets = g.packets;
        send_id = g.send_id;
        receive_id = e.same_receive_id ∙ g.receive_id;
        behind = g.behind;
        in_order = g.in_order;
      }
  Step-Agrees s _ (Step.tick_sender t) bound g = record {
    sending = g.sending;
    receiving = g.receiving;
    packets = g.packets;
    send_id = g.send_id;
    receive_id = g.receive_id;
    behind = g.behind;
    in_order = g.in_order;
  }
  Step-Agrees s _ (Step.tick_receiver t) bound g = record {
    sending = g.sending;
    receiving = g.receiving;
    packets = g.packets;
    send_id = g.send_id;
    receive_id = g.receive_id;
    behind = g.behind;
    in_order = g.in_order;
  }

  sent_grows : (s s' : Session F M) → Step s s' → length s.sent ≤ length s'.sent
  sent_grows s _ (Step.send m r h) = omega (arith, length-append s.sent (m ∷ []))
  sent_grows s _ (Step.receive r got h) = omega arith
  sent_grows s _ (Step.transmit channel seq available bits r packet h) = omega arith
  sent_grows s _ (Step.ack seq r h) = omega arith
  sent_grows s _ (Step.arrive i packet r at h) = omega arith
  sent_grows s _ (Step.tick_sender t) = omega arith
  sent_grows s _ (Step.tick_receiver t) = omega arith

  Reach-Agrees : {s : Session F M} → Reach s → length s.sent < u16_modulus → Agrees s
  Reach-Agrees (Reach.start c d t u sender receiver cs cr ds dr hc hd) bound =
      start-Agrees c d t u sender receiver cs cr ds dr hc hd
  Reach-Agrees (Reach.later {s} {s'} reach step) bound =
      Step-Agrees s s' step bound (Reach-Agrees reach (omega (arith, bound, sent_grows s s' step)))

  -- Two new reliable channels whose queues are not empty, run in any order over a network that
  -- loses, repeats and reorders packets and makes up acks: while fewer than 65536 messages were
  -- sent, the messages that `receive_message` gave are the first ones that `send_message` took, in
  -- order, none missing and none twice.
  pub delivers_in_order :
      {s : Session F M}
      → Reach s
      → length s.sent < u16_modulus
      → s.delivered ≡ take (length s.delivered) s.sent
  delivers_in_order reach bound = (Reach-Agrees reach bound).in_order
