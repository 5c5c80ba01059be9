-- ===== src/Client/Transmits.antt =====
-- Where the packets of a client go (src/client.rs): out at once, or to an active simulator.
use yojimbo_rs.Prelude.{
  ℕ, suc, ◌≡◌, refl, sym, ap, ◌∙◌, Bool, true, false, Option, none, some, List, [], ◌∷◌, if_some,
  arith, if_some-some, if_true, if_false, Bool-cases, inl, inr, if◌then◌else◌,
}
use yojimbo_rs.Run.{
  Run, ok, ok-injective, >>=-eq-ok, ◌>>=◌, >>=_assoc, >>=_cong-ok, expect_some, null_pointer,
}
use yojimbo_rs.Float.{Float}
use yojimbo_rs.NetworkSimulator
use yojimbo_rs.NetworkSimulator.{NetworkSimulator, Draws}
use yojimbo_rs.Foreign.{NetcodeClient}
use yojimbo_rs.Client.{Client}
use yojimbo_rs.Client.Traffic.{send_now, intercept, transmit_packet, transmit_packets}

module _ {N F : Type 0} where
  -- A netcode client that has sent these packets.
  abbrev pub send_each : NetcodeClient N F → N → List (List ℕ) → N
  send_each netcode n [] = n
  send_each netcode n (packet ∷ packets) = send_each netcode (netcode.send_packet n packet) packets

module _ {F G : Type 0} where
  -- No packet is taken by a simulator that is not active.
  abbrev pub is_active : Option (NetworkSimulator F G) → Bool
  is_active none = false
  is_active (some s) = s.active

  choose-quiet :
      {A : Type 0} (o : Option (NetworkSimulator F G)) (take_it : NetworkSimulator F G → A)
      (now : A)
      → is_active o ≡ false
      → if_some o (λ s. if s.active then take_it s else now) now ≡ now
  choose-quiet none take_it now quiet = refl
  choose-quiet (some s) take_it now quiet = sym (if_false s.active (take_it s) now quiet)

  choose-active :
      {A : Type 0} (o : Option (NetworkSimulator F G)) (take_it : NetworkSimulator F G → A)
      (now : A) (s : NetworkSimulator F G)
      → o ≡ some s
      → s.active ≡ true
      → if_some o (λ s. if s.active then take_it s else now) now ≡ take_it s
  choose-active o take_it now s there on =
      sym (if_some-some o (λ s. if s.active then take_it s else now) now s there)
      ∙ sym (if_true s.active (take_it s) now on)

module _ {F G : Type 0} ⦃f : Float F⦄ ⦃g : Float G⦄ where
  -- A simulator that has taken these packets for the server, with what it draws for each.
  abbrev pub queue_each :
      NetworkSimulator F G → (ℕ → Draws F G) → List (List ℕ) → Run (NetworkSimulator F G)
  queue_each s draws [] = ok s
  queue_each s draws (packet ∷ packets) = do
    s' ← NetworkSimulator.send_packet s (draws 0) 0 packet
    queue_each s' (λ i. draws (suc i)) packets

  send_packet-active :
      (s s' : NetworkSimulator F G) (draws : Draws F G) (index : ℕ) (bytes : List ℕ)
      → NetworkSimulator.send_packet s draws index bytes ≡ ok s'
      → s'.active ≡ s.active
  unfolding NetworkSimulator.send_packet NetworkSimulator.push_packet
  send_packet-active s s' draws index bytes h = elim (Bool-cases (g.lt draws.loss s.packet_loss)) [
    | inl lost ↦
        ap (λ x. x.active)
          (sym (ok-injective (if_true (g.lt draws.loss s.packet_loss) (ok s) _ lost ∙ h)))
    | inr kept ↦
        let (delay, _, h1) =
          >>=-eq-ok (NetworkSimulator.delay_of s draws) _
            (if_false (g.lt draws.loss s.packet_loss) (ok s) _ kept ∙ h) in
        ground arith
  ]

module _ {E N F G M : Type 0} ⦃f : Float F⦄ ⦃g : Float G⦄ ⦃netcode : NetcodeClient N F⦄ where
  transmit_packet-direct :
      (draws : Draws F G) (c : Client E N F G M) (n : N) (packet : List ℕ)
      → c.client ≡ some n
      → is_active c.network_simulator ≡ false
      → transmit_packet draws c packet
        ≡ ok (record c { client = some (netcode.send_packet n packet) })
  unfolding transmit_packet send_now
  transmit_packet-direct draws c n packet there quiet =
      choose-quiet c.network_simulator (λ s. intercept draws c s packet) (send_now c packet) quiet
      ∙ ap
          (λ o.
            expect_some null_pointer o
            >>= (λ x. ok (record c { client = some (netcode.send_packet x packet) })))
          there

  -- Without a simulator, or with one that is not active, the packets go out through the netcode
  -- client at once and in order, and the client is otherwise as it was.
  pub transmit_packets-direct :
      (draws : ℕ → Draws F G) (c : Client E N F G M) (n : N) (packets : List (List ℕ))
      → c.client ≡ some n
      → is_active c.network_simulator ≡ false
      → transmit_packets draws c packets
        ≡ ok (record c { client = some (send_each netcode n packets) })
  unfolding transmit_packets
  transmit_packets-direct draws c n [] there quiet = ap (λ o. ok (record c { client = o })) there
  transmit_packets-direct draws c n (packet ∷ packets) there quiet =
      ap (λ r. r >>= (λ c'. transmit_packets (λ i. draws (suc i)) c' packets))
        (transmit_packet-direct (draws 0) c n packet there quiet)
      ∙ transmit_packets-direct (λ i. draws (suc i))
          (record c { client = some (netcode.send_packet n packet) }) (netcode.send_packet n packet)
          packets refl quiet

  transmit_packet-deferred :
      (draws : Draws F G) (c : Client E N F G M) (s : NetworkSimulator F G) (packet : List ℕ)
      → c.network_simulator ≡ some s
      → s.active ≡ true
      → transmit_packet draws c packet ≡ (
          NetworkSimulator.send_packet s draws 0 packet
          >>= (λ s'. ok (record c { network_simulator = some s' })))
  unfolding transmit_packet intercept
  transmit_packet-deferred draws c s packet there on =
      choose-active c.network_simulator (λ s. intercept draws c s packet) (send_now c packet) s
        there on

  -- An active simulator takes all the packets: none goes out, and the client changes in nothing
  -- but its simulator, which is what it makes of the packets in their order, for client 0.
  pub transmit_packets-deferred :
      (draws : ℕ → Draws F G) (c : Client E N F G M) (s : NetworkSimulator F G)
      (packets : List (List ℕ))
      → c.network_simulator ≡ some s
      → s.active ≡ true
      → transmit_packets draws c packets
        ≡ (queue_each s draws packets >>= (λ s'. ok (record c { network_simulator = some s' })))
  unfolding transmit_packets
  transmit_packets-deferred draws c s [] there on =
      ap (λ o. ok (record c { network_simulator = o })) there
  transmit_packets-deferred draws c s (packet ∷ packets) there on =
      let later : Client E N F G M → Run (Client E N F G M) =
        λ c'. transmit_packets (λ i. draws (suc i)) c' packets in
      ap (λ r. r >>= later) (transmit_packet-deferred (draws 0) c s packet there on)
      ∙ >>=_assoc (NetworkSimulator.send_packet s (draws 0) 0 packet) _ later
      ∙ >>=_cong-ok (NetworkSimulator.send_packet s (draws 0) 0 packet) _ _ (λ s' e.
        transmit_packets-deferred (λ i. draws (suc i)) (record c { network_simulator = some s' }) s'
          packets refl (send_packet-active s s' (draws 0) 0 packet e ∙ on))
      ∙ sym (>>=_assoc (NetworkSimulator.send_packet s (draws 0) 0 packet) _ _)
