-- ===== src/Client/Keeps/Packets.antt =====
-- What `send_packets` and `receive_packets` of a client leave alone (src/client.rs).
use yojimbo_rs.Prelude.{
  if_true, if_false, subst, ℕ, zero, suc, ◌≡◌, refl, sym, ap, ◌∙◌, inl, inr, Bool, true, not,
  Option, none, some, List, [], ◌∷◌, length, is_some, if_some-none, if_some-some, Bool-cases,
  Option-cases, if◌then◌else◌,
}
use yojimbo_rs.Run.{
  Run, ok, ok-injective, ◌>>=◌, >>=-eq-ok, expect_some, assert, null_pointer, unwrap_none,
}
use yojimbo_rs.Float.{Float}
use yojimbo_rs.Message.{NetworkMessage}
use yojimbo_rs.Connection
use yojimbo_rs.Connection.{Connection}
use yojimbo_rs.NetworkSimulator
use yojimbo_rs.NetworkSimulator.{NetworkSimulator, Draws}
use yojimbo_rs.Foreign.{ReliableEndpoint, NetcodeClient}
use yojimbo_rs.Client.{Client, is_connected}
use yojimbo_rs.Client.Traffic.{
  send_now, intercept, transmit_packet, transmit_packets, send_written, send_connection,
  send_packets, process_packet, process_handed, receive_packet, receive_loop, receive_packets,
}
use yojimbo_rs.Client.Keeps.{
  Keeps, Keeps-eq, Keeps-trans, replaced-Keeps, if_connection-Keeps, expect_some-ok,
}

module _ {E N F G M : Type 0} ⦃f : Float F⦄ ⦃g : Float G⦄ ⦃netcode : NetcodeClient N F⦄ where
  send_now-Keeps :
      (c c' : Client E N F G M) (bytes : List ℕ) → send_now c bytes ≡ ok c' → Keeps c c'
  unfolding send_now
  send_now-Keeps c c' bytes h =
      let (n, e, h1) = >>=-eq-ok (expect_some null_pointer c.client) _ h in
      subst (Keeps c) (ok-injective h1) (
        replaced-Keeps c refl refl refl (sym (ap is_some (expect_some-ok null_pointer c.client e))))

  intercept-Keeps :
      (draws : Draws F G) (c c' : Client E N F G M) (s : NetworkSimulator F G) (bytes : List ℕ)
      → c.network_simulator ≡ some s
      → intercept draws c s bytes ≡ ok c'
      → Keeps c c'
  unfolding intercept
  intercept-Keeps draws c c' s bytes there h =
      let (s', _, h1) = >>=-eq-ok (NetworkSimulator.send_packet s draws 0 bytes) _ h in
      subst (Keeps c) (ok-injective h1) (replaced-Keeps c refl refl (sym (ap is_some there)) refl)

  transmit_packet-Keeps :
      (draws : Draws F G) (c c' : Client E N F G M) (bytes : List ℕ)
      → transmit_packet draws c bytes ≡ ok c'
      → Keeps c c'
  unfolding transmit_packet
  transmit_packet-Keeps draws c c' bytes h =
      let choose : NetworkSimulator F G → Run (Client E N F G M) =
        λ s. if s.active then intercept draws c s bytes else send_now c bytes in
      elim (Option-cases c.network_simulator) [
        | inl gone ↦
            send_now-Keeps c c' bytes
              (if_some-none c.network_simulator choose (send_now c bytes) gone ∙ h)
        | inr (s, there) ↦
            let h1 = if_some-some c.network_simulator choose (send_now c bytes) s there ∙ h in
            elim (Bool-cases s.active) [
              | inl on ↦
                  intercept-Keeps draws c c' s bytes there
                    (if_true s.active (intercept draws c s bytes) (send_now c bytes) on ∙ h1)
              | inr off ↦
                  send_now-Keeps c c' bytes
                    (if_false s.active (intercept draws c s bytes) (send_now c bytes) off ∙ h1)
            ]
      ]

  pub transmit_packets-Keeps :
      (draws : ℕ → Draws F G) (c c' : Client E N F G M) (packets : List (List ℕ))
      → transmit_packets draws c packets ≡ ok c'
      → Keeps c c'
  unfolding transmit_packets
  transmit_packets-Keeps draws c c' [] h = Keeps-eq (ok-injective h)
  transmit_packets-Keeps draws c c' (packet ∷ packets) h =
      let (c1, e, h1) = >>=-eq-ok (transmit_packet (draws 0) c packet) _ h in
      Keeps-trans (transmit_packet-Keeps (draws 0) c c1 packet e)
        (transmit_packets-Keeps (λ i. draws (suc i)) c1 c' packets h1)

module _ {E N F G M : Type 0} ⦃f : Float F⦄ ⦃g : Float G⦄ ⦃m : NetworkMessage M⦄
    ⦃endpoints : ReliableEndpoint E F G⦄ ⦃netcode : NetcodeClient N F⦄ where
  send_written-Keeps :
      (draws : ℕ → Draws F G) (c c' : Client E N F G M) (endpoint : E) (bytes : List ℕ)
      → is_some c.endpoint ≡ true
      → send_written draws c endpoint bytes ≡ ok c'
      → Keeps c c'
  unfolding send_written
  send_written-Keeps draws c c' endpoint [] there h = Keeps-eq (ok-injective h)
  send_written-Keeps draws c c' endpoint (b ∷ bytes) there h =
      Keeps-trans (replaced-Keeps c (sym there) refl refl refl)
        (transmit_packets-Keeps draws _ c' _ h)

  send_connection-Keeps :
      (check : Bool) (draws : ℕ → Draws F G) (c c' : Client E N F G M) (endpoint : E)
      (connection : Connection F M)
      → is_some c.endpoint ≡ true
      → c.connection ≡ some connection
      → send_connection check draws c endpoint connection ≡ ok c'
      → Keeps c c'
  unfolding send_connection
  send_connection-Keeps check draws c c' endpoint connection there k h =
      let ((connection', bytes), _, h1) =
        >>=-eq-ok
          (Connection.generate_packet check connection (endpoints.next_packet_sequence endpoint)
            (length c.packet_buffer))
          _ h in
      Keeps-trans (replaced-Keeps c refl (sym (ap is_some k)) refl refl)
        (send_written-Keeps draws _ c' endpoint bytes there h1)

  pub send_packets-Keeps :
      (check : Bool) (draws : ℕ → Draws F G) (c c' : Client E N F G M)
      → send_packets check draws c ≡ ok c'
      → Keeps c c'
  unfolding send_packets
  send_packets-Keeps check draws c c' h = elim (Bool-cases (not (is_connected c))) [
    | inl away ↦ Keeps-eq (ok-injective (if_true (not (is_connected c)) (ok c) _ away ∙ h))
    | inr connected ↦
        let (_, _, h1) =
          >>=-eq-ok (assert (is_some c.client)) _
            (if_false (not (is_connected c)) (ok c) _ connected ∙ h) in
        let (endpoint, e, h2) = >>=-eq-ok (expect_some null_pointer c.endpoint) _ h1 in
        if_connection-Keeps c (send_connection check draws c endpoint) (ok c) (Keeps c)
          (λ k there.
            send_connection-Keeps check draws c c' endpoint k
              (ap is_some (expect_some-ok null_pointer c.endpoint e)) there)
          (λ same. Keeps-eq (ok-injective same)) h2
  ]

  process_handed-Keeps :
      (check : Bool) (c c' : Client E N F G M) (endpoint : E) (handed : Option (ℕ × List ℕ))
      → is_some c.endpoint ≡ true
      → process_handed check c endpoint handed ≡ ok c'
      → Keeps c c'
  unfolding process_handed process_packet
  process_handed-Keeps check c c' endpoint none there h =
      subst (Keeps c) (ok-injective h) (replaced-Keeps c (sym there) refl refl refl)
  process_handed-Keeps check c c' endpoint (some (seq, bytes)) there h =
      let ((c1, result), e, h1) = >>=-eq-ok (process_packet check c seq bytes) _ h in
      let (k, e1, h2) = >>=-eq-ok (expect_some unwrap_none c.connection) _ e in
      let ((k', taken), _, h3) = >>=-eq-ok (Connection.process_packet check k seq bytes) _ h2 in
      let same : record c { connection = some k' } ≡ c1 = ap (λ x. x.0) (ok-injective h3) in
      let known = sym (ap is_some (expect_some-ok unwrap_none c.connection e1)) in
      let first : Keeps c c1 = subst (Keeps c) same (replaced-Keeps c refl known refl refl) in
      Keeps-trans first (
        subst (Keeps c1) (ok-injective h1)
          (replaced-Keeps c1 (sym (first.endpoint ∙ there)) refl refl refl))

  pub receive_packet-Keeps :
      (check : Bool) (c c' : Client E N F G M) (bytes : List ℕ)
      → receive_packet check c bytes ≡ ok c'
      → Keeps c c'
  unfolding receive_packet
  receive_packet-Keeps check c c' bytes h =
      let (endpoint, e, h1) = >>=-eq-ok (expect_some null_pointer c.endpoint) _ h in
      process_handed-Keeps check c c' _ _ (ap is_some (expect_some-ok null_pointer c.endpoint e)) h1

  receive_loop-Keeps :
      (check : Bool) (fuel : ℕ) (c c' : Client E N F G M)
      → receive_loop check fuel c ≡ ok c'
      → Keeps c c'
  unfolding receive_loop
  receive_loop-Keeps check zero c c' h = absurd (cc)
  receive_loop-Keeps check (suc fuel) c c' h =
      let (n, e, h1) = >>=-eq-ok (expect_some null_pointer c.client) _ h in
      let next : Client E N F G M = record c { client = some (netcode.receive_packet n).0 } in
      let first : Keeps c next =
        replaced-Keeps c refl refl refl
          (sym (ap is_some (expect_some-ok null_pointer c.client e))) in
      let more : List ℕ → Run (Client E N F G M) =
        λ bytes. receive_packet check next bytes >>= receive_loop check fuel in
      elim (Option-cases (netcode.receive_packet n).1) [
        | inl last ↦
            subst (Keeps c)
              (ok-injective (if_some-none (netcode.receive_packet n).1 more (ok next) last ∙ h1))
              first
        | inr (bytes, got) ↦
            let (c1, e1, h2) =
              >>=-eq-ok (receive_packet check next bytes) (receive_loop check fuel)
                (if_some-some (netcode.receive_packet n).1 more (ok next) bytes got ∙ h1) in
            Keeps-trans first (
              Keeps-trans (receive_packet-Keeps check next c1 bytes e1)
                (receive_loop-Keeps check fuel c1 c' h2))
      ]

  pub receive_packets-Keeps :
      (check : Bool) (fuel : ℕ) (c c' : Client E N F G M)
      → receive_packets check fuel c ≡ ok c'
      → Keeps c c'
  unfolding receive_packets
  receive_packets-Keeps check fuel c c' h = elim (Bool-cases (not (is_connected c))) [
    | inl away ↦ Keeps-eq (ok-injective (if_true (not (is_connected c)) (ok c) _ away ∙ h))
    | inr connected ↦
        let (_, _, h1) =
          >>=-eq-ok (assert (is_some c.client)) _
            (if_false (not (is_connected c)) (ok c) _ connected ∙ h) in
        receive_loop-Keeps check fuel c c' h1
  ]
