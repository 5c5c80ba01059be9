-- ===== src/Server/Keeps/Packets.antt =====
-- What `send_packets` and `receive_packets` of a server leave alone (src/server.rs).
use yojimbo_rs.Prelude.{
  ℕ, get_elem?, zero, suc, ◌+◌, ◌≡◌, refl, sym, ap, subst, ◌∙◌, inl, inr, Bool, Option, none, some,
  List, [], ◌∷◌, length, length-set, leb, ◌==◌, is_some, if_some-none, if_some-some, if_true,
  if_false, Bool-cases, Option-cases, if◌then◌else◌,
}
use yojimbo_rs.Run.{Run, ok, ok-injective, ◌>>=◌, >>=-eq-ok, expect_some, assert, null_pointer}
use yojimbo_rs.Float.{Float}
use yojimbo_rs.Message.{NetworkMessage}
use yojimbo_rs.Config.{ClientServerConfig}
use yojimbo_rs.Connection
use yojimbo_rs.Connection.{Connection}
use yojimbo_rs.NetworkSimulator
use yojimbo_rs.NetworkSimulator.{NetworkSimulator, Draws}
use yojimbo_rs.Foreign.{ReliableEndpoint, NetcodeServer}
use yojimbo_rs.Client.Keeps.{expect_some-ok}
use yojimbo_rs.Server.{ServerRuntime, connection_at, endpoint_at, set_connection, connected_in}
use yojimbo_rs.Server.Traffic.{
  send_now, intercept, transmit_packet, transmit_packets, send_written, send_connected, send_client,
  send_clients, process_packet, process_handed, receive_packet, receive_client, receive_clients,
}
use yojimbo_rs.Server.Lines.{Descends, Lines-refl}
use yojimbo_rs.Server.Keeps.{
  endpoint_there, Keeps, Keeps-eq, Keeps-trans, replaced-Keeps, set_connection-Keeps,
  set_endpoint-Keeps, with_server, with_server-Keeps,
}

module _ {E S F G M A : Type 0} ⦃f : Float F⦄ ⦃g : Float G⦄ ⦃endpoints : ReliableEndpoint E F G⦄
    (netcode : NetcodeServer S F A) where
  send_now-Keeps :
      (r r' : ServerRuntime E S F G M) (i : ℕ) (bytes : List ℕ)
      → send_now netcode r i bytes ≡ ok r'
      → Keeps r r'
  unfolding send_now
  send_now-Keeps r r' i bytes h =
      let (n, e, h1) = >>=-eq-ok (expect_some null_pointer r.server) _ h in
      subst (Keeps r) (ok-injective h1) (
        replaced-Keeps r refl refl (sym (ap is_some (expect_some-ok null_pointer r.server e)))
          (Lines-refl endpoints r.client_endpoint))

  intercept-Keeps :
      (draws : Draws F G) (r r' : ServerRuntime E S F G M) (s : NetworkSimulator F G) (i : ℕ)
      (bytes : List ℕ)
      → intercept netcode draws r s i bytes ≡ ok r'
      → Keeps r r'
  unfolding intercept
  intercept-Keeps draws r r' s i bytes h =
      let (s', _, h1) = >>=-eq-ok (NetworkSimulator.send_packet s draws i bytes) _ h in
      subst (Keeps r) (ok-injective h1)
        (replaced-Keeps r refl refl refl (Lines-refl endpoints r.client_endpoint))

  transmit_packet-Keeps :
      (draws : Draws F G) (r r' : ServerRuntime E S F G M) (i : ℕ) (bytes : List ℕ)
      → transmit_packet netcode draws r i bytes ≡ ok r'
      → Keeps r r'
  unfolding transmit_packet
  transmit_packet-Keeps draws r r' i bytes h =
      let now = send_now netcode r i bytes in
      let take_it : NetworkSimulator F G → Run (ServerRuntime E S F G M) =
        λ s. intercept netcode draws r s i bytes in
      elim (Option-cases r.network_simulator) [
        | inl gone ↦ send_now-Keeps r r' i bytes (
            if_some-none r.network_simulator (λ s. if s.active then take_it s else now) now gone
            ∙ h)
        | inr (s, there) ↦
            let h1 =
              if_some-some r.network_simulator (λ s. if s.active then take_it s else now) now s
                there
              ∙ h in
            elim (Bool-cases s.active) [
              | inl on ↦
                  intercept-Keeps draws r r' s i bytes (if_true s.active (take_it s) now on ∙ h1)
              | inr off ↦ send_now-Keeps r r' i bytes (if_false s.active (take_it s) now off ∙ h1)
            ]
      ]

  transmit_packets-Keeps :
      (draws : ℕ → Draws F G) (r r' : ServerRuntime E S F G M) (i : ℕ) (packets : List (List ℕ))
      → transmit_packets netcode draws r i packets ≡ ok r'
      → Keeps r r'
  unfolding transmit_packets
  transmit_packets-Keeps draws r r' i [] h = Keeps-eq (ok-injective h)
  transmit_packets-Keeps draws r r' i (packet ∷ packets) h =
      let (r1, e, h1) = >>=-eq-ok (transmit_packet netcode (draws 0) r i packet) _ h in
      Keeps-trans (transmit_packet-Keeps (draws 0) r r1 i packet e)
        (transmit_packets-Keeps (λ n. draws (suc n)) r1 r' i packets h1)

module _ {E S F G M A : Type 0} ⦃f : Float F⦄ ⦃g : Float G⦄ ⦃m : NetworkMessage M⦄
    ⦃endpoints : ReliableEndpoint E F G⦄ (netcode : NetcodeServer S F A) where
  send_written-Keeps :
      (draws : ℕ → Draws F G) (r r' : ServerRuntime E S F G M) (i : ℕ) (e : E) (bytes : List ℕ)
      → get_elem? r.client_endpoint i ≡ some e
      → send_written netcode draws r i e bytes ≡ ok r'
      → Keeps r r'
  unfolding send_written
  send_written-Keeps draws r r' i e [] there h = Keeps-eq (ok-injective h)
  send_written-Keeps draws r r' i e (b ∷ bytes) there h =
      Keeps-trans (set_endpoint-Keeps r i there (Descends.send_packet (b ∷ bytes) Descends.same))
        (transmit_packets-Keeps netcode draws _ r' (endpoints.index e) _ h)

  send_connected-Keeps :
      (check : Bool) (draws : ℕ → Draws F G) (config : ClientServerConfig F G)
      (r r' : ServerRuntime E S F G M) (i : ℕ) (e : E)
      → get_elem? r.client_endpoint i ≡ some e
      → send_connected netcode check draws config r i e ≡ ok r'
      → Keeps r r'
  unfolding send_connected
  send_connected-Keeps check draws config r r' i e there h =
      let (k, _, h1) = >>=-eq-ok (connection_at r i) _ h in
      let (_, _, h2) =
        >>=-eq-ok (assert (length r.packet_buffer == config.connection.max_packet_size)) _ h1 in
      let ((k', bytes), _, h3) =
        >>=-eq-ok
          (Connection.generate_packet check k (endpoints.next_packet_sequence e)
            (length r.packet_buffer))
          _ h2 in
      let (_, _, h4) =
        >>=-eq-ok (assert (leb (length bytes) config.connection.max_packet_size)) _ h3 in
      Keeps-trans
        (replaced-Keeps r (length-set r.client_connection i k') refl refl
          (Lines-refl endpoints r.client_endpoint))
        (send_written-Keeps draws _ r' i e bytes there h4)

  send_client-Keeps :
      (check : Bool) (draws : ℕ → Draws F G) (config : ClientServerConfig F G)
      (r r' : ServerRuntime E S F G M) (i : ℕ)
      → send_client netcode check draws config r i ≡ ok r'
      → Keeps r r'
  unfolding send_client
  send_client-Keeps check draws config r r' i h =
      let (e, at, h1) = >>=-eq-ok (endpoint_at r i) _ h in
      let (connected, _, h2) = >>=-eq-ok (connected_in netcode r i) _ h1 in
      elim (Bool-cases connected) [
        | inl on ↦
            send_connected-Keeps check draws config r r' i e (endpoint_there r i at)
              (if_true connected (send_connected netcode check draws config r i e) (ok r) on ∙ h2)
        | inr off ↦ Keeps-eq (
            ok-injective (
              if_false connected (send_connected netcode check draws config r i e) (ok r) off ∙ h2))
      ]

  pub send_clients-Keeps :
      (check : Bool) (draws : ℕ → ℕ → Draws F G) (config : ClientServerConfig F G)
      (r r' : ServerRuntime E S F G M) (i count : ℕ)
      → send_clients netcode check draws config r i count ≡ ok r'
      → Keeps r r'
  unfolding send_clients
  send_clients-Keeps check draws config r r' i zero h = Keeps-eq (ok-injective h)
  send_clients-Keeps check draws config r r' i (suc count) h =
      let (r1, e, h1) = >>=-eq-ok (send_client netcode check (draws i) config r i) _ h in
      Keeps-trans (send_client-Keeps check (draws i) config r r1 i e)
        (send_clients-Keeps check draws config r1 r' (i + 1) count h1)

  process_packet-Keeps :
      (check : Bool) (r r' : ServerRuntime E S F G M) (i seq result : ℕ) (bytes : List ℕ)
      → process_packet netcode check r i seq bytes ≡ ok (r', result)
      → Keeps r r' × (r.client_endpoint ≡ r'.client_endpoint)
  unfolding process_packet
  process_packet-Keeps check r r' i seq result bytes h =
      let (k, _, h1) = >>=-eq-ok (connection_at r i) _ h in
      let ((k', taken), _, h2) = >>=-eq-ok (Connection.process_packet check k seq bytes) _ h1 in
      let same : set_connection r i k' ≡ r' = ap (λ x. x.0) (ok-injective h2) in
      (subst (Keeps r) same (set_connection-Keeps r i k'), ap (λ x. x.client_endpoint) same)

  process_handed-Keeps :
      (check : Bool) (r r' : ServerRuntime E S F G M) (i : ℕ) {d : E} (e : E)
      (handed : Option (ℕ × List ℕ))
      → get_elem? r.client_endpoint i ≡ some d
      → Descends endpoints d e
      → process_handed netcode check r i e handed ≡ ok r'
      → Keeps r r'
  unfolding process_handed
  process_handed-Keeps check r r' i e none there line h =
      subst (Keeps r) (ok-injective h) (set_endpoint-Keeps r i there line)
  process_handed-Keeps check r r' i {d} e (some (seq, bytes)) there line h =
      let ((r1, result), e1, h1) =
        >>=-eq-ok (process_packet netcode check r (endpoints.index e) seq bytes) _ h in
      let (first, same) = process_packet-Keeps check r r1 (endpoints.index e) seq result bytes e1 in
      Keeps-trans first (
        subst (Keeps r1) (ok-injective h1) (
          set_endpoint-Keeps r1 i (subst (λ es. get_elem? es i ≡ some d) same there)
            (Descends.finish_receive seq result line)))

  pub receive_packet-Keeps :
      (check : Bool) (r r' : ServerRuntime E S F G M) (i : ℕ) (bytes : List ℕ)
      → receive_packet netcode check r i bytes ≡ ok r'
      → Keeps r r'
  unfolding receive_packet
  receive_packet-Keeps check r r' i bytes h =
      let (e, at, h1) = >>=-eq-ok (endpoint_at r i) _ h in
      process_handed-Keeps check r r' i (endpoints.receive_packet e bytes).0
        (endpoints.receive_packet e bytes).1 (endpoint_there r i at)
        (Descends.receive_packet bytes Descends.same) h1

  receive_client-Keeps :
      (check : Bool) (fuel : ℕ) (r r' : ServerRuntime E S F G M) (i : ℕ)
      → receive_client netcode check fuel r i ≡ ok r'
      → Keeps r r'
  unfolding receive_client
  receive_client-Keeps check zero r r' i h = absurd (cc)
  receive_client-Keeps check (suc fuel) r r' i h =
      let (n, e, h1) = >>=-eq-ok (expect_some null_pointer r.server) _ h in
      let next = with_server r (netcode.receive_packet n i).0 in
      let first : Keeps r next =
        with_server-Keeps r null_pointer (netcode.receive_packet n i).0 e in
      let more : List ℕ → Run (ServerRuntime E S F G M) = λ bytes.
        receive_packet netcode check next i bytes
        >>= (λ x. receive_client netcode check fuel x i) in
      elim (Option-cases (netcode.receive_packet n i).1) [
        | inl last ↦
            subst (Keeps r)
              (ok-injective (if_some-none (netcode.receive_packet n i).1 more (ok next) last ∙ h1))
              first
        | inr (bytes, got) ↦
            let (r1, e1, h2) =
              >>=-eq-ok (receive_packet netcode check next i bytes)
                (λ x. receive_client netcode check fuel x i)
                (if_some-some (netcode.receive_packet n i).1 more (ok next) bytes got ∙ h1) in
            Keeps-trans first (
              Keeps-trans (receive_packet-Keeps check next r1 i bytes e1)
                (receive_client-Keeps check fuel r1 r' i h2))
      ]

  pub receive_clients-Keeps :
      (check : Bool) (fuel : ℕ) (r r' : ServerRuntime E S F G M) (i count : ℕ)
      → receive_clients netcode check fuel r i count ≡ ok r'
      → Keeps r r'
  unfolding receive_clients
  receive_clients-Keeps check fuel r r' i zero h = Keeps-eq (ok-injective h)
  receive_clients-Keeps check fuel r r' i (suc count) h =
      let (r1, e, h1) = >>=-eq-ok (receive_client netcode check fuel r i) _ h in
      Keeps-trans (receive_client-Keeps check fuel r r1 i e)
        (receive_clients-Keeps check fuel r1 r' (i + 1) count h1)
