-- ===== src/Server/Keeps/Time.antt =====
-- What `advance_time` of a server leaves alone (src/server.rs).
use yojimbo_rs.Prelude.{
  ℕ, get_elem?, some, zero, suc, ◌+◌, ◌≡◌, refl, sym, ap, subst, ◌∙◌, inl, inr, length-set, is_some,
  if_some-none, if_some-some, if_true, if_false, Bool-cases, Option-cases, if◌then◌else◌,
}
use yojimbo_rs.Run.{Run, ok, ok-injective, >>=-eq-ok, expect_some, assertion, null_pointer}
use yojimbo_rs.Float.{Float}
use yojimbo_rs.ErrorLevel.{is_connection_error}
use yojimbo_rs.Connection
use yojimbo_rs.Connection.{Connection}
use yojimbo_rs.NetworkSimulator
use yojimbo_rs.NetworkSimulator.{NetworkSimulator}
use yojimbo_rs.Foreign.{ReliableEndpoint, NetcodeServer}
use yojimbo_rs.Client.Keeps.{expect_some-ok}
use yojimbo_rs.Server.{ServerRuntime, connection_at, endpoint_at, set_connection}
use yojimbo_rs.Server.Start.{handle_events}
use yojimbo_rs.Server.Advance.{
  advance_fine, disconnect_index, advance_client, advance_clients, flush_active, flush_simulator,
  advance_runtime,
}
use yojimbo_rs.Server.Lines.{Descends, Lines-refl, Lines-set}
use yojimbo_rs.Server.Keeps.{
  endpoint_there, Keeps, Keeps-eq, Keeps-trans, replaced-Keeps, set_connection-Keeps,
  handle_events-Keeps, disconnect_index-Keeps, with_server, with_server-Keeps,
}

module _ {E S F G M A : Type 0} ⦃f : Float F⦄ ⦃g : Float G⦄ ⦃endpoints : ReliableEndpoint E F G⦄
    (netcode : NetcodeServer S F A) where
  advance_fine-Keeps :
      (r r' : ServerRuntime E S F G M) (t : F) (i : ℕ) (k : Connection F M) (e : E)
      → get_elem? r.client_endpoint i ≡ some e
      → advance_fine netcode r t i k e ≡ ok r'
      → Keeps r r'
  unfolding advance_fine
  advance_fine-Keeps r r' t i k e there h =
      let (k', _, h1) =
        >>=-eq-ok (Connection.process_acks k (endpoints.get_acks (endpoints.update e t))) _ h in
      subst (Keeps r) (ok-injective h1) (
        replaced-Keeps r (length-set r.client_connection i k')
          (length-set r.client_endpoint i (endpoints.clear_acks (endpoints.update e t))) refl
          (Lines-set endpoints r.client_endpoint i there
            (Descends.clear_acks (Descends.update t Descends.same))))

  advance_client-Keeps :
      (r r' : ServerRuntime E S F G M) (t : F) (i : ℕ)
      → advance_client netcode r t i ≡ ok r'
      → Keeps r r'
  unfolding advance_client
  advance_client-Keeps r r' t i h =
      let (k, _, h1) = >>=-eq-ok (connection_at r i) _ h in
      let (e, at, h2) = >>=-eq-ok (endpoint_at r i) _ h1 in
      let k' = Connection.advance_time k t in
      let drop_it = disconnect_index netcode (set_connection r i k') i in
      let go_on = advance_fine netcode r t i k' e in
      elim (Bool-cases (is_connection_error k'.error_level)) [
        | inl bad ↦ Keeps-trans (set_connection-Keeps r i k') (
            disconnect_index-Keeps netcode (set_connection r i k') r' i
              (if_true (is_connection_error k'.error_level) drop_it go_on bad ∙ h2))
        | inr fine ↦
            advance_fine-Keeps r r' t i k' e (endpoint_there r i at)
              (if_false (is_connection_error k'.error_level) drop_it go_on fine ∙ h2)
      ]

  advance_clients-Keeps :
      (r r' : ServerRuntime E S F G M) (t : F) (i count : ℕ)
      → advance_clients netcode r t i count ≡ ok r'
      → Keeps r r'
  unfolding advance_clients
  advance_clients-Keeps r r' t i zero h = Keeps-eq (ok-injective h)
  advance_clients-Keeps r r' t i (suc count) h =
      let (r1, e, h1) = >>=-eq-ok (advance_client netcode r t i) _ h in
      Keeps-trans (advance_client-Keeps r r1 t i e) (advance_clients-Keeps r1 r' t (i + 1) count h1)

  flush_simulator-Keeps :
      (r r' : ServerRuntime E S F G M) → flush_simulator netcode r ≡ ok r' → Keeps r r'
  unfolding flush_simulator flush_active
  flush_simulator-Keeps r r' h =
      let flush : NetworkSimulator F G → Run (ServerRuntime E S F G M) =
        λ s. if s.active then flush_active netcode r s else ok r in
      elim (Option-cases r.network_simulator) [
        | inl gone ↦
            Keeps-eq (ok-injective (if_some-none r.network_simulator flush (ok r) gone ∙ h))
        | inr (s, there) ↦
            let h1 = if_some-some r.network_simulator flush (ok r) s there ∙ h in
            elim (Bool-cases s.active) [
              | inl on ↦
                  let ((s', packets), _, h2) =
                    >>=-eq-ok (NetworkSimulator.receive_packets s) _
                      (if_true s.active (flush_active netcode r s) (ok r) on ∙ h1) in
                  let (n, e, h3) = >>=-eq-ok (expect_some null_pointer r.server) _ h2 in
                  subst (Keeps r) (ok-injective h3) (
                    replaced-Keeps r refl refl
                      (sym (ap is_some (expect_some-ok null_pointer r.server e)))
                      (Lines-refl endpoints r.client_endpoint))
              | inr off ↦
                  Keeps-eq
                    (ok-injective (if_false s.active (flush_active netcode r s) (ok r) off ∙ h1))
            ]
      ]

  pub advance_runtime-Keeps :
      (r r' : ServerRuntime E S F G M) (t : F) → advance_runtime netcode r t ≡ ok r' → Keeps r r'
  unfolding advance_runtime
  advance_runtime-Keeps r r' t h =
      let (n, e, h1) = >>=-eq-ok (expect_some assertion r.server) _ h in
      let next = with_server r (netcode.update n t).0 in
      let (r1, e1, h2) = >>=-eq-ok (handle_events next (netcode.update n t).1) _ h1 in
      let (r2, e2, h3) = >>=-eq-ok (advance_clients netcode r1 t 0 r1.max_clients) _ h2 in
      Keeps-trans (with_server-Keeps r assertion (netcode.update n t).0 e) (
        Keeps-trans (handle_events-Keeps next r1 (netcode.update n t).1 e1) (
          Keeps-trans (advance_clients-Keeps r1 r2 t 0 r1.max_clients e2)
            (flush_simulator-Keeps r2 r' h3)))
