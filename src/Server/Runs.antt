-- ===== src/Server/Runs.antt =====
-- What the operations on the messages of a server leave of it (src/server.rs).
use yojimbo_rs.Prelude.{
  ℕ, ◌≡◌, refl, sym, ap, subst, ◌∙◌, inl, inr, true, Option, none, some, length, set, is_some,
  if_some, some-injective, if_some-none, if_some-some, Option-cases,
}
use yojimbo_rs.Run.{Run, ok, ok-injective, ◌>>=◌, >>=-eq-ok, map_run}
use yojimbo_rs.Float.{Float}
use yojimbo_rs.Message.{NetworkMessage}
use yojimbo_rs.Connection
use yojimbo_rs.Connection.{Connection}
use yojimbo_rs.NetworkSimulator.{NetworkSimulator}
use yojimbo_rs.Foreign.{ReliableEndpoint}
use yojimbo_rs.Server.{
  Server, ServerRuntime, connection_at, set_connection, send_message, receive_message,
  receive_message_with_id, with_network_simulator,
}
use yojimbo_rs.Server.Lines.{Lines-refl}
use yojimbo_rs.Server.Keeps.{Keeps, replaced-Keeps, set_connection-Keeps}

-- A running server: a connection and an endpoint for each client, and a netcode server.
pub record IsRunning {E S F G M : Type 0} (r : ServerRuntime E S F G M) : Type 0 where
  pub connections : length r.client_connection ≡ r.max_clients
  pub endpoints : length r.client_endpoint ≡ r.max_clients
  pub server : is_some r.server ≡ true

-- A server that runs well, if it runs.
pub record IsValid {E S F G M : Type 0} (s : Server E S F G M) : Type 0 where
  pub runs : (r : ServerRuntime E S F G M) → s.runtime ≡ some r → IsRunning r

-- A call that leaves the server alone, or a running server running.
pub data Runs {E S F G M : Type 0} ⦃endpoints : ReliableEndpoint E F G⦄ (s s' : Server E S F G M)
    : Type 0 where
  untouched : s ≡ s' → Runs s s'
  ran :
      (r r' : ServerRuntime E S F G M)
      → s.runtime ≡ some r
      → Keeps r r'
      → record s { runtime = some r' } ≡ s'
      → Runs s s'

module _ {E S F G M : Type 0} ⦃endpoints : ReliableEndpoint E F G⦄ where
  pub Keeps-IsRunning : {r r' : ServerRuntime E S F G M} → Keeps r r' → IsRunning r → IsRunning r'
  Keeps-IsRunning k v = record {
    connections = k.connections ∙ v.connections ∙ sym k.max_clients;
    endpoints = k.clients ∙ v.endpoints ∙ sym k.max_clients;
    server = k.server ∙ v.server;
  }

  pub running-IsValid :
      (s : Server E S F G M) (r : ServerRuntime E S F G M)
      → s.runtime ≡ some r
      → IsRunning r
      → IsValid s
  running-IsValid s r there v = record {
    runs = λ x h. subst IsRunning (some-injective (sym there ∙ h)) v;
  }

  pub stopped-IsValid : (s : Server E S F G M) → s.runtime ≡ none → IsValid s
  stopped-IsValid s gone = record {
    runs = λ x h. let e : none ≡ some x = sym gone ∙ h in absurd (cc);
  }

  pub Runs-IsValid : {s s' : Server E S F G M} → Runs s s' → IsValid s → IsValid s'
  Runs-IsValid (untouched e) v = subst IsValid e v
  Runs-IsValid {s} (ran r r' there k e) v = subst IsValid e (
      running-IsValid (record s { runtime = some r' }) r' refl (Keeps-IsRunning k (v.runs r there)))

  pub Runs-time : {s s' : Server E S F G M} → Runs s s' → s'.time ≡ s.time
  Runs-time (untouched e) = ap (λ x. x.time) (sym e)
  Runs-time (ran r r' there k e) = ap (λ x. x.time) (sym e)

  -- An operation on the runtime, if the server runs.
  pub if_running :
      {A : Type 0} (s : Server E S F G M) (act : ServerRuntime E S F G M → Run A)
      (otherwise : Run A) {end : A} (P : A → Type 0)
      → ((r : ServerRuntime E S F G M) → s.runtime ≡ some r → act r ≡ ok end → P end)
      → (otherwise ≡ ok end → P end)
      → if_some s.runtime act otherwise ≡ ok end
      → P end
  if_running s act otherwise P act_fine other_fine h = elim (Option-cases s.runtime) [
    | inl gone ↦ other_fine (if_some-none s.runtime act otherwise gone ∙ h)
    | inr (r, there) ↦ act_fine r there (if_some-some s.runtime act otherwise r there ∙ h)
  ]

  pub receive_message_with_id-Runs :
      (s s' : Server E S F G M) (i index : ℕ) {message : Option (ℕ × M)}
      → receive_message_with_id s i index ≡ ok (s', message)
      → Runs s s'
  unfolding receive_message_with_id
  receive_message_with_id-Runs s s' i index h =
      if_running s
        (λ r. do
          connection ← connection_at r i
          (connection', message) ← Connection.receive_message connection index
          ok (record s { runtime = some (set_connection r i connection') }, message))
        (ok (s, none)) (λ x. Runs s x.0)
        (λ r there e.
          let (k, _, e1) = >>=-eq-ok (connection_at r i) _ e in
          let ((k', message), _, e2) = >>=-eq-ok (Connection.receive_message k index) _ e1 in
          ran r (set_connection r i k') there (set_connection-Keeps r i k')
            (ap (λ x. x.0) (ok-injective e2)))
        (λ e. untouched (ap (λ x. x.0) (ok-injective e))) h

  pub receive_message-Runs :
      (s s' : Server E S F G M) (i index : ℕ) {message : Option M}
      → receive_message s i index ≡ ok (s', message)
      → Runs s s'
  unfolding receive_message
  receive_message-Runs s s' i index h =
      let ((s1, message), e, h1) = >>=-eq-ok (receive_message_with_id s i index) _ h in
      subst (Runs s) (ap (λ x. x.0) (ok-injective h1)) (receive_message_with_id-Runs s s1 i index e)

  pub with_network_simulator-Runs :
      (set : NetworkSimulator F G → Run (NetworkSimulator F G)) (s s' : Server E S F G M)
      → with_network_simulator set s ≡ ok s'
      → Runs s s'
  unfolding with_network_simulator
  with_network_simulator-Runs set s s' h =
      if_running s
        (λ r. do
          network_simulator ← map_run set r.network_simulator
          ok (record s { runtime = some (record r { network_simulator = network_simulator }) }))
        (ok s) (Runs s)
        (λ r there e.
          let (n, _, e1) = >>=-eq-ok (map_run set r.network_simulator) _ e in
          ran r (record r { network_simulator = n }) there
            (replaced-Keeps r refl refl refl (Lines-refl endpoints r.client_endpoint))
            (ok-injective e1))
        (λ e. untouched (ok-injective e)) h

module _ {E S F G M : Type 0} ⦃f : Float F⦄ ⦃m : NetworkMessage M⦄
    ⦃endpoints : ReliableEndpoint E F G⦄ where
  pub send_message-Runs :
      (s s' : Server E S F G M) (i index : ℕ) (message : M)
      → send_message s i index message ≡ ok s'
      → Runs s s'
  unfolding send_message
  send_message-Runs s s' i index message h =
      if_running s
        (λ r. do
          connection ← connection_at r i
          connection' ← Connection.send_message connection index message
          ok (record s { runtime = some (set_connection r i connection') }))
        (ok s) (Runs s)
        (λ r there e.
          let (k, _, e1) = >>=-eq-ok (connection_at r i) _ e in
          let (k', _, e2) = >>=-eq-ok (Connection.send_message k index message) _ e1 in
          ran r (set_connection r i k') there (set_connection-Keeps r i k') (ok-injective e2))
        (λ e. untouched (ok-injective e)) h
