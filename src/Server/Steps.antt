-- ===== src/Server/Steps.antt =====
-- Every operation of a server (src/server.rs) as one step, and what holds between two steps.
use yojimbo_rs.Prelude.{
  Bool-cases, if_true, if_false, if◌then◌else◌, ℕ, ◌≡◌, sym, ap, ◌∙◌, inl, inr, Bool, not, Option,
  none, some, List, length, set, ◌==◌, is_some,
}
use yojimbo_rs.Run.{Run, ok, ok-injective, ◌>>=◌, ◌>>◌, >>=-eq-ok, assert}
use yojimbo_rs.Float.{Float}
use yojimbo_rs.Message.{NetworkMessage}
use yojimbo_rs.Config.{ClientServerConfig}
use yojimbo_rs.NetworkSimulator.{NetworkSimulator, Draws}
use yojimbo_rs.Foreign.{ReliableEndpoint, NetcodeServer}
use yojimbo_rs.Server.{
  Server, ServerRuntime, connection_at, endpoint_at, connected_in, new, send_message,
  receive_message, receive_message_with_id, with_network_simulator,
}
use yojimbo_rs.Server.Start.{start, stop}
use yojimbo_rs.Server.Traffic.{send_packets, send_clients, receive_packets, receive_clients}
use yojimbo_rs.Server.Advance.{
  advance_runtime, advance_time, disconnect_client, disconnect_connected,
}
use yojimbo_rs.Server.Keeps.{Keeps, Keeps-eq, disconnect_index-Keeps}
use yojimbo_rs.Server.Keeps.Packets.{send_clients-Keeps, receive_clients-Keeps}
use yojimbo_rs.Server.Keeps.Time.{advance_runtime-Keeps}
use yojimbo_rs.Server.Runs.{
  IsValid, Runs, untouched, ran, running-IsValid, stopped-IsValid, Runs-IsValid, Runs-time,
  if_running, receive_message_with_id-Runs, receive_message-Runs, with_network_simulator-Runs,
  send_message-Runs,
}
use yojimbo_rs.Server.Begins.{Started, start-Started, stop-stopped}

module _ {E S F G M A : Type 0} ⦃f : Float F⦄ ⦃g : Float G⦄ ⦃endpoints : ReliableEndpoint E F G⦄
    (netcode : NetcodeServer S F A) where
  advance_time-Runs :
      (s s' : Server E S F G M) (t : F) → advance_time netcode s t ≡ ok s' → Runs s s'
  unfolding advance_time
  advance_time-Runs s s' t h =
      if_running s (λ r. do r' ← advance_runtime netcode r t; ok (record s { runtime = some r' }))
        (ok s) (Runs s)
        (λ r there e.
          let (r', e1, e2) = >>=-eq-ok (advance_runtime netcode r t) _ e in
          ran r r' there (advance_runtime-Keeps netcode r r' t e1) (ok-injective e2))
        (λ e. untouched (ok-injective e)) h

  disconnect_connected-Keeps :
      (r r' : ServerRuntime E S F G M) (i : ℕ)
      → disconnect_connected netcode r i ≡ ok r'
      → Keeps r r'
  unfolding disconnect_connected
  disconnect_connected-Keeps r r' i h =
      let (_, _, h1) = >>=-eq-ok (endpoint_at r i) _ h in
      let (_, _, h2) = >>=-eq-ok (connection_at r i) _ h1 in
      disconnect_index-Keeps netcode r r' i h2

  disconnect_client-Runs :
      (s s' : Server E S F G M) (i : ℕ) → disconnect_client netcode s i ≡ ok s' → Runs s s'
  unfolding disconnect_client
  disconnect_client-Runs s s' i h =
      if_running s
        (λ r. do
          is_connected ← connected_in netcode r i
          r' ← if is_connected then disconnect_connected netcode r i else ok r
          ok (record s { runtime = some r' }))
        (ok s) (Runs s)
        (λ r there e.
          let (on, _, e1) = >>=-eq-ok (connected_in netcode r i) _ e in
          let (r', e2, e3) =
            >>=-eq-ok (if on then disconnect_connected netcode r i else ok r) _ e1 in
          ran r r' there
            (elim (Bool-cases on) [
              | inl linked ↦
                  disconnect_connected-Keeps r r' i
                    (if_true on (disconnect_connected netcode r i) (ok r) linked ∙ e2)
              | inr away ↦
                  Keeps-eq
                    (ok-injective (if_false on (disconnect_connected netcode r i) (ok r) away ∙ e2))
            ])
            (ok-injective e3))
        (λ e. untouched (ok-injective e)) h

module _ {E S F G M A : Type 0} ⦃f : Float F⦄ ⦃g : Float G⦄ ⦃m : NetworkMessage M⦄
    ⦃endpoints : ReliableEndpoint E F G⦄ (netcode : NetcodeServer S F A) where
  send_packets-Runs :
      (check : Bool) (draws : ℕ → ℕ → Draws F G) (s s' : Server E S F G M)
      → send_packets netcode check draws s ≡ ok s'
      → Runs s s'
  unfolding send_packets
  send_packets-Runs check draws s s' h =
      if_running s
        (λ r. do
          assert (is_some r.server)
          r' ← send_clients netcode check draws s.config r 0 (length r.client_connection)
          ok (record s { runtime = some r' }))
        (ok s) (Runs s)
        (λ r there e.
          let (_, _, e1) = >>=-eq-ok (assert (is_some r.server)) _ e in
          let (r', e2, e3) =
            >>=-eq-ok (send_clients netcode check draws s.config r 0 (length r.client_connection)) _
              e1 in
          ran r r' there
            (send_clients-Keeps netcode check draws s.config r r' 0 (length r.client_connection) e2)
            (ok-injective e3))
        (λ e. untouched (ok-injective e)) h

  receive_packets-Runs :
      (check : Bool) (fuel : ℕ) (s s' : Server E S F G M)
      → receive_packets netcode check fuel s ≡ ok s'
      → Runs s s'
  unfolding receive_packets
  receive_packets-Runs check fuel s s' h =
      if_running s
        (λ r. do
          assert (is_some r.server)
          r' ← receive_clients netcode check fuel r 0 (length r.client_endpoint)
          ok (record s { runtime = some r' }))
        (ok s) (Runs s)
        (λ r there e.
          let (_, _, e1) = >>=-eq-ok (assert (is_some r.server)) _ e in
          let (r', e2, e3) =
            >>=-eq-ok (receive_clients netcode check fuel r 0 (length r.client_endpoint)) _ e1 in
          ran r r' there
            (receive_clients-Keeps netcode check fuel r r' 0 (length r.client_endpoint) e2)
            (ok-injective e3))
        (λ e. untouched (ok-injective e)) h

  -- A call that changes the server and returns.
  pub data Step : Server E S F G M → Server E S F G M → Type 0 where
    started :
        {s s' : Server E S F G M} (max_clients : ℕ)
        → start netcode max_clients s ≡ ok s'
        → Step s s'
    stopped : {s s' : Server E S F G M} → stop netcode s ≡ ok s' → Step s s'
    advanced : {s s' : Server E S F G M} (t : F) → advance_time netcode s t ≡ ok s' → Step s s'
    sent_packets :
        {s s' : Server E S F G M} (check : Bool) (draws : ℕ → ℕ → Draws F G)
        → send_packets netcode check draws s ≡ ok s'
        → Step s s'
    received_packets :
        {s s' : Server E S F G M} (check : Bool) (fuel : ℕ)
        → receive_packets netcode check fuel s ≡ ok s'
        → Step s s'
    sent_message :
        {s s' : Server E S F G M} (client_index index : ℕ) (message : M)
        → send_message s client_index index message ≡ ok s'
        → Step s s'
    received_message :
        {s s' : Server E S F G M} (client_index index : ℕ) (message : Option M)
        → receive_message s client_index index ≡ ok (s', message)
        → Step s s'
    received_with_id :
        {s s' : Server E S F G M} (client_index index : ℕ) (message : Option (ℕ × M))
        → receive_message_with_id s client_index index ≡ ok (s', message)
        → Step s s'
    configured_simulator :
        {s s' : Server E S F G M} (set : NetworkSimulator F G → Run (NetworkSimulator F G))
        → with_network_simulator set s ≡ ok s'
        → Step s s'
    disconnected :
        {s s' : Server E S F G M} (client_index : ℕ)
        → disconnect_client netcode s client_index ≡ ok s'
        → Step s s'

  -- The three ways in which a call changes the server.
  pub data Change (s s' : Server E S F G M) : Type 0 where
    runs : Runs s s' → Change s s'
    starts : (max_clients : ℕ) → Started netcode max_clients s s' → Change s s'
    stops : record s { runtime = none } ≡ s' → Change s s'

  pub Step-Change : {s s' : Server E S F G M} → Step s s' → Change s s'
  Step-Change {s} {s'} (started max_clients h) =
      Change.starts max_clients (start-Started netcode max_clients s s' h)
  Step-Change {s} {s'} (stopped h) = Change.stops (stop-stopped netcode s s' h)
  Step-Change {s} {s'} (advanced t h) = Change.runs (advance_time-Runs netcode s s' t h)
  Step-Change {s} {s'} (sent_packets check draws h) =
      Change.runs (send_packets-Runs check draws s s' h)
  Step-Change {s} {s'} (received_packets check fuel h) =
      Change.runs (receive_packets-Runs check fuel s s' h)
  Step-Change {s} {s'} (sent_message i index message h) =
      Change.runs (send_message-Runs s s' i index message h)
  Step-Change {s} {s'} (received_message i index message h) =
      Change.runs (receive_message-Runs s s' i index h)
  Step-Change {s} {s'} (received_with_id i index message h) =
      Change.runs (receive_message_with_id-Runs s s' i index h)
  Step-Change {s} {s'} (configured_simulator set h) =
      Change.runs (with_network_simulator-Runs set s s' h)
  Step-Change {s} {s'} (disconnected i h) = Change.runs (disconnect_client-Runs netcode s s' i h)

  Change-IsValid :
      {s s' : Server E S F G M} → Change s s' → IsValid s → IsValid s' × (s'.time ≡ s.time)
  Change-IsValid (runs r) v = (Runs-IsValid r v, Runs-time r)
  Change-IsValid {s} {s'} (starts max_clients began) v =
      (running-IsValid s' began.runtime began.runs began.is_running, began.time)
  Change-IsValid {s} {s'} (stops e) v =
      (stopped-IsValid s' (ap (λ x. x.runtime) (sym e)), ap (λ x. x.time) (sym e))

  -- The servers that one created at a time can become.
  pub data Becomes : F → Server E S F G M → Type 0 where
    create :
        {s : Server E S F G M} (message_size : ℕ) (private_key address : List ℕ)
        (config : ClientServerConfig F G) (time : F)
        → new message_size private_key address config time ≡ ok s
        → Becomes time s
    step : {time : F} {s s' : Server E S F G M} → Becomes time s → Step s s' → Becomes time s'

  pub new-stopped :
      {s : Server E S F G M} (message_size : ℕ) (private_key address : List ℕ)
      (config : ClientServerConfig F G) (time : F)
      → new message_size private_key address config time ≡ ok s
      → (s.runtime ≡ none) × (s.time ≡ time)
  unfolding new
  new-stopped message_size private_key address config time h =
      let (_, _, h1) = >>=-eq-ok (assert (not (message_size == 0))) _ h in
      let e = ok-injective h1 in (ap (λ x. x.runtime) (sym e), ap (λ x. x.time) (sym e))

  -- Whatever is called on a server, in any order, as long as no call panics: while it runs it has
  -- a netcode server, and as many connections and endpoints as it was started for. And its `time`
  -- stays the one it was created with, which `advance_time` does not change either.
  pub Becomes-IsValid :
      {time : F} {s : Server E S F G M} → Becomes time s → IsValid s × (s.time ≡ time)
  Becomes-IsValid {s = s} (create message_size private_key address config time h) =
      let (stopped_now, at) = new-stopped message_size private_key address config time h in
      (stopped-IsValid s stopped_now, at)
  Becomes-IsValid (step r st) =
      let (v, t) = Becomes-IsValid r in
      let (v', t') = Change-IsValid (Step-Change st) v in (v', t' ∙ t)
