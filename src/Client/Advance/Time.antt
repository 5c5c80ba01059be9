-- ===== src/Client/Advance/Time.antt =====
-- `advance_time` of a client, whole (src/client.rs): what an error of the connection leads to, and
-- how the client follows the state of netcode.
use yojimbo_rs.Prelude.{
  ◌≡◌, refl, sym, ap, subst, ◌∙◌, inl, inr, true, false, none, some, is_some, is_some-true, if_some,
  if_some-none, if_some-some, if_true, if_false, Bool-cases, Option-cases,
}
use yojimbo_rs.Run.{ok, >>=-eq-ok}
use yojimbo_rs.Float.{Float}
use yojimbo_rs.ErrorLevel.{is_connection_error}
use yojimbo_rs.Connection
use yojimbo_rs.Connection.{Connection}
use yojimbo_rs.Foreign.{ReliableEndpoint, NetcodeClient}
use yojimbo_rs.ClientState.{client_state_from_netcode_state}
use yojimbo_rs.ClientState.Known.{IsDocumented}
use yojimbo_rs.Client.{Client, disconnect, is_disconnected}
use yojimbo_rs.Client.Lifecycle.{advance_simulator, advance_connection, advance_time}
use yojimbo_rs.Client.Valid.{
  IsValid, idle, idle-IsValid, disconnect-idle, disconnect_returns, port-of,
}
use yojimbo_rs.Client.Keeps.{Keeps-IsValid, replaced-Keeps}
use yojimbo_rs.Client.Advance.{advance_simulator-IsValid, advance_simulator-Follows}

module _ {E N F G M : Type 0} ⦃f : Float F⦄ ⦃g : Float G⦄ ⦃endpoints : ReliableEndpoint E F G⦄
    ⦃netcode : NetcodeClient N F⦄ where
  -- A client in `advance_time`, after the acks of its endpoint.
  abbrev acked : Client E N F G M → E → Connection F M → Client E N F G M
  acked c endpoint connection = record c {
    endpoint = some (endpoints.clear_acks (endpoints.update endpoint c.time));
    connection = some connection;
  }

  acked-IsValid :
      (c : Client E N F G M) (e : E) (k : Connection F M)
      → IsValid c
      → is_some c.endpoint ≡ true
      → is_some c.connection ≡ true
      → IsValid (acked c e k)
  acked-IsValid c e k v he hk = Keeps-IsValid (replaced-Keeps c (sym he) (sym hk) refl refl) v

  -- `advance_connection` without an error goes on with the simulator.
  advance_connection-fine :
      (c c' : Client E N F G M) (e : E) (k : Connection F M)
      → is_connection_error (Connection.advance_time k c.time).error_level ≡ false
      → advance_connection c e k ≡ ok c'
      → (k' : Connection F M) × (Connection.process_acks
            (Connection.advance_time k c.time)
            (endpoints.get_acks (endpoints.update e c.time))
          ≡ ok k')
        × (advance_simulator (acked c e k') ≡ ok c')
  unfolding advance_connection
  advance_connection-fine c c' e k fine h =
      >>=-eq-ok
        (Connection.process_acks (Connection.advance_time k c.time)
          (endpoints.get_acks (endpoints.update e c.time)))
        (λ k'. advance_simulator (acked c e k'))
        (if_false (is_connection_error (Connection.advance_time k c.time).error_level) _ _ fine ∙ h)

  advance_connection-error :
      (c : Client E N F G M) (e : E) (k : Connection F M)
      → is_connection_error (Connection.advance_time k c.time).error_level ≡ true
      → disconnect (record c { connection = some (Connection.advance_time k c.time) })
        ≡ advance_connection c e k
  unfolding advance_connection
  advance_connection-error c e k bad =
      if_true (is_connection_error (Connection.advance_time k c.time).error_level) _ _ bad

  advance_connection-IsValid :
      (c c' : Client E N F G M) (e : E) (k : Connection F M)
      → IsValid c
      → is_some c.endpoint ≡ true
      → is_some c.connection ≡ true
      → advance_connection c e k ≡ ok c'
      → IsValid c'
  advance_connection-IsValid c c' e k v he hk h =
      elim (Bool-cases (is_connection_error (Connection.advance_time k c.time).error_level)) [
        | inl bad ↦
            subst IsValid
              (disconnect-idle (record c { connection = some (Connection.advance_time k c.time) })
                c' (port-of v) (advance_connection-error c e k bad ∙ h))
              (idle-IsValid c)
        | inr fine ↦
            let (k', _, h1) = advance_connection-fine c c' e k fine h in
            advance_simulator-IsValid (acked c e k') c' (acked-IsValid c e k' v he hk) h1
      ]

  -- The client at its new time.
  abbrev pub at_time : Client E N F G M → F → Client E N F G M
  at_time c t = record c { time = t }

  at_time-IsValid : {c : Client E N F G M} (t : F) → IsValid c → IsValid (at_time c t)
  at_time-IsValid t v = record {
    endpoint = v.endpoint;
    connection = v.connection;
    bound_port = v.bound_port;
    network_simulator = v.network_simulator;
    client_id = v.client_id;
    client_state = v.client_state;
  }

  -- The body of `advance_time` for a client with an endpoint and a connection, or without.
  advance_time-connected :
      (c : Client E N F G M) (t : F) (e : E) (k : Connection F M)
      → c.endpoint ≡ some e
      → c.connection ≡ some k
      → advance_connection (at_time c t) e k ≡ advance_time c t
  unfolding advance_time
  advance_time-connected c t e k he hk =
      if_some-some c.connection (advance_connection (at_time c t) e) _ k hk
      ∙ if_some-some c.endpoint
          (λ endpoint.
            if_some c.connection (advance_connection (at_time c t) endpoint)
              (advance_simulator (at_time c t)))
          (advance_simulator (at_time c t)) e he

  advance_time-alone :
      (c : Client E N F G M) (t : F)
      → c.endpoint ≡ none
      → advance_simulator (at_time c t) ≡ advance_time c t
  unfolding advance_time
  advance_time-alone c t he =
      if_some-none c.endpoint
        (λ endpoint.
          if_some c.connection (advance_connection (at_time c t) endpoint)
            (advance_simulator (at_time c t)))
        (advance_simulator (at_time c t)) he

  pub advance_time-IsValid :
      (c c' : Client E N F G M) (t : F) → IsValid c → advance_time c t ≡ ok c' → IsValid c'
  advance_time-IsValid c c' t v h = elim (Option-cases c.endpoint) [
    | inl gone ↦
        advance_simulator-IsValid (at_time c t) c' (at_time-IsValid t v)
          (advance_time-alone c t gone ∙ h)
    | inr (e, there) ↦
        let (k, has) =
          is_some-true c.connection (v.connection ∙ sym v.endpoint ∙ ap is_some there) in
        advance_connection-IsValid (at_time c t) c' e k (at_time-IsValid t v) (ap is_some there)
          (ap is_some has) (advance_time-connected c t e k there has ∙ h)
  ]

  -- If a valid client's connection is in an error after the connection's own `advance_time`, then
  -- `advance_time` of the client returns and the client is disconnected: it keeps no part, and its
  -- state is `Error` if it was and `Disconnected` otherwise. (The changes of state that netcode
  -- reports have to be between those that it documents.)
  pub error_disconnects :
      (c : Client E N F G M) (t : F) (k : Connection F M)
      → IsDocumented netcode
      → IsValid c
      → c.connection ≡ some k
      → is_connection_error (Connection.advance_time k t).error_level ≡ true
      → (advance_time c t ≡ ok (idle (at_time c t))) × (is_disconnected (idle (at_time c t)) ≡ true)
  error_disconnects c t k d v has bad =
      let (e, there) = is_some-true c.endpoint (v.endpoint ∙ sym v.connection ∙ ap is_some has) in
      let failing : Client E N F G M = record (at_time c t) {
        connection = some (Connection.advance_time k t);
      } in
      let valid : IsValid failing =
        Keeps-IsValid (replaced-Keeps (at_time c t) refl (sym (ap is_some has)) refl refl)
          (at_time-IsValid t v) in
      (
        sym (advance_time-connected c t e k there has)
            ∙ sym (advance_connection-error (at_time c t) e k bad)
            ∙ disconnect_returns failing d valid,
        (idle-IsValid (at_time c t)).client_state refl,
      )

  -- If the connection of a valid client is in no error after its own `advance_time`, and
  -- `advance_time` of the client returns, then the client's state is the one netcode is in after
  -- its update to the new time; where that is `Disconnected` or `Error`, the client keeps no part.
  pub advance_time-follows :
      (c c' : Client E N F G M) (t : F) (k : Connection F M) (n : N)
      → IsValid c
      → c.connection ≡ some k
      → c.client ≡ some n
      → is_connection_error (Connection.advance_time k t).error_level ≡ false
      → advance_time c t ≡ ok c'
      → (c'.client_state
          ≡ client_state_from_netcode_state netcode (netcode.state (netcode.update n t).0))
        × (is_disconnected c' ≡ true
            → (c'.client ≡ none) × (c'.connection ≡ none) × (c'.endpoint ≡ none))
  advance_time-follows c c' t k n v has online fine h =
      let (e, there) = is_some-true c.endpoint (v.endpoint ∙ sym v.connection ∙ ap is_some has) in
      let (k', _, h1) =
        advance_connection-fine (at_time c t) c' e k fine
          (advance_time-connected c t e k there has ∙ h) in
      let valid =
        acked-IsValid (at_time c t) e k' (at_time-IsValid t v) (ap is_some there)
          (ap is_some has) in
      let follows = advance_simulator-Follows (acked (at_time c t) e k') c' n valid online h1 in
      (
        follows.client_state,
        λ away. (
          ap (λ x. x.client) (follows.is_idle away),
          ap (λ x. x.connection) (follows.is_idle away),
          ap (λ x. x.endpoint) (follows.is_idle away),
        ),
      )
