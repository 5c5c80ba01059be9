-- ===== src/Client/Connects.antt =====
-- A client in `insecure_connect`, up to its netcode client (src/client.rs).
pub mod Outcome
use yojimbo_rs.Prelude.{
  is_some-map, is_some, is_some-false, if_some-some, subst, List, [], ◌∷◌, Option-cases, inl, inr,
  true, false, ap, ℕ, ◌≡◌, refl, sym, ◌∙◌, not, ◌==◌, Option, none, some, length, leb, Bool-cases,
  if_some, if_some-none, replicate, arith, if◌then◌else◌,
}
use yojimbo_rs.Run.{Run, ok, panic, unwrap_error, ok-injective, ◌>>=◌, ◌>>◌, >>=-eq-ok, assert}
use yojimbo_rs.Float.{Float}
use yojimbo_rs.Config.{ClientServerConfig, client_endpoint, new_reliable_config}
use yojimbo_rs.Connection
use yojimbo_rs.Connection.{Connection, is_empty}
use yojimbo_rs.Foreign.{ReliableEndpoint, NetcodeClient, ConnectTokenRequest, c_string, c_strings}
use yojimbo_rs.ClientState.{ClientState, state_changes}
use yojimbo_rs.Client.{
  generate_insecure_connect_token, Client, disconnect, destroy_client, create_client,
}
use yojimbo_rs.Client.Lifecycle.{
  connect_with, connect_created, allocated, connect_internal, insecure_connect,
}
use yojimbo_rs.Client.Valid.{
  live-IsValid, idle-IsValid, IsValid, idle, settle, settle-settle, disconnect-idle, port-of,
}
use yojimbo_rs.Foreign.Strings.{c_string-same, c_strings-same}

module _ {E N F G M : Type 0} ⦃netcode : NetcodeClient N F⦄ where
  -- A client once its netcode client is created.
  abbrev pub created : Client E N F G M → Client E N F G M
  created c = record c {
    client = netcode.create c.address c.time;
    bound_port = if_some (netcode.create c.address c.time) (λ n. some (netcode.get_port n)) none;
  }

  -- `create_client` after `destroy_client`, with the address as a C string.
  abbrev create_at : Client E N F G M → List ℕ → Client E N F G M
  create_at c address = record c {
    client = netcode.create address c.time;
    bound_port =
        if_some (netcode.create address c.time) (λ n. some (netcode.get_port n)) c.bound_port;
  }

  destroy_client-gone : (c : Client E N F G M) → c.client ≡ none → ok c ≡ destroy_client c
  unfolding destroy_client
  destroy_client-gone c gone =
      if_some-none c.client
        (λ n.
          state_changes (netcode.destroy n)
          >> ok (record c { bound_port = none; client = none; network_simulator = none }))
        (ok c) gone

  created-at : (c : Client E N F G M) → c.bound_port ≡ none → created c ≡ create_at c c.address
  created-at c port = rw port

  create_client-created :
      (c c' : Client E N F G M)
      → c.client ≡ none
      → c.bound_port ≡ none
      → create_client c ≡ ok c'
      → created c ≡ c'
  unfolding create_client
  create_client-created c c' gone port h =
      let next : Client E N F G M → Run (Client E N F G M) =
        λ x. c_string x.address >>= (λ a. ok (create_at x a)) in
      let (address, e, h1) =
        >>=-eq-ok (c_string c.address) (λ a. ok (create_at c a))
          (ap (λ r. r >>= next) (destroy_client-gone c gone) ∙ h) in
      created-at c port ∙ ap (create_at c) (sym (c_string-same c.address e)) ∙ ok-injective h1

  -- `connect_with` of a client that has all parts.
  connect_with-IsValid :
      (d c' : Client E N F G M) (n : N) (token : Option (List ℕ))
      → is_some d.endpoint ≡ true
      → is_some d.connection ≡ true
      → is_some d.bound_port ≡ true
      → is_some d.client ≡ true
      → connect_with d n token ≡ ok c'
      → IsValid c'
  unfolding connect_with
  connect_with-IsValid d c' n none he hk hp hn h =
      subst IsValid (ok-injective h) (live-IsValid _ he hk hp hn)
  connect_with-IsValid d c' n (some token) he hk hp hn h =
      let (_, _, h1) = >>=-eq-ok (state_changes (netcode.connect n token).1) _ h in
      subst IsValid (ok-injective h1) (live-IsValid _ he hk hp refl)

  -- The client that comes out has all parts, or it is idle.
  connect_created-IsValid :
      (private_key : List ℕ) (client_id : ℕ) (addresses : List (List ℕ)) (d c' : Client E N F G M)
      → is_some d.endpoint ≡ true
      → is_some d.connection ≡ true
      → is_some d.bound_port ≡ is_some d.client
      → connect_created private_key client_id addresses d ≡ ok c'
      → IsValid c'
  unfolding connect_created
  connect_created-IsValid private_key client_id addresses d c' he hk hp h =
      let connect : N → Run (Client E N F G M) = λ n.
        generate_insecure_connect_token netcode d.config private_key client_id addresses
        >>= connect_with d n in
      elim (Option-cases d.client) [
        | inl gone ↦
            subst IsValid
              (disconnect-idle d c' (λ _. is_some-false d.bound_port (hp ∙ ap is_some gone))
                (if_some-none d.client connect (disconnect d) gone ∙ h))
              (idle-IsValid d)
        | inr (n, there) ↦
            let (token, _, h1) =
              >>=-eq-ok
                (generate_insecure_connect_token netcode d.config private_key client_id addresses)
                (connect_with d n) (if_some-some d.client connect (disconnect d) n there ∙ h) in
            connect_with-IsValid d c' n token he hk (hp ∙ ap is_some there) (ap is_some there) h1
      ]

module _ {E N F G M : Type 0} ⦃f : Float F⦄ ⦃g : Float G⦄ ⦃endpoints : ReliableEndpoint E F G⦄
    ⦃netcode : NetcodeClient N F⦄ where
  -- A client in `insecure_connect`, after `create_client`.
  abbrev pub prepared : Client E N F G M → ℕ → Connection F M → Client E N F G M
  prepared c client_id connection = created (record (idle c) {
    connection = some connection;
    network_simulator = allocated c.config.network_simulator c.time;
    endpoint = some (
        endpoints.reset
          (endpoints.create (new_reliable_config c.config client_endpoint none) c.time));
    client_id = client_id;
  })

  pub insecure_connect-prepared :
      (private_key : List ℕ) (client_id : ℕ) (addresses : List (List ℕ)) (c c' : Client E N F G M)
      → IsValid c
      → insecure_connect private_key client_id addresses c ≡ ok c'
      → (connection : Connection F M) × (connect_created private_key client_id addresses
            (prepared c client_id connection)
          ≡ ok c')
  unfolding insecure_connect connect_internal
  insecure_connect-prepared private_key client_id addresses c c' v h =
      let (_, _, h1) = >>=-eq-ok (assert (not (is_empty addresses))) _ h in
      let (_, _, h2) =
        >>=-eq-ok (assert (leb (length addresses) netcode.max_servers_per_connect)) _ h1 in
      let (c1, e1, h3) = >>=-eq-ok (disconnect c) _ h2 in
      let create : Client E N F G M → Run (Client E N F G M) = λ x.
        create_client (record x { client_id = client_id })
        >>= connect_created private_key client_id addresses in
      let h4 : (connect_internal (idle c) >>= create) ≡ ok c' =
        ap (λ x. connect_internal x >>= create) (disconnect-idle c c1 (port-of v) e1) ∙ h3 in
      let (c2, e2, h5) = >>=-eq-ok (connect_internal (idle c)) create h4 in
      let (connection, _, e3) = >>=-eq-ok (Connection.new c.config.connection c.time) _ e2 in
      let h6 = ap create (ok-injective e3) ∙ h5 in
      let (c3, e4, h7) =
        >>=-eq-ok (create_client _) (connect_created private_key client_id addresses) h6 in
      (
        connection,
        ap (connect_created private_key client_id addresses)
              (create_client-created _ c3 refl refl e4)
            ∙ h7,
      )

  pub insecure_connect-IsValid :
      (private_key : List ℕ) (client_id : ℕ) (addresses : List (List ℕ)) (c c' : Client E N F G M)
      → IsValid c
      → insecure_connect private_key client_id addresses c ≡ ok c'
      → IsValid c'
  insecure_connect-IsValid private_key client_id addresses c c' v h =
      let (connection, e) = insecure_connect-prepared private_key client_id addresses c c' v h in
      connect_created-IsValid private_key client_id addresses (prepared c client_id connection) c'
        refl refl (is_some-map netcode.get_port (netcode.create c.address c.time)) e
