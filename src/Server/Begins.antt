-- ===== src/Server/Begins.antt =====
-- How a server comes to run and to stop (src/server.rs).
use yojimbo_rs.Prelude.{
  ℕ, zero, suc, ◌+◌, ◌^◌, ◌-◌, ◌<◌, arith, ◌≡◌, refl, sym, ap, subst, ◌∙◌, inl, inr, none, some,
  List, [], ◌∷◌, length, ltb, if_some-none, if_some-some, Option-cases,
}
use yojimbo_rs.Run.{Run, ok, ok-injective, ◌>>=◌, >>=-eq-ok, assert}
use yojimbo_rs.Float.{Float}
use yojimbo_rs.Config.{ConnectionConfig, ClientServerConfig, server_endpoint, new_reliable_config}
use yojimbo_rs.Connection
use yojimbo_rs.Connection.{Connection}
use yojimbo_rs.Foreign.{ReliableEndpoint, NetcodeServer}
use yojimbo_rs.Server.{Server, ServerRuntime}
use yojimbo_rs.Server.Start.{new_clients, start_netcode, new_runtime, drop_runtime, start, stop}
use yojimbo_rs.Server.Runs.{IsRunning}

module _ {F M : Type 0} ⦃f : Float F⦄ where
  -- Every connection is what `Connection::new` gives.
  abbrev pub AllNew : ConnectionConfig F → F → List (Connection F M) → Type 0
  AllNew config time [] = Unit {0}
  AllNew config time (k ∷ ks) = (Connection.new config time ≡ ok k) × AllNew config time ks

module _ {E F G : Type 0} ⦃endpoints : ReliableEndpoint E F G⦄ where
  -- Every endpoint is a new one for the index of its client, from an index on.
  abbrev pub AllCreated : ClientServerConfig F G → F → ℕ → List E → Type 0
  AllCreated config time index [] = Unit {0}
  AllCreated config time index (e ∷ es) =
      (e
        ≡ endpoints.reset (
            endpoints.create (new_reliable_config config (server_endpoint index) (some index))
              time))
      × AllCreated config time (index + 1) es

module _ {E F G M : Type 0} ⦃f : Float F⦄ ⦃endpoints : ReliableEndpoint E F G⦄ where
  new_clients-AllNew :
      (config : ClientServerConfig F G) (time : F) (index count : ℕ) {ks : List (Connection F M)}
      {es : List E}
      → new_clients config time index count ≡ ok (ks, es)
      → AllNew config.connection time ks
        × AllCreated config time index es
        × (length ks ≡ count)
        × (length es ≡ count)
  unfolding new_clients
  new_clients-AllNew config time index zero {ks} {es} h =
      let e : ◌≡◌ {A = List (Connection F M) × List E} ([], []) (ks, es) = ok-injective h in
      (
        subst (AllNew config.connection time) (ap (λ x. x.0) e) tt,
        subst (AllCreated config time index) (ap (λ x. x.1) e) tt,
        ap (λ x. length x.0) (sym e),
        ap (λ x. length x.1) (sym e),
      )
  new_clients-AllNew config time index (suc count) h =
      let (k, e, h1) = >>=-eq-ok (Connection.new config.connection time) _ h in
      let ((ks, es), e1, h2) = >>=-eq-ok (new_clients config time (index + 1) count) _ h1 in
      let (fresh, made, nk, ne) = new_clients-AllNew config time (index + 1) count e1 in
      let same = ok-injective h2 in
      (
        subst (AllNew config.connection time) (ap (λ x. x.0) same) (e, fresh),
        subst (AllCreated config time index) (ap (λ x. x.1) same) (refl, made),
        ap (λ x. length x.0) (sym same) ∙ ap suc nk,
        ap (λ x. length x.1) (sym same) ∙ ap suc ne,
      )

module _ {E S F G M A : Type 0} ⦃f : Float F⦄ ⦃g : Float G⦄ ⦃endpoints : ReliableEndpoint E F G⦄
    (netcode : NetcodeServer S F A) where
  pub stop-stopped :
      (s s' : Server E S F G M) → stop netcode s ≡ ok s' → record s { runtime = none } ≡ s'
  unfolding stop
  stop-stopped s s' h = elim (Option-cases s.runtime) [
    | inl gone ↦
        ap (λ o. record s { runtime = o }) (sym gone)
        ∙ ok-injective (
            if_some-none s.runtime
              (λ r. do dropped ← drop_runtime netcode r; ok (record s { runtime = none })) (ok s)
              gone
            ∙ h)
    | inr (r, there) ↦
        let (_, _, h1) =
          >>=-eq-ok (drop_runtime netcode r) (λ dropped. ok (record s { runtime = none }))
            (if_some-some s.runtime
                (λ r. do dropped ← drop_runtime netcode r; ok (record s { runtime = none })) (ok s)
                r there
              ∙ h) in
        ok-injective h1
  ]

  -- A server that has started for some number of clients.
  pub record Started (max_clients : ℕ) (s s' : Server E S F G M) : Type 0 where
    pub runtime : ServerRuntime E S F G M
    pub runs : s'.runtime ≡ some runtime
    pub is_running : IsRunning runtime
    pub max_clients_is : runtime.max_clients ≡ max_clients
    pub few : max_clients < 2 ^ 31 - 1
    pub all_new : AllNew s.config.connection s.time runtime.client_connection
    pub all_created : AllCreated s.config s.time 0 runtime.client_endpoint
    pub time : s'.time ≡ s.time

  new_runtime-Started :
      (max_clients : ℕ) (s s' : Server E S F G M) (r : ServerRuntime E S F G M)
      → new_runtime netcode s.config s.private_key s.address max_clients s.time ≡ ok r
      → record s { runtime = some r } ≡ s'
      → Started max_clients s s'
  unfolding new_runtime
  new_runtime-Started max_clients s s' r h same =
      let (_, fine, h1) = >>=-eq-ok (assert (ltb max_clients (2 ^ 31 - 1))) _ h in
      let ((ks, es), e, h2) = >>=-eq-ok (new_clients s.config s.time 0 max_clients) _ h1 in
      let (server, _, h3) =
        >>=-eq-ok (start_netcode netcode s.config s.private_key s.address max_clients s.time) _
          h2 in
      let (fresh, created, nk, ne) = new_clients-AllNew s.config s.time 0 max_clients e in
      let made = ok-injective h3 in
      record {
        runtime = r;
        runs = ap (λ x. x.runtime) (sym same);
        is_running =
            subst IsRunning made (record { connections = nk; endpoints = ne; server = refl });
        max_clients_is = ap (λ x. x.max_clients) (sym made);
        few = ground (arith, fine);
        all_created =
            subst (AllCreated s.config s.time 0) (ap (λ x. x.client_endpoint) made) created;
        all_new =
            subst (AllNew s.config.connection s.time) (ap (λ x. x.client_connection) made) fresh;
        time = ap (λ x. x.time) (sym same);
      }

  -- If `start` returns, whether the server was running or not, then it runs for that many clients,
  -- which are fewer than 2^31 - 1: it has a netcode server, and a connection and an endpoint for
  -- each client, every connection is a new one of the server's configuration and time, and every
  -- endpoint is a new one of the server's configuration and time for the index of its client.
  pub start-Started :
      (max_clients : ℕ) (s s' : Server E S F G M)
      → start netcode max_clients s ≡ ok s'
      → Started max_clients s s'
  unfolding start
  start-Started max_clients s s' h =
      let (s1, e, h1) = >>=-eq-ok (stop netcode s) _ h in
      let go : Server E S F G M → Run (Server E S F G M) = λ x.
        new_runtime netcode x.config x.private_key x.address max_clients x.time
        >>= (λ runtime. ok (record x { runtime = some runtime })) in
      let h2 = ap go (stop-stopped s s1 e) ∙ h1 in
      let (r, e1, h3) =
        >>=-eq-ok (new_runtime netcode s.config s.private_key s.address max_clients s.time) _ h2 in
      new_runtime-Started max_clients s s' r e1 (ok-injective h3)
