-- ===== src/Client/Connects/Outcome.antt =====
-- What `insecure_connect` leads to (src/client.rs).
use yojimbo_rs.Prelude.{
  ℕ, ◌≡◌, refl, sym, ap, ◌∙◌, inl, inr, Option, none, some, List, Option-cases, if_some-none,
  if_some-some, replicate,
}
use yojimbo_rs.Run.{Run, ok, ok-injective, ◌>>=◌, >>=-eq-ok}
use yojimbo_rs.Float.{Float}
use yojimbo_rs.Config.{ClientServerConfig}
use yojimbo_rs.Foreign.{ReliableEndpoint, NetcodeClient, ConnectTokenRequest, c_strings}
use yojimbo_rs.ClientState.{ClientState, state_changes}
use yojimbo_rs.Client.{Client, disconnect, generate_insecure_connect_token}
use yojimbo_rs.Client.Lifecycle.{connect_created, connect_with, insecure_connect}
use yojimbo_rs.Client.Valid.{IsValid, idle, settle, settle-settle, disconnect-idle}
use yojimbo_rs.Foreign.Strings.{c_strings-same}
use yojimbo_rs.Client.Connects.{prepared, insecure_connect-prepared}

module _ {F G : Type 0} where
  -- What `insecure_connect` asks of the library for its connect token.
  abbrev pub token_request :
      ClientServerConfig F G → List ℕ → ℕ → List (List ℕ) → ConnectTokenRequest
  token_request config private_key client_id server_addresses = record {
    public_server_addresses = server_addresses;
    internal_server_addresses = server_addresses;
    expire_seconds = config.timeout;
    timeout_seconds = config.timeout;
    client_id = client_id;
    protocol_id = config.protocol_id;
    private_key = private_key;
    user_data = replicate 256 0;
  }

module _ {N F G : Type 0} where
  -- The token is asked for as `token_request` says.
  token-asked :
      (netcode : NetcodeClient N F) (config : ClientServerConfig F G) (private_key : List ℕ)
      (client_id : ℕ) (addresses : List (List ℕ)) {token : Option (List ℕ)}
      → generate_insecure_connect_token netcode config private_key client_id addresses ≡ ok token
      → netcode.generate_connect_token (token_request config private_key client_id addresses)
        ≡ token
  unfolding generate_insecure_connect_token
  token-asked netcode config private_key client_id addresses h =
      let ask : List (List ℕ) → Option (List ℕ) = λ strings.
        netcode.generate_connect_token
          (record (token_request config private_key client_id addresses) {
            public_server_addresses = strings;
            internal_server_addresses = strings;
          }) in
      let (strings, e, h1) = >>=-eq-ok (c_strings addresses) (λ strings. ok (ask strings)) h in
      ap ask (sym (c_strings-same addresses e)) ∙ ok-injective h1

module _ {E N F G M : Type 0} ⦃netcode : NetcodeClient N F⦄ where
  -- A client before and after `insecure_connect`.
  pub data Outcome (private_key : List ℕ) (client_id : ℕ) (server_addresses : List (List ℕ))
      (c c' : Client E N F G M) : Type 0 where
    no_client :
        netcode.create c.address c.time ≡ none
        → c'.client ≡ none
        → c'.client_state ≡ (idle c).client_state
        → Outcome private_key client_id server_addresses c c'
    no_token :
        (n : N)
        → netcode.create c.address c.time ≡ some n
        → netcode.generate_connect_token
            (token_request c.config private_key client_id server_addresses)
          ≡ none
        → c'.client ≡ some n
        → c'.client_state ≡ ClientState.error
        → Outcome private_key client_id server_addresses c c'
    started :
        (n : N) (token : List ℕ)
        → netcode.create c.address c.time ≡ some n
        → netcode.generate_connect_token
            (token_request c.config private_key client_id server_addresses)
          ≡ some token
        → c'.client ≡ some (netcode.connect n token).0
        → c'.client_state ≡ ClientState.connecting
        → c'.client_id ≡ client_id
        → Outcome private_key client_id server_addresses c c'

  -- What `connect_with` makes of a token, for the netcode client that was created.
  connect_with-Outcome :
      (private_key : List ℕ) (client_id : ℕ) (addresses : List (List ℕ)) (c d c' : Client E N F G M)
      (n : N) (token : Option (List ℕ))
      → netcode.create c.address c.time ≡ some n
      → d.client ≡ some n
      → d.client_id ≡ client_id
      → netcode.generate_connect_token (token_request c.config private_key client_id addresses)
        ≡ token
      → connect_with d n token ≡ ok c'
      → Outcome private_key client_id addresses c c'
  unfolding connect_with
  connect_with-Outcome private_key client_id addresses c d c' n none made there id asked h =
      no_token n made asked (ap (λ x. x.client) (sym (ok-injective h)) ∙ there)
        (ap (λ x. x.client_state) (sym (ok-injective h)))
  connect_with-Outcome private_key client_id addresses c d c' n (some token) made there id asked h =
      let connected : Client E N F G M = record d {
        client = some (netcode.connect n token).0;
        client_state = ClientState.connecting;
      } in
      let (_, _, h1) =
        >>=-eq-ok (state_changes (netcode.connect n token).1) (λ _. ok connected) h in
      let e : connected ≡ c' = ok-injective h1 in
      started n token made asked (ap (λ x. x.client) (sym e)) (ap (λ x. x.client_state) (sym e))
        (ap (λ x. x.client_id) (sym e) ∙ id)

  -- A client in `insecure_connect`, once its netcode client is created or not.
  connect_created-Outcome :
      (private_key : List ℕ) (client_id : ℕ) (addresses : List (List ℕ)) (c d c' : Client E N F G M)
      → d.client ≡ netcode.create c.address c.time
      → d.config ≡ c.config
      → d.client_id ≡ client_id
      → d.client_state ≡ (idle c).client_state
      → (d.client ≡ none → d.bound_port ≡ none)
      → connect_created private_key client_id addresses d ≡ ok c'
      → Outcome private_key client_id addresses c c'
  unfolding connect_created connect_with
  connect_created-Outcome private_key client_id addresses c d c' made config id state port h =
      let connect : N → Run (Client E N F G M) = λ n.
        generate_insecure_connect_token netcode d.config private_key client_id addresses
        >>= connect_with d n in
      elim (Option-cases d.client) [
        | inl gone ↦
            let left : idle d ≡ c' =
              disconnect-idle d c' port (if_some-none d.client connect (disconnect d) gone ∙ h) in
            no_client (sym made ∙ gone) (ap (λ x. x.client) (sym left))
              (ap (λ x. x.client_state) (sym left) ∙ ap settle state ∙ settle-settle c.client_state)
        | inr (n, there) ↦
            let (token, e, h1) =
              >>=-eq-ok
                (generate_insecure_connect_token netcode d.config private_key client_id addresses)
                (connect_with d n) (if_some-some d.client connect (disconnect d) n there ∙ h) in
            connect_with-Outcome private_key client_id addresses c d c' n token (sym made ∙ there)
              there id
              (ap
                  (λ k.
                    netcode.generate_connect_token
                      (token_request k private_key client_id addresses))
                  (sym config)
                ∙ token-asked netcode d.config private_key client_id addresses e)
              h1
      ]

module _ {E N F G M : Type 0} ⦃f : Float F⦄ ⦃g : Float G⦄ ⦃endpoints : ReliableEndpoint E F G⦄
    ⦃netcode : NetcodeClient N F⦄ where
  -- If `insecure_connect` of a valid client returns, netcode gave no client, and the client is
  -- disconnected without one; or the client has the netcode client and is in the error state,
  -- because no connect token was generated; or it connects with the token, under the given id. The
  -- netcode client is created for the client's address and time, and the token is generated for
  -- the server addresses, the private key, the id, and the timeout and protocol of the
  -- configuration.
  pub insecure_connect-Outcome :
      (private_key : List ℕ) (client_id : ℕ) (addresses : List (List ℕ)) (c c' : Client E N F G M)
      → IsValid c
      → insecure_connect private_key client_id addresses c ≡ ok c'
      → Outcome private_key client_id addresses c c'
  insecure_connect-Outcome private_key client_id addresses c c' v h =
      let (connection, e) = insecure_connect-prepared private_key client_id addresses c c' v h in
      connect_created-Outcome private_key client_id addresses c (prepared c client_id connection) c'
        refl refl refl refl (λ gone. sym (if_some-none _ _ none gone)) e
