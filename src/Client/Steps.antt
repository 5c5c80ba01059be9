-- ===== src/Client/Steps.antt =====
-- Every operation of a client (src/client.rs) as one step, and what holds between two steps.
use yojimbo_rs.Prelude.{
  Bool-cases, if_false, inl, inr, subst, ℕ, ◌≡◌, Bool, Option, none, some, List, is_some,
  is_some-true, if_some, true, false, not, sym, ap, ◌∙◌, if_some-some,
}
use yojimbo_rs.Run.{assert, Run, ok, ◌>>=◌, ◌>>◌, expect_some, null_pointer}
use yojimbo_rs.Float.{Float}
use yojimbo_rs.Message.{NetworkMessage}
use yojimbo_rs.Config.{ClientServerConfig}
use yojimbo_rs.Connection.{Connection}
use yojimbo_rs.NetworkSimulator.{NetworkSimulator, Draws}
use yojimbo_rs.Foreign.{endpoint_info, ReliableEndpoint, NetcodeClient}
use yojimbo_rs.ClientState
use yojimbo_rs.ClientState.{ClientState}
use yojimbo_rs.Client.{
  snapshot_network_info, Client, new, is_connected, is_disconnected, disconnect, send_message,
  receive_message, receive_message_with_id, with_network_simulator,
}
use yojimbo_rs.Client.Traffic.{send_packets, send_connection, receive_packets, receive_loop}
use yojimbo_rs.Client.Lifecycle.{insecure_connect, advance_time}
use yojimbo_rs.Client.Valid.{IsValid, idle-IsValid, new-IsValid, disconnect-idle, port-of}
use yojimbo_rs.Client.Keeps.{
  Keeps-IsValid, send_message-Keeps, receive_message-Keeps, receive_message_with_id-Keeps,
  with_network_simulator-Keeps,
}
use yojimbo_rs.Client.Keeps.Packets.{send_packets-Keeps, receive_packets-Keeps}
use yojimbo_rs.Client.Advance.Time.{advance_time-IsValid}
use yojimbo_rs.Client.Connects.{insecure_connect-IsValid}

both-ways :
    (s : ClientState)
    → ClientState.is_connected s ≡ true
    → ClientState.is_disconnected s ≡ true
    → ◌≡◌ {A = Bool} true false
both-ways ClientState.error on off = sym on
both-ways ClientState.disconnected on off = sym on
both-ways ClientState.connecting on off = sym on
both-ways ClientState.connected on off = sym off

module _ {E N F G M : Type 0} ⦃f : Float F⦄ ⦃g : Float G⦄ ⦃m : NetworkMessage M⦄
    ⦃endpoints : ReliableEndpoint E F G⦄ ⦃netcode : NetcodeClient N F⦄ where
  -- A call that changes the client and returns.
  pub data Step : Client E N F G M → Client E N F G M → Type 0 where
    connected :
        {c c' : Client E N F G M} (private_key : List ℕ) (client_id : ℕ) (addresses : List (List ℕ))
        → insecure_connect private_key client_id addresses c ≡ ok c'
        → Step c c'
    advanced : {c c' : Client E N F G M} (t : F) → advance_time c t ≡ ok c' → Step c c'
    sent_packets :
        {c c' : Client E N F G M} (check : Bool) (draws : ℕ → Draws F G)
        → send_packets check draws c ≡ ok c'
        → Step c c'
    received_packets :
        {c c' : Client E N F G M} (check : Bool) (fuel : ℕ)
        → receive_packets check fuel c ≡ ok c'
        → Step c c'
    sent_message :
        {c c' : Client E N F G M} (index : ℕ) (message : M)
        → send_message c index message ≡ ok c'
        → Step c c'
    received_message :
        {c c' : Client E N F G M} (index : ℕ) (message : Option M)
        → receive_message c index ≡ ok (c', message)
        → Step c c'
    received_with_id :
        {c c' : Client E N F G M} (index : ℕ) (message : Option (ℕ × M))
        → receive_message_with_id c index ≡ ok (c', message)
        → Step c c'
    configured_simulator :
        {c c' : Client E N F G M} (set : NetworkSimulator F G → Run (NetworkSimulator F G))
        → with_network_simulator set c ≡ ok c'
        → Step c c'
    disconnected : {c c' : Client E N F G M} → disconnect c ≡ ok c' → Step c c'

  Step-IsValid : {c c' : Client E N F G M} → Step c c' → IsValid c → IsValid c'
  Step-IsValid {c} {c'} (connected private_key client_id addresses h) v =
      insecure_connect-IsValid private_key client_id addresses c c' v h
  Step-IsValid {c} {c'} (advanced t h) v = advance_time-IsValid c c' t v h
  Step-IsValid {c} {c'} (sent_packets check draws h) v =
      Keeps-IsValid (send_packets-Keeps check draws c c' h) v
  Step-IsValid {c} {c'} (received_packets check fuel h) v =
      Keeps-IsValid (receive_packets-Keeps check fuel c c' h) v
  Step-IsValid {c} {c'} (sent_message index message h) v =
      Keeps-IsValid (send_message-Keeps c c' index message h) v
  Step-IsValid {c} {c'} (received_message index message h) v =
      Keeps-IsValid (receive_message-Keeps c c' index h) v
  Step-IsValid {c} {c'} (received_with_id index message h) v =
      Keeps-IsValid (receive_message_with_id-Keeps c c' index h) v
  Step-IsValid {c} {c'} (configured_simulator set h) v =
      Keeps-IsValid (with_network_simulator-Keeps set c c' h) v
  Step-IsValid {c} {c'} (disconnected h) v =
      subst IsValid (disconnect-idle c c' (port-of v) h) (idle-IsValid c)

  -- The clients that a new one can become.
  pub data Reaches : Client E N F G M → Type 0 where
    start :
        (address : List ℕ) (config : ClientServerConfig F G) (time : F)
        → Reaches (new address config time)
    step : {c c' : Client E N F G M} → Reaches c → Step c c' → Reaches c'

  -- Whatever is called on a client, in any order, as long as no call panics: its endpoint, its
  -- connection and its bound port exist exactly while its netcode client does, a network simulator
  -- only then, and without a netcode client its id is 0 and it is not connected or connecting.
  pub Reaches-IsValid : {c : Client E N F G M} → Reaches c → IsValid c
  Reaches-IsValid (start address config time) = new-IsValid address config time
  Reaches-IsValid (step r s) = Step-IsValid s (Reaches-IsValid r)

  connected-client :
      (c : Client E N F G M) → IsValid c → is_connected c ≡ true → is_some c.client ≡ true
  connected-client c v on = elim (Bool-cases (is_some c.client)) [
    | inl there ↦ there
    | inr gone ↦
        let off : is_disconnected c ≡ true = v.client_state gone in
        let e = both-ways c.client_state on off in absurd (cc)
  ]

  -- The parts that a connected client works with.
  pub record Parts (c : Client E N F G M) : Type 0 where
    pub endpoint : E
    pub connection : Connection F M
    pub client : N
    pub has_endpoint : c.endpoint ≡ some endpoint
    pub has_connection : c.connection ≡ some connection
    pub has_client : c.client ≡ some client

  pub connected-Parts : (c : Client E N F G M) → IsValid c → is_connected c ≡ true → Parts c
  connected-Parts c v on =
      let there = connected-client c v on in
      let (e, he) = is_some-true c.endpoint (v.endpoint ∙ there) in
      let (k, hk) = is_some-true c.connection (v.connection ∙ there) in
      let (n, hn) = is_some-true c.client there in
      record {
        endpoint = e;
        connection = k;
        client = n;
        has_endpoint = he;
        has_connection = hk;
        has_client = hn;
      }

  -- No assertion of `send_packets`, `receive_packets` and `snapshot_network_info` on the client's
  -- parts ever fires: once a client that was reached is connected, it has an endpoint, a
  -- connection and a netcode client, and the three go on with these.
  pub connected_goes_on :
      (c : Client E N F G M) (check : Bool) (draws : ℕ → Draws F G) (fuel : ℕ)
      → Reaches c
      → is_connected c ≡ true
      → (p : Parts c) × (send_packets check draws c
          ≡ send_connection check draws c p.endpoint p.connection)
        × (receive_packets check fuel c ≡ receive_loop check fuel c)
        × (snapshot_network_info c ≡ ok (some (endpoint_info endpoints p.endpoint)))
  unfolding send_packets receive_packets snapshot_network_info
  connected_goes_on c check draws fuel r on =
      let p = connected-Parts c (Reaches-IsValid r) on in
      let awake : not (is_connected c) ≡ false = ap not on in
      let client : is_some c.client ≡ true = ap is_some p.has_client in
      let send : E → Run (Client E N F G M) =
        λ e. if_some c.connection (send_connection check draws c e) (ok c) in
      (
        p,
        sym (if_false (not (is_connected c)) (ok c) _ awake)
            ∙ ap (λ b. assert b >> (expect_some null_pointer c.endpoint >>= send)) client
            ∙ ap (λ o. expect_some null_pointer o >>= send) p.has_endpoint
            ∙ sym (
                if_some-some c.connection (send_connection check draws c p.endpoint) (ok c)
                  p.connection p.has_connection),
        sym (if_false (not (is_connected c)) (ok c) _ awake)
            ∙ ap (λ b. assert b >> receive_loop check fuel c) client,
        sym (if_false (not (is_connected c)) (ok none) _ awake)
            ∙ ap
                (λ o.
                  assert (is_some o)
                  >> (expect_some null_pointer o >>= (λ e. ok (some (endpoint_info endpoints e)))))
                p.has_endpoint,
      )
