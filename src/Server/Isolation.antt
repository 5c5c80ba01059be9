-- ===== src/Server/Isolation.antt =====
-- What one client's packets and its disconnect do to the other clients of a server (src/server.rs).
use yojimbo_rs.Prelude.{
  ℕ, ◌≡◌, ◌≢◌, refl, ap, subst, inl, inr, Bool, false, not, Option, none, some, List, [], ◌∷◌,
  get_elem?, get_elem?-set_self, get_elem?-set_ne, get_elem?-some-lt, arith, ◌==◌, Bool-cases,
}
use yojimbo_rs.Run.{ok, ok-injective, >>=-eq-ok, index_out_of_bounds}
use yojimbo_rs.Float.{Float}
use yojimbo_rs.Message.{NetworkMessage}
use yojimbo_rs.Connection
use yojimbo_rs.Connection.{Connection}
use yojimbo_rs.NetworkSimulator
use yojimbo_rs.NetworkSimulator.{NetworkSimulator, PacketEntry, retain}
use yojimbo_rs.Foreign.{ReliableEndpoint, KeepsIndex, NetcodeServer}
use yojimbo_rs.Client.Keeps.{expect_some-ok}
use yojimbo_rs.Server.{
  Server, ServerRuntime, connection_at, endpoint_at, set_connection, set_endpoint,
}
use yojimbo_rs.Server.Start.{discard, handle_connect_disconnect}
use yojimbo_rs.Server.Traffic.{receive_client, receive_clients}
use yojimbo_rs.Server.Keeps.Packets.{receive_clients-Keeps}
use yojimbo_rs.Server.Steps.{Becomes}
use yojimbo_rs.Server.Indexed.{Keeps-Indexed, Becomes-Indexed}
use yojimbo_rs.Server.Spares.{Spares, receive_client_loop-Spares}

module _ {E S F G M A : Type 0} ⦃f : Float F⦄ ⦃g : Float G⦄ ⦃m : NetworkMessage M⦄
    ⦃endpoints : ReliableEndpoint E F G⦄ (netcode : NetcodeServer S F A) where
  -- Take a server in any state that it comes to by its operations, with reliable.io giving the
  -- callbacks the index of the endpoint's configuration. If the loop of `receive_packets` has come
  -- to a client and gets through with whatever this client sent, however many packets, then the
  -- connections and the endpoints of all other clients are as they were before these packets.
  pub receive_client-Spares :
      (law : KeepsIndex endpoints) (check : Bool) (fuel : ℕ) {time : F} {s : Server E S F G M}
      (r r1 r2 : ServerRuntime E S F G M) (i : ℕ)
      → Becomes netcode time s
      → s.runtime ≡ some r
      → receive_clients netcode check fuel r 0 i ≡ ok r1
      → receive_client netcode check fuel r1 i ≡ ok r2
      → Spares i r1 r2
  receive_client-Spares law check fuel r r1 r2 i b there before h =
      receive_client_loop-Spares netcode law check fuel r1 r2 i
        (Keeps-Indexed law (receive_clients-Keeps netcode check fuel r r1 0 i before)
          (Becomes-Indexed netcode law r b there))
        h

module _ {F : Type 0} where
  -- The packets to a client.
  abbrev pub packets_to : ℕ → List (PacketEntry F) → List (PacketEntry F)
  packets_to i = retain (λ e. e.destination_client_index == i)

  -- The packets to all others, as `discard_client_packets` keeps them.
  abbrev packets_not_to : ℕ → List (PacketEntry F) → List (PacketEntry F)
  packets_not_to i = retain (λ e. not (e.destination_client_index == i))

  packets_to-own : (i : ℕ) (es : List (PacketEntry F)) → packets_to i (packets_not_to i es) ≡ []
  packets_to-own i [] = refl
  packets_to-own i (e ∷ es) = elim (Bool-cases (e.destination_client_index == i)) [
    | inl own ↦ rw own (packets_to-own i es)
    | inr other ↦ rw (other, other) (packets_to-own i es)
  ]

  packets_to-other :
      (i j : ℕ) (es : List (PacketEntry F))
      → i ≢ j
      → packets_to j (packets_not_to i es) ≡ packets_to j es
  packets_to-other i j [] h = refl
  packets_to-other i j (e ∷ es) h = elim (Bool-cases (e.destination_client_index == i)) [
    | inl own ↦
        let not_j : (e.destination_client_index == j) ≡ false = ground (arith, own, h) in
        rw (own, not_j) (packets_to-other i j es h)
    | inr other ↦ elim (Bool-cases (e.destination_client_index == j)) [
      | inl at_j ↦ rw (other, at_j) (ap (λ t. e ∷ t) (packets_to-other i j es h))
      | inr not_j ↦ rw (other, not_j) (packets_to-other i j es h)
    ]
  ]

-- The simulator's packets to a client; none without a simulator.
abbrev pub queued_for : {F G : Type 0} → Option (NetworkSimulator F G) → ℕ → List (PacketEntry F)
queued_for none i = []
queued_for (some s) i = packets_to i s.entries.items

module _ {F G : Type 0} ⦃f : Float F⦄ ⦃g : Float G⦄ where
  queued_for-own : (o : Option (NetworkSimulator F G)) (i : ℕ) → queued_for (discard o i) i ≡ []
  unfolding NetworkSimulator.discard_client_packets
  queued_for-own none i = refl
  queued_for-own (some s) i = packets_to-own i s.entries.items

  queued_for-other :
      (o : Option (NetworkSimulator F G)) (i j : ℕ)
      → i ≢ j
      → queued_for (discard o i) j ≡ queued_for o j
  unfolding NetworkSimulator.discard_client_packets
  queued_for-other none i j h = refl
  queued_for-other (some s) i j h = packets_to-other i j s.entries.items h

module _ {E S F G M : Type 0} ⦃f : Float F⦄ ⦃g : Float G⦄ ⦃endpoints : ReliableEndpoint E F G⦄ where
  -- A runtime before and after a client has disconnected.
  pub record Cleared (i : ℕ) (r r' : ServerRuntime E S F G M) : Type 0 where
    pub old_connection : Connection F M
    pub had : get_elem? r.client_connection i ≡ some old_connection
    pub has : get_elem? r'.client_connection i ≡ some (Connection.reset old_connection)
    pub spares : Spares i r r'
    pub queue : queued_for r'.network_simulator i ≡ []
    pub other_queues :
        (j : ℕ) → i ≢ j → queued_for r'.network_simulator j ≡ queued_for r.network_simulator j

  -- When netcode reports that a client has disconnected and the server handles it without a panic,
  -- then the client's connection is reset and the simulator holds no packet to it any more, while
  -- the connections, the endpoints and the queued packets of all other clients are as they were.
  pub disconnected-Cleared :
      (r r' : ServerRuntime E S F G M) (i : ℕ)
      → handle_connect_disconnect r i false ≡ ok r'
      → Cleared i r r'
  unfolding handle_connect_disconnect
  disconnected-Cleared r r' i h =
      let (e, _, h1) = >>=-eq-ok (endpoint_at r i) _ h in
      let (k, has_k, h2) = >>=-eq-ok (connection_at r i) _ h1 in
      let there = expect_some-ok index_out_of_bounds (get_elem? r.client_connection i) has_k in
      let cleared : ServerRuntime E S F G M =
        record (set_endpoint (set_connection r i (Connection.reset k)) i (endpoints.reset e)) {
          network_simulator = discard r.network_simulator i;
        } in
      subst (Cleared i r) (ok-injective h2) (record {
        old_connection = k;
        had = there;
        has =
            get_elem?-set_self r.client_connection i (Connection.reset k)
              (get_elem?-some-lt r.client_connection i there);
        spares = record {
          connection = λ j other. get_elem?-set_ne r.client_connection (Connection.reset k) other;
          endpoint = λ j other. get_elem?-set_ne r.client_endpoint (endpoints.reset e) other;
        };
        queue = queued_for-own r.network_simulator i;
        other_queues = λ j other. queued_for-other r.network_simulator i j other;
      })
