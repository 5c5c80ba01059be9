-- ===== src/Server/Keeps.antt =====
-- What no operation on a running server changes (src/server.rs): the number of its connections and
-- endpoints, and that it has a netcode server.
pub mod Packets
pub mod Time
use yojimbo_rs.Prelude.{
  ℕ, zero, suc, ◌+◌, ◌≡◌, ◌≢◌, get_elem?, get_elem?-set_self, get_elem?-set_ne, get_elem?-some-lt,
  some-injective, ==→eq, Bool-cases, arith, refl, sym, ap, subst, ◌∙◌, inl, inr, Bool, true, false,
  Option, none, some, List, [], ◌∷◌, length, set, length-set, is_some, ◌==◌,
}
use yojimbo_rs.Run.{
  Panic, Run, ok, ok-injective, ◌>>=◌, ◌>>◌, >>=-eq-ok, expect_some, index_out_of_bounds, assertion,
}
use yojimbo_rs.Float.{Float}
use yojimbo_rs.Connection
use yojimbo_rs.Connection.{Connection}
use yojimbo_rs.NetworkSimulator.{NetworkSimulator}
use yojimbo_rs.Foreign.{ReliableEndpoint, NetcodeServer}
use yojimbo_rs.Client.Keeps.{expect_some-ok}
use yojimbo_rs.Server.{ServerRuntime, connection_at, endpoint_at, set_connection, set_endpoint}
use yojimbo_rs.Server.Start.{discard, handle_connect_disconnect, handle_events}
use yojimbo_rs.Server.Advance.{disconnect_index}
use yojimbo_rs.Server.Lines.{Descends, Lines, Lines-refl, Lines-trans, Lines-set}

pub record Keeps {E S F G M : Type 0} ⦃endpoints : ReliableEndpoint E F G⦄
    (r r' : ServerRuntime E S F G M) : Type 0 where
  pub max_clients : r'.max_clients ≡ r.max_clients
  pub connections : length r'.client_connection ≡ length r.client_connection
  pub clients : length r'.client_endpoint ≡ length r.client_endpoint
  pub server : is_some r'.server ≡ is_some r.server
  pub lines : Lines endpoints r.client_endpoint r'.client_endpoint

module _ {E S F G M : Type 0} where
  abbrev pub with_server : ServerRuntime E S F G M → S → ServerRuntime E S F G M
  with_server r n = record r { server = some n }

module _ {E S F G M : Type 0} ⦃endpoints : ReliableEndpoint E F G⦄ where
  pub Keeps-refl : (r : ServerRuntime E S F G M) → Keeps r r
  Keeps-refl r = record {
    max_clients = refl;
    connections = refl;
    clients = refl;
    server = refl;
    lines = Lines-refl endpoints r.client_endpoint;
  }

  pub Keeps-eq : {r r' : ServerRuntime E S F G M} → r ≡ r' → Keeps r r'
  Keeps-eq {r} h = subst (Keeps r) h (Keeps-refl r)

  pub Keeps-trans : {r s t : ServerRuntime E S F G M} → Keeps r s → Keeps s t → Keeps r t
  Keeps-trans {r} {s} {t} k l = record {
    max_clients = l.max_clients ∙ k.max_clients;
    connections = l.connections ∙ k.connections;
    clients = l.clients ∙ k.clients;
    server = l.server ∙ k.server;
    lines =
        Lines-trans endpoints r.client_endpoint s.client_endpoint t.client_endpoint k.lines l.lines;
  }

  -- The parts are replaced by others.
  pub replaced-Keeps :
      (r : ServerRuntime E S F G M) {n : Option S} {s : Option (NetworkSimulator F G)}
      {ks : List (Connection F M)} {es : List E} {bytes : List ℕ}
      → length ks ≡ length r.client_connection
      → length es ≡ length r.client_endpoint
      → is_some n ≡ is_some r.server
      → Lines endpoints r.client_endpoint es
      → Keeps r (record r {
        server = n;
        network_simulator = s;
        client_connection = ks;
        client_endpoint = es;
        packet_buffer = bytes;
      })
  replaced-Keeps r hk he hn hl = record {
    max_clients = refl;
    connections = hk;
    clients = he;
    server = hn;
    lines = hl;
  }

  pub set_connection-Keeps :
      (r : ServerRuntime E S F G M) (i : ℕ) (k : Connection F M) → Keeps r (set_connection r i k)
  set_connection-Keeps r i k =
      replaced-Keeps r (length-set r.client_connection i k) refl refl
        (Lines-refl endpoints r.client_endpoint)

  pub set_endpoint-Keeps :
      (r : ServerRuntime E S F G M) (i : ℕ) {d e : E}
      → get_elem? r.client_endpoint i ≡ some d
      → Descends endpoints d e
      → Keeps r (set_endpoint r i e)
  set_endpoint-Keeps r i {e = e} there line =
      replaced-Keeps r refl (length-set r.client_endpoint i e) refl
        (Lines-set endpoints r.client_endpoint i there line)

  pub endpoint_there :
      (r : ServerRuntime E S F G M) (i : ℕ) {e : E}
      → endpoint_at r i ≡ ok e
      → get_elem? r.client_endpoint i ≡ some e
  endpoint_there r i h = expect_some-ok index_out_of_bounds (get_elem? r.client_endpoint i) h

  pub with_server-Keeps :
      (r : ServerRuntime E S F G M) (why : Panic) {old : S} (n : S)
      → expect_some why r.server ≡ ok old
      → Keeps r (with_server r n)
  with_server-Keeps r why n e =
      replaced-Keeps r refl refl (sym (ap is_some (expect_some-ok why r.server e)))
        (Lines-refl endpoints r.client_endpoint)

module _ {E S F G M : Type 0} ⦃f : Float F⦄ ⦃g : Float G⦄ ⦃endpoints : ReliableEndpoint E F G⦄ where
  handle_connect_disconnect-Keeps :
      (r r' : ServerRuntime E S F G M) (i : ℕ) (connected : Bool)
      → handle_connect_disconnect r i connected ≡ ok r'
      → Keeps r r'
  unfolding handle_connect_disconnect
  handle_connect_disconnect-Keeps r r' i true h = Keeps-eq (ok-injective h)
  handle_connect_disconnect-Keeps r r' i false h =
      let (e, at, h1) = >>=-eq-ok (endpoint_at r i) _ h in
      let (k, _, h2) = >>=-eq-ok (connection_at r i) _ h1 in
      subst (Keeps r) (ok-injective h2) (
        replaced-Keeps r (length-set r.client_connection i _) (length-set r.client_endpoint i _)
          refl
          (Lines-set endpoints r.client_endpoint i (endpoint_there r i at)
            (Descends.reset Descends.same)))

  pub handle_events-Keeps :
      (r r' : ServerRuntime E S F G M) (events : List (ℕ × ℕ))
      → handle_events r events ≡ ok r'
      → Keeps r r'
  unfolding handle_events
  handle_events-Keeps r r' [] h = Keeps-eq (ok-injective h)
  handle_events-Keeps r r' ((i, connected) ∷ events) h =
      let (r1, e, h1) = >>=-eq-ok (handle_connect_disconnect r i (connected == 1)) _ h in
      Keeps-trans (handle_connect_disconnect-Keeps r r1 i (connected == 1) e)
        (handle_events-Keeps r1 r' events h1)

  pub disconnect_index-Keeps :
      {A : Type 0} (netcode : NetcodeServer S F A) (r r' : ServerRuntime E S F G M) (i : ℕ)
      → disconnect_index netcode r i ≡ ok r'
      → Keeps r r'
  unfolding disconnect_index
  disconnect_index-Keeps netcode r r' i h =
      let (n, e, h1) = >>=-eq-ok (expect_some assertion r.server) _ h in
      let left = (netcode.disconnect_client n i).0 in
      let events = (netcode.disconnect_client n i).1 in
      Keeps-trans (with_server-Keeps r assertion left e)
        (handle_events-Keeps (with_server r left) r' events h1)
