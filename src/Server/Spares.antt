-- ===== src/Server/Spares.antt =====
-- What the packets of one client leave alone, if the endpoints have the indices of their clients
-- (src/server.rs).
use yojimbo_rs.Prelude.{
  ℕ, zero, suc, ◌≡◌, ◌≢◌, refl, ap, subst, ◌∙◌, inl, inr, Bool, Option, none, some, List, get_elem?,
  get_elem?-set_ne, if_some-none, if_some-some, Option-cases,
}
use yojimbo_rs.Run.{Run, ok, ok-injective, ◌>>=◌, >>=-eq-ok, expect_some, null_pointer}
use yojimbo_rs.Float.{Float}
use yojimbo_rs.Message.{NetworkMessage}
use yojimbo_rs.Connection
use yojimbo_rs.Connection.{Connection}
use yojimbo_rs.Foreign.{ReliableEndpoint, KeepsIndex, NetcodeServer}
use yojimbo_rs.Server.{ServerRuntime, connection_at, endpoint_at, set_connection, set_endpoint}
use yojimbo_rs.Server.Traffic.{process_packet, process_handed, receive_packet, receive_client}
use yojimbo_rs.Server.Keeps.{with_server, endpoint_there}
use yojimbo_rs.Server.Keeps.Packets.{receive_packet-Keeps}
use yojimbo_rs.Server.Indexed.{Indexed, Keeps-Indexed}

-- The connection and the endpoint of every client but `i` are as before.
pub record Spares {E S F G M : Type 0} (i : ℕ) (r r' : ServerRuntime E S F G M) : Type 0 where
  pub connection :
      (j : ℕ) → i ≢ j → get_elem? r'.client_connection j ≡ get_elem? r.client_connection j
  pub endpoint : (j : ℕ) → i ≢ j → get_elem? r'.client_endpoint j ≡ get_elem? r.client_endpoint j

module _ {E S F G M : Type 0} where
  Spares-refl : (i : ℕ) (r : ServerRuntime E S F G M) → Spares i r r
  Spares-refl i r = record { connection = λ j h. refl; endpoint = λ j h. refl }

  Spares-trans :
      {i : ℕ} {r s t : ServerRuntime E S F G M} → Spares i r s → Spares i s t → Spares i r t
  Spares-trans k l = record {
    connection = λ j h. l.connection j h ∙ k.connection j h;
    endpoint = λ j h. l.endpoint j h ∙ k.endpoint j h;
  }

  set_connection-Spares :
      (r : ServerRuntime E S F G M) (i : ℕ) (k : Connection F M) → Spares i r (set_connection r i k)
  set_connection-Spares r i k = record {
    connection = λ j h. get_elem?-set_ne r.client_connection k h;
    endpoint = λ j h. refl;
  }

  set_endpoint-Spares :
      (r : ServerRuntime E S F G M) (i : ℕ) (e : E) → Spares i r (set_endpoint r i e)
  set_endpoint-Spares r i e = record {
    connection = λ j h. refl;
    endpoint = λ j h. get_elem?-set_ne r.client_endpoint e h;
  }

  with_server-Spares : (r : ServerRuntime E S F G M) (i : ℕ) (n : S) → Spares i r (with_server r n)
  with_server-Spares r i n = record { connection = λ j h. refl; endpoint = λ j h. refl }

module _ {E S F G M A : Type 0} ⦃f : Float F⦄ ⦃g : Float G⦄ ⦃m : NetworkMessage M⦄
    ⦃endpoints : ReliableEndpoint E F G⦄ (netcode : NetcodeServer S F A) where
  process_packet-Spares :
      (check : Bool) (r r' : ServerRuntime E S F G M) (i seq result : ℕ) (bytes : List ℕ)
      → process_packet netcode check r i seq bytes ≡ ok (r', result)
      → Spares i r r'
  unfolding process_packet
  process_packet-Spares check r r' i seq result bytes h =
      let (k, _, h1) = >>=-eq-ok (connection_at r i) _ h in
      let ((k', taken), _, h2) = >>=-eq-ok (Connection.process_packet check k seq bytes) _ h1 in
      subst (Spares i r) (ap (λ x. x.0) (ok-injective h2)) (set_connection-Spares r i k')

  -- The callback touches the connection of the endpoint's index.
  process_handed-Spares :
      (check : Bool) (r r' : ServerRuntime E S F G M) (i : ℕ) (e : E) (handed : Option (ℕ × List ℕ))
      → endpoints.index e ≡ i
      → process_handed netcode check r i e handed ≡ ok r'
      → Spares i r r'
  unfolding process_handed
  process_handed-Spares check r r' i e none own h =
      subst (Spares i r) (ok-injective h) (set_endpoint-Spares r i e)
  process_handed-Spares check r r' i e (some (seq, bytes)) own h =
      let ((r1, result), e1, h1) =
        >>=-eq-ok (process_packet netcode check r (endpoints.index e) seq bytes) _ h in
      let first : Spares i r r1 =
        subst (λ n. Spares n r r1) own
          (process_packet-Spares check r r1 (endpoints.index e) seq result bytes e1) in
      Spares-trans first (subst (Spares i r1) (ok-injective h1) (set_endpoint-Spares r1 i _))

  receive_packet-Spares :
      (law : KeepsIndex endpoints) (check : Bool) (r r' : ServerRuntime E S F G M) (i : ℕ)
      (bytes : List ℕ)
      → Indexed endpoints r.client_endpoint
      → receive_packet netcode check r i bytes ≡ ok r'
      → Spares i r r'
  unfolding receive_packet
  receive_packet-Spares law check r r' i bytes v h =
      let (e, at, h1) = >>=-eq-ok (endpoint_at r i) _ h in
      process_handed-Spares check r r' i (endpoints.receive_packet e bytes).0
        (endpoints.receive_packet e bytes).1
        (law.after_receive_packet e bytes ∙ v i e (endpoint_there r i at)) h1

  pub receive_client_loop-Spares :
      (law : KeepsIndex endpoints) (check : Bool) (fuel : ℕ) (r r' : ServerRuntime E S F G M)
      (i : ℕ)
      → Indexed endpoints r.client_endpoint
      → receive_client netcode check fuel r i ≡ ok r'
      → Spares i r r'
  unfolding receive_client
  receive_client_loop-Spares law check zero r r' i v h = absurd (cc)
  receive_client_loop-Spares law check (suc fuel) r r' i v h =
      let (n, _, h1) = >>=-eq-ok (expect_some null_pointer r.server) _ h in
      let next = with_server r (netcode.receive_packet n i).0 in
      let first : Spares i r next = with_server-Spares r i (netcode.receive_packet n i).0 in
      let more : List ℕ → Run (ServerRuntime E S F G M) = λ bytes.
        receive_packet netcode check next i bytes
        >>= (λ x. receive_client netcode check fuel x i) in
      elim (Option-cases (netcode.receive_packet n i).1) [
        | inl last ↦
            subst (Spares i r)
              (ok-injective (if_some-none (netcode.receive_packet n i).1 more (ok next) last ∙ h1))
              first
        | inr (bytes, got) ↦
            let (r1, e1, h2) =
              >>=-eq-ok (receive_packet netcode check next i bytes)
                (λ x. receive_client netcode check fuel x i)
                (if_some-some (netcode.receive_packet n i).1 more (ok next) bytes got ∙ h1) in
            let still =
              Keeps-Indexed law (receive_packet-Keeps netcode check next r1 i bytes e1) v in
            Spares-trans first (
              Spares-trans (receive_packet-Spares law check next r1 i bytes v e1)
                (receive_client_loop-Spares law check fuel r1 r' i still h2))
      ]
