-- ===== src/Client/Keeps.antt =====
-- What the operations on messages and packets leave alone (src/client.rs): which parts the client
-- has, its id and its state.
pub mod Packets
use yojimbo_rs.Prelude.{
  if_true, if_false, subst, ℕ, zero, suc, ◌≡◌, refl, sym, ap, ◌∙◌, inl, inr, Bool, true, false, not,
  Option, none, some, List, [], ◌∷◌, ◌++◌, length, drop, is_some, if_some, if_some-none,
  if_some-some, Bool-cases, Option-cases, if◌then◌else◌,
}
use yojimbo_rs.Run.{
  Panic, Run, ok, ok-injective, ◌>>=◌, ◌>>◌, >>=-eq-ok, expect_some, assert, map_run, null_pointer,
  unwrap_none,
}
use yojimbo_rs.Float.{Float}
use yojimbo_rs.Message.{NetworkMessage}
use yojimbo_rs.Connection
use yojimbo_rs.Connection.{Connection}
use yojimbo_rs.NetworkSimulator
use yojimbo_rs.NetworkSimulator.{NetworkSimulator, Draws}
use yojimbo_rs.Foreign.{ReliableEndpoint, NetcodeClient}
use yojimbo_rs.ClientState
use yojimbo_rs.Client.{
  Client, is_connected, is_disconnected, send_message, receive_message, receive_message_with_id,
  without_id, with_network_simulator,
}
use yojimbo_rs.Client.Traffic.{
  send_now, intercept, transmit_packet, transmit_packets, send_written, send_connection,
  send_packets, process_packet, process_handed, receive_packet, receive_loop, receive_packets,
}
use yojimbo_rs.Client.Valid.{IsValid}

pub record Keeps {E N F G M : Type 0} (c c' : Client E N F G M) : Type 0 where
  pub endpoint : is_some c'.endpoint ≡ is_some c.endpoint
  pub connection : is_some c'.connection ≡ is_some c.connection
  pub network_simulator : is_some c'.network_simulator ≡ is_some c.network_simulator
  pub client : is_some c'.client ≡ is_some c.client
  pub bound_port : c'.bound_port ≡ c.bound_port
  pub client_id : c'.client_id ≡ c.client_id
  pub client_state : c'.client_state ≡ c.client_state

pub expect_some-ok :
    {A : Type 0} (why : Panic) (o : Option A) {a : A} → expect_some why o ≡ ok a → o ≡ some a
expect_some-ok why none h = absurd (cc)
expect_some-ok why (some b) h = ap some (ok-injective h)

is_some-map_run :
    {A B : Type 0} (f : A → Run B) (o : Option A) {o' : Option B}
    → map_run f o ≡ ok o'
    → is_some o' ≡ is_some o
is_some-map_run f none h = ap is_some (sym (ok-injective h))
is_some-map_run f (some a) h =
    let (b, _, h1) = >>=-eq-ok (f a) (λ b. ok (some b)) h in ap is_some (sym (ok-injective h1))

module _ {E N F G M : Type 0} where
  pub Keeps-IsValid : {c c' : Client E N F G M} → Keeps c c' → IsValid c → IsValid c'
  Keeps-IsValid {c} {c'} k v = record {
    endpoint = k.endpoint ∙ v.endpoint ∙ sym k.client;
    connection = k.connection ∙ v.connection ∙ sym k.client;
    bound_port = ap is_some k.bound_port ∙ v.bound_port ∙ sym k.client;
    network_simulator = λ h. k.network_simulator ∙ v.network_simulator (sym k.client ∙ h);
    client_id = λ h. k.client_id ∙ v.client_id (sym k.client ∙ h);
    client_state =
        λ h. ap ClientState.is_disconnected k.client_state ∙ v.client_state (sym k.client ∙ h);
  }

  pub Keeps-refl : (c : Client E N F G M) → Keeps c c
  Keeps-refl c = record {
    endpoint = refl;
    connection = refl;
    network_simulator = refl;
    client = refl;
    bound_port = refl;
    client_id = refl;
    client_state = refl;
  }

  pub Keeps-eq : {c c' : Client E N F G M} → c ≡ c' → Keeps c c'
  Keeps-eq {c} h = subst (Keeps c) h (Keeps-refl c)

  pub Keeps-trans : {c d e : Client E N F G M} → Keeps c d → Keeps d e → Keeps c e
  Keeps-trans k l = record {
    endpoint = l.endpoint ∙ k.endpoint;
    connection = l.connection ∙ k.connection;
    network_simulator = l.network_simulator ∙ k.network_simulator;
    client = l.client ∙ k.client;
    bound_port = l.bound_port ∙ k.bound_port;
    client_id = l.client_id ∙ k.client_id;
    client_state = l.client_state ∙ k.client_state;
  }

  -- The parts are replaced by others.
  pub replaced-Keeps :
      (c : Client E N F G M) {e : Option E} {k : Option (Connection F M)}
      {s : Option (NetworkSimulator F G)} {n : Option N} {bytes : List ℕ}
      → is_some e ≡ is_some c.endpoint
      → is_some k ≡ is_some c.connection
      → is_some s ≡ is_some c.network_simulator
      → is_some n ≡ is_some c.client
      → Keeps c (record c {
        endpoint = e;
        connection = k;
        network_simulator = s;
        client = n;
        packet_buffer = bytes;
      })
  replaced-Keeps c he hk hs hn = record {
    endpoint = he;
    connection = hk;
    network_simulator = hs;
    client = hn;
    bound_port = refl;
    client_id = refl;
    client_state = refl;
  }

  -- An operation on the connection, if there is one.
  pub if_connection-Keeps :
      {A : Type 0} (c : Client E N F G M) (act : Connection F M → Run A) (otherwise : Run A)
      {end : A} (P : A → Type 0)
      → (act_fine : (k : Connection F M) → c.connection ≡ some k → act k ≡ ok end → P end)
      → (other_fine : otherwise ≡ ok end → P end) → if_some c.connection act otherwise ≡ ok end
      → P end
  if_connection-Keeps c act otherwise P act_fine other_fine h = elim (Option-cases c.connection) [
    | inl gone ↦ other_fine (if_some-none c.connection act otherwise gone ∙ h)
    | inr (k, there) ↦ act_fine k there (if_some-some c.connection act otherwise k there ∙ h)
  ]

  pub receive_message_with_id-Keeps :
      (c c' : Client E N F G M) (index : ℕ) {message : Option (ℕ × M)}
      → receive_message_with_id c index ≡ ok (c', message)
      → Keeps c c'
  unfolding receive_message_with_id
  receive_message_with_id-Keeps c c' index h =
      if_connection-Keeps c
        (λ k. do
          (k', message) ← Connection.receive_message k index
          ok (record c { connection = some k' }, message))
        (ok (c, none)) (λ x. Keeps c x.0)
        (λ k there e.
          let ((k', message), _, e1) = >>=-eq-ok (Connection.receive_message k index) _ e in
          subst (Keeps c) (ap (λ x. x.0) (ok-injective e1))
            (replaced-Keeps c refl (sym (ap is_some there)) refl refl))
        (λ e. Keeps-eq (ap (λ x. x.0) (ok-injective e))) h

  pub receive_message-Keeps :
      (c c' : Client E N F G M) (index : ℕ) {message : Option M}
      → receive_message c index ≡ ok (c', message)
      → Keeps c c'
  unfolding receive_message
  receive_message-Keeps c c' index h =
      let ((c1, message), e, h1) = >>=-eq-ok (receive_message_with_id c index) _ h in
      subst (Keeps c) (ap (λ x. x.0) (ok-injective h1)) (receive_message_with_id-Keeps c c1 index e)

  pub with_network_simulator-Keeps :
      (f : NetworkSimulator F G → Run (NetworkSimulator F G)) (c c' : Client E N F G M)
      → with_network_simulator f c ≡ ok c'
      → Keeps c c'
  unfolding with_network_simulator
  with_network_simulator-Keeps f c c' h =
      let (s, e, h1) = >>=-eq-ok (map_run f c.network_simulator) _ h in
      subst (Keeps c) (ok-injective h1)
        (replaced-Keeps c refl refl (is_some-map_run f c.network_simulator e) refl)

module _ {E N F G M : Type 0} ⦃m : NetworkMessage M⦄ ⦃f : Float F⦄ where
  pub send_message-Keeps :
      (c c' : Client E N F G M) (index : ℕ) (message : M)
      → send_message c index message ≡ ok c'
      → Keeps c c'
  unfolding send_message
  send_message-Keeps c c' index message h =
      if_connection-Keeps c
        (λ k. do
          k' ← Connection.send_message k index message
          ok (record c { connection = some k' }))
        (ok c) (Keeps c)
        (λ k there e.
          let (k', _, e1) = >>=-eq-ok (Connection.send_message k index message) _ e in
          subst (Keeps c) (ok-injective e1)
            (replaced-Keeps c refl (sym (ap is_some there)) refl refl))
        (λ e. Keeps-eq (ok-injective e)) h
