-- ===== src/Client/Advance.antt =====
-- What `advance_time` of a client leads to (src/client.rs).
pub mod Time
use yojimbo_rs.Prelude.{
  is_some-map, ℕ, ◌≡◌, refl, sym, ap, subst, ◌∙◌, inl, inr, Bool, true, false, Option, none, some,
  List, is_some, if_some, if_some-none, if_some-some, if_true, if_false, Bool-cases, Option-cases,
  if◌then◌else◌,
}
use yojimbo_rs.Run.{Run, ok, ok-injective, ◌>>=◌, ◌>>◌, >>=-eq-ok, expect_some, null_pointer}
use yojimbo_rs.Float.{Float}
use yojimbo_rs.ErrorLevel.{is_connection_error}
use yojimbo_rs.Connection
use yojimbo_rs.Connection.{Connection}
use yojimbo_rs.NetworkSimulator
use yojimbo_rs.NetworkSimulator.{NetworkSimulator}
use yojimbo_rs.Foreign.{ReliableEndpoint, NetcodeClient}
use yojimbo_rs.ClientState
use yojimbo_rs.ClientState.{ClientState, client_state_from_netcode_state, state_changes}
use yojimbo_rs.Client.{Client, disconnect, is_disconnected}
use yojimbo_rs.Client.Lifecycle.{
  flush_active, flush_simulator, follow_state, update_netcode, advance_simulator,
  advance_connection, advance_time, send_deferred,
}
use yojimbo_rs.Client.Valid.{
  IsValid, idle, idle-IsValid, live-IsValid, settle-same, disconnect-idle,
}
use yojimbo_rs.Client.Keeps.{
  Keeps, Keeps-eq, Keeps-trans, Keeps-IsValid, replaced-Keeps, expect_some-ok,
}

module _ {E N F G M : Type 0} ⦃f : Float F⦄ ⦃netcode : NetcodeClient N F⦄ where
  flush_simulator-Keeps : (c c' : Client E N F G M) → flush_simulator c ≡ ok c' → Keeps c c'
  unfolding flush_simulator flush_active
  flush_simulator-Keeps c c' h =
      let flush : NetworkSimulator F G → Run (Client E N F G M) =
        λ s. if s.active then flush_active c s else ok c in
      elim (Option-cases c.network_simulator) [
        | inl gone ↦
            Keeps-eq (ok-injective (if_some-none c.network_simulator flush (ok c) gone ∙ h))
        | inr (s, there) ↦
            let h1 = if_some-some c.network_simulator flush (ok c) s there ∙ h in
            elim (Bool-cases s.active) [
              | inl on ↦
                  let ((s', packets), _, h2) =
                    >>=-eq-ok (NetworkSimulator.receive_packets s) _
                      (if_true s.active (flush_active c s) (ok c) on ∙ h1) in
                  let (n, e, h3) = >>=-eq-ok (expect_some null_pointer c.client) _ h2 in
                  subst (Keeps c) (ok-injective h3) (
                    replaced-Keeps c refl refl (sym (ap is_some there))
                      (sym (ap is_some (expect_some-ok null_pointer c.client e))))
              | inr off ↦
                  Keeps-eq (ok-injective (if_false s.active (flush_active c s) (ok c) off ∙ h1))
            ]
      ]

  -- A client that takes over the state of its netcode client.
  abbrev pub followed : Client E N F G M → N → Client E N F G M
  followed c n = record c {
    client = some n;
    client_state = client_state_from_netcode_state netcode (netcode.state n);
  }

  -- A client that has taken over the state of its netcode client, or is idle because of it.
  pub record Follows (c : Client E N F G M) (n : N) (c' : Client E N F G M) : Type 0 where
    pub is_valid : IsValid c'
    pub client_state : c'.client_state ≡ client_state_from_netcode_state netcode (netcode.state n)
    pub is_idle : is_disconnected c' ≡ true → c' ≡ idle (followed c n)

  followed-IsValid :
      (c : Client E N F G M) (n : N) → IsValid c → is_some c.client ≡ true → IsValid (followed c n)
  followed-IsValid c n v there =
      live-IsValid (followed c n) (v.endpoint ∙ there) (v.connection ∙ there) (v.bound_port ∙ there)
        refl

  idle-Follows :
      (c c' : Client E N F G M) (n : N)
      → is_disconnected (followed c n) ≡ true
      → idle (followed c n) ≡ c'
      → Follows c n c'
  idle-Follows c c' n away e = record {
    is_valid = subst IsValid e (idle-IsValid (followed c n));
    client_state = ap (λ x. x.client_state) (sym e) ∙ settle-same _ away;
    is_idle = λ _. sym e;
  }

  Keeps-Follows :
      (c c' : Client E N F G M) (n : N)
      → IsValid (followed c n)
      → is_disconnected (followed c n) ≡ false
      → Keeps (followed c n) c'
      → Follows c n c'
  Keeps-Follows c c' n v here k = record {
    is_valid = Keeps-IsValid k v;
    client_state = k.client_state;
    is_idle = λ away.
        let e : false ≡ true =
          sym here ∙ sym (ap ClientState.is_disconnected k.client_state) ∙ away in
        absurd (cc);
  }

  follow_state-Follows :
      (c c' : Client E N F G M) (n : N)
      → IsValid c
      → is_some c.client ≡ true
      → follow_state c n ≡ ok c'
      → Follows c n c'
  unfolding follow_state
  follow_state-Follows c c' n v there h = elim (Bool-cases (is_disconnected (followed c n))) [
    | inl away ↦
        let (c1, e, h1) = >>=-eq-ok (disconnect (followed c n)) flush_simulator (
          ap (λ r. r >>= flush_simulator)
            (if_true (is_disconnected (followed c n)) (disconnect (followed c n))
              (ok (followed c n)) away)
          ∙ h) in
        let left : idle (followed c n) ≡ c1 =
          disconnect-idle (followed c n) c1 (λ gone. absurd (cc)) e in
        idle-Follows c c' n away (ok-injective (ap flush_simulator left ∙ h1))
    | inr here ↦ Keeps-Follows c c' n (followed-IsValid c n v there) here (
        flush_simulator-Keeps (followed c n) c' (
          ap (λ r. r >>= flush_simulator)
            (if_false (is_disconnected (followed c n)) (disconnect (followed c n))
              (ok (followed c n)) here)
          ∙ h))
  ]

  update_netcode-Follows :
      (c c' : Client E N F G M) (n : N)
      → IsValid c
      → c.client ≡ some n
      → update_netcode c ≡ ok c'
      → Follows c (netcode.update n c.time).0 c'
  unfolding update_netcode
  update_netcode-Follows c c' n v there h =
      let act : N → Run (Client E N F G M) = λ client.
        state_changes (netcode.update client c.time).1
        >> follow_state c (netcode.update client c.time).0 in
      let (_, _, h1) =
        >>=-eq-ok (state_changes (netcode.update n c.time).1)
          (λ _. follow_state c (netcode.update n c.time).0)
          (if_some-some c.client act (ok c) n there ∙ h) in
      follow_state-Follows c c' (netcode.update n c.time).0 v (ap is_some there) h1

  update_netcode-IsValid :
      (c c' : Client E N F G M) → IsValid c → update_netcode c ≡ ok c' → IsValid c'
  unfolding update_netcode
  update_netcode-IsValid c c' v h = elim (Option-cases c.client) [
    | inl gone ↦
        subst IsValid
          (ok-injective (
            if_some-none c.client
              (λ client.
                state_changes (netcode.update client c.time).1
                >> follow_state c (netcode.update client c.time).0)
              (ok c) gone
            ∙ h))
          v
    | inr (n, there) ↦ (update_netcode-Follows c c' n v there h).is_valid
  ]

module _ {E N F G M : Type 0} ⦃f : Float F⦄ ⦃g : Float G⦄ ⦃netcode : NetcodeClient N F⦄ where
  -- A client whose simulator has advanced.
  abbrev pub simulated : Client E N F G M → Client E N F G M
  simulated c = record c {
    network_simulator =
        if_some c.network_simulator (λ s. some (NetworkSimulator.advance_time s c.time)) none;
  }

  simulated-IsValid : (c : Client E N F G M) → IsValid c → IsValid (simulated c)
  simulated-IsValid c v =
      Keeps-IsValid
        (replaced-Keeps c refl refl
          (is_some-map (λ s. NetworkSimulator.advance_time s c.time) c.network_simulator) refl)
        v

  pub advance_simulator-IsValid :
      (c c' : Client E N F G M) → IsValid c → advance_simulator c ≡ ok c' → IsValid c'
  unfolding advance_simulator
  advance_simulator-IsValid c c' v h =
      update_netcode-IsValid (simulated c) c' (simulated-IsValid c v) h

  pub advance_simulator-Follows :
      (c c' : Client E N F G M) (n : N)
      → IsValid c
      → c.client ≡ some n
      → advance_simulator c ≡ ok c'
      → Follows (simulated c) (netcode.update n c.time).0 c'
  unfolding advance_simulator
  advance_simulator-Follows c c' n v there h =
      update_netcode-Follows (simulated c) c' n (simulated-IsValid c v) there h
