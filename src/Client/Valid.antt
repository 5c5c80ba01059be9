-- ===== src/Client/Valid.antt =====
-- The parts of a client that exist together (src/client.rs): its endpoint, its connection and its
-- bound port exist while it has a netcode client.
use yojimbo_rs.Prelude.{
  sym, is_some, is_some-false, if_some-some, if_some-none, ◌⊎◌, ℕ, ◌≡◌, refl, ap, ◌∙◌, inl, inr,
  true, false, none, List, map, Option-cases, if◌then◌else◌,
}
use yojimbo_rs.Run.{Run, ok, ◌>>◌, ok-injective, >>=-eq-ok}
use yojimbo_rs.Config.{ClientServerConfig}
use yojimbo_rs.Foreign.{NetcodeClient}
use yojimbo_rs.ClientState
use yojimbo_rs.ClientState.{ClientState, state_changes}
use yojimbo_rs.ClientState.Known.{IsDocumented, state_changes-known}
use yojimbo_rs.Client.{Client, new, is_disconnected, destroy_client, destroy_internal, disconnect}

-- The state after `disconnect`: an error state stays.
abbrev pub settle : ClientState → ClientState
settle s = if ClientState.is_failed s then ClientState.error else ClientState.disconnected

settle-is_disconnected : (s : ClientState) → ClientState.is_disconnected (settle s) ≡ true
settle-is_disconnected ClientState.error = refl
settle-is_disconnected ClientState.disconnected = refl
settle-is_disconnected ClientState.connecting = refl
settle-is_disconnected ClientState.connected = refl

-- A state without a connection stays.
pub settle-same : (s : ClientState) → ClientState.is_disconnected s ≡ true → settle s ≡ s
settle-same ClientState.error h = refl
settle-same ClientState.disconnected h = refl
settle-same ClientState.connecting h = absurd (cc)
settle-same ClientState.connected h = absurd (cc)

pub settle-settle : (s : ClientState) → settle (settle s) ≡ settle s
settle-settle ClientState.error = refl
settle-settle ClientState.disconnected = refl
settle-settle ClientState.connecting = refl
settle-settle ClientState.connected = refl

pub record IsValid {E N F G M : Type 0} (c : Client E N F G M) : Type 0 where
  pub endpoint : is_some c.endpoint ≡ is_some c.client
  pub connection : is_some c.connection ≡ is_some c.client
  pub bound_port : is_some c.bound_port ≡ is_some c.client
  pub network_simulator : is_some c.client ≡ false → is_some c.network_simulator ≡ false
  pub client_id : is_some c.client ≡ false → c.client_id ≡ 0
  -- A client without a netcode client is not connected and not connecting.
  pub client_state : is_some c.client ≡ false → is_disconnected c ≡ true

module _ {E N F G M : Type 0} where
  -- What `disconnect` leaves of a client.
  abbrev pub idle : Client E N F G M → Client E N F G M
  idle c = record c {
    endpoint = none;
    connection = none;
    network_simulator = none;
    packet_buffer = map (λ b. 0) c.packet_buffer;
    client_state = settle c.client_state;
    client = none;
    bound_port = none;
    client_id = 0;
  }

  -- `disconnect` before and after `destroy_client`.
  abbrev pub failing : Client E N F G M → Client E N F G M
  failing c = record c { client_state = settle c.client_state }

  abbrev pub left : Client E N F G M → Client E N F G M
  left c = record (destroy_internal c) { client_id = 0 }

  pub idle-IsValid : (c : Client E N F G M) → IsValid (idle c)
  idle-IsValid c = record {
    endpoint = refl;
    connection = refl;
    bound_port = refl;
    network_simulator = λ h. refl;
    client_id = λ h. refl;
    client_state = λ h. settle-is_disconnected c.client_state;
  }

  pub new-IsValid :
      (address : List ℕ) (config : ClientServerConfig F G) (time : F)
      → IsValid (new {E = E} {N = N} {M = M} address config time)
  unfolding new
  new-IsValid address config time = record {
    endpoint = refl;
    connection = refl;
    bound_port = refl;
    network_simulator = λ h. refl;
    client_id = λ h. refl;
    client_state = λ h. refl;
  }

module _ {E N F G M : Type 0} ⦃netcode : NetcodeClient N F⦄ where
  -- `destroy_client` returns early without a netcode client.
  pub destroy_client-parts :
      (c c' : Client E N F G M)
      → destroy_client c ≡ ok c'
      → ((c.client ≡ none) × (c ≡ c'))
        ⊎ (record c { bound_port = none; client = none; network_simulator = none } ≡ c')
  unfolding destroy_client
  destroy_client-parts c c' h =
      let destroy : N → Run (Client E N F G M) = λ n.
        state_changes (netcode.destroy n)
        >> ok (record c { bound_port = none; client = none; network_simulator = none }) in
      elim (Option-cases c.client) [
        | inl gone ↦ inl (gone, ok-injective (if_some-none c.client destroy (ok c) gone ∙ h))
        | inr (n, there) ↦
            let (_, _, h1) =
              >>=-eq-ok (state_changes (netcode.destroy n))
                (λ _. ok (record c { bound_port = none; client = none; network_simulator = none }))
                (if_some-some c.client destroy (ok c) n there ∙ h) in
            inr (ok-injective h1)
      ]

  disconnect-idle_gone :
      (c : Client E N F G M) → c.client ≡ none → c.bound_port ≡ none → idle c ≡ left (failing c)
  unfolding destroy_internal
  disconnect-idle_gone c gone port = rw (gone, port)

  pub disconnect-idle :
      (c c' : Client E N F G M)
      → (c.client ≡ none → c.bound_port ≡ none)
      → disconnect c ≡ ok c'
      → idle c ≡ c'
  unfolding disconnect destroy_internal
  disconnect-idle c c' port h =
      let (c1, destroyed, h1) = >>=-eq-ok (destroy_client (failing c)) (λ x. ok (left x)) h in
      let last : left c1 ≡ c' = ok-injective h1 in
      elim (destroy_client-parts (failing c) c1 destroyed) [
        | inl (gone, same) ↦ disconnect-idle_gone c gone (port gone) ∙ ap left same ∙ last
        | inr same ↦ ap left same ∙ last
      ]

  -- If every change that the library reports is between the states it documents, `disconnect` of a
  -- valid client returns: every part is gone, and of the state it is known whether it was an
  -- error.
  pub disconnect_returns :
      (c : Client E N F G M) → IsDocumented netcode → IsValid c → disconnect c ≡ ok (idle c)
  unfolding disconnect destroy_client destroy_internal
  disconnect_returns c d v = elim (Option-cases c.client) [
    | inl gone ↦
        let port : c.bound_port ≡ none =
          is_some-false c.bound_port (v.bound_port ∙ ap is_some gone) in
        rw (gone, port)
    | inr (n, there) ↦
        let known : state_changes (netcode.destroy n) ≡ ok tt =
          state_changes-known netcode d (netcode.destroy n) (d.destroy n) in
        rw (there, known)
  ]

module _ {E N F G M : Type 0} where
  pub port-of : {c : Client E N F G M} → IsValid c → c.client ≡ none → c.bound_port ≡ none
  port-of {c} v gone = is_some-false c.bound_port (v.bound_port ∙ ap is_some gone)

  -- A client that has every part.
  pub live-IsValid :
      (c : Client E N F G M)
      → is_some c.endpoint ≡ true
      → is_some c.connection ≡ true
      → is_some c.bound_port ≡ true
      → is_some c.client ≡ true
      → IsValid c
  live-IsValid c e k p n = record {
    endpoint = e ∙ sym n;
    connection = k ∙ sym n;
    bound_port = p ∙ sym n;
    network_simulator = λ h. absurd (cc);
    client_id = λ h. absurd (cc);
    client_state = λ h. absurd (cc);
  }
