-- ===== src/NetworkSimulator/Quiet.antt =====
-- A simulator that is not active holds no packets (src/network_simulator.rs).
use yojimbo_rs.Prelude.{
  ℕ, ◌≡◌, refl, sym, subst, Bool, true, false, not, ◌&&◌, List, [], if◌then◌else◌,
}
use yojimbo_rs.Run.{ok, >>=-eq-ok, assert}
use yojimbo_rs.Float.{Float}
use yojimbo_rs.Deque.{Deque, clear}
use yojimbo_rs.NetworkSimulator.{
  NetworkSimulator, retain, is_percent, any_set, update_active, set_latency, set_jitter,
  set_packet_loss, set_duplicates, discard_packets, discard_client_packets, advance_time,
}

-- A simulator whose `active` says whether any of its settings is set, and which is empty when none is.
pub record IsQuiet {F G : Type 0} ⦃f : Float F⦄ ⦃g : Float G⦄ (n : NetworkSimulator F G)
    : Type 0 where
  pub truthful : n.active ≡ any_set n
  pub empty : n.active ≡ false → n.entries.items ≡ []

retain-nil : {A : Type 0} (p : A → Bool) (xs : List A) → xs ≡ [] → retain p xs ≡ []
retain-nil p xs h = subst (λ ys. retain p ys ≡ []) (sym h) refl

cleared :
    {A : Type 0} (was now : Bool) (q : Deque A)
    → now ≡ false
    → (was ≡ false → q.items ≡ [])
    → (if was && not now then clear q else q).items ≡ []
cleared true true q off h = absurd (cc off)
cleared true false q off h = refl
cleared false now q off h = h refl

module _ {F G : Type 0} ⦃f : Float F⦄ ⦃g : Float G⦄ where
  -- The operations of the simulator that its user or its owner calls between packets, where they
  -- return.
  pub data Configures (n : NetworkSimulator F G) : NetworkSimulator F G → Type 0 where
    latency : (milliseconds : F) → Configures n (set_latency n milliseconds)
    jitter : (milliseconds : F) → Configures n (set_jitter n milliseconds)
    packet_loss :
        (percent : G) (n' : NetworkSimulator F G)
        → set_packet_loss n percent ≡ ok n'
        → Configures n n'
    duplicates :
        (percent : G) (n' : NetworkSimulator F G)
        → set_duplicates n percent ≡ ok n'
        → Configures n n'
    discard : Configures n (discard_packets n)
    discard_client : (client_index : ℕ) → Configures n (discard_client_packets n client_index)
    advance : (time : F) → Configures n (advance_time n time)

  -- It is enough that a simulator that was not active was empty.
  updated :
      (n : NetworkSimulator F G)
      → (n.active ≡ false → n.entries.items ≡ [])
      → IsQuiet (update_active n)
  unfolding update_active
  updated n h = record {
    truthful = refl;
    empty = λ off. cleared n.active (any_set n) n.entries off h;
  }

  -- Every setter, discard and `advance_time` of the simulator that returns keeps it one whose
  -- `active` says whether any of its settings is set, and which is empty when none is.
  pub Configures-IsQuiet : (n n' : NetworkSimulator F G) → IsQuiet n → Configures n n' → IsQuiet n'
  unfolding set_latency set_jitter set_packet_loss set_duplicates discard_packets
      discard_client_packets advance_time
  Configures-IsQuiet n _ k (Configures.latency x) = updated (record n { latency = x }) k.empty
  Configures-IsQuiet n _ k (Configures.jitter x) = updated (record n { jitter = x }) k.empty
  Configures-IsQuiet n n' k (Configures.packet_loss p _ h) =
      let (_, _, q) = >>=-eq-ok (assert (is_percent p)) _ h in
      let same : update_active (record n { packet_loss = p }) ≡ n' = cc in
      subst IsQuiet same (updated (record n { packet_loss = p }) k.empty)
  Configures-IsQuiet n n' k (Configures.duplicates p _ h) =
      let (_, _, q) = >>=-eq-ok (assert (is_percent p)) _ h in
      let same : update_active (record n { duplicates = p }) ≡ n' = cc in
      subst IsQuiet same (updated (record n { duplicates = p }) k.empty)
  Configures-IsQuiet n _ k Configures.discard = record {
    truthful = k.truthful;
    empty = λ off. refl;
  }
  Configures-IsQuiet n _ k (Configures.discard_client i) = record {
    truthful = k.truthful;
    empty = λ off. retain-nil _ n.entries.items (k.empty off);
  }
  Configures-IsQuiet n _ k (Configures.advance t) = record {
    truthful = k.truthful;
    empty = λ off. retain-nil _ n.entries.items (k.empty off);
  }
