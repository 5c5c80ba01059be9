-- ===== src/Server/Indexed.antt =====
-- The endpoint of each client of a server has the client's index (src/server.rs), which is how the
-- callbacks of reliable.io find the connection.
use yojimbo_rs.Prelude.{
  ℕ, zero, suc, ◌+◌, ◌^◌, ◌%◌, ◌≤◌, ◌≡◌, refl, sym, ap, subst, ◌∙◌, none, some, List, [], ◌∷◌,
  length, get_elem?, some-injective, arith,
}
use yojimbo_rs.Float.{Float}
use yojimbo_rs.Message.{NetworkMessage}
use yojimbo_rs.Config.{ClientServerConfig, new_reliable_config}
use yojimbo_rs.Foreign.{ReliableEndpoint, KeepsIndex, NetcodeServer}
use yojimbo_rs.Server.{Server, ServerRuntime}
use yojimbo_rs.Server.Lines.{Descends}
use yojimbo_rs.Server.Keeps.{Keeps}
use yojimbo_rs.Server.Runs.{Runs, untouched, ran}
use yojimbo_rs.Server.Begins.{AllCreated, Started}
use yojimbo_rs.Server.Steps.{
  Change, runs, starts, stops, Step-Change, Becomes, create, step, new-stopped,
}

module _ {E F G : Type 0} (endpoints : ReliableEndpoint E F G) (law : KeepsIndex endpoints) where
  Descends-index : {d e : E} → Descends endpoints d e → endpoints.index e ≡ endpoints.index d
  Descends-index Descends.same = refl
  Descends-index (Descends.reset p) = law.after_reset _ ∙ Descends-index p
  Descends-index (Descends.update t p) = law.after_update _ t ∙ Descends-index p
  Descends-index (Descends.clear_acks p) = law.after_clear_acks _ ∙ Descends-index p
  Descends-index (Descends.send_packet bytes p) = law.after_send_packet _ bytes ∙ Descends-index p
  Descends-index (Descends.receive_packet bytes p) =
      law.after_receive_packet _ bytes ∙ Descends-index p
  Descends-index (Descends.finish_receive sequence result p) =
      law.after_finish_receive _ sequence result ∙ Descends-index p

-- Every endpoint has the index of its place.
abbrev pub Indexed : {E F G : Type 0} → ReliableEndpoint E F G → List E → Type 0
Indexed {E = E} endpoints es = (j : ℕ) (e : E) → get_elem? es j ≡ some e → endpoints.index e ≡ j

module _ {E F G : Type 0} ⦃endpoints : ReliableEndpoint E F G⦄ (law : KeepsIndex endpoints) where
  AllCreated-index :
      (config : ClientServerConfig F G) (time : F) (index : ℕ) (es : List E) (j : ℕ) (e : E)
      → AllCreated config time index es
      → index + length es ≤ 2 ^ 31
      → get_elem? es j ≡ some e
      → endpoints.index e ≡ index + j
  unfolding new_reliable_config
  AllCreated-index config time index [] j e all few h = absurd (cc)
  AllCreated-index config time index (e1 ∷ es) zero e (made, all) few h =
      let small : index % 2 ^ 32 ≡ index + 0 = omega arith in
      ap endpoints.index (sym (some-injective h) ∙ made)
      ∙ law.after_reset _
      ∙ law.created _ time
      ∙ small
  AllCreated-index config time index (e1 ∷ es) (suc j) e (made, all) few h =
      let at = AllCreated-index config time (index + 1) es j e all (omega (arith, few)) h in
      omega (arith, at)

module _ {E S F G M : Type 0} ⦃endpoints : ReliableEndpoint E F G⦄
    (law : KeepsIndex endpoints) where
  pub Keeps-Indexed :
      {r r' : ServerRuntime E S F G M}
      → Keeps r r'
      → Indexed endpoints r.client_endpoint
      → Indexed endpoints r'.client_endpoint
  Keeps-Indexed k v = λ j e' h.
      let (e, there, line) = k.lines j e' h in Descends-index endpoints law line ∙ v j e there

  -- While a server runs.
  abbrev IndexedServer : Server E S F G M → Type 0
  IndexedServer s =
      (r : ServerRuntime E S F G M) → s.runtime ≡ some r → Indexed endpoints r.client_endpoint

  stopped-IndexedServer : (s : Server E S F G M) → s.runtime ≡ none → IndexedServer s
  stopped-IndexedServer s gone = λ r h. let e : none ≡ some r = sym gone ∙ h in absurd (cc)

  running-IndexedServer :
      (s : Server E S F G M) (r : ServerRuntime E S F G M)
      → s.runtime ≡ some r
      → Indexed endpoints r.client_endpoint
      → IndexedServer s
  running-IndexedServer s r there v =
      λ x h. subst (λ y. Indexed endpoints y.client_endpoint) (some-injective (sym there ∙ h)) v

  Runs-IndexedServer : {s s' : Server E S F G M} → Runs s s' → IndexedServer s → IndexedServer s'
  Runs-IndexedServer (untouched e) v = subst IndexedServer e v
  Runs-IndexedServer {s} (ran r r' there k e) v =
      subst IndexedServer e (
        running-IndexedServer (record s { runtime = some r' }) r' refl
          (Keeps-Indexed k (v r there)))

module _ {E S F G M A : Type 0} ⦃f : Float F⦄ ⦃g : Float G⦄ ⦃m : NetworkMessage M⦄
    ⦃endpoints : ReliableEndpoint E F G⦄ (netcode : NetcodeServer S F A)
    (law : KeepsIndex endpoints) where
  Started-Indexed :
      {max_clients : ℕ} {s s' : Server E S F G M}
      → Started netcode max_clients s s'
      → IndexedServer law s'
  Started-Indexed {max_clients} {s} {s'} began =
      running-IndexedServer law s' began.runtime began.runs (λ j e h.
        let at =
          AllCreated-index law s.config s.time 0 began.runtime.client_endpoint j e began.all_created
            (omega (arith, began.is_running.endpoints, began.max_clients_is, began.few)) h in
        omega (arith, at))

  Change-IndexedServer :
      {s s' : Server E S F G M} → Change netcode s s' → IndexedServer law s → IndexedServer law s'
  Change-IndexedServer (runs r) v = Runs-IndexedServer law r v
  Change-IndexedServer (starts max_clients began) v = Started-Indexed began
  Change-IndexedServer {s} {s'} (stops e) v =
      stopped-IndexedServer law s' (ap (λ x. x.runtime) (sym e))

  pub Becomes-Indexed :
      {time : F} {s : Server E S F G M} (r : ServerRuntime E S F G M)
      → Becomes netcode time s
      → s.runtime ≡ some r
      → Indexed endpoints r.client_endpoint
  Becomes-Indexed {s = s} r (create message_size private_key address config time h) there =
      let (gone, _) = new-stopped netcode message_size private_key address config time h in
      stopped-IndexedServer law s gone r there
  Becomes-Indexed r (step b st) there =
      Change-IndexedServer (Step-Change netcode st) (λ x h. Becomes-Indexed x b h) r there
