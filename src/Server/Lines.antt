-- ===== src/Server/Lines.antt =====
-- What becomes of the endpoints of a server by the calls of reliable.io (src/server.rs).
use yojimbo_rs.Prelude.{
  ℕ, ◌≡◌, ◌≢◌, get_elem?, get_elem?-set_self, get_elem?-set_ne, get_elem?-some-lt, some-injective,
  ==→eq, Bool-cases, arith, sym, subst, ◌∙◌, inl, inr, some, List, set, ◌==◌,
}
use yojimbo_rs.Foreign.{ReliableEndpoint}

-- The endpoints that calls of reliable.io make of one.
pub data Descends {E F G : Type 0} (endpoints : ReliableEndpoint E F G) (d : E) : E → Type 0 where
  same : Descends endpoints d d
  reset : {e : E} → Descends endpoints d e → Descends endpoints d (endpoints.reset e)
  update : {e : E} (t : F) → Descends endpoints d e → Descends endpoints d (endpoints.update e t)
  clear_acks : {e : E} → Descends endpoints d e → Descends endpoints d (endpoints.clear_acks e)
  send_packet :
      {e : E} (bytes : List ℕ)
      → Descends endpoints d e
      → Descends endpoints d (endpoints.send_packet e bytes).0
  receive_packet :
      {e : E} (bytes : List ℕ)
      → Descends endpoints d e
      → Descends endpoints d (endpoints.receive_packet e bytes).0
  finish_receive :
      {e : E} (sequence result : ℕ)
      → Descends endpoints d e
      → Descends endpoints d (endpoints.finish_receive e sequence result)

-- Each endpoint comes from the one in its place.
abbrev pub Lines : {E F G : Type 0} → ReliableEndpoint E F G → List E → List E → Type 0
Lines {E = E} endpoints es es' =
    (j : ℕ) (e' : E)
    → get_elem? es' j ≡ some e'
    → (e : E) × (get_elem? es j ≡ some e) × Descends endpoints e e'

module _ {E F G : Type 0} (endpoints : ReliableEndpoint E F G) where
  Descends-trans :
      {a b c : E} → Descends endpoints a b → Descends endpoints b c → Descends endpoints a c
  Descends-trans p Descends.same = p
  Descends-trans p (Descends.reset q) = Descends.reset (Descends-trans p q)
  Descends-trans p (Descends.update t q) = Descends.update t (Descends-trans p q)
  Descends-trans p (Descends.clear_acks q) = Descends.clear_acks (Descends-trans p q)
  Descends-trans p (Descends.send_packet bytes q) = Descends.send_packet bytes (Descends-trans p q)
  Descends-trans p (Descends.receive_packet bytes q) =
      Descends.receive_packet bytes (Descends-trans p q)
  Descends-trans p (Descends.finish_receive sequence result q) =
      Descends.finish_receive sequence result (Descends-trans p q)

  pub Lines-refl : (es : List E) → Lines endpoints es es
  Lines-refl es = λ j e h. (e, h, Descends.same)

  pub Lines-trans :
      (es es1 es2 : List E)
      → Lines endpoints es es1
      → Lines endpoints es1 es2
      → Lines endpoints es es2
  Lines-trans es es1 es2 k l = λ j e h.
      let (e1, h1, d1) = l j e h in let (e0, h0, d0) = k j e1 h1 in (e0, h0, Descends-trans d0 d1)

  pub Lines-set :
      (es : List E) (i : ℕ) {e e' : E}
      → get_elem? es i ≡ some e
      → Descends endpoints e e'
      → Lines endpoints es (set es i e')
  Lines-set es i {e} {e'} there d = λ j x h. elim (Bool-cases (i == j)) [
    | inl here ↦
        let at : i ≡ j = ==→eq i j here in
        let is : x ≡ e' = some-injective (
          sym (subst (λ n. get_elem? (set es i e') n ≡ some x) (sym at) h)
          ∙ get_elem?-set_self es i e' (get_elem?-some-lt es i there)) in
        (e, subst (λ n. get_elem? es n ≡ some e) at there, subst (Descends endpoints e) (sym is) d)
    | inr other ↦
        let apart : i ≢ j = ground (arith, other) in
        (x, sym (get_elem?-set_ne es e' apart) ∙ h, Descends.same)
  ]
