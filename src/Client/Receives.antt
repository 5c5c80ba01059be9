-- ===== src/Client/Receives.antt =====
-- `receive_packets` of a client (src/client.rs) takes every packet that netcode has, once and in
-- order.
use yojimbo_rs.Prelude.{
  ℕ, zero, suc, ◌<◌, ◌≡◌, refl, sym, ap, ◌∙◌, Bool, true, not, Option, none, some, List, [], ◌∷◌,
  length, arith, is_some, if_some, if_some-some, if_false,
}
use yojimbo_rs.Run.{
  Run, ok, ◌>>=◌, ◌>>◌, >>=_assoc, >>=_cong, expect_some, null_pointer, unwrap_none, assert,
}
use yojimbo_rs.Float.{Float}
use yojimbo_rs.Message.{NetworkMessage}
use yojimbo_rs.Connection
use yojimbo_rs.Connection.{Connection}
use yojimbo_rs.Foreign.{ReliableEndpoint, NetcodeClient}
use yojimbo_rs.Client.{Client, is_connected}
use yojimbo_rs.Client.Traffic.{
  process_packet, process_handed, receive_packet, receive_loop, receive_packets,
}

-- The packets that a netcode client gives until it has none, and the client that is left.
pub data Yields {N F : Type 0} (netcode : NetcodeClient N F) : N → List (List ℕ) → N → Type 0 where
  done :
      {n : N}
      → (netcode.receive_packet n).1 ≡ none
      → Yields netcode n [] (netcode.receive_packet n).0
  more :
      {n n' : N} {packets : List (List ℕ)} (bytes : List ℕ)
      → (netcode.receive_packet n).1 ≡ some bytes
      → Yields netcode (netcode.receive_packet n).0 packets n'
      → Yields netcode n (bytes ∷ packets) n'

module _ {E N F G M : Type 0} ⦃f : Float F⦄ ⦃g : Float G⦄ ⦃m : NetworkMessage M⦄
    ⦃endpoints : ReliableEndpoint E F G⦄ ⦃netcode : NetcodeClient N F⦄ where
  -- The packets, handed to the endpoint one after the other.
  abbrev pub receive_all : Bool → Client E N F G M → List (List ℕ) → Run (Client E N F G M)
  receive_all check c [] = ok c
  receive_all check c (bytes ∷ packets) = do
    c' ← receive_packet check c bytes
    receive_all check c' packets

  abbrev pub with_client : N → Client E N F G M → Client E N F G M
  with_client n c = record c { client = some n }

  process_packet-with_client :
      (check : Bool) (c : Client E N F G M) (n : N) (seq : ℕ) (bytes : List ℕ)
      → process_packet check (with_client n c) seq bytes
        ≡ (process_packet check c seq bytes >>= (λ x. ok (with_client n x.0, x.1)))
  unfolding process_packet
  process_packet-with_client check c n seq bytes =
      >>=_cong (expect_some unwrap_none c.connection) _ _
        (λ k. sym (>>=_assoc (Connection.process_packet check k seq bytes) _ _))
      ∙ sym (>>=_assoc (expect_some unwrap_none c.connection) _ _)

  process_handed-with_client :
      (check : Bool) (c : Client E N F G M) (n : N) (endpoint : E) (handed : Option (ℕ × List ℕ))
      → process_handed check (with_client n c) endpoint handed
        ≡ (process_handed check c endpoint handed >>= (λ x. ok (with_client n x)))
  unfolding process_handed
  process_handed-with_client check c n endpoint none = refl
  process_handed-with_client check c n endpoint (some (seq, bytes)) =
      let finish : Client E N F G M × ℕ → Run (Client E N F G M) =
        λ x. ok (record (x.0) { endpoint = some (endpoints.finish_receive endpoint seq x.1) }) in
      ap (λ r. r >>= finish) (process_packet-with_client check c n seq bytes)
      ∙ >>=_assoc (process_packet check c seq bytes) _ finish
      ∙ sym (>>=_assoc (process_packet check c seq bytes) finish _)

  receive_packet-with_client :
      (check : Bool) (c : Client E N F G M) (n : N) (bytes : List ℕ)
      → receive_packet check (with_client n c) bytes
        ≡ (receive_packet check c bytes >>= (λ x. ok (with_client n x)))
  unfolding receive_packet
  receive_packet-with_client check c n bytes =
      >>=_cong (expect_some null_pointer c.endpoint) _ _ (λ endpoint.
        process_handed-with_client check c n (endpoints.receive_packet endpoint bytes).0
          (endpoints.receive_packet endpoint bytes).1)
      ∙ sym (>>=_assoc (expect_some null_pointer c.endpoint) _ _)

  receive_all-with_client :
      (check : Bool) (c : Client E N F G M) (n : N) (packets : List (List ℕ))
      → receive_all check (with_client n c) packets
        ≡ (receive_all check c packets >>= (λ x. ok (with_client n x)))
  receive_all-with_client check c n [] = refl
  receive_all-with_client check c n (bytes ∷ packets) =
      ap (λ r. r >>= (λ x. receive_all check x packets))
        (receive_packet-with_client check c n bytes)
      ∙ >>=_assoc (receive_packet check c bytes) _ _
      ∙ >>=_cong (receive_packet check c bytes) _ _ (λ x. receive_all-with_client check x n packets)
      ∙ sym (>>=_assoc (receive_packet check c bytes) _ _)

  receive_loop-more :
      (check : Bool) (fuel : ℕ) (c : Client E N F G M) (n : N) (bytes : List ℕ)
      → (netcode.receive_packet n).1 ≡ some bytes
      → c.client ≡ some n
      → receive_loop check (suc fuel) c ≡ (
          receive_packet check (with_client (netcode.receive_packet n).0 c) bytes
          >>= receive_loop check fuel)
  unfolding receive_loop
  receive_loop-more check fuel c n bytes got there =
      let go : N → Run (Client E N F G M) = λ x.
        if_some (netcode.receive_packet x).1
          (λ packet_data.
            receive_packet check (with_client (netcode.receive_packet x).0 c) packet_data
            >>= receive_loop check fuel)
          (ok (with_client (netcode.receive_packet x).0 c)) in
      ap (λ o. expect_some null_pointer o >>= go) there
      ∙ sym (
          if_some-some (netcode.receive_packet n).1
            (λ packet_data.
              receive_packet check (with_client (netcode.receive_packet n).0 c) packet_data
              >>= receive_loop check fuel)
            (ok (with_client (netcode.receive_packet n).0 c)) bytes got)

  receive_loop-all :
      (check : Bool) (fuel : ℕ) (c : Client E N F G M) {n n' : N} {packets : List (List ℕ)}
      → Yields netcode n packets n'
      → length packets < fuel
      → c.client ≡ some n
      → receive_loop check fuel c ≡ (receive_all check c packets >>= (λ x. ok (with_client n' x)))
  unfolding receive_loop
  receive_loop-all check zero c yields enough there = absurd (omega arith)
  receive_loop-all check (suc fuel) c {n} (done last) enough there = rw (there, last)
  receive_loop-all check (suc fuel) c {n} (more {n' = n'} {packets = packets} bytes got yields)
        enough there =
      let left = (netcode.receive_packet n).0 in
      receive_loop-more check fuel c n bytes got there
      ∙ ap (λ r. r >>= receive_loop check fuel) (receive_packet-with_client check c left bytes)
      ∙ >>=_assoc (receive_packet check c bytes) _ (receive_loop check fuel)
      ∙ >>=_cong (receive_packet check c bytes) _ _ (λ x.
        receive_loop-all check fuel (with_client left x) yields (omega arith) refl
        ∙ ap (λ r. r >>= (λ y. ok (with_client n' y)))
            (receive_all-with_client check x left packets)
        ∙ >>=_assoc (receive_all check x packets) _ _)
      ∙ sym (>>=_assoc (receive_packet check c bytes) _ _)

  -- If the client is connected, and its netcode client gives some packets until it has none, then
  -- with fuel for more rounds than packets `receive_packets` is the packets handed to the endpoint
  -- one after the other, in netcode's order and each once: it returns or panics as that does, and
  -- never for lack of fuel.
  pub receive_packets-all :
      (check : Bool) (fuel : ℕ) (c : Client E N F G M) {n n' : N} {packets : List (List ℕ)}
      → is_connected c ≡ true
      → c.client ≡ some n
      → Yields netcode n packets n'
      → length packets < fuel
      → receive_packets check fuel c
        ≡ (receive_all check c packets >>= (λ x. ok (with_client n' x)))
  unfolding receive_packets
  receive_packets-all check fuel c connected there yields enough =
      sym (
        if_false (not (is_connected c)) (ok c)
          (assert (is_some c.client) >> receive_loop check fuel c) (ap not connected))
      ∙ ap (λ b. assert b >> receive_loop check fuel c) (ap is_some there)
      ∙ receive_loop-all check fuel c yields enough there
