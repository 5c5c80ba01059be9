-- ===== src/ClientState/Known.antt =====
-- The states that netcode.io documents, and the two readings of them in src/client.rs.
use yojimbo_rs.Prelude.{ℕ, zero, suc, ◌≡◌, refl, Bool, true, ◌&&◌, some, List, [], ◌∷◌, arith}
use yojimbo_rs.Run.{ok}
use yojimbo_rs.Int.{ℤ, pos, negsuc, lt}
use yojimbo_rs.Foreign.{NetcodeClient}
use yojimbo_rs.ClientState.{
  try_from_netcode_client_state_i32, client_state_from_netcode_state, state_change, state_changes,
}

-- The states are the numbers from -6 to 3.
abbrev pub is_state : ℤ → Bool
is_state z = lt (negsuc 6) z && lt z (pos 4)

abbrev pub all_states : List (ℤ × ℤ) → Bool
all_states [] = true
all_states ((previous, current) ∷ changes) =
    is_state previous && (is_state current && all_states changes)

-- What the code relies on: the values of the constants, and that a change is between states.
pub record IsDocumented {N F : Type 0} (netcode : NetcodeClient N F) : Type 0 where
  pub disconnected : netcode.state_disconnected ≡ pos 0
  pub sending_connection_request : netcode.state_sending_connection_request ≡ pos 1
  pub sending_connection_response : netcode.state_sending_connection_response ≡ pos 2
  pub connect : (n : N) (token : List ℕ) → all_states (netcode.connect n token).1 ≡ true
  pub update : (n : N) (time : F) → all_states (netcode.update n time).1 ≡ true
  pub destroy : (n : N) → all_states (netcode.destroy n) ≡ true

module _ {N F : Type 0} (netcode : NetcodeClient N F) where
  -- On a state that netcode documents, `try_from_netcode_client_state_i32` gives a client state,
  -- and it is the one of `client_state_from_netcode_state`.
  pub try_from-client_state_from :
      IsDocumented netcode
      → (z : ℤ) → is_state z ≡ true
      → try_from_netcode_client_state_i32 z ≡ some (client_state_from_netcode_state netcode z)
  unfolding try_from_netcode_client_state_i32 client_state_from_netcode_state
  try_from-client_state_from d (pos zero) h = rw (d.disconnected)
  try_from-client_state_from d (pos (suc zero)) h =
      rw (d.disconnected, d.sending_connection_request)
  try_from-client_state_from d (pos (suc (suc zero))) h =
      rw (d.disconnected, d.sending_connection_request, d.sending_connection_response)
  try_from-client_state_from d (pos (suc (suc (suc zero)))) h =
      rw (d.disconnected, d.sending_connection_request, d.sending_connection_response)
  try_from-client_state_from d (pos (suc (suc (suc (suc n))))) h = absurd (ground arith)
  try_from-client_state_from d (negsuc n) h = rw (d.disconnected) (ground arith)

  -- Every change between documented states passes the callback.
  pub state_changes-known :
      IsDocumented netcode
      → (changes : List (ℤ × ℤ)) → all_states changes ≡ true
      → state_changes changes ≡ ok tt
  unfolding state_changes state_change
  state_changes-known d [] h = refl
  state_changes-known d ((previous, current) ∷ changes) h =
      rw
        (
          try_from-client_state_from d previous (ground arith),
          try_from-client_state_from d current (ground arith),
        )
        (state_changes-known d changes (ground arith))
