-- ===== src/ClientState.antt =====
-- The states of a client, and what it makes of the states of netcode.io (src/client.rs).
pub mod Known
use yojimbo_rs.Prelude.{
  zero, suc, Bool, true, false, ◌||◌, Option, none, some, List, [], ◌∷◌, ltb, if◌then◌else◌,
}
use yojimbo_rs.Run.{Run, ok, ◌>>=◌, ◌>>◌, expect_some, unwrap_none}
use yojimbo_rs.Int.{ℤ, pos, negsuc, lt, eq}
use yojimbo_rs.Foreign.{NetcodeClient}

pub data ClientState : Type 0 where
  error disconnected connecting connected : ClientState

-- `x < 0 && x > -7` is `n < 6` for `x = -(n + 1)`.
unfoldable pub try_from_netcode_client_state_i32 : ℤ → Option ClientState
try_from_netcode_client_state_i32 (pos zero) = some disconnected
try_from_netcode_client_state_i32 (pos (suc zero)) = some connecting
try_from_netcode_client_state_i32 (pos (suc (suc zero))) = some connecting
try_from_netcode_client_state_i32 (pos (suc (suc (suc zero)))) = some connected
try_from_netcode_client_state_i32 (pos (suc (suc (suc (suc n))))) = none
try_from_netcode_client_state_i32 (negsuc n) = if ltb n 6 then some error else none

-- `Client::is_connected`, `Client::is_disconnected` and `Client::connection_failed`, by the state.
abbrev pub is_connected : ClientState → Bool
is_connected connected = true
is_connected connecting = false
is_connected disconnected = false
is_connected error = false

abbrev pub is_disconnected : ClientState → Bool
is_disconnected connected = false
is_disconnected connecting = false
is_disconnected disconnected = true
is_disconnected error = true

abbrev pub is_failed : ClientState → Bool
is_failed error = true
is_failed disconnected = false
is_failed connecting = false
is_failed connected = false

-- `state_change_callback`: it logs the two states, which it unwraps.
unfoldable pub state_change : ℤ × ℤ → Run (Unit {0})
unfolding try_from_netcode_client_state_i32
state_change (previous, current) = do
  before ← expect_some unwrap_none (try_from_netcode_client_state_i32 previous)
  after ← expect_some unwrap_none (try_from_netcode_client_state_i32 current)
  ok tt

unfoldable pub state_changes : List (ℤ × ℤ) → Run (Unit {0})
unfolding state_change
state_changes [] = ok tt
state_changes (change ∷ changes) = state_change change >> state_changes changes

module _ {N F : Type 0} where
  unfoldable pub client_state_from_netcode_state : NetcodeClient N F → ℤ → ClientState
  client_state_from_netcode_state netcode state =
      if lt state netcode.state_disconnected
      then error
      else if eq state netcode.state_disconnected
      then disconnected
      else if eq state netcode.state_sending_connection_request
          || eq state netcode.state_sending_connection_response
      then connecting
      else connected
