-- ===== src/Tests/Traffic.antt =====
-- The packets of a client, and the theorems at it.
use yojimbo_rs.Prelude.{arith, ◌≡◌, refl, true, some, [], ◌∷◌}
use yojimbo_rs.Run.{ok, ◌>>=◌}
use yojimbo_rs.Client.{new}
use yojimbo_rs.Client.Traffic.{receive_packets, transmit_packets}
use yojimbo_rs.Client.Receives.{more, done, receive_all, with_client, receive_packets-all}
use yojimbo_rs.Client.Transmits.{
  send_each, queue_each, transmit_packets-direct, transmit_packets-deferred,
}
use yojimbo_rs.Tests.Data.{ticks, byte}
use yojimbo_rs.Tests.Loopback.{counting, loopback}
use yojimbo_rs.Tests.Clients.{ClientOf, draws, peer, working, lossy}

receive_packets-all_example : receive_packets true 3 working ≡ (
    receive_all true working ((4 ∷ []) ∷ (5 ∷ []) ∷ [])
    >>= (λ x. ok (with_client (record peer { waiting = [] }) x)))
receive_packets-all_example =
    receive_packets-all true 3 working refl refl
      (more (4 ∷ []) refl (more (5 ∷ []) refl (done refl))) (omega arith)

abbrev simulated_client : ClientOf
simulated_client = record working { network_simulator = some lossy }

transmit_packets-direct_example :
    transmit_packets draws working ((4 ∷ []) ∷ (5 ∷ []) ∷ [])
    ≡ ok (record working { client = some (send_each loopback peer ((4 ∷ []) ∷ (5 ∷ []) ∷ [])) })
unfolding new
transmit_packets-direct_example =
    transmit_packets-direct draws working peer ((4 ∷ []) ∷ (5 ∷ []) ∷ []) refl refl

transmit_packets-deferred_example :
    transmit_packets draws simulated_client ((4 ∷ []) ∷ (5 ∷ []) ∷ []) ≡ (
      queue_each lossy draws ((4 ∷ []) ∷ (5 ∷ []) ∷ [])
      >>= (λ s'. ok (record simulated_client { network_simulator = some s' })))
transmit_packets-deferred_example =
    transmit_packets-deferred draws simulated_client lossy ((4 ∷ []) ∷ (5 ∷ []) ∷ []) refl refl
