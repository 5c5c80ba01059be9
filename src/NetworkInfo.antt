-- ===== src/NetworkInfo.antt =====
-- A snapshot of the state of the network (src/network_info.rs). `G` stands for f32.
use yojimbo_rs.Prelude.{ℕ}

-- What `reliable_endpoint_bandwidth` writes.
pub record Bandwidth (G : Type 0) : Type 0 where
  pub sent : G
  pub received : G
  pub acked : G

pub record NetworkInfo (G : Type 0) : Type 0 where
  pub rtt : G
  pub packet_loss : G
  pub sent_bandwidth : G
  pub received_bandwidth : G
  pub acked_bandwidth : G
  pub num_packets_sent : ℕ
  pub num_packets_received : ℕ
  pub num_packets_acked : ℕ
