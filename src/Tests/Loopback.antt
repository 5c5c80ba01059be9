-- ===== src/Tests/Loopback.antt =====
-- A small endpoint, netcode client and netcode server to run the model on.
use yojimbo_rs.Prelude.{
  ℕ, refl, suc, Option, none, some, List, [], ◌∷◌, ◌++◌, length, ◌==◌, if◌then◌else◌,
}
use yojimbo_rs.Int.{ℤ, pos}
use yojimbo_rs.Foreign.{ReliableEndpoint, KeepsIndex, NetcodeClient, NetcodeServer}

-- An endpoint is the number of its next packet.
instance abbrev pub counting : ReliableEndpoint ℕ ℕ ℕ
counting = record {
  create = λ config time. 0;
  index = λ e. 0;
  reset = λ e. 0;
  update = λ e time. e;
  get_acks = λ e. [];
  clear_acks = λ e. e;
  next_packet_sequence = λ e. e;
  send_packet = λ e bytes. (suc e, bytes ∷ []);
  receive_packet = λ e bytes. (e, some (0, bytes));
  finish_receive = λ e sequence result. e;
  bandwidth = λ e. record { sent = 0; received = 0; acked = 0 };
  rtt = λ e. 0;
  packet_loss = λ e. 0;
  num_packets_sent = λ e. e;
  num_packets_received = λ e. 0;
  num_packets_acked = λ e. 0;
}

-- An endpoint with an index, too.
pub record Numbered : Type 0 where
  pub index : ℕ
  pub next : ℕ

instance abbrev pub numbered : ReliableEndpoint Numbered ℕ ℕ
numbered = record {
  create = λ config time. record { index = config.index; next = 0 };
  index = λ e. e.index;
  reset = λ e. record e { next = 0 };
  update = λ e time. e;
  get_acks = λ e. [];
  clear_acks = λ e. e;
  next_packet_sequence = λ e. e.next;
  send_packet = λ e bytes. (record e { next = suc e.next }, bytes ∷ []);
  receive_packet = λ e bytes. (e, some (0, bytes));
  finish_receive = λ e sequence result. e;
  bandwidth = λ e. record { sent = 0; received = 0; acked = 0 };
  rtt = λ e. 0;
  packet_loss = λ e. 0;
  num_packets_sent = λ e. e.next;
  num_packets_received = λ e. 0;
  num_packets_acked = λ e. 0;
}

pub numbered-KeepsIndex : KeepsIndex numbered
numbered-KeepsIndex = record {
  created = λ config time. refl;
  after_reset = λ e. refl;
  after_update = λ e time. refl;
  after_clear_acks = λ e. refl;
  after_send_packet = λ e bytes. refl;
  after_receive_packet = λ e bytes. refl;
  after_finish_receive = λ e sequence result. refl;
}

-- A client of netcode: its state, what waits for it, and what it sent.
pub record Peer : Type 0 where
  pub state : ℕ
  pub waiting : List (List ℕ)
  pub sent : List (List ℕ)

abbrev new_peer : Peer
new_peer = record { state = 0; waiting = []; sent = [] }

-- The first packet that waits.
abbrev take_waiting : Peer → List (List ℕ) → Peer × Option (List ℕ)
take_waiting p [] = (p, none)
take_waiting p (bytes ∷ rest) = (record p { waiting = rest }, some bytes)

-- It connects in one update.
abbrev update_peer : Peer → Peer × List (ℤ × ℤ)
update_peer p = if p.state == 1 then (record p { state = 3 }, (pos 1, pos 3) ∷ []) else (p, [])

instance abbrev pub loopback : NetcodeClient Peer ℕ
loopback = record {
  create = λ address time. some new_peer;
  get_port = λ p. 40000;
  connect = λ p token. (record p { state = 1 }, (pos 0, pos 1) ∷ []);
  update = λ p time. update_peer p;
  state = λ p. pos p.state;
  send_packet = λ p bytes. record p { sent = p.sent ++ (bytes ∷ []) };
  receive_packet = λ p. take_waiting p p.waiting;
  destroy = λ p. [];
  generate_connect_token = λ request. some (7 ∷ []);
  max_servers_per_connect = 32;
  state_disconnected = pos 0;
  state_sending_connection_request = pos 1;
  state_sending_connection_response = pos 2;
}

-- A server of netcode: who is connected, and what waits from client 1.
pub record Host : Type 0 where
  pub connected : List ℕ
  pub waiting : List (List ℕ)
  pub sent : List (ℕ × List ℕ)

abbrev take_from : Host → List (List ℕ) → Host × Option (List ℕ)
take_from h [] = (h, none)
take_from h (bytes ∷ rest) = (record h { waiting = rest }, some bytes)

-- Client 1 connects at the first update; a client that is disconnected reports it.
-- These packets wait from client 1 when it starts.
abbrev pub hosting_with : List (List ℕ) → NetcodeServer Host ℕ ℕ
hosting_with packets = record {
  create = λ address config time. some (record { connected = []; waiting = packets; sent = [] });
  start = λ h max_clients. h;
  get_port = λ h. 50000;
  update = λ h time. (record h { connected = 0 ∷ 1 ∷ [] }, (1, 1) ∷ []);
  disconnect_client = λ h i. (record h { connected = [] }, (i, 0) ∷ []);
  client_connected = λ h i. length h.connected;
  client_id = λ h i. i;
  client_address = λ h i. some i;
  num_connected_clients = λ h. pos (length h.connected);
  send_packet = λ h i bytes. record h { sent = h.sent ++ ((i, bytes) ∷ []) };
  receive_packet = λ h i. if i == 1 then take_from h h.waiting else (h, none);
  stop = λ h. (h, []);
}

abbrev pub hosting : NetcodeServer Host ℕ ℕ
hosting = hosting_with []
