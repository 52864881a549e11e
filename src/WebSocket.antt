-- ===== src/WebSocket.antt =====
-- The WebSocket transport of cdn/src/websocket.cpp: the session, its errors and its constants.
-- The socket, TLS, the clock and the random source are arguments of the operations.
pub mod Frame
pub mod Send
pub mod Receive
pub mod Delivery
pub mod Http
pub mod Upgrade
use pacetun.Base.{ℕ, ◌+◌, ◌*◌, List, [], Bool, false, u64}

abbrev pub max_message_bytes : ℕ
max_message_bytes = 16777216

abbrev pub max_tx_bytes : ℕ
max_tx_bytes = max_message_bytes + 64 * 1024

abbrev pub max_rx_buffered_bytes : ℕ
max_rx_buffered_bytes = 2 * max_message_bytes + 64 * 1024

abbrev pub max_remembered_pongs : ℕ
max_remembered_pongs = 16

-- The exceptions of the transport, by their texts.
pub data WsError : Type 0 where
  control_too_large payload_too_large rng_failed tx_limit : WsError
  rsv_bits fragmented_control invalid_control_length : WsError
  masked_server_frame unmasked_client_frame invalid_length : WsError
  frame_too_large : WsError
  new_data_in_fragment unexpected_continuation fragment_too_large unsupported_fragment : WsError
  invalid_close_payload invalid_close_status text_unsupported unsupported_opcode : WsError
  peer_close_received peer_closed rx_limit read_failed write_failed : WsError
  truncated_frame truncated_message : WsError

pub data Result {ℓ} (A : Type ℓ) : Type ℓ where
  ok : A → Result A
  err : WsError → Result A

pub record TxFrame : Type 0 where
  pub bytes : List ℕ
  pub offset : ℕ
  pub payload_bytes : ℕ
  pub opcode : ℕ

pub record Session : Type 0 where
  pub client : Bool
  pub rx : List ℕ
  pub prefetched_messages : List (List ℕ)
  pub rx_frames : ℕ
  pub rx_ping_frames : ℕ
  pub rx_pong_frames : ℕ
  pub tx_binary_frames : ℕ
  pub tx_binary_payload_bytes : ℕ
  pub tx_ping_frames : ℕ
  pub tx_pong_frames : ℕ
  pub peer_eof : Bool
  pub close_received : Bool
  pub close_has_code : Bool
  pub close_code : ℕ
  pub close_reason_bytes : ℕ
  pub rx_binary_payload_bytes : ℕ
  pub upgraded : Bool
  pub authenticated : Bool
  pub tx : List TxFrame
  pub tx_queued_bytes : ℕ
  pub tx_last_progress_ms : ℕ
  pub tx_wait : ℕ
  pub rx_wait : ℕ
  pub fragment_opcode : ℕ
  pub fragment_payload : List ℕ
  pub pong_payloads : List (List ℕ)

-- The initial values.
abbrev pub new_session : Bool → Session
new_session client = record {
  client = client;
  rx = [];
  prefetched_messages = [];
  rx_frames = 0;
  rx_ping_frames = 0;
  rx_pong_frames = 0;
  tx_binary_frames = 0;
  tx_binary_payload_bytes = 0;
  tx_ping_frames = 0;
  tx_pong_frames = 0;
  peer_eof = false;
  close_received = false;
  close_has_code = false;
  close_code = 0;
  close_reason_bytes = 0;
  rx_binary_payload_bytes = 0;
  upgraded = false;
  authenticated = false;
  tx = [];
  tx_queued_bytes = 0;
  tx_last_progress_ms = 0;
  tx_wait = 0;
  rx_wait = 0;
  fragment_opcode = 0;
  fragment_payload = [];
  pong_payloads = [];
}
