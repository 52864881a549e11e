-- ===== src/Config.antt =====
-- The configuration of cdn/src/config.cpp and cdn/include/pacetun/config.hpp. A text is the list of its bytes.
pub mod Value
pub mod Profile
pub mod Lines
pub mod Load
pub mod Validate
pub mod Valid
pub mod Capped
pub mod Loaded
use pacetun.Base.{ℕ, List, [], ◌∷◌, Bool, true, false, codes}
use pacetun.Base.Int.{ℤ, pos}

pub record Config : Type 0 where
  pub mode : List ℕ
  pub transport : List ℕ
  pub listen : List ℕ
  pub server : List ℕ
  pub server_name : List ℕ
  pub path : List ℕ
  pub host_header : List ℕ
  pub max_connections : ℤ
  pub pool_drain_sec : ℤ
  pub pool_idle_poll_ms : ℤ
  pub address_family : List ℕ
  pub flow_scheduler : Bool
  pub edge_dns_rotation : Bool
  pub websocket_tls : Bool
  pub tls_backend : List ℕ
  pub tls_adapter_socket : List ℕ
  pub websocket_ping_sec : ℤ
  pub websocket_pong_timeout_sec : ℤ
  pub websocket_poll_ms : ℤ
  pub websocket_upgrade_timeout_sec : ℤ
  pub websocket_io_timeout_sec : ℤ
  pub websocket_padding_max_bytes : ℤ
  pub websocket_control_padding_bytes : ℤ
  pub padding_budget_pct : ℤ
  pub timing_jitter_pct : ℤ
  pub reply_degraded_sec : ℤ
  pub reply_renew_sec : ℤ
  pub reply_timeout_sec : ℤ
  pub candidate_max_rtt_ms : ℤ
  pub latency_renew_ms : ℤ
  pub latency_renew_samples : ℤ
  pub latency_renew_cooldown_sec : ℤ
  pub idle_probe_sec : ℤ
  pub log_format : List ℕ
  pub listen_backlog : ℤ
  pub session_max_age_sec : ℤ
  pub dev : List ℕ
  pub cidr : List ℕ
  pub peer_cidr : List ℕ
  pub mtu : ℤ
  pub tls_cert : List ℕ
  pub tls_key : List ℕ
  pub tls_ca : List ℕ
  pub verify_peer : Bool
  pub psk_file : List ℕ
  pub psk_previous_file : List ℕ
  pub profile : List ℕ
  pub resource_profile : List ℕ
  pub max_record_buffer_bytes : ℕ
  pub control_mode : ℤ
  pub queue_packets : ℕ
  pub queue_bytes : ℕ
  pub queue_delay_ms : ℤ
  pub batch_packets : ℤ
  pub batch_bytes : ℕ
  pub adaptive_batching : Bool
  pub adaptive_batch_min_packets : ℤ
  pub adaptive_batch_max_packets : ℤ
  pub queue_target_delay_ms : ℤ
  pub connect_timeout_sec : ℤ
  pub idle_timeout_sec : ℤ
  pub keepalive_sec : ℤ
  pub rtt_probe_sec : ℤ
  pub reconnect_initial_ms : ℤ
  pub reconnect_max_ms : ℤ
  pub reconnect_jitter_pct : ℤ
  pub tcp_keepidle_sec : ℤ
  pub tcp_keepintvl_sec : ℤ
  pub tcp_keepcnt : ℤ
  pub tcp_user_timeout_ms : ℤ
  pub sndbuf : ℤ
  pub rcvbuf : ℤ
  pub stats_interval_sec : ℤ
  pub control_socket : List ℕ
  pub strict_file_permissions : Bool
  -- These six are used by load_config and validate_config; the struct does not declare them.
  pub browser_profile : List ℕ
  pub traffic_shaping : Bool
  pub shaping_startup_ms : ℤ
  pub shaping_delay_ms : ℤ
  pub shaping_rate_bytes : ℤ
  pub shaping_burst_bytes : ℤ

-- The initial values; those of the six undeclared fields are arguments.
abbrev pub new_config : List ℕ → Bool → ℤ → ℤ → ℤ → ℤ → Config
new_config browser shaping startup delay rate burst = record {
  mode = [];
  transport = codes "tls";
  listen = [];
  server = [];
  server_name = [];
  path = codes "/assets/api/v6";
  host_header = [];
  max_connections = pos 1;
  pool_drain_sec = pos 30;
  pool_idle_poll_ms = pos 100;
  address_family = codes "auto";
  flow_scheduler = false;
  edge_dns_rotation = false;
  websocket_tls = true;
  tls_backend = codes "openssl";
  tls_adapter_socket = codes "/run/pacetun-utls/bridge.sock";
  websocket_ping_sec = pos 0;
  websocket_pong_timeout_sec = pos 0;
  websocket_poll_ms = pos 5;
  websocket_upgrade_timeout_sec = pos 10;
  websocket_io_timeout_sec = pos 30;
  websocket_padding_max_bytes = pos 0;
  websocket_control_padding_bytes = pos 0;
  padding_budget_pct = pos 10;
  timing_jitter_pct = pos 15;
  reply_degraded_sec = pos 10;
  reply_renew_sec = pos 30;
  reply_timeout_sec = pos 60;
  candidate_max_rtt_ms = pos 1500;
  latency_renew_ms = pos 600;
  latency_renew_samples = pos 3;
  latency_renew_cooldown_sec = pos 180;
  idle_probe_sec = pos 45;
  log_format = codes "human";
  listen_backlog = pos 128;
  session_max_age_sec = pos 0;
  dev = codes "phtun0";
  cidr = [];
  peer_cidr = [];
  mtu = pos 1280;
  tls_cert = [];
  tls_key = [];
  tls_ca = [];
  verify_peer = true;
  psk_file = [];
  psk_previous_file = [];
  profile = codes "balanced";
  resource_profile = codes "normal";
  max_record_buffer_bytes = 262144;
  control_mode = pos 432;
  queue_packets = 4096;
  queue_bytes = 8388608;
  queue_delay_ms = pos 500;
  batch_packets = pos 8;
  batch_bytes = 16384;
  adaptive_batching = true;
  adaptive_batch_min_packets = pos 1;
  adaptive_batch_max_packets = pos 16;
  queue_target_delay_ms = pos 40;
  connect_timeout_sec = pos 10;
  idle_timeout_sec = pos 300;
  keepalive_sec = pos 10;
  rtt_probe_sec = pos 30;
  reconnect_initial_ms = pos 500;
  reconnect_max_ms = pos 15000;
  reconnect_jitter_pct = pos 20;
  tcp_keepidle_sec = pos 15;
  tcp_keepintvl_sec = pos 5;
  tcp_keepcnt = pos 3;
  tcp_user_timeout_ms = pos 20000;
  sndbuf = pos 4194304;
  rcvbuf = pos 4194304;
  stats_interval_sec = pos 5;
  control_socket = [];
  strict_file_permissions = true;
  browser_profile = browser;
  traffic_shaping = shaping;
  shaping_startup_ms = startup;
  shaping_delay_ms = delay;
  shaping_rate_bytes = rate;
  shaping_burst_bytes = burst;
}
