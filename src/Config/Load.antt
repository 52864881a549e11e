-- ===== src/Config/Load.antt =====
-- load_config of cdn/src/config.cpp, from the text of the file on.
use pacetun.Base.{
  ℕ, List, [], ◌∷◌, ◌++◌, Bool, true, false, not, ◌&&◌, ◌||◌, Option, none, some, if◌then◌else◌,
  codes,
}
use Prim.Native.String.{String}
use pacetun.Base.Int.{ℤ, pos}
use pacetun.Flow.{list_eq}
use pacetun.Config.{Config}
use pacetun.Config.Value.{
  ConfigError, not_a_number, unknown_key, Result, ok, err, then_ok, stoi, stoi_octal, stoull, bval,
}
use pacetun.Config.Lines.{Map, find, parse_lines, lines}
use pacetun.Config.Profile.{apply_profile, apply_resource_cap}
use pacetun.Config.Validate.{validate_config}

abbrev pub number : {A : Type 0} → Option A → Result A
number none = err not_a_number
number (some n) = ok n

abbrev pub Step : Type 0
Step = Config → Result Config

-- `i == m.end() ? d : parse(i->second)`
abbrev pub or_default : {A : Type 0} → Option (List ℕ) → A → (List ℕ → Result A) → Result A
or_default none d parse = ok d
or_default (some v) d parse = parse v

-- Assignments of ival, zval and sval, and those of a bval and of an octal number under `if (i != m.end())`.
unfoldable pub int_key : Map → String → (Config → ℤ) → (Config → ℤ → Config) → Step
unfolding find stoi
int_key m key d set c =
    then_ok (or_default (find (codes key) m) (d c) (λ v. number (stoi v))) (λ n. ok (set c n))

unfoldable pub size_key : Map → String → (Config → ℕ) → (Config → ℕ → Config) → Step
unfolding find stoull
size_key m key d set c =
    then_ok (or_default (find (codes key) m) (d c) (λ v. number (stoull v))) (λ n. ok (set c n))

unfoldable pub text_key : Map → String → (Config → List ℕ) → (Config → List ℕ → Config) → Step
unfolding find
text_key m key d set c =
    then_ok (or_default (find (codes key) m) (d c) (λ v. ok v)) (λ n. ok (set c n))

abbrev pub if_given : Option (List ℕ) → Config → (List ℕ → Result Config) → Result Config
if_given none c f = ok c
if_given (some v) c f = f v

unfoldable pub bool_key : Map → String → (Config → Bool → Config) → Step
unfolding find bval
bool_key m key set c = if_given (find (codes key) m) c (λ v. then_ok (bval v) (λ b. ok (set c b)))

unfoldable pub octal_key : Map → String → (Config → ℤ → Config) → Step
unfolding find stoi_octal
octal_key m key set c =
    if_given (find (codes key) m) c (λ v. then_ok (number (stoi_octal v)) (λ n. ok (set c n)))

unfoldable pub early_steps : Map → List Step
unfolding int_key size_key text_key bool_key octal_key apply_profile
early_steps m =
    text_key m "browser_profile" (λ c. c.browser_profile) (λ c v. record c { browser_profile = v })
    ∷ bool_key m "traffic_shaping" (λ c v. record c { traffic_shaping = v })
    ∷ int_key m "shaping_startup_ms" (λ c. c.shaping_startup_ms)
        (λ c v. record c { shaping_startup_ms = v })
    ∷ int_key m "shaping_delay_ms" (λ c. c.shaping_delay_ms)
        (λ c v. record c { shaping_delay_ms = v })
    ∷ int_key m "shaping_rate_bytes" (λ c. c.shaping_rate_bytes)
        (λ c v. record c { shaping_rate_bytes = v })
    ∷ int_key m "shaping_burst_bytes" (λ c. c.shaping_burst_bytes)
        (λ c v. record c { shaping_burst_bytes = v })
    ∷ int_key m "websocket_control_padding_bytes" (λ c. pos 0)
        (λ c v. record c { websocket_control_padding_bytes = v })
    ∷ int_key m "padding_budget_pct" (λ c. pos 10) (λ c v. record c { padding_budget_pct = v })
    ∷ int_key m "latency_renew_ms" (λ c. pos 600) (λ c v. record c { latency_renew_ms = v })
    ∷ int_key m "latency_renew_samples" (λ c. pos 3) (λ c v. record c { latency_renew_samples = v })
    ∷ int_key m "latency_renew_cooldown_sec" (λ c. pos 180)
        (λ c v. record c { latency_renew_cooldown_sec = v })
    ∷ int_key m "idle_probe_sec" (λ c. pos 20) (λ c v. record c { idle_probe_sec = v })
    ∷ int_key m "reply_degraded_sec" (λ c. pos 10) (λ c v. record c { reply_degraded_sec = v })
    ∷ int_key m "reply_renew_sec" (λ c. pos 30) (λ c v. record c { reply_renew_sec = v })
    ∷ int_key m "reply_timeout_sec" (λ c. pos 60) (λ c v. record c { reply_timeout_sec = v })
    ∷ int_key m "candidate_max_rtt_ms" (λ c. pos 1500)
        (λ c v. record c { candidate_max_rtt_ms = v })
    ∷ int_key m "timing_jitter_pct" (λ c. pos 15) (λ c v. record c { timing_jitter_pct = v })
    ∷ text_key m "log_format" (λ c. codes "human") (λ c v. record c { log_format = v })
    ∷ int_key m "websocket_padding_max_bytes" (λ c. pos 0)
        (λ c v. record c { websocket_padding_max_bytes = v })
    ∷ int_key m "max_connections" (λ c. c.max_connections) (λ c v. record c { max_connections = v })
    ∷ int_key m "pool_drain_sec" (λ c. c.pool_drain_sec) (λ c v. record c { pool_drain_sec = v })
    ∷ int_key m "pool_idle_poll_ms" (λ c. c.pool_idle_poll_ms)
        (λ c v. record c { pool_idle_poll_ms = v })
    ∷ text_key m "address_family" (λ c. c.address_family) (λ c v. record c { address_family = v })
    ∷ bool_key m "flow_scheduler" (λ c v. record c { flow_scheduler = v })
    ∷ []

unfoldable pub session_steps : Map → List Step
unfolding int_key size_key text_key bool_key octal_key apply_profile
session_steps m =
    text_key m "profile" (λ c. c.profile) (λ c v. record c { profile = v })
    ∷ text_key m "resource_profile" (λ c. c.resource_profile)
        (λ c v. record c { resource_profile = v })
    ∷ (λ c. ok (apply_profile c c.profile))
    ∷ text_key m "mode" (λ c. []) (λ c v. record c { mode = v })
    ∷ text_key m "transport" (λ c. c.transport) (λ c v. record c { transport = v })
    ∷ text_key m "listen" (λ c. []) (λ c v. record c { listen = v })
    ∷ text_key m "server" (λ c. []) (λ c v. record c { server = v })
    ∷ text_key m "server_name" (λ c. []) (λ c v. record c { server_name = v })
    ∷ text_key m "path" (λ c. c.path) (λ c v. record c { path = v })
    ∷ text_key m "host_header" (λ c. c.host_header) (λ c v. record c { host_header = v })
    ∷ text_key m "tls_backend" (λ c. c.tls_backend) (λ c v. record c { tls_backend = v })
    ∷ text_key m "tls_adapter_socket" (λ c. c.tls_adapter_socket)
        (λ c v. record c { tls_adapter_socket = v })
    ∷ bool_key m "edge_dns_rotation" (λ c v. record c { edge_dns_rotation = v })
    ∷ bool_key m "websocket_tls" (λ c v. record c { websocket_tls = v })
    ∷ int_key m "websocket_ping_sec" (λ c. c.websocket_ping_sec)
        (λ c v. record c { websocket_ping_sec = v })
    ∷ int_key m "websocket_pong_timeout_sec" (λ c. c.websocket_pong_timeout_sec)
        (λ c v. record c { websocket_pong_timeout_sec = v })
    ∷ int_key m "websocket_poll_ms" (λ c. c.websocket_poll_ms)
        (λ c v. record c { websocket_poll_ms = v })
    ∷ int_key m "websocket_upgrade_timeout_sec" (λ c. c.websocket_upgrade_timeout_sec)
        (λ c v. record c { websocket_upgrade_timeout_sec = v })
    ∷ int_key m "websocket_io_timeout_sec" (λ c. c.websocket_io_timeout_sec)
        (λ c v. record c { websocket_io_timeout_sec = v })
    ∷ int_key m "listen_backlog" (λ c. c.listen_backlog) (λ c v. record c { listen_backlog = v })
    ∷ int_key m "session_max_age_sec" (λ c. c.session_max_age_sec)
        (λ c v. record c { session_max_age_sec = v })
    ∷ text_key m "dev" (λ c. c.dev) (λ c v. record c { dev = v })
    ∷ text_key m "cidr" (λ c. []) (λ c v. record c { cidr = v })
    ∷ text_key m "peer_cidr" (λ c. []) (λ c v. record c { peer_cidr = v })
    ∷ int_key m "mtu" (λ c. c.mtu) (λ c v. record c { mtu = v })
    ∷ text_key m "tls_cert" (λ c. []) (λ c v. record c { tls_cert = v })
    ∷ text_key m "tls_key" (λ c. []) (λ c v. record c { tls_key = v })
    ∷ text_key m "tls_ca" (λ c. []) (λ c v. record c { tls_ca = v })
    ∷ bool_key m "verify_peer" (λ c v. record c { verify_peer = v })
    ∷ text_key m "psk_file" (λ c. []) (λ c v. record c { psk_file = v })
    ∷ text_key m "psk_previous_file" (λ c. []) (λ c v. record c { psk_previous_file = v })
    ∷ []

unfoldable pub queue_steps : Map → List Step
unfolding int_key size_key text_key bool_key octal_key apply_profile
queue_steps m =
    size_key m "max_record_buffer_bytes" (λ c. c.max_record_buffer_bytes)
      (λ c v. record c { max_record_buffer_bytes = v })
    ∷ octal_key m "control_mode" (λ c v. record c { control_mode = v })
    ∷ size_key m "queue_packets" (λ c. c.queue_packets) (λ c v. record c { queue_packets = v })
    ∷ size_key m "queue_bytes" (λ c. c.queue_bytes) (λ c v. record c { queue_bytes = v })
    ∷ int_key m "queue_delay_ms" (λ c. c.queue_delay_ms) (λ c v. record c { queue_delay_ms = v })
    ∷ int_key m "batch_packets" (λ c. c.batch_packets) (λ c v. record c { batch_packets = v })
    ∷ size_key m "batch_bytes" (λ c. c.batch_bytes) (λ c v. record c { batch_bytes = v })
    ∷ bool_key m "adaptive_batching" (λ c v. record c { adaptive_batching = v })
    ∷ int_key m "adaptive_batch_min_packets" (λ c. c.adaptive_batch_min_packets)
        (λ c v. record c { adaptive_batch_min_packets = v })
    ∷ int_key m "adaptive_batch_max_packets" (λ c. c.adaptive_batch_max_packets)
        (λ c v. record c { adaptive_batch_max_packets = v })
    ∷ int_key m "queue_target_delay_ms" (λ c. c.queue_target_delay_ms)
        (λ c v. record c { queue_target_delay_ms = v })
    ∷ int_key m "connect_timeout_sec" (λ c. c.connect_timeout_sec)
        (λ c v. record c { connect_timeout_sec = v })
    ∷ int_key m "idle_timeout_sec" (λ c. c.idle_timeout_sec)
        (λ c v. record c { idle_timeout_sec = v })
    ∷ int_key m "keepalive_sec" (λ c. c.keepalive_sec) (λ c v. record c { keepalive_sec = v })
    ∷ int_key m "rtt_probe_sec" (λ c. c.rtt_probe_sec) (λ c v. record c { rtt_probe_sec = v })
    ∷ int_key m "reconnect_initial_ms" (λ c. c.reconnect_initial_ms)
        (λ c v. record c { reconnect_initial_ms = v })
    ∷ int_key m "reconnect_max_ms" (λ c. c.reconnect_max_ms)
        (λ c v. record c { reconnect_max_ms = v })
    ∷ int_key m "reconnect_jitter_pct" (λ c. c.reconnect_jitter_pct)
        (λ c v. record c { reconnect_jitter_pct = v })
    ∷ int_key m "tcp_keepidle_sec" (λ c. c.tcp_keepidle_sec)
        (λ c v. record c { tcp_keepidle_sec = v })
    ∷ int_key m "tcp_keepintvl_sec" (λ c. c.tcp_keepintvl_sec)
        (λ c v. record c { tcp_keepintvl_sec = v })
    ∷ int_key m "tcp_keepcnt" (λ c. c.tcp_keepcnt) (λ c v. record c { tcp_keepcnt = v })
    ∷ int_key m "tcp_user_timeout_ms" (λ c. c.tcp_user_timeout_ms)
        (λ c v. record c { tcp_user_timeout_ms = v })
    ∷ int_key m "sndbuf" (λ c. c.sndbuf) (λ c v. record c { sndbuf = v })
    ∷ int_key m "rcvbuf" (λ c. c.rcvbuf) (λ c v. record c { rcvbuf = v })
    ∷ int_key m "stats_interval_sec" (λ c. c.stats_interval_sec)
        (λ c v. record c { stats_interval_sec = v })
    ∷ text_key m "control_socket" (λ c. []) (λ c v. record c { control_socket = v })
    ∷ bool_key m "strict_file_permissions" (λ c v. record c { strict_file_permissions = v })
    ∷ []

unfoldable pub run : List Step → Step
run [] c = ok c
run (s ∷ ss) c = then_ok (s c) (λ c'. run ss c')

abbrev pub known_keys : List String
known_keys =
    "browser_profile" ∷ "traffic_shaping" ∷ "shaping_startup_ms" ∷ "shaping_delay_ms"
    ∷ "shaping_rate_bytes" ∷ "shaping_burst_bytes" ∷ "pool_drain_sec" ∷ "pool_idle_poll_ms"
    ∷ "address_family" ∷ "reply_degraded_sec" ∷ "reply_renew_sec" ∷ "reply_timeout_sec"
    ∷ "candidate_max_rtt_ms" ∷ "latency_renew_ms" ∷ "latency_renew_samples"
    ∷ "latency_renew_cooldown_sec" ∷ "idle_probe_sec" ∷ "websocket_control_padding_bytes"
    ∷ "padding_budget_pct" ∷ "timing_jitter_pct" ∷ "log_format" ∷ "websocket_padding_max_bytes"
    ∷ "flow_scheduler" ∷ "max_connections" ∷ "mode" ∷ "transport" ∷ "listen" ∷ "server"
    ∷ "server_name" ∷ "path" ∷ "host_header" ∷ "edge_dns_rotation" ∷ "tls_backend"
    ∷ "tls_adapter_socket" ∷ "websocket_tls" ∷ "websocket_ping_sec" ∷ "websocket_pong_timeout_sec"
    ∷ "websocket_poll_ms" ∷ "websocket_upgrade_timeout_sec" ∷ "websocket_io_timeout_sec"
    ∷ "listen_backlog" ∷ "session_max_age_sec" ∷ "dev" ∷ "cidr" ∷ "peer_cidr" ∷ "mtu" ∷ "tls_cert"
    ∷ "tls_key" ∷ "tls_ca" ∷ "verify_peer" ∷ "psk_file" ∷ "psk_previous_file" ∷ "profile"
    ∷ "resource_profile" ∷ "max_record_buffer_bytes" ∷ "control_mode" ∷ "queue_packets"
    ∷ "queue_bytes" ∷ "queue_delay_ms" ∷ "batch_packets" ∷ "batch_bytes" ∷ "adaptive_batching"
    ∷ "adaptive_batch_min_packets" ∷ "adaptive_batch_max_packets" ∷ "queue_target_delay_ms"
    ∷ "connect_timeout_sec" ∷ "idle_timeout_sec" ∷ "keepalive_sec" ∷ "rtt_probe_sec"
    ∷ "reconnect_initial_ms" ∷ "reconnect_max_ms" ∷ "reconnect_jitter_pct" ∷ "tcp_keepidle_sec"
    ∷ "tcp_keepintvl_sec" ∷ "tcp_keepcnt" ∷ "tcp_user_timeout_ms" ∷ "sndbuf" ∷ "rcvbuf"
    ∷ "stats_interval_sec" ∷ "control_socket" ∷ "strict_file_permissions" ∷ []

abbrev pub is_known : List String → List ℕ → Bool
is_known [] key = false
is_known (k ∷ ks) key = list_eq key (codes k) || is_known ks key

unfoldable pub all_known : Map → Bool
unfolding list_eq
all_known [] = true
all_known ((k, v) ∷ m) = is_known known_keys k && all_known m

abbrev pub checked : Config → Option ConfigError → Result Config
checked c none = ok c
checked c (some e) = err e

-- The map and the fields are read.
abbrev pub finish : Map → Config → Result Config
finish m c =
    let c' = apply_resource_cap c c.resource_profile in
    if not (all_known m) then err unknown_key else checked c' (validate_config c')

-- `start` is the initial Config, `text` what the file holds.
unfoldable pub load_config : Config → List ℕ → Result Config
unfolding lines parse_lines run early_steps session_steps queue_steps apply_resource_cap all_known
    validate_config
load_config start text = then_ok (parse_lines 1 (lines text) []) (λ m.
    then_ok (run (early_steps m ++ (session_steps m ++ queue_steps m)) start) (λ c. finish m c))
