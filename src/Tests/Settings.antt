-- ===== src/Tests/Settings.antt =====
-- A client's configuration for two WebSocket lanes.
use pacetun.Base.{
  ℕ, ◌≡◌, refl, List, [], ◌∷◌, ◌++◌, true, false, Bool, some, codes, arith, trim, cut,
}
use pacetun.Base.Int.{pos}
use pacetun.Flow.{list_eq}
use pacetun.Tun.{Family, safe_token, validate_cidr, ip_only, validate_tun_inputs}
use pacetun.Main.{run_tunnel, arguments, main}
use pacetun.Main.Runs.{Sound, main-Sound}
use pacetun.Config.{Config, new_config}
use pacetun.Config.Value.{
  Result, ok, err, leb_int, min_int, max_int, add_int, size_of, long_of, digits, unsigned, stoi,
  stoi_octal, stoull, bval,
}
use pacetun.Config.Lines.{Map, find, lines, parse_lines}
use pacetun.Config.Profile.{apply_profile, apply_resource_cap}
use pacetun.Config.Validate.{
  range, http_field, has_dots, endpoint, first_error, first_checks, place_checks, number_checks,
  validate_config,
}
use pacetun.Config.Valid.{Safe}
use pacetun.Config.Capped.{Ranges}
use pacetun.Config.Load.{
  int_key, size_key, text_key, bool_key, octal_key, early_steps, session_steps, queue_steps, run,
  all_known, load_config,
}
use pacetun.Config.Loaded.{Unique, load_config-Safe}

abbrev start : Config
start = new_config (codes "none") false (pos 0) (pos 0) (pos 0) (pos 0)

abbrev line : List ℕ → List ℕ
line s = s ++ 10 ∷ []

abbrev text : List ℕ
text =
    line (codes "# two lanes")
    ++ line (codes "mode = client")
    ++ line (codes "transport=websocket")
    ++ line (codes "server=cdn.example:443")
    ++ line (codes "server_name=cdn.example")
    ++ line (codes "cidr=10.0.0.2/30")
    ++ line (codes "peer_cidr=10.0.0.1/30")
    ++ line (codes "tls_ca=/etc/ssl/ca.pem")
    ++ line (codes "psk_file=/etc/psk # secret")
    ++ line (codes "max_connections=2")
    ++ line (codes "control_socket=/run/pacetun.sock")
    ++ line (codes "resource_profile=lowmem")

abbrev or_start : Result Config → Config
or_start (ok c) = c
or_start (err e) = start

abbrev settings : Config
settings = or_start (load_config start text)

loads : load_config start text ≡ ok settings
unfolding load_config lines parse_lines find trim cut run early_steps session_steps queue_steps
    int_key size_key text_key bool_key octal_key stoi stoi_octal stoull unsigned digits bval list_eq
    leb_int min_int max_int add_int size_of long_of apply_profile apply_resource_cap all_known
    validate_config first_error first_checks place_checks number_checks range http_field endpoint
    has_dots
loads = refl

load_config-Safe_example :
    Safe settings
    × ((m : Map) × ((parse_lines 1 (lines text) [] ≡ ok m) × (Unique m × (all_known m ≡ true))))
load_config-Safe_example = load_config-Safe start settings text loads

start-Ranges : Ranges start
start-Ranges = record {
  record_buffer = (omega arith, omega arith);
  packets = (omega arith, omega arith);
  bytes = (omega arith, omega arith);
  delay = (omega arith, omega arith);
  batch = (omega arith, omega arith);
  batch_size = (omega arith, omega arith);
  send_buffer = (omega arith, omega arith);
  receive_buffer = (omega arith, omega arith);
  stats = (omega arith, omega arith);
}

abbrev any_address : Family → List ℕ → Bool
any_address family address = true

abbrev arguments_given : List (List ℕ)
arguments_given = codes "--config" ∷ codes "/etc/pacetun.conf" ∷ []

main-Sound_example : Sound any_address (main any_address (λ path. some text) start arguments_given)
main-Sound_example = main-Sound any_address (λ path. some text) start arguments_given

tunnel_starts : main any_address (λ path. some text) start arguments_given ≡ run_tunnel settings
unfolding main arguments list_eq load_config lines parse_lines find trim cut run early_steps
    session_steps queue_steps int_key size_key text_key bool_key octal_key stoi stoi_octal stoull
    unsigned digits bval leb_int min_int max_int add_int size_of long_of apply_profile
    apply_resource_cap all_known validate_config first_error first_checks place_checks number_checks
    range http_field endpoint has_dots validate_tun_inputs safe_token validate_cidr ip_only
tunnel_starts = refl
