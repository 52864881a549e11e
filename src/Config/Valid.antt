-- ===== src/Config/Valid.antt =====
-- What a checked configuration has, cdn/src/config.cpp: validate_config and load_config.
use Prim.Native.String.{String}
use pacetun.Base.{
  ℕ, zero, suc, ◌+◌, ◌≤◌, ◌≡◌, refl, List, [], ◌∷◌, ◌++◌, Bool, true, false, not, ◌&&◌, ◌||◌, none,
  some, ltb, if◌then◌else◌, All, Bool-cases, inl, inr, arith, ◌⊎◌,
}
use pacetun.Base.Int.{ℤ, pos, negsuc}
use pacetun.Config.{Config}
use pacetun.Config.Value.{leb_int, add_int, is_zero, size_of}
use pacetun.Config.Validate.{
  Check, eq, more_than, range, guard, first_error, first_checks, place_checks, number_checks,
  validate_config,
}

abbrev pub Passed : Check → Type 0
Passed k = k ≡ none

first_error-none : (cs : List Check) → first_error cs ≡ none → All Passed cs
unfolding first_error
first_error-none [] h = tt
first_error-none (none ∷ cs) h = (refl, first_error-none cs h)
first_error-none (some e ∷ cs) h = absurd (ground arith)

All-split : (cs ds : List Check) → All Passed (cs ++ ds) → All Passed cs × All Passed ds
All-split [] ds h = (tt, h)
All-split (c ∷ cs) ds h = let (a, b) = All-split cs ds h.1 in ((h.0, a), b)

guard-none : (broken : Bool) (message : String) → guard broken message ≡ none → broken ≡ false
guard-none true message h = absurd (ground arith)
guard-none false message h = refl

-- Numbers in a range.
abbrev pub Within : ℕ → ℕ → ℤ → Type 0
Within lo hi (pos n) = (lo ≤ n) × (n ≤ hi)
Within lo hi (negsuc n) = ⊥

-- `a` is before `b`.
abbrev pub Before : ℤ → ℤ → Type 0
Before a b = leb_int b a ≡ false

abbrev pub value : ℤ → ℕ
value (pos n) = n
value (negsuc n) = 0

range-none :
    (name : String) (v lo hi : ℤ)
    → range name v lo hi ≡ none
    → (leb_int lo v ≡ true) × (leb_int v hi ≡ true)
unfolding range
range-none name v lo hi h = ground arith

range-Within :
    (name : String) (v : ℤ) (lo hi : ℕ) → range name v (pos lo) (pos hi) ≡ none → Within lo hi v
unfolding leb_int
range-Within name (pos n) lo hi h =
    let (a, b) = range-none name (pos n) (pos lo) (pos hi) h in (ground arith, ground arith)
range-Within name (negsuc n) lo hi h =
    let (a, b) = range-none name (negsuc n) (pos lo) (pos hi) h in absurd (ground arith)

-- The bytes that the padding of one packet adds to its record.
abbrev pub extra : ℤ → ℕ
extra pad = if is_zero pad then 0 else 2 + value pad

record_fits :
    (mtu pad : ℤ) (b : ℕ)
    → Within 576 9000 mtu
    → Within 0 1024 pad
    → ltb b (
        size_of
          (add_int (add_int mtu (pos 32)) (if is_zero pad then pos 0 else add_int (pos 2) pad)))
      ≡ false
    → value mtu + 32 + extra pad ≤ b
unfolding size_of add_int
record_fits (pos m) (pos zero) b h k e = ground arith
record_fits (pos m) (pos (suc p)) b h k e = ground arith
record_fits (pos m) (negsuc p) b h k e = absurd k
record_fits (negsuc m) pad b h k e = absurd h

-- What the other parts of the program rely on.
pub record Safe (c : Config) : Type 0 where
  pub connections : Within 1 4 c.max_connections
  pub packet : Within 576 9000 c.mtu
  pub padding : Within 0 1024 c.websocket_padding_max_bytes
  pub reply_degraded : Before c.reply_degraded_sec c.reply_renew_sec
  pub reply_renew : Before c.reply_renew_sec c.reply_timeout_sec
  pub backoff : leb_int c.reconnect_initial_ms c.reconnect_max_ms ≡ true
  pub batches : leb_int c.adaptive_batch_min_packets c.adaptive_batch_max_packets ≡ true
  pub lanes : (eq c.transport "websocket" || leb_int c.max_connections (pos 1)) ≡ true
  pub fits :
      (eq c.transport "websocket" ≡ false)
      ⊎ (value c.mtu + 32 + extra c.websocket_padding_max_bytes ≤ c.batch_bytes)
  pub encrypted :
      (not (eq c.mode "client" && eq c.transport "websocket") || c.websocket_tls && c.verify_peer)
      ≡ true

no_lanes : (n : ℤ) (b : Bool) → (more_than 1 n && not b) ≡ false → (b || leb_int n (pos 1)) ≡ true
no_lanes n true h = refl
no_lanes n false h = ground arith

both_kept :
    (a b t v : Bool) → (a && b && (not t || not v)) ≡ false → (not (a && b) || t && v) ≡ true
both_kept a b t v h = ground arith

validate_config-All :
    (c : Config)
    → validate_config c ≡ none
    → All Passed (first_checks c) × (All Passed (place_checks c) × All Passed (number_checks c))
unfolding validate_config
validate_config-All c h =
    let (a, r) =
      All-split (first_checks c) (place_checks c ++ number_checks c)
        (first_error-none (first_checks c ++ (place_checks c ++ number_checks c)) h) in
    (a, All-split (place_checks c) (number_checks c) r)

pub validate_config-Safe : (c : Config) → validate_config c ≡ none → Safe c
unfolding first_checks place_checks number_checks
validate_config-Safe c h =
    let (a, (b, d)) = validate_config-All c h in
    let mtu = range-Within "mtu" c.mtu 576 9000 d.0 in
    let pad =
      range-Within "websocket_padding_max_bytes" c.websocket_padding_max_bytes 0 1024
        a.1.1.1.1.1.1.1.1.1.1.1.1.1.1.1.1.1.1.1.1.1.1.1.1.1.1.1.0 in
    let replies = guard-none _ _ a.1.1.1.1.1.1.1.1.1.1.1.1.1.1.1.1.1.1.1.1.1.1.0 in
    let lanes = guard-none _ _ a.1.1.1.1.0 in
    let fits = guard-none _ _ d.1.1.1.1.1.1.1.1.1.1.1.1.1.1.1.0 in
    let wss = guard-none _ _ b.1.1.1.1.1.1.1.1.1.1.1.1.1.1.1.1.1.1.0 in
    record {
      connections = range-Within "max_connections" c.max_connections 1 4 a.0;
      packet = mtu;
      padding = pad;
      reply_degraded = ground arith;
      reply_renew = ground arith;
      backoff =
          (range-none "reconnect_max_ms" c.reconnect_max_ms c.reconnect_initial_ms (pos 600000)
            d.1.1.1.1.1.1.1.1.1.1.1.1.1.1.1.1.1.1.1.1.1.1.1.1.1.0).0;
      batches =
          (range-none "adaptive_batch_max_packets" c.adaptive_batch_max_packets
            c.adaptive_batch_min_packets (pos 256) d.1.1.1.1.1.1.1.1.1.1.1.1.1.1.1.1.1.0).0;
      lanes = no_lanes c.max_connections (eq c.transport "websocket") lanes;
      fits = elim (Bool-cases (eq c.transport "websocket")) [
        | inl websocket ↦ inr (
            record_fits c.mtu c.websocket_padding_max_bytes c.batch_bytes mtu pad
              (ground (arith, fits)))
        | inr tls ↦ inl tls
      ];
      encrypted =
          both_kept (eq c.mode "client") (eq c.transport "websocket") c.websocket_tls c.verify_peer
            wss;
    }
