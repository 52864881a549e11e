-- ===== src/Pool.antt =====
-- PoolAffinity of cdn/include/pacetun/pool.hpp: which lane of the pool carries the packets of a flow.
pub mod Sticky
pub mod Bounded
pub mod Run
use pacetun.Base.{
  ℕ, zero, suc, ◌+◌, ◌-◌, ◌*◌, ◌/◌, ◌%◌, List, [], ◌∷◌, Bool, true, false, not, ◌&&◌, ◌||◌, Option,
  none, some, ltb, leb, ◌==◌, if◌then◌else◌, length, is_empty, get_or, take, u64, xor_bits,
}
use pacetun.Flow.{PacketFlow, flow_eq, packet_flow}

pub record Entry : Type 0 where
  pub lane : ℕ
  pub last_us : ℕ

-- flows_, in the order of its iterators.
abbrev pub Affinity : Type 0
Affinity = List (PacketFlow × Entry)

-- `hash ^= byte; hash *= 1099511628211ULL`
unfoldable pub hash_bytes : ℕ → List ℕ → ℕ
unfolding xor_bits
hash_bytes hash [] = hash
hash_bytes hash (b ∷ bs) = hash_bytes (xor_bits 64 hash b * 1099511628211 % u64) bs

unfoldable pub packet_flow_hash : PacketFlow → ℕ
unfolding hash_bytes xor_bits
packet_flow_hash key =
    xor_bits 64 (hash_bytes 14695981039346656037 (take key.len key.bytes)) key.len

abbrev pub cap : ℕ
cap = 4096

-- `now>=last_us && now-last_us>kIdleUS`
abbrev pub idle : ℕ → Entry → Bool
idle now e = leb e.last_us now && ltb 180000000 (now - e.last_us)

unfoldable pub prune : ℕ → Affinity → Affinity
prune now [] = []
prune now ((k, e) ∷ fs) = if idle now e then prune now fs else (k, e) ∷ prune now fs

-- flows_.find
unfoldable pub find : PacketFlow → Affinity → Option Entry
find key [] = none
find key ((k, e) ∷ fs) = if flow_eq k key then some e else find key fs

-- `it->second = entry` at the iterator of `find`.
unfoldable pub update : PacketFlow → Entry → Affinity → Affinity
update key entry [] = []
update key entry ((k, e) ∷ fs) =
    if flow_eq k key then (k, entry) ∷ fs else (k, e) ∷ update key entry fs

unfoldable pub erase : PacketFlow → Affinity → Affinity
erase key [] = []
erase key ((k, e) ∷ fs) = if flow_eq k key then fs else (k, e) ∷ erase key fs

-- The `for` loop that looks for the oldest entry.
unfoldable pub oldest : PacketFlow × Entry → Affinity → PacketFlow × Entry
oldest x [] = x
oldest x (y ∷ fs) = oldest (if ltb y.1.last_us x.1.last_us then y else x) fs

unfoldable pub erase_oldest : Affinity → Affinity
unfolding oldest erase
erase_oldest [] = []
erase_oldest (x ∷ fs) = erase (oldest x (x ∷ fs)).0 (x ∷ fs)

-- `if(flows_.size()>=kCap)`
unfoldable pub make_room : ℕ → Affinity → Affinity
unfolding prune erase_oldest
make_room now fs =
    if leb cap (length fs)
    then (let kept = prune now fs in if leb cap (length kept) then erase_oldest kept else kept)
    else fs

-- std::find on the identifiers of the lanes.
unfoldable pub contains : ℕ → List ℕ → Bool
contains x [] = false
contains x (y ∷ ys) = x == y || contains x ys

-- A lane for a flow that has none: the preferred one, or one by its hash.
abbrev pub fallback : PacketFlow → List ℕ → ℕ → ℕ
fallback key live_ids preferred =
    if not (preferred == 0) && contains preferred live_ids
    then preferred
    else get_or live_ids (packet_flow_hash key % length live_ids) 0

abbrev pub assign : Affinity → PacketFlow → List ℕ → ℕ → ℕ → Option Entry → Affinity × ℕ
assign fs key live_ids now preferred none =
    let lane = fallback key live_ids preferred in
    ((key, record { lane = lane; last_us = now }) ∷ make_room now fs, lane)
assign fs key live_ids now preferred (some e) =
    let lane = if contains e.lane live_ids then e.lane else fallback key live_ids preferred in
    (update key (record { lane = lane; last_us = now }) fs, lane)

unfoldable pub choose : Affinity → List ℕ → List ℕ → ℕ → ℕ → Affinity × ℕ
unfolding packet_flow_hash find update make_room contains
choose fs packet live_ids now preferred =
    if is_empty live_ids
    then (fs, 0)
    else (let key = packet_flow packet in assign fs key live_ids now preferred (find key fs))
