-- ===== src/Telemetry.antt =====
-- RttHistory of cdn/include/pacetun/telemetry.hpp: the last round-trip times and their percentiles, here
-- in microseconds. The lock around each method is left out.
pub mod Window
pub mod Share
use pacetun.Base.{
  ℕ, zero, suc, ◌+◌, ◌-◌, ◌*◌, ◌/◌, List, [], ◌∷◌, ◌++◌, Bool, true, false, Option, none, some, leb,
  ◌==◌, if◌then◌else◌, length, drop, get_or, is_empty, max,
}

pub record RttHistory : Type 0 where
  pub all : List ℕ
  pub active : List ℕ
  pub idle : List ℕ

abbrev pub reset : RttHistory
reset = record { all = []; active = []; idle = [] }

unfoldable pub append : List ℕ → ℕ → List ℕ
append q v = if length q == 128 then drop 1 q ++ v ∷ [] else q ++ v ∷ []

unfoldable pub record_rtt : RttHistory → ℕ → Bool → RttHistory
unfolding append
record_rtt h rtt_us true = record h { all = append h.all rtt_us; active = append h.active rtt_us }
record_rtt h rtt_us false = record h { all = append h.all rtt_us; idle = append h.idle rtt_us }

-- std::sort
unfoldable pub insert : ℕ → List ℕ → List ℕ
insert x [] = x ∷ []
insert x (y ∷ ys) = if leb x y then x ∷ y ∷ ys else y ∷ insert x ys

unfoldable pub sort : List ℕ → List ℕ
unfolding insert
sort [] = []
sort (x ∷ xs) = insert x (sort xs)

abbrev pub rank : ℕ → ℕ → ℕ
rank size numerator = (size * numerator + 99) / 100

unfoldable pub percentile : List ℕ → ℕ → ℕ
percentile sorted numerator = get_or sorted (max 1 (rank (length sorted) numerator) - 1) 0

-- The samples of a group, 1 the active and 2 the idle.
abbrev pub group_of : RttHistory → ℕ → List ℕ
group_of h group = if group == 1 then h.active else if group == 2 then h.idle else h.all

pub record RttPercentiles : Type 0 where
  pub count : ℕ
  pub p50 : ℕ
  pub p95 : ℕ
  pub p99 : ℕ

-- `none` is the value of no samples.
unfoldable pub snapshot : RttHistory → ℕ → Option RttPercentiles
unfolding sort percentile
snapshot h group =
    let samples = group_of h group in
    if is_empty samples
    then none
    else (let sorted = sort samples in
        some (record {
          count = length sorted;
          p50 = percentile sorted 50;
          p95 = percentile sorted 95;
          p99 = percentile sorted 99;
        }))
