-- ===== src/Telemetry/Share.antt =====
-- About the percentiles of RttHistory, cdn/include/pacetun/telemetry.hpp.
use pacetun.Base.{
  ℕ, zero, suc, ◌+◌, ◌-◌, ◌*◌, ◌/◌, ◌≤◌, ◌<◌, ◌≡◌, refl, subst, ◌∙◌, List, [], ◌∷◌, length, get_or,
  max, leb, arith, Bool-cases, inl, inr, All, if◌then◌else◌,
}
use native.Mathlib.Nat.{mul-le-mul_left}
use pacetun.Telemetry.{insert, sort, rank, percentile}

-- How many of the samples are at most `v`.
abbrev pub at_most : ℕ → List ℕ → ℕ
at_most v [] = 0
at_most v (x ∷ xs) = if leb x v then at_most v xs + 1 else at_most v xs

abbrev Sorted : List ℕ → Type 0
Sorted [] = Unit
Sorted (x ∷ xs) = All (λ y. x ≤ y) xs × Sorted xs

at_most-insert : (v x : ℕ) (xs : List ℕ) → at_most v (insert x xs) ≡ at_most v (x ∷ xs)
unfolding insert
at_most-insert v x [] = refl
at_most-insert v x (y ∷ ys) = ground (arith, at_most-insert v x ys)

at_most-sort : (v : ℕ) (xs : List ℕ) → at_most v (sort xs) ≡ at_most v xs
unfolding sort
at_most-sort v [] = refl
at_most-sort v (x ∷ xs) = at_most-insert v x (sort xs) ∙ ground (arith, at_most-sort v xs)

length-insert : (x : ℕ) (xs : List ℕ) → length (insert x xs) ≡ length xs + 1
unfolding insert
length-insert x [] = refl
length-insert x (y ∷ ys) = ground (arith, length-insert x ys)

pub length-sort : (xs : List ℕ) → length (sort xs) ≡ length xs
unfolding sort
length-sort [] = refl
length-sort (x ∷ xs) = length-insert x (sort xs) ∙ omega (arith, length-sort xs)

All-le : (a b : ℕ) (xs : List ℕ) → a ≤ b → All (λ y. b ≤ y) xs → All (λ y. a ≤ y) xs
All-le a b [] h k = tt
All-le a b (x ∷ xs) h k = (omega (arith, k.0), All-le a b xs h k.1)

All-insert : (a x : ℕ) (xs : List ℕ) → a ≤ x → All (λ y. a ≤ y) xs → All (λ y. a ≤ y) (insert x xs)
unfolding insert
All-insert a x [] h k = (h, tt)
All-insert a x (y ∷ ys) h k = elim (Bool-cases (leb x y)) [
  | inl e ↦ rw e (h, k)
  | inr e ↦ rw e (k.0, All-insert a x ys h k.1)
]

insert-Sorted : (x : ℕ) (xs : List ℕ) → Sorted xs → Sorted (insert x xs)
unfolding insert
insert-Sorted x [] s = (tt, tt)
insert-Sorted x (y ∷ ys) s = elim (Bool-cases (leb x y)) [
  | inl e ↦ let l : x ≤ y = ground arith in rw e ((l, All-le x y ys l s.0), s)
  | inr e ↦ let l : y ≤ x = ground arith in rw e (All-insert y x ys l s.0, insert-Sorted x ys s.1)
]

sort-Sorted : (xs : List ℕ) → Sorted (sort xs)
unfolding sort
sort-Sorted [] = tt
sort-Sorted (x ∷ xs) = insert-Sorted x (sort xs) (sort-Sorted xs)

All-get_or : (a : ℕ) (xs : List ℕ) (i : ℕ) → All (λ y. a ≤ y) xs → i < length xs → a ≤ get_or xs i 0
All-get_or a [] i k h = absurd (omega arith)
All-get_or a (x ∷ xs) zero k h = k.0
All-get_or a (x ∷ xs) (suc i) k h = All-get_or a xs i k.1 (omega arith)

at_most-get_or :
    (xs : List ℕ) (i : ℕ) → Sorted xs → i < length xs → i + 1 ≤ at_most (get_or xs i 0) xs
at_most-get_or [] i s h = absurd (omega arith)
at_most-get_or (x ∷ xs) zero s h = ground arith
at_most-get_or (x ∷ xs) (suc i) s h =
    let l = All-get_or x xs i s.0 (omega arith) in
    let r = at_most-get_or xs i s.1 (omega arith) in ground arith

rank_lem :
    (t n : ℕ)
    → 0 < n
    → t ≤ n * 100
    → let i = max 1 ((t + 99) / 100) - 1 in (i < n) × (t ≤ (i + 1) * 100)
rank_lem t n h k = (omega arith, omega arith)

-- If there is a sample and the percentage is at most 100, at least that percentage of the samples
-- is at or below the percentile of the sorted samples.
pub percentile_share :
    (samples : List ℕ) (numerator : ℕ)
    → 0 < length samples
    → numerator ≤ 100
    → length samples * numerator ≤ at_most (percentile (sort samples) numerator) samples * 100
unfolding percentile
percentile_share samples p h k =
    let n = length (sort samples) in
    let same = length-sort samples in
    let i = max 1 (rank n p) - 1 in
    let (low, share) = rank_lem (n * p) n (omega arith) (mul-le-mul_left n k) in
    let held = at_most-get_or (sort samples) i (sort-Sorted samples) low in
    let count = at_most-sort (percentile (sort samples) p) samples in
    subst (λ m. m * p ≤ at_most (percentile (sort samples) p) samples * 100) same (omega arith)
