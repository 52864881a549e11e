-- ===== src/Telemetry/Window.antt =====
-- About the samples that RttHistory keeps, cdn/include/pacetun/telemetry.hpp.
use pacetun.Base.{
  ℕ, ◌+◌, ◌-◌, ◌≡◌, refl, sym, ap, ◌∙◌, List, [], ◌∷◌, ◌++◌, Bool, true, false, length, drop,
  length-drop, length-append, drop-add, drop-append, arith, Bool-cases, inl, inr, ◌==◌,
}
use mathlib.Core.List.{append_assoc, append-nil}
use pacetun.Telemetry.{RttHistory, reset, append, record_rtt}

abbrev pub window : List ℕ → List ℕ
window xs = drop (length xs - 128) xs

abbrev pub append_all : List ℕ → List ℕ → List ℕ
append_all q [] = q
append_all q (v ∷ vs) = append_all (append q v) vs

append-window : (xs : List ℕ) (v : ℕ) → append (window xs) v ≡ window (xs ++ v ∷ [])
unfolding append
append-window xs v =
    let n = length xs in
    let one = length-append xs (v ∷ []) in
    let held = length-drop (n - 128) xs in
    elim (Bool-cases (length (drop (n - 128) xs) == 128)) [
      | inl full ↦
          let e : length (xs ++ v ∷ []) - 128 ≡ n - 128 + 1 = ground arith in
          rw
            (full, e, drop-append (n - 128 + 1) xs (v ∷ []) (ground arith), drop-add (n - 128) 1 xs)
            refl
      | inr few ↦
          let e : length (xs ++ v ∷ []) - 128 ≡ n - 128 = ground arith in
          rw (few, e, drop-append (n - 128) xs (v ∷ []) (ground arith)) refl
    ]

append_all-window : (xs vs : List ℕ) → append_all (window xs) vs ≡ window (xs ++ vs)
append_all-window xs [] = ap window (sym (append-nil xs))
append_all-window xs (v ∷ vs) =
    ap (λ q. append_all q vs) (append-window xs v)
    ∙ append_all-window (xs ++ v ∷ []) vs
    ∙ ap window (append_assoc xs (v ∷ []) vs)

abbrev pub records : RttHistory → List (ℕ × Bool) → RttHistory
records h [] = h
records h ((rtt, a) ∷ xs) = records (record_rtt h rtt a) xs

abbrev pub rtts : List (ℕ × Bool) → List ℕ
rtts [] = []
rtts ((rtt, a) ∷ xs) = rtt ∷ rtts xs

abbrev pub actives : List (ℕ × Bool) → List ℕ
actives [] = []
actives ((rtt, true) ∷ xs) = rtt ∷ actives xs
actives ((rtt, false) ∷ xs) = actives xs

abbrev pub idles : List (ℕ × Bool) → List ℕ
idles [] = []
idles ((rtt, true) ∷ xs) = idles xs
idles ((rtt, false) ∷ xs) = rtt ∷ idles xs

records-append_all :
    (h : RttHistory) (xs : List (ℕ × Bool))
    → let g = records h xs in
      (g.all ≡ append_all h.all (rtts xs))
      × (g.active ≡ append_all h.active (actives xs))
      × (g.idle ≡ append_all h.idle (idles xs))
unfolding record_rtt
records-append_all h [] = (refl, refl, refl)
records-append_all h ((rtt, true) ∷ xs) = records-append_all (record_rtt h rtt true) xs
records-append_all h ((rtt, false) ∷ xs) = records-append_all (record_rtt h rtt false) xs

-- After a reset and any records, each of the three lists holds the last 128 round-trip times of
-- its group in the order recorded: all, those of active records, those of idle records.
pub records-window :
    (xs : List (ℕ × Bool))
    → let h = records reset xs in
      (h.all ≡ window (rtts xs)) × (h.active ≡ window (actives xs)) × (h.idle ≡ window (idles xs))
records-window xs =
    let (a, b, c) = records-append_all reset xs in
    (
      a ∙ append_all-window [] (rtts xs),
      b ∙ append_all-window [] (actives xs),
      c ∙ append_all-window [] (idles xs),
    )
