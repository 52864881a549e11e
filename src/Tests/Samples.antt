-- ===== src/Tests/Samples.antt =====
-- RttHistory on a few samples.
use pacetun.Base.{ℕ, ◌*◌, ◌≤◌, ◌≡◌, refl, List, [], ◌∷◌, Bool, true, false, arith}
use pacetun.Telemetry.{reset, percentile, sort}
use pacetun.Telemetry.Window.{window, records, rtts, actives, idles, records-window}
use pacetun.Telemetry.Share.{at_most, percentile_share}

abbrev samples : List (ℕ × Bool)
samples = (300, true) ∷ (100, false) ∷ (200, true) ∷ []

records-window_example :
    let h = records reset samples in
    (h.all ≡ window (rtts samples))
    × (h.active ≡ window (actives samples))
    × (h.idle ≡ window (idles samples))
records-window_example = records-window samples

percentile_share_example :
    3 * 95 ≤ at_most (percentile (sort (rtts samples)) 95) (rtts samples) * 100
percentile_share_example = percentile_share (rtts samples) 95 (omega arith) (omega arith)

median_run : percentile (sort (rtts samples)) 50 ≡ 200
unfolding percentile sort
median_run = refl
