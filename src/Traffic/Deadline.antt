-- ===== src/Traffic/Deadline.antt =====
-- About the token of ReplyWatchdog, cdn/include/pacetun/traffic.hpp.
use pacetun.Base.{
  ℕ, ◌≡◌, ◌≢◌, refl, ap, ◌∙◌, List, [], ◌∷◌, Bool, false, ◌&&◌, leb, ◌==◌, arith, All,
}
use pacetun.Traffic.{ReplyWatchdog, sent, reply}

-- What happens on a lane: a probe is sent, a PONG arrives.
pub data Traffic : Type 0 where
  probe : ℕ → Traffic
  pong : ℕ → ℕ → Traffic

abbrev pub step : ReplyWatchdog → Traffic → ReplyWatchdog
step w (probe token) = sent w token
step w (pong token now) = (reply w token now).0

abbrev pub steps : ReplyWatchdog → List Traffic → ReplyWatchdog
steps w [] = w
steps w (e ∷ es) = steps (step w e) es

-- A PONG with this token, not from before it was sent.
abbrev pub answers : ℕ → Traffic → Bool
answers token (probe t) = false
answers token (pong t now) = t == token && leb token now

step-same :
    (w : ReplyWatchdog) (e : Traffic) → w.token ≢ 0 → answers w.token e ≡ false → step w e ≡ w
unfolding sent reply
step-same w (probe t) h k = ground (arith, h)
step-same w (pong t now) h k = ground (arith, h)

-- While a probe is pending, no further probe and no PONG but one with its token, not from before
-- it was sent, changes the watchdog, in any number and order.
pub steps-same :
    (w : ReplyWatchdog) (es : List Traffic)
    → w.token ≢ 0
    → All (λ e. answers w.token e ≡ false) es
    → steps w es ≡ w
steps-same w [] h k = refl
steps-same w (e ∷ es) h k = ap (λ v. steps v es) (step-same w e h k.0) ∙ steps-same w es h k.1
