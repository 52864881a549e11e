-- ===== src/Keys/Lines.antt =====
-- About the messages under the handshake tokens of cdn/src/record.cpp.
use pacetun.Base.{
  ℕ, ◌≡◌, ◌≢◌, refl, sym, ap, ◌∙◌, List, [], ◌∷◌, ◌++◌, Bool, true, not, ◌&&◌, ◌==◌, All, arith,
  codes,
}
use pacetun.Keys.{join, server_message}

abbrev pub OneLine : List ℕ → Type 0
OneLine x = All (λ b. b ≢ 10) x

abbrev head_or : ℕ → List ℕ → ℕ
head_or d [] = d
head_or d (x ∷ xs) = x

abbrev tail : List ℕ → List ℕ
tail [] = []
tail (x ∷ xs) = xs

no_line : (x r y : List ℕ) → OneLine y → x ++ (10 ∷ r) ≢ y
no_line [] r [] h e = cc
no_line [] r (b ∷ y) h e = h.0 (sym (ap (head_or 0) e))
no_line (a ∷ x) r [] h e = cc
no_line (a ∷ x) r (b ∷ y) h e = no_line x r y h.1 (ap tail e)

first_line :
    (x r y s : List ℕ) → OneLine x → OneLine y → x ++ (10 ∷ r) ≡ y ++ (10 ∷ s) → (x ≡ y) × (r ≡ s)
first_line [] r [] s h k e = (refl, ap tail e)
first_line [] r (b ∷ y) s h k e = absurd (k.0 (sym (ap (head_or 0) e)))
first_line (a ∷ x) r [] s h k e = absurd (h.0 (ap (head_or 0) e))
first_line (a ∷ x) r (b ∷ y) s h k e =
    let (p, q) = first_line x r y s h.1 k.1 (ap tail e) in
    let same : a ≡ b = ap (head_or 0) e in (ap (λ c. c ∷ x) same ∙ ap (◌∷◌ b) p, q)

join_determines :
    (x : List ℕ) (xs : List (List ℕ)) (y : List ℕ) (ys : List (List ℕ))
    → All OneLine (x ∷ xs)
    → All OneLine (y ∷ ys)
    → join x xs ≡ join y ys
    → x ∷ xs ≡ y ∷ ys
join_determines x [] y [] h k e = ap (λ z. z ∷ []) e
join_determines x [] y (z ∷ zs) h k e = absurd (no_line y (join z zs) x h.0 (sym e))
join_determines x (w ∷ ws) y [] h k e = absurd (no_line x (join w ws) y k.0 e)
join_determines x (w ∷ ws) y (z ∷ zs) h k e =
    let (p, q) = first_line x (join w ws) y (join z zs) h.0 k.0 e in
    ap (λ a. a ∷ w ∷ ws) p ∙ ap (◌∷◌ y) (join_determines w ws z zs h.1 k.1 q)

abbrev tail_lines : List (List ℕ) → List (List ℕ)
tail_lines [] = []
tail_lines (x ∷ xs) = xs

abbrev one_line : List ℕ → Bool
one_line [] = true
one_line (b ∷ bs) = not (b == 10) && one_line bs

pub one_line-OneLine : (x : List ℕ) → one_line x ≡ true → OneLine x
one_line-OneLine [] h = tt
one_line-OneLine (b ∷ bs) h = (λ e. ground arith, one_line-OneLine bs (ground arith))

-- If no field holds a line feed, two server proofs over the same message are over the same
-- authority, path, nonces and public keys.
pub server_message_determines :
    (a p n m u v a' p' n' m' u' v' : List ℕ)
    → All OneLine (a ∷ p ∷ n ∷ m ∷ u ∷ v ∷ [])
    → All OneLine (a' ∷ p' ∷ n' ∷ m' ∷ u' ∷ v' ∷ [])
    → server_message a p n m u v ≡ server_message a' p' n' m' u' v'
    → a ∷ p ∷ n ∷ m ∷ u ∷ v ∷ [] ≡ a' ∷ p' ∷ n' ∷ m' ∷ u' ∷ v' ∷ []
unfolding server_message
server_message_determines a p n m u v a' p' n' m' u' v' h k e =
    let label : OneLine (codes "pacetun-websocket-v5-server") =
      one_line-OneLine (codes "pacetun-websocket-v5-server") refl in
    ap tail_lines (
      join_determines (codes "pacetun-websocket-v5-server") (a ∷ p ∷ n ∷ m ∷ u ∷ v ∷ [])
        (codes "pacetun-websocket-v5-server") (a' ∷ p' ∷ n' ∷ m' ∷ u' ∷ v' ∷ []) (label, h)
        (label, k) e)
