-- ===== src/Base/Text.antt =====
-- Texts as lists of character codes, which are the bytes of an ASCII text.
use Prim.Native.Nat.{ℕ}
use Prim.Native.Char.{code}
use Prim.Native.String.{String}
use mathlib.Core.List.{List, [], ◌∷◌}
use mathlib.Core.Bool.{Bool, ◌&&◌, ◌||◌}
use mathlib.Core.Option.{Option, none, some}
use pacetun.Base.Tests.{leb, ◌==◌, if◌then◌else◌}
use pacetun.Base.Lists.{is_empty}

abbrev pub codes : String → List ℕ
codes String.[] = []
codes (String.◌∷◌ c s) = code c ∷ codes s

-- std::isspace
abbrev pub is_space : ℕ → Bool
is_space c = leb 9 c && leb c 13 || c == 32

abbrev pub drop_spaces : List ℕ → List ℕ
drop_spaces [] = []
drop_spaces (c ∷ s) = let rest = drop_spaces s in if is_space c then rest else c ∷ s

abbrev pub drop_last_spaces : List ℕ → List ℕ
drop_last_spaces [] = []
drop_last_spaces (c ∷ s) =
    let rest = drop_last_spaces s in if is_empty rest && is_space c then [] else c ∷ rest

unfoldable pub trim : List ℕ → List ℕ
trim s = drop_last_spaces (drop_spaces s)

abbrev pub cut_behind : ℕ → Option (List ℕ × List ℕ) → Option (List ℕ × List ℕ)
cut_behind c none = none
cut_behind c (some (before, after)) = some (c ∷ before, after)

-- What stands before and behind the first `x`: `s.find(x)` with the two substr calls.
unfoldable pub cut : ℕ → List ℕ → Option (List ℕ × List ℕ)
cut x [] = none
cut x (c ∷ s) = let rest = cut x s in if c == x then some ([], s) else cut_behind c rest
