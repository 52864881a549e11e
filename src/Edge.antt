-- ===== src/Edge.antt =====
-- edge_address_index of cdn/include/pacetun/edge_selection.hpp: which address of an edge a dial tries.
use native.Mathlib.Nat.{mod-add-mod}
use pacetun.Base.{
  ℕ, ◌+◌, ◌%◌, ◌<◌, ◌≡◌, ap, ◌∙◌, Bool, true, false, ◌||◌, Option, none, some, leb, ◌==◌,
  if◌then◌else◌, arith,
}
use pacetun.Turns.Order.{circle}

-- `none` is the exception std::out_of_range.
unfoldable pub edge_address_index : ℕ → ℕ → ℕ → Bool → Option ℕ
edge_address_index count dial_number attempt enabled =
    if count == 0 || leb count attempt
    then none
    else some (if enabled then (dial_number % count + attempt) % count else attempt)

index_of :
    (count dial attempt : ℕ) (enabled : Bool)
    → attempt < count
    → edge_address_index count dial attempt enabled
      ≡ some (if enabled then (dial % count + attempt) % count else attempt)
unfolding edge_address_index
index_of count dial attempt enabled h = ground arith

-- For each address of an edge some attempt below their number tries it, at every dial, with the
-- rotation enabled or not.
pub edge_address_index_covers :
    (count dial i : ℕ) (enabled : Bool)
    → i < count
    → (attempt : ℕ) × (attempt < count) × (edge_address_index count dial attempt enabled ≡ some i)
edge_address_index_covers count dial i true h =
    let (v, l, e) = circle count dial i h in
    (v, l, index_of count dial v true l ∙ ap some (mod-add-mod dial count v ∙ e))
edge_address_index_covers count dial i false h = (i, h, index_of count dial i false h)
