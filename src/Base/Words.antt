-- ===== src/Base/Words.antt =====
-- Unsigned 64-bit arithmetic, and numbers as big-endian bytes.
use Prim.Native.Nat.{ℕ, zero, suc, ◌+◌, ◌-◌, ◌*◌, ◌/◌, ◌%◌, ◌^◌, ◌≤◌, ◌<◌}
use mathlib.Core.Path.{◌≡◌, refl, ap}
use mathlib.Core.List.{List, [], ◌∷◌}
use native.Mathlib.Omega.{arith}
use native.Mathlib.Nat.{pow-suc}
use pacetun.Base.Lists.{length, All}

abbrev pub u64 : ℕ
u64 = 18446744073709551616

-- Addition and subtraction of uint64_t and size_t, which wrap.
unfoldable pub add64 : ℕ → ℕ → ℕ
add64 a b = (a + b) % u64

unfoldable pub sub64 : ℕ → ℕ → ℕ
sub64 a b = (a + (u64 - b % u64)) % u64

pub add64_lem : (a b : ℕ) → a + b < u64 → add64 a b ≡ a + b
unfolding add64
add64_lem a b h = omega arith

pub sub64_lem : (a b : ℕ) → b ≤ a → a < u64 → sub64 a b ≡ a - b
unfolding sub64
sub64_lem a b h k = omega arith

abbrev pub IsByte : ℕ → Type 0
IsByte b = b < 256

-- The low k bytes of n, the highest first: `(n >> (8 * i)) & 0xff` for i from k - 1 down to 0.
unfoldable pub be_bytes : ℕ → ℕ → List ℕ
be_bytes zero n = []
be_bytes (suc k) n = (n / 256 ^ k % 256) ∷ be_bytes k n

-- `for (b : bytes) acc = (acc << 8) | b`, in a uint64_t.
unfoldable pub be_value : ℕ → List ℕ → ℕ
be_value acc [] = acc
be_value acc (b ∷ bs) = be_value ((acc * 256 + b) % u64) bs

pub length-be_bytes : (k n : ℕ) → length (be_bytes k n) ≡ k
unfolding be_bytes
length-be_bytes zero n = refl
length-be_bytes (suc k) n = ap suc (length-be_bytes k n)

pub be_bytes-IsByte : (k n : ℕ) → All IsByte (be_bytes k n)
unfolding be_bytes
be_bytes-IsByte zero n = tt
be_bytes-IsByte (suc k) n = (omega arith, be_bytes-IsByte k n)

-- Eight bytes give the uint64_t back.
pub be_value-be_bytes : (n : ℕ) → n < u64 → be_value 0 (be_bytes 8 n) ≡ n
unfolding be_value be_bytes
be_value-be_bytes n h = omega arith

-- Exclusive or on the low `n` bits.
unfoldable pub xor_bits : ℕ → ℕ → ℕ → ℕ
xor_bits zero a b = 0
xor_bits (suc n) a b = (a + b) % 2 + 2 * xor_bits n (a / 2) (b / 2)

-- The same word twice cancels.
pub xor_bits-xor_bits : (n a b : ℕ) → a < 2 ^ n → xor_bits n (xor_bits n a b) b ≡ a
unfolding xor_bits
xor_bits-xor_bits zero a b h = omega arith
xor_bits-xor_bits (suc n) a b h =
    let x = xor_bits n (a / 2) (b / 2) in
    let half : ((a + b) % 2 + 2 * x) / 2 ≡ x = omega arith in
    let double = pow-suc 2 n in
    let ih = xor_bits-xor_bits n (a / 2) (b / 2) (omega (arith, double)) in
    rw (half, ih) (omega arith)
