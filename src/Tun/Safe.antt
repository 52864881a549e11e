-- ===== src/Tun/Safe.antt =====
-- What the checked inputs of the TUN device have, cdn/src/platform/linux/tun_linux.cpp.
use pacetun.Base.{
  ℕ, ◌≤◌, ◌<◌, ◌≡◌, ◌≢◌, refl, sym, ap, subst, ◌∙◌, ◌⊎◌, List, [], ◌∷◌, ◌++◌, Bool, true, false,
  not, ◌&&◌, ◌||◌, Option, none, some, All, length, is_empty, cut, leb, Option-cases, inl, inr,
  arith,
}
use pacetun.Base.Int.{ℤ, pos, negsuc}
use pacetun.Flow.Key.{list_eq_iff}
use pacetun.Config.Value.{digits, leb_int}
use pacetun.Tun.{
  Family, inet, inet6, fine, address_and_prefix, absent, family_of, prefix_bits, all_digits,
  validate_cidr, same_family, bad_device, starts_with, validate_tun_inputs, ip_only, before,
}
use pacetun.Tun.Passed.{validate_tun_inputs-Passed}
use pacetun.Tun.Texts.{
  Lacks, cut-some, cut-none, absent-Lacks, IsSafe, all_safe-All, IsDigit, all_digits-All, decimal,
  digits-decimal,
}

-- An IPv4 address has no colon and a prefix of at most 32 bits, an IPv6 address has a colon and a
-- prefix of at most 128.
abbrev pub FamilyFits : Family → List ℕ → ℕ → Type 0
FamilyFits inet address bits = Lacks b':' address × (bits ≤ 32)
FamilyFits inet6 address bits =
    ((a : List ℕ) × (b : List ℕ) × (address ≡ a ++ (b':' ∷ b))) × (bits ≤ 128)

-- An address, one slash, and a prefix in decimal digits.
pub record IsCidr (inet_pton : Family → List ℕ → Bool) (value : List ℕ) (family : Family)
    : Type 0 where
  pub address : List ℕ
  pub prefix : List ℕ
  pub text : value ≡ address ++ (b'/' ∷ prefix)
  pub no_slash : Lacks b'/' address
  pub address_some : 0 < length address
  pub prefix_some : 0 < length prefix
  pub prefix_digits : All IsDigit prefix
  pub is_address : inet_pton family address ≡ true
  pub fits : FamilyFits family address (decimal 0 prefix)

-- A name of 1 to 15 characters that has no slash or colon and begins with no dash or dot.
pub record IsDeviceName (dev : List ℕ) : Type 0 where
  pub first : ℕ
  pub rest : List ℕ
  pub text : dev ≡ first ∷ rest
  pub short : length dev ≤ 15
  pub no_slash : Lacks b'/' dev
  pub no_colon : Lacks b':' dev
  pub no_option : first ≢ b'-'
  pub not_hidden : first ≢ b'.'

-- The inputs of ip: safe texts, a name that is no option, addresses of one family that differ.
pub record Accepted (inet_pton : Family → List ℕ → Bool) (dev cidr peer_cidr : List ℕ) (mtu : ℤ)
    (family : Family) : Type 0 where
  pub safe_name : All IsSafe dev
  pub safe_cidr : All IsSafe cidr
  pub safe_peer : All IsSafe peer_cidr
  pub name : IsDeviceName dev
  pub own : IsCidr inet_pton cidr family
  pub peer : IsCidr inet_pton peer_cidr family
  pub differ : own.address ≢ peer.address
  pub size : ℕ
  pub mtu_is : mtu ≡ pos size
  pub least : 576 ≤ size
  pub most : size ≤ 9000
  pub six : (family ≡ inet) ⊎ (1280 ≤ size)

family_of-fits :
    (address : List ℕ) (bits : ℕ)
    → bits ≤ prefix_bits (family_of address)
    → FamilyFits (family_of address) address bits
family_of-fits address bits h = elim (Option-cases (cut b':' address)) [
  | inl e ↦ rw e (cut-none b':' address e, (rw e at h))
  | inr ((a, b), e) ↦ rw e ((a, b, (cut-some b':' address a b e).0), (rw e at h))
]

some_length : (s : List ℕ) → is_empty s ≡ false → 0 < length s
some_length [] h = cc
some_length (c ∷ s) h = omega arith

address_and_prefix-IsCidr :
    (inet_pton : Family → List ℕ → Bool) (value : List ℕ) (r : Option (List ℕ × List ℕ))
    (family : Family)
    → cut b'/' value ≡ r
    → address_and_prefix inet_pton r ≡ fine family
    → (c : IsCidr inet_pton value family) × (ip_only value ≡ c.address)
unfolding ip_only
address_and_prefix-IsCidr inet_pton value none family e h = absurd (ground arith)
address_and_prefix-IsCidr inet_pton value (some (address, prefix)) family e h =
    let bits = digits 10 0 prefix in
    let (text, no_slash) = cut-some b'/' value address prefix e in
    let digits_only : all_digits prefix ≡ true = ground arith in
    let f : family_of address ≡ family = ground arith in
    let d = all_digits-All prefix digits_only in
    let c : IsCidr inet_pton value family = record {
      address = address;
      prefix = prefix;
      text = text;
      no_slash = no_slash;
      address_some = some_length address (ground arith);
      prefix_some = some_length prefix (ground arith);
      prefix_digits = d;
      is_address = rw (← f) (ground arith);
      fits =
          subst (λ g. FamilyFits g address (decimal 0 prefix)) f
            (family_of-fits address (decimal 0 prefix)
              (rw (← digits-decimal 0 prefix d) (ground arith)));
    } in
    (c, ap (before value) e)

validate_cidr-IsCidr :
    (inet_pton : Family → List ℕ → Bool) (value : List ℕ) (family : Family)
    → validate_cidr inet_pton value ≡ fine family
    → (c : IsCidr inet_pton value family) × (ip_only value ≡ c.address)
unfolding validate_cidr
validate_cidr-IsCidr inet_pton value family h =
    address_and_prefix-IsCidr inet_pton value (cut b'/' value) family refl h

-- The tests of the name, one by one.
name_tests :
    (dev : List ℕ)
    → bad_device dev ≡ false
    → (leb 16 (length dev) ≡ false)
      × (starts_with b'-' dev ≡ false)
      × (absent (cut b'/' dev) ≡ true)
      × (absent (cut b':' dev) ≡ true)
      × (starts_with b'.' dev ≡ false)
name_tests dev h = (ground arith, ground arith, ground arith, ground arith, ground arith)

name-IsDeviceName : (dev : List ℕ) → (is_empty dev || bad_device dev) ≡ false → IsDeviceName dev
name-IsDeviceName [] h = absurd (ground arith)
name-IsDeviceName (c ∷ s) h =
    let (short, dash, slash, colon, dot) = name_tests (c ∷ s) h in
    record {
      first = c;
      rest = s;
      text = refl;
      short = ground arith;
      no_slash = absent-Lacks b'/' (c ∷ s) slash;
      no_colon = absent-Lacks b':' (c ∷ s) colon;
      no_option = ground arith;
      not_hidden = ground arith;
    }

mtu_size :
    (mtu : ℤ) (family : Family)
    → (leb_int (pos 576) mtu && leb_int mtu (pos 9000)) ≡ true
    → (same_family family inet6 && not (leb_int (pos 1280) mtu)) ≡ false
    → (n : ℕ) × (mtu ≡ pos n) × (576 ≤ n) × (n ≤ 9000) × ((family ≡ inet) ⊎ (1280 ≤ n))
unfolding leb_int
mtu_size (pos n) inet h k = (n, refl, ground arith, ground arith, inl refl)
mtu_size (pos n) inet6 h k = (n, refl, ground arith, ground arith, inr (ground arith))
mtu_size (negsuc n) family h k = absurd (ground arith)

-- If validate_tun_inputs accepts its inputs, then the name and both address texts have only
-- letters, digits and the characters . : / _ and -; the name has 1 to 15 characters, begins with
-- no dash or dot and has no slash or colon; each address text is an address that is not empty and
-- has no slash, one slash, and a prefix in decimal digits; both addresses are ones that inet_pton
-- takes in the family returned and differ; in the IPv4 family they have no colon and prefixes of
-- 32 at most, in the IPv6 family a colon and prefixes of 128 at most; and the MTU is 576 to 9000,
-- 1280 at least for IPv6.
pub validate_tun_inputs-Accepted :
    (inet_pton : Family → List ℕ → Bool) (dev cidr peer_cidr : List ℕ) (mtu : ℤ) (family : Family)
    → validate_tun_inputs inet_pton dev cidr peer_cidr mtu ≡ fine family
    → Accepted inet_pton dev cidr peer_cidr mtu family
validate_tun_inputs-Accepted inet_pton dev cidr peer_cidr mtu family h =
    let p = validate_tun_inputs-Passed inet_pton dev cidr peer_cidr mtu family h in
    let (own, ip) = validate_cidr-IsCidr inet_pton cidr family p.address in
    let (peer, peer_ip) = validate_cidr-IsCidr inet_pton peer_cidr family p.peer in
    let (size, mtu_is, least, most, six) = mtu_size mtu family p.sized p.six in
    record {
      safe_name = all_safe-All dev (ground (arith, p.texts));
      safe_cidr = all_safe-All cidr (ground (arith, p.texts));
      safe_peer = all_safe-All peer_cidr (ground (arith, p.texts));
      name = name-IsDeviceName dev p.name;
      own = own;
      peer = peer;
      differ = λ e.
          let same = (list_eq_iff (ip_only cidr) (ip_only peer_cidr)).1 (ip ∙ e ∙ sym peer_ip) in
          let d = p.differ in absurd (ground arith);
      size = size;
      mtu_is = mtu_is;
      least = least;
      most = most;
      six = six;
    }
