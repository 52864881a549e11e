-- ===== src/Tun/Passed.antt =====
-- The checks that validate_tun_inputs has passed when it accepts, cdn/src/platform/linux/tun_linux.cpp.
use pacetun.Base.{
  ℕ, ◌≡◌, refl, sym, ap, subst, ◌∙◌, List, Bool, true, false, not, ◌&&◌, ◌||◌, if◌then◌else◌,
  is_empty, arith,
}
use pacetun.Base.Int.{ℤ, pos}
use pacetun.Flow.{list_eq}
use pacetun.Config.Value.{leb_int}
use pacetun.Tun.{
  TunError, failed, Family, inet6, Checked, fine, then_fine, ip_only, all_safe, safe_token,
  validate_cidr, same_family, bad_device, validate_tun_inputs, bad_name, bad_mtu, other_family,
  small_mtu, same_address,
}

then_fine_inv :
    {A B : Type 0} (r : Checked A) (f : A → Checked B) (b : B)
    → then_fine r f ≡ fine b
    → (a : A) × ((r ≡ fine a) × (f a ≡ fine b))
then_fine_inv (fine a) f b h = (a, (refl, h))
then_fine_inv (failed e) f b h = absurd (ground arith)

if_fine :
    {A : Type 0} (b : Bool) (e : TunError) (r : Checked A) (a : A)
    → (if b then failed e else r) ≡ fine a
    → (b ≡ false) × (r ≡ fine a)
if_fine true e r a h = absurd (ground arith)
if_fine false e r a h = (refl, h)

safe_token_inv : (s : List ℕ) → safe_token s ≡ fine tt → (is_empty s ≡ false) × (all_safe s ≡ true)
unfolding safe_token
safe_token_inv s h = ground arith

-- The tests of validate_tun_inputs, as they came out.
pub record Passed (inet_pton : Family → List ℕ → Bool) (dev cidr peer_cidr : List ℕ) (mtu : ℤ)
    (family : Family) : Type 0 where
  pub texts : (all_safe dev && all_safe cidr && all_safe peer_cidr) ≡ true
  pub name : (is_empty dev || bad_device dev) ≡ false
  pub sized : (leb_int (pos 576) mtu && leb_int mtu (pos 9000)) ≡ true
  pub address : validate_cidr inet_pton cidr ≡ fine family
  pub peer : validate_cidr inet_pton peer_cidr ≡ fine family
  pub six : (same_family family inet6 && not (leb_int (pos 1280) mtu)) ≡ false
  pub differ : list_eq (ip_only cidr) (ip_only peer_cidr) ≡ false

same_family-true : (f g : Family) → not (same_family f g) ≡ false → f ≡ g
same_family-true Family.inet Family.inet h = refl
same_family-true Family.inet Family.inet6 h = absurd (ground arith)
same_family-true Family.inet6 Family.inet h = absurd (ground arith)
same_family-true Family.inet6 Family.inet6 h = refl

three : (a b c : Bool) → a ≡ true → b ≡ true → c ≡ true → (a && b && c) ≡ true
three a b c h k l = rw (h, k, l) refl

neither : (a b : Bool) → a ≡ false → b ≡ false → (a || b) ≡ false
neither a b h k = rw (h, k) refl

both_hold : (a b : Bool) → (not a || not b) ≡ false → (a && b) ≡ true
both_hold a b h = ground arith

pub validate_tun_inputs-Passed :
    (inet_pton : Family → List ℕ → Bool) (dev cidr peer_cidr : List ℕ) (mtu : ℤ) (family : Family)
    → validate_tun_inputs inet_pton dev cidr peer_cidr mtu ≡ fine family
    → Passed inet_pton dev cidr peer_cidr mtu family
unfolding validate_tun_inputs
validate_tun_inputs-Passed inet_pton dev cidr peer_cidr mtu family h =
    let (u, (e1, h1)) = then_fine_inv (safe_token dev) _ family h in
    let (name, h2) = if_fine (bad_device dev) bad_name _ family h1 in
    let (v, (e3, h3)) = then_fine_inv (safe_token cidr) _ family h2 in
    let (w, (e4, h4)) = then_fine_inv (safe_token peer_cidr) _ family h3 in
    let (sized, h5) =
      if_fine (not (leb_int (pos 576) mtu) || not (leb_int mtu (pos 9000))) bad_mtu _ family h4 in
    let (f, (e6, h6)) = then_fine_inv (validate_cidr inet_pton cidr) _ family h5 in
    let (g, (e7, h7)) = then_fine_inv (validate_cidr inet_pton peer_cidr) _ family h6 in
    let (one_family, k1) = if_fine (not (same_family f g)) other_family _ family h7 in
    let (six, k2) =
      if_fine (same_family f inet6 && not (leb_int (pos 1280) mtu)) small_mtu _ family k1 in
    let (differ, k3) =
      if_fine (list_eq (ip_only cidr) (ip_only peer_cidr)) same_address (fine f) family k2 in
    let same : f ≡ family = cc in
    let both : g ≡ family = sym (same_family-true f g one_family) ∙ same in
    let (some_name, safe_name) = safe_token_inv dev e1 in
    record {
      texts =
          three (all_safe dev) (all_safe cidr) (all_safe peer_cidr) safe_name
            (safe_token_inv cidr e3).1 (safe_token_inv peer_cidr e4).1;
      name = neither (is_empty dev) (bad_device dev) some_name name;
      sized = both_hold (leb_int (pos 576) mtu) (leb_int mtu (pos 9000)) sized;
      address = e6 ∙ ap fine same;
      peer = e7 ∙ ap fine both;
      six = subst (λ f. (same_family f inet6 && not (leb_int (pos 1280) mtu)) ≡ false) same six;
      differ = differ;
    }
