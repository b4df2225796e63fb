-- ===== src/Helper/Network/Containment.antt =====
-- The networks of src/userspace_helper.rs as sets of addresses.

use mathlib.Core.Path.{ap, subst}
use Prim.Native.Nat.{zero, suc}
use native.Mathlib.Nat.{
  div-mul-le_self, add-mul, mul-le-mul_right, pow-le-pow_right, div-lt_iff_lt-mul,
  div-div-eq-div-mul, div-eq_of_lt, div-eq_of_lt-le, div-one, mul-div_cancel, one-le-pow, pow-succ',
  suc-add, zero-add,
}
use tunmux.Helper.Network.{Subnet, mask, network_base, subnet_contains, width}
use tunmux.Prelude.{
  Bool-cases, arith, false, if◌then◌else◌, inl, inr, leb, ltb, nat_eq_iff, refl, sym, true, ℕ, ℕ_eq,
  ◌*◌, ◌+◌, ◌-◌, ◌/◌, ◌<◌, ◌==◌, ◌^◌, ◌↔◌, ◌∙◌, ◌≡◌, ◌≢◌, ◌≤◌,
}
use tunmux.Wireguard.{IpAddr, v4, v6}

abbrev pub IsAddr : IpAddr → Type 0
IsAddr (v4 n) = n < 2 ^ 32
IsAddr (v6 n) = n < 2 ^ 128

-- the address has the network's leading bits
abbrev pub Covers : Subnet → IpAddr → Type 0
Covers (v4 a, p) (v4 x) = x / 2 ^ (32 - p) ≡ a / 2 ^ (32 - p)
Covers (v6 a, p) (v6 x) = x / 2 ^ (128 - p) ≡ a / 2 ^ (128 - p)
Covers _ _ = ⊥

two-pos : (n : ℕ) → 0 < 2 ^ n
two-pos n = one-le-pow n 2 (omega arith)

pow-add : (m n : ℕ) → 2 ^ (m + n) ≡ 2 ^ m * 2 ^ n
pow-add zero n = ap (λ k. 2 ^ k) (zero-add n) ∙ omega arith
pow-add (suc m) n =
    let next : 2 ^ (suc m + n) ≡ 2 * 2 ^ (m + n) =
      ap (λ k. 2 ^ k) (suc-add m n) ∙ pow-succ' 2 (m + n) in
    let same : 2 ^ suc m ≡ 2 * 2 ^ m = pow-succ' 2 m in grind (arith, next, same, pow-add m n)

-- a quotient and its product with the divisor, where no bit or every bit is kept
none-kept : (w n : ℕ) → n < 2 ^ w → n / 2 ^ (w - 0) * 2 ^ (w - 0) ≡ 0
none-kept w n h =
    let whole : w - 0 ≡ w = omega arith in
    let zero_quotient : n / 2 ^ w ≡ 0 = div-eq_of_lt h in rw (whole, zero_quotient) (omega arith)

all-kept : (w p n : ℕ) → w ≤ p → n / 2 ^ (w - p) * 2 ^ (w - p) ≡ n
all-kept w p n h =
    let none_left : w - p ≡ 0 = omega arith in rw (none_left, div-one n) (omega arith)

-- the masking, without its cases
mask_lem : (w p n : ℕ) → n < 2 ^ w → mask w p n ≡ n / 2 ^ (w - p) * 2 ^ (w - p)
unfolding mask
mask_lem w p n h = elim (Bool-cases (p == 0)) [
  | inl yes_zero ↦
      let p_zero : p ≡ 0 = (nat_eq_iff p 0).0 yes_zero in
      rw (yes_zero, p_zero) (sym (none-kept w n h))
  | inr not_zero ↦ elim (Bool-cases (leb w p)) [
    | inl full ↦ rw (not_zero, full) (sym (all-kept w p n (ground arith)))
    | inr partial ↦ rw (not_zero, partial) refl
  ]
]

-- The leading bits of a prefix determine those of a shorter one.
coarser :
    (w p k a x : ℕ) → p ≤ k → x / 2 ^ (w - k) ≡ a / 2 ^ (w - k) → x / 2 ^ (w - p) ≡ a / 2 ^ (w - p)
coarser w p k a x h same =
    let apart : w - p ≡ (w - k) + ((w - p) - (w - k)) = omega arith in
    let parts : 2 ^ (w - p) ≡ 2 ^ (w - k) * 2 ^ ((w - p) - (w - k)) =
      ap (λ i. 2 ^ i) apart ∙ pow-add (w - k) ((w - p) - (w - k)) in
    let e = 2 ^ ((w - p) - (w - k)) in
    let twice : (n : ℕ) → n / 2 ^ (w - p) ≡ n / 2 ^ (w - k) / e =
      λ n. ap (λ d. n / d) parts ∙ sym (div-div-eq-div-mul n (2 ^ (w - k)) e) in
    twice x ∙ ap (λ q. q / e) same ∙ sym (twice a)

-- Equal maskings are equal leading bits.
mask_iff :
    (w p a b : ℕ)
    → a < 2 ^ w
    → b < 2 ^ w
    → (mask w p a ≡ mask w p b) ↔ (a / 2 ^ (w - p) ≡ b / 2 ^ (w - p))
mask_iff w p a b ha hb =
    let d = 2 ^ (w - p) in
    let kept : (n : ℕ) → n / d * d / d ≡ n / d = λ n. mul-div_cancel (n / d) (two-pos (w - p)) in
    (
      λ same.
          sym (kept a)
          ∙ ap (λ m. m / d) (sym (mask_lem w p a ha) ∙ same ∙ mask_lem w p b hb)
          ∙ kept b,
      λ same. mask_lem w p a ha ∙ ap (λ q. q * d) same ∙ sym (mask_lem w p b hb),
    )

-- The first and the last address of a block of `d * e` addresses lie in different blocks of `d`.
ends-apart :
    (d f q : ℕ) → 0 < d → (q * (d * (f + 2))) / d ≢ (q * (d * (f + 2)) + (d * (f + 2) - 1)) / d
ends-apart d f q hd same =
    let block : q * (f + 2) * d ≡ q * (d * (f + 2)) = grind arith in
    let rest : (f + 1) * d + d ≡ d * (f + 2) = grind arith in
    let start : (q * (f + 2) + (f + 1)) * d ≡ q * (f + 2) * d + (f + 1) * d =
      add-mul (q * (f + 2)) (f + 1) d in
    let stop : (q * (f + 2) + (f + 1) + 1) * d ≡ (q * (f + 2) + (f + 1)) * d + d = grind arith in
    let first : (q * (d * (f + 2))) / d ≡ q * (f + 2) =
      ap (λ m. m / d) (sym block) ∙ mul-div_cancel (q * (f + 2)) hd in
    let last : (q * (d * (f + 2)) + (d * (f + 2) - 1)) / d ≡ q * (f + 2) + (f + 1) =
      div-eq_of_lt-le d (omega (arith, block, rest, start, hd))
        (omega (arith, block, rest, start, stop, hd)) in
    omega (arith, same, first, last)

-- the addresses of one block stay below the end of all
block-below :
    (w k r : ℕ) → k ≤ w → r < 2 ^ w → r / 2 ^ (w - k) * 2 ^ (w - k) + (2 ^ (w - k) - 1) < 2 ^ w
block-below w k r hk hr =
    let d = 2 ^ (w - k) in
    let apart : w ≡ k + (w - k) = omega arith in
    let span : 2 ^ w ≡ 2 ^ k * d = ap (λ i. 2 ^ i) apart ∙ pow-add k (w - k) in
    let few : r / d < 2 ^ k = (div-lt_iff_lt-mul (two-pos (w - k))).1 (omega (arith, span, hr)) in
    let room : (r / d + 1) * d ≤ 2 ^ k * d = mul-le-mul_right d (omega (arith, few)) in
    let next : (r / d + 1) * d ≡ r / d * d + d = grind arith in
    omega (arith, span, room, next, two-pos (w - k))

whole_block :
    (w p k : ℕ) → leb p k ≡ false → p ≤ w → 2 ^ (w - k) ≡ 2 ^ (w - p) * (2 ^ (p - k) - 2 + 2)
whole_block w p k shorter hp =
    let below : k < p = ground arith in
    let apart : w - k ≡ (w - p) + (p - k) = omega arith in
    let least : 2 ^ 1 ≤ 2 ^ (p - k) = pow-le-pow_right (omega arith) {i = 1} (omega arith) in
    let back : 2 ^ (p - k) ≡ 2 ^ (p - k) - 2 + 2 = omega (arith, least) in
    ap (λ i. 2 ^ i) apart ∙ pow-add (w - p) (p - k) ∙ ap (λ e. 2 ^ (w - p) * e) back

last-in-block : (q n : ℕ) → 0 < n → (q * n + (n - 1)) / n ≡ q
last-in-block q n h =
    let next : (q + 1) * n ≡ q * n + n = grind arith in
    div-eq_of_lt-le n (omega arith) (omega (arith, next, h))

-- Who holds a whole network holds its prefix: a shorter one has addresses outside.
prefix_of_covered :
    (w p k l r : ℕ)
    → k ≤ w
    → p ≤ w
    → r < 2 ^ w
    → ((x : ℕ) → x < 2 ^ w → x / 2 ^ (w - k) ≡ r / 2 ^ (w - k) → x / 2 ^ (w - p) ≡ l / 2 ^ (w - p))
    → p ≤ k
prefix_of_covered w p k l r hk hp hr inside = elim (Bool-cases (leb p k)) [
  | inl within ↦ ground arith
  | inr shorter ↦
      let d = 2 ^ (w - p) in
      let q = r / 2 ^ (w - k) in
      let f = 2 ^ (p - k) - 2 in
      let whole : 2 ^ (w - k) ≡ d * (f + 2) = whole_block w p k shorter hp in
      let below : q * (d * (f + 2)) + (d * (f + 2) - 1) < 2 ^ w =
        subst (λ n. q * n + (n - 1) < 2 ^ w) whole (block-below w k r hk hr) in
      let first_in : q * (d * (f + 2)) / 2 ^ (w - k) ≡ q =
        ap (λ n. q * n / 2 ^ (w - k)) (sym whole) ∙ mul-div_cancel q (two-pos (w - k)) in
      let last_in : (q * (d * (f + 2)) + (d * (f + 2) - 1)) / 2 ^ (w - k) ≡ q =
        ap (λ n. (q * n + (n - 1)) / 2 ^ (w - k)) (sym whole)
        ∙ last-in-block q (2 ^ (w - k)) (two-pos (w - k)) in
      absurd (
        ends-apart d f q (two-pos (w - p)) (
          inside (q * (d * (f + 2))) (omega (arith, below)) first_in
          ∙ sym (inside _ below last_in)))
]

abbrev pub IsNet : Subnet → Type 0
IsNet (a, p) = IsAddr a × p ≤ width a

-- the test, of the numbers of one family
mask-contains :
    (w p k l r : ℕ)
    → p ≤ w
    → k ≤ w
    → l < 2 ^ w
    → r < 2 ^ w
    → ((if ltb k p then false else mask w p r == mask w p l) ≡ true) ↔ (
        (x : ℕ) → x < 2 ^ w → x / 2 ^ (w - k) ≡ r / 2 ^ (w - k) → x / 2 ^ (w - p) ≡ l / 2 ^ (w - p))
mask-contains w p k l r hp hk hl hr = (
  λ test x hx same.
      let found : (p ≤ k) × (mask w p r ≡ mask w p l) =
        ground (arith, nat_eq_iff (mask w p r) (mask w p l)) in
      coarser w p k r x found.0 same ∙ (mask_iff w p r l hr hl).0 found.1,
  λ inside.
      let longer : p ≤ k = prefix_of_covered w p k l r hk hp hr inside in
      let same : mask w p r ≡ mask w p l = (mask_iff w p r l hr hl).1 (inside r hr refl) in
      ground (arith, nat_eq_iff (mask w p r) (mask w p l)),
)

-- For networks in range, the test `subnet_contains` answers yes exactly when every address of the
-- second network is an address of the first.
pub subnet_contains_lem :
    (local route : Subnet)
    → IsNet local
    → IsNet route
    → (subnet_contains local route ≡ true)
      ↔ ((x : IpAddr) → IsAddr x → Covers route x → Covers local x)
unfolding subnet_contains network_base
subnet_contains_lem (v4 l, p) (v4 r, k) (hl, hp) (hr, hk) =
    let numbers = mask-contains 32 p k l r hp hk hl hr in
    (λ test. inside_v4 (numbers.0 test), λ inside. numbers.1 (λ x. inside (v4 x)))
  where
    inside_v4 :
        ((x : ℕ)
          → x < 2 ^ 32
          → x / 2 ^ (32 - k) ≡ r / 2 ^ (32 - k)
          → x / 2 ^ (32 - p) ≡ l / 2 ^ (32 - p))
        → (x : IpAddr) → IsAddr x
        → Covers (v4 r, k) x
        → Covers (v4 l, p) x
    inside_v4 h (v4 x) hx same = h x hx same
    inside_v4 h (v6 x) hx same = absurd same
subnet_contains_lem (v6 l, p) (v6 r, k) (hl, hp) (hr, hk) =
    let numbers = mask-contains 128 p k l r hp hk hl hr in
    (λ test. inside_v6 (numbers.0 test), λ inside. numbers.1 (λ x. inside (v6 x)))
  where
    inside_v6 :
        ((x : ℕ)
          → x < 2 ^ 128
          → x / 2 ^ (128 - k) ≡ r / 2 ^ (128 - k)
          → x / 2 ^ (128 - p) ≡ l / 2 ^ (128 - p))
        → (x : IpAddr) → IsAddr x
        → Covers (v6 r, k) x
        → Covers (v6 l, p) x
    inside_v6 h (v6 x) hx same = h x hx same
    inside_v6 h (v4 x) hx same = absurd same
subnet_contains_lem (v4 l, p) (v6 r, k) (hl, hp) (hr, hk) =
    (λ test. absurd (ground arith), λ inside. absurd (inside (v6 r) hr refl))
subnet_contains_lem (v6 l, p) (v4 r, k) (hl, hp) (hr, hk) =
    (λ test. absurd (ground arith), λ inside. absurd (inside (v4 r) hr refl))

mask_le : (w p n : ℕ) → n < 2 ^ w → mask w p n ≤ n
mask_le w p n h = rw (mask_lem w p n h) (div-mul-le_self n (2 ^ (w - p)))

pub network_base-IsAddr : (ip : IpAddr) (p : ℕ) → IsAddr ip → IsAddr (network_base ip p)
unfolding network_base
network_base-IsAddr (v4 n) p h = omega (arith, mask_le 32 p n h, h)
network_base-IsAddr (v6 n) p h = omega (arith, mask_le 128 p n h, h)

-- two networks that share an address: the longer one, as a destination, lies in the shorter one
mask-overlaps :
    (w p k l r x : ℕ)
    → p ≤ k
    → l < 2 ^ w
    → r < 2 ^ w
    → x / 2 ^ (w - p) ≡ l / 2 ^ (w - p)
    → x / 2 ^ (w - k) ≡ r / 2 ^ (w - k)
    → (if ltb k p then false else mask w p (mask w k r) == mask w p l) ≡ true
mask-overlaps w p k l r x longer hl hr in_local in_route =
    let d = 2 ^ (w - k) in
    let base : mask w k r < 2 ^ w = omega (arith, mask_le w k r hr, hr) in
    let kept : mask w k r / d ≡ x / d =
      ap (λ m. m / d) (mask_lem w k r hr)
      ∙ mul-div_cancel (r / d) (two-pos (w - k))
      ∙ sym in_route in
    let same : mask w p (mask w k r) ≡ mask w p l =
      (mask_iff w p (mask w k r) l base hl).1
        (coarser w p k x (mask w k r) longer kept ∙ in_local) in
    ground (arith, nat_eq_iff (mask w p (mask w k r)) (mask w p l))

pub subnet_contains-overlaps :
    (local route : Subnet) (x : IpAddr)
    → IsAddr local.0
    → IsAddr route.0
    → local.1 ≤ route.1
    → Covers local x
    → Covers route x
    → subnet_contains local (network_base route.0 route.1, route.1) ≡ true
unfolding subnet_contains network_base
subnet_contains-overlaps (v4 l, p) (v4 r, k) (v4 x) hl hr longer in_local in_route =
    mask-overlaps 32 p k l r x longer hl hr in_local in_route
subnet_contains-overlaps (v6 l, p) (v6 r, k) (v6 x) hl hr longer in_local in_route =
    mask-overlaps 128 p k l r x longer hl hr in_local in_route
subnet_contains-overlaps (v4 l, p) route (v6 x) hl hr longer in_local in_route = absurd in_local
subnet_contains-overlaps (v6 l, p) route (v4 x) hl hr longer in_local in_route = absurd in_local
subnet_contains-overlaps (v4 l, p) (v6 r, k) (v4 x) hl hr longer in_local in_route = absurd in_route
subnet_contains-overlaps (v6 l, p) (v4 r, k) (v6 x) hl hr longer in_local in_route = absurd in_route
