-- ===== src/MemPool/Align.antt =====
-- MMPL_ALIGN: the size that is allocated for a request.
use mw_race_service_mesh_c.Base.{
  ℕ, zero, suc, ◌+◌, ◌-◌, ◌*◌, ◌/◌, ◌%◌, ◌^◌, ◌≤◌, ◌<◌, bit_and, ◌≡◌, sym, ap, ap₂, ◌∙◌, subst,
  arith,
}
use native.Mathlib.Nat.{
  one-le-pow, mod-lt, mod-eq_of_lt, div-add-mod', pow-suc, mul_assoc, suc-mul, mul-mod_left,
  div-lt_iff_lt-mul,
}
use mw_race_service_mesh_c.Base.Bits.{bit_and_low, bit_and_high}
use mw_race_service_mesh_c.MemPool.Types.{align}
use mw_race_service_mesh_c.MemPool.Counted.{add32-lt}

pow-split : (w k : ℕ) → 2 ^ (w + k) ≡ 2 ^ w * 2 ^ k
pow-split w zero = let same : w + 0 ≡ w = omega arith in rw same (omega arith)
pow-split w (suc k) =
    ap (λ n. 2 ^ n) {y = suc (w + k)} (omega arith)
    ∙ pow-suc 2 (w + k)
    ∙ ap (λ x. x * 2) (pow-split w k)
    ∙ mul_assoc (2 ^ w) (2 ^ k) 2
    ∙ ap (λ x. 2 ^ w * x) (sym (pow-suc 2 k))

pred-mul : (a b : ℕ) → 0 < a → (a - 1) * b + b ≡ a * b
pred-mul zero b h = absurd (omega arith)
pred-mul (suc a) b h = ap (λ x. x * b + b) (omega arith) ∙ sym (suc-mul a b)

whole : (k : ℕ) → k ≤ 32 → 2 ^ (32 - k) * 2 ^ k ≡ 2 ^ 32
whole k le = sym (pow-split (32 - k) k) ∙ ap (λ n. 2 ^ n) {y = 32} (omega arith)

mask-multiple : (k : ℕ) → k ≤ 32 → 2 ^ 32 - 1 - (2 ^ k - 1) ≡ (2 ^ (32 - k) - 1) * 2 ^ k
mask-multiple k le = omega (
  arith,
  whole k le,
  pred-mul (2 ^ (32 - k)) (2 ^ k) (one-le-pow (32 - k) 2 (omega arith)),
  one-le-pow k 2 (omega arith),
)

align-quotient :
    (k size : ℕ)
    → k ≤ 32
    → size + (2 ^ k - 1) < 2 ^ 32
    → align size (2 ^ k) ≡ (size + (2 ^ k - 1)) / 2 ^ k * 2 ^ k
unfolding align
align-quotient k size le fits =
    let n = size + (2 ^ k - 1) in
    let q = n / 2 ^ k in
    let r = n % 2 ^ k in
    let parts : n ≡ q * 2 ^ k + r = sym (div-add-mod' n (2 ^ k)) in
    let positive : 0 < 2 ^ k = one-le-pow k 2 (omega arith) in
    let below : q < 2 ^ (32 - k) =
      (div-lt_iff_lt-mul {k = 2 ^ k} {x = n} {y = 2 ^ (32 - k)} positive).1
        (subst (λ m. n < m) (sym (whole k le)) fits) in
    ap₂ bit_and (add32-lt size (2 ^ k - 1) fits ∙ parts) (mask-multiple k le)
    ∙ bit_and_high k q r (2 ^ (32 - k) - 1) (mod-lt n {m = 2 ^ k} positive)
    ∙ ap (λ x. x * 2 ^ k) (bit_and_low (32 - k) q ∙ mod-eq_of_lt below)

-- For a boundary that is a power of two, and a size that does not wrap around with it, MMPL_ALIGN
-- gives the least multiple of the boundary that has room for the size.
pub align-least :
    (k size : ℕ)
    → k ≤ 32
    → size + (2 ^ k - 1) < 2 ^ 32
    → (align size (2 ^ k) % 2 ^ k ≡ 0)
      × (size ≤ align size (2 ^ k))
      × (align size (2 ^ k) < size + 2 ^ k)
align-least k size le fits =
    let e = align-quotient k size le fits in
    let n = size + (2 ^ k - 1) in
    let parts = div-add-mod' n (2 ^ k) in
    let positive : 0 < 2 ^ k = one-le-pow k 2 (omega arith) in
    let rest = mod-lt n {m = 2 ^ k} positive in
    (
      ap (λ x. x % 2 ^ k) e ∙ mul-mod_left (n / 2 ^ k) (2 ^ k),
      omega (arith, e, parts, rest),
      omega (arith, e, parts, rest),
    )
