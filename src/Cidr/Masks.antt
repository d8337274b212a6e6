-- ===== src/Cidr/Masks.antt =====
-- The masks of src/cidr.ts cut a number to its leading bits.
use Prim.Native.Nat.{bit_and, digits, bit_and-bitwise, min}
use dsh_full_remote.Prelude.{
  ℕ, zero, suc, ◌+◌, ◌-◌, ◌*◌, ◌/◌, ◌%◌, ◌^◌, ◌≤◌, ◌<◌, ◌≡◌, refl, ◌∙◌, sym, ap, ◌↔◌, Bool, true,
  ◌&&◌, arith, ◌==◌, ==_iff, leb, Bool-cases, inl, inr,
}
use native.Mathlib.Nat.{pow-succ', div-div-eq-div-mul}
use dsh_full_remote.Cidr.Parse.{mask32}

-- The conjunction of two numbers with some fuel, of which the left number is always enough: the native
-- operation stands for it.
abbrev conjunction : ℕ → ℕ → ℕ → ℕ
conjunction = digits (λ rest. zero) min

conjunction-suc : (fuel a b : ℕ) → a ≤ fuel → conjunction (suc fuel) a b ≡ conjunction fuel a b
conjunction-suc fuel zero b h =
    elim fuel as (λ f. conjunction (suc f) zero b ≡ conjunction f zero b) [
      | zero ↦ refl
      | suc f ↦ refl
    ]
conjunction-suc (suc fuel) (suc a) b h =
    let half = conjunction-suc fuel (suc a / 2) (b / 2) (omega (arith, h)) in omega (arith, half)
conjunction-suc zero (suc a) b h = absurd (omega (arith, h))

conjunction_enough : (fuel a b : ℕ) → a ≤ fuel → conjunction fuel a b ≡ conjunction a a b
conjunction_enough zero zero b h = refl
conjunction_enough zero (suc a) b h = absurd (omega (arith, h))
conjunction_enough (suc fuel) a b h = elim (Bool-cases (leb a fuel)) [
  | inl e ↦ conjunction-suc fuel a b (ground arith) ∙ conjunction_enough fuel a b (ground arith)
  | inr e ↦ let full : a ≡ suc fuel = ground arith in rw full refl
]

-- One bit of a conjunction.
bit_and_halves : (a b : ℕ) → bit_and a b ≡ bit_and (a / 2) (b / 2) * 2 + min (a % 2) (b % 2)
bit_and_halves zero b = omega (arith, bit_and-bitwise 0 b, bit_and-bitwise 0 (b / 2))
bit_and_halves (suc a) b =
    let lower = conjunction_enough a (suc a / 2) (b / 2) (omega arith) in
    omega (arith, lower, bit_and-bitwise (suc a / 2) (b / 2), bit_and-bitwise (suc a) b)

-- `ones p` is 2 ^ p - 1, `high k m` is m * 2 ^ k, `cut k a` is a / 2 ^ k, one bit at a time.
ones : ℕ → ℕ
ones zero = 0
ones (suc p) = 2 * ones p + 1

high : ℕ → ℕ → ℕ
high zero m = m
high (suc k) m = 2 * high k m

abbrev cut : ℕ → ℕ → ℕ
cut zero a = a
cut (suc k) a = cut k (a / 2)

-- A mask of ones keeps a number that is no longer than it.
bit_and-ones : (p a : ℕ) → a ≤ ones p → bit_and a (ones p) ≡ a
unfolding ones
bit_and-ones zero a h = let e : a ≡ 0 = omega arith in rw e (bit_and-bitwise 0 0)
bit_and-ones (suc p) a h =
    let half : (2 * ones p + 1) / 2 ≡ ones p = omega arith in
    let ih : bit_and (a / 2) ((2 * ones p + 1) / 2) ≡ a / 2 =
      rw half (bit_and-ones p (a / 2) (omega arith)) in
    omega (arith, bit_and_halves a (2 * ones p + 1), ih)

bit_and-high : (k m a : ℕ) → bit_and a (high k m) ≡ high k (bit_and (cut k a) m)
unfolding high
bit_and-high zero m a = refl
bit_and-high (suc k) m a =
    let half : 2 * high k m / 2 ≡ high k m = omega arith in
    let ih : bit_and (a / 2) (2 * high k m / 2) ≡ high k (bit_and (cut k (a / 2)) m) =
      rw half (bit_and-high k m (a / 2)) in
    omega (arith, bit_and_halves a (2 * high k m), ih)

high-injective : (k a b : ℕ) → high k a ≡ high k b → a ≡ b
unfolding high
high-injective zero a b h = h
high-injective (suc k) a b h = high-injective k a b (omega (arith, h))

-- The masks of all prefixes up to one, by evaluation.
masks_agree : ℕ → Bool
masks_agree zero = mask32 zero == high 32 (ones zero)
masks_agree (suc p) = masks_agree p && (mask32 (suc p) == high (32 - suc p) (ones (suc p)))

masks_agree-at :
    (last p : ℕ) → masks_agree last ≡ true → p ≤ last → (mask32 p == high (32 - p) (ones p)) ≡ true
unfolding masks_agree
masks_agree-at zero zero t h = t
masks_agree-at zero (suc p) t h = absurd (omega (arith, h))
masks_agree-at (suc last) p t h = elim (Bool-cases (leb p last)) [
  | inl e ↦ masks_agree-at last p (ground (arith, t)) (ground arith)
  | inr e ↦ let same : p ≡ suc last = ground arith in rw same (ground (arith, t))
]

every_mask_agrees : masks_agree 32 ≡ true
unfolding masks_agree mask32 high ones
every_mask_agrees = refl

mask32_lem : (p : ℕ) → p ≤ 32 → mask32 p ≡ high (32 - p) (ones p)
mask32_lem p h =
    (==_iff (mask32 p) (high (32 - p) (ones p))).0 (masks_agree-at 32 p every_mask_agrees h)

cut-ones : (k p q a : ℕ) → k + p ≡ q → a ≤ ones q → cut k a ≤ ones p
unfolding ones
cut-ones zero p q a e h = let same : q ≡ p = omega (arith, e) in rw same at h
cut-ones (suc k) p zero a e h = absurd (omega (arith, e))
cut-ones (suc k) p (suc q) a e h = cut-ones k p q (a / 2) (omega (arith, e)) (omega (arith, h))

ones32 : ones 32 ≡ 2 ^ 32 - 1
unfolding ones
ones32 = refl

bit_and-mask32 :
    (p a : ℕ) → p ≤ 32 → a < 2 ^ 32 → bit_and a (mask32 p) ≡ high (32 - p) (cut (32 - p) a)
bit_and-mask32 p a h lt =
    let short : a ≤ ones 32 = omega (arith, ones32) in
    rw (mask32_lem p h) (
      bit_and-high (32 - p) (ones p) a
      ∙ ap (high (32 - p))
          (bit_and-ones p (cut (32 - p) a) (cut-ones (32 - p) p 32 a (omega (arith, h)) short)))

cut_lem : (k a : ℕ) → cut k a ≡ a / 2 ^ k
cut_lem zero a = omega arith
cut_lem (suc k) a = rw (pow-succ' 2 k) (cut_lem k (a / 2) ∙ div-div-eq-div-mul a 2 (2 ^ k))

zero_below : (bound a : ℕ) → a < bound → bit_and a 0 ≡ 0
zero_below (suc bound) zero h = bit_and-bitwise 0 0
zero_below (suc bound) (suc a) h =
    let half = zero_below bound (suc a / 2) (omega (arith, h)) in
    omega (arith, half, bit_and_halves (suc a) 0)
zero_below zero a h = absurd (omega (arith, h))

pub bit_and-zero : (a : ℕ) → bit_and a 0 ≡ 0
bit_and-zero a = zero_below (suc a) a (omega arith)

-- Two addresses agree under the mask of a prefix exactly when they agree in its leading bits.
pub mask32_iff :
    (p a b : ℕ)
    → p ≤ 32
    → a < 2 ^ 32
    → b < 2 ^ 32
    → (bit_and a (mask32 p) ≡ bit_and b (mask32 p)) ↔ (a / 2 ^ (32 - p) ≡ b / 2 ^ (32 - p))
mask32_iff p a b h la lb =
    let k = 32 - p in
    let ma = bit_and-mask32 p a h la in
    let mb = bit_and-mask32 p b h lb in
    (
      λ e. sym (cut_lem k a) ∙ high-injective k _ _ (sym ma ∙ e ∙ mb) ∙ cut_lem k b,
      λ e. ma ∙ ap (high k) (cut_lem k a ∙ e ∙ sym (cut_lem k b)) ∙ sym mb,
    )
