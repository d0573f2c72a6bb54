-- ===== src/Prelude/Bits.antt =====
-- The digits of `bit_and`, for masks of a few ones.
use Prim.Native.Nat.{
  ℕ, zero, suc, ◌+◌, ◌-◌, ◌*◌, ◌/◌, ◌%◌, ◌^◌, ◌≤◌, min, bit_and, digits, bit_and-bitwise,
}
use mathlib.Core.Path.{◌≡◌, refl, sym, ap, ◌∙◌}
use native.Mathlib.Omega.{arith}
use native.Mathlib.Nat.{div-div-eq-div-mul, pow-suc}

abbrev conj : ℕ → ℕ → ℕ → ℕ
conj n a b = digits (λ b. zero) min n a b

-- More rounds than the first number's digits change nothing.
conj-suc : (n a b : ℕ) → a ≤ n → conj (suc n) a b ≡ conj n a b
conj-suc zero zero b h = refl
conj-suc zero (suc a) b h = absurd (omega arith)
conj-suc (suc n) zero b h = refl
conj-suc (suc n) (suc a) b h =
    ap (λ d. d * 2 + min (suc a % 2) (b % 2)) (conj-suc n (suc a / 2) (b / 2) (omega arith))

conj-add : (k a b : ℕ) → conj (k + a) a b ≡ conj a a b
conj-add zero a b = let e : 0 + a ≡ a = omega arith in ap (λ n. conj n a b) e
conj-add (suc k) a b =
    let e : suc k + a ≡ suc (k + a) = omega arith in
    ap (λ n. conj n a b) e ∙ conj-suc (k + a) a b (omega arith) ∙ conj-add k a b

lowest_digit : (a b : ℕ) → bit_and a b ≡ bit_and (a / 2) (b / 2) * 2 + min (a % 2) (b % 2)
lowest_digit zero b =
    let l = bit_and-bitwise 0 b in let r = bit_and-bitwise 0 (b / 2) in omega (arith, l, r)
lowest_digit (suc a) b =
    let q = suc a / 2 in
    let rounds : (a - q) + q ≡ a = omega arith in
    bit_and-bitwise (suc a) b
    ∙ ap (λ n. conj n q (b / 2) * 2 + min (suc a % 2) (b % 2)) (sym rounds)
    ∙ ap (λ d. d * 2 + min (suc a % 2) (b % 2))
        (conj-add (a - q) q (b / 2) ∙ sym (bit_and-bitwise q (b / 2)))

pub bit_and-even : (a m : ℕ) → bit_and a (2 * m) ≡ 2 * bit_and (a / 2) m
bit_and-even a m =
    let half : 2 * m / 2 ≡ m = omega arith in
    let d = lowest_digit a (2 * m) in let e = ap (bit_and (a / 2)) half in omega (arith, d, e)

pub bit_and-odd : (a m : ℕ) → bit_and a (2 * m + 1) ≡ 2 * bit_and (a / 2) m + a % 2
bit_and-odd a m =
    let half : (2 * m + 1) / 2 ≡ m = omega arith in
    let d = lowest_digit a (2 * m + 1) in let e = ap (bit_and (a / 2)) half in omega (arith, d, e)

zero_fuel : (n a : ℕ) → a ≤ n → bit_and a 0 ≡ 0
zero_fuel n zero h = refl
zero_fuel zero (suc a) h = absurd (omega arith)
zero_fuel (suc n) (suc a) h =
    let z = zero_fuel n (suc a / 2) (omega arith) in
    let e = bit_and-even (suc a) 0 in omega (arith, z, e)

-- Masks of one to four ones.
bit_and-1 : (a : ℕ) → bit_and a 1 ≡ a % 2
bit_and-1 a =
    let z = zero_fuel (a / 2) (a / 2) (omega arith) in
    let e = bit_and-odd a 0 in omega (arith, z, e)

pub bit_and-3 : (a : ℕ) → bit_and a 3 ≡ a % 4
bit_and-3 a = let l = bit_and-1 (a / 2) in let e = bit_and-odd a 1 in omega (arith, l, e)

pub bit_and-7 : (a : ℕ) → bit_and a 7 ≡ a % 8
bit_and-7 a = let l = bit_and-3 (a / 2) in let e = bit_and-odd a 3 in omega (arith, l, e)

pub bit_and-15 : (a : ℕ) → bit_and a 15 ≡ a % 16
bit_and-15 a = let l = bit_and-7 (a / 2) in let e = bit_and-odd a 7 in omega (arith, l, e)

-- A mask that is shifted to the left.
pub bit_and-shift : (k a m : ℕ) → bit_and a (m * 2 ^ k) ≡ bit_and (a / 2 ^ k) m * 2 ^ k
bit_and-shift zero a m =
    let l : m * 1 ≡ m = omega arith in
    let r : a / 1 ≡ a = omega arith in
    ap (bit_and a) l ∙ sym (ap (λ x. bit_and x m) r) ∙ omega arith
bit_and-shift (suc k) a m =
    let twice : m * 2 ^ suc k ≡ 2 * (m * 2 ^ k) = grind (arith, pow-suc 2 k) in
    let halves : a / 2 / 2 ^ k ≡ a / 2 ^ suc k =
      div-div-eq-div-mul a 2 (2 ^ k) ∙ ap (λ p. a / p) (grind (arith, pow-suc 2 k)) in
    ap (bit_and a) twice
    ∙ bit_and-even a (m * 2 ^ k)
    ∙ ap (λ x. 2 * x) (bit_and-shift k (a / 2) m)
    ∙ ap (λ x. 2 * (bit_and x m * 2 ^ k)) halves
    ∙ grind (arith, pow-suc 2 k)
