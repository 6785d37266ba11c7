-- ===== src/Prelude/Bits.antt =====
-- Masks, shifts and disjoint ors as arithmetic, at every width.
use Prim.Native.Nat.{min, max, digits, bit_and-bitwise, bit_or-bitwise}
use mathlib.Core.WellFounded
use ntp.Prelude.{
  ℕ, zero, suc, ◌+◌, ◌-◌, ◌*◌, ◌/◌, ◌%◌, ◌^◌, ◌≤◌, ◌<◌, ◌≡◌, refl, ap, arith, lt_wf, bit_and,
  bit_or,
}
use native.Mathlib.Nat.{
  pow-suc, one-le-pow, div-add-mod, mod-lt, mod-eq_of_lt, add-mul-mod_self_left, mul-le-mul_right,
  div-div-eq-div-mul,
}

-- The count of digits to go does not matter once it covers the first number.
digits-fuel :
    (z : ℕ → ℕ) (f : ℕ → ℕ → ℕ) (n m a b : ℕ) → a ≤ n → a ≤ m → digits z f n a b ≡ digits z f m a b
digits-fuel z f zero zero a b p q = refl
digits-fuel z f zero (suc m) zero b p q = refl
digits-fuel z f zero (suc m) (suc a) b p q = absurd (omega arith)
digits-fuel z f (suc n) zero zero b p q = refl
digits-fuel z f (suc n) zero (suc a) b p q = absurd (omega arith)
digits-fuel z f (suc n) (suc m) zero b p q = refl
digits-fuel z f (suc n) (suc m) (suc a) b p q =
    ap (λ (t : ℕ). t * 2 + f (suc a % 2) (b % 2))
      (digits-fuel z f n m (suc a / 2) (b / 2) (omega arith) (omega arith))

pub bit_and-zero_left : (b : ℕ) → bit_and 0 b ≡ 0
bit_and-zero_left b = bit_and-bitwise 0 b

pub bit_or-zero_left : (b : ℕ) → bit_or 0 b ≡ b
bit_or-zero_left b = bit_or-bitwise 0 b

-- The lowest binary digit of `&` and of `|`.
pub bit_and-digit : (a b : ℕ) → bit_and a b ≡ bit_and (a / 2) (b / 2) * 2 + min (a % 2) (b % 2)
bit_and-digit zero b = omega (arith, bit_and-zero_left b, bit_and-zero_left (b / 2))
bit_and-digit (suc a) b = omega (
  arith,
  bit_and-bitwise (suc a) b,
  bit_and-bitwise (suc a / 2) (b / 2),
  digits-fuel (λ _. 0) min a (suc a / 2) (suc a / 2) (b / 2) (omega arith) (omega arith),
)

pub bit_or-digit : (a b : ℕ) → bit_or a b ≡ bit_or (a / 2) (b / 2) * 2 + max (a % 2) (b % 2)
bit_or-digit zero b = omega (arith, bit_or-zero_left b, bit_or-zero_left (b / 2))
bit_or-digit (suc a) b = omega (
  arith,
  bit_or-bitwise (suc a) b,
  bit_or-bitwise (suc a / 2) (b / 2),
  digits-fuel (λ b. b) max a (suc a / 2) (suc a / 2) (b / 2) (omega arith) (omega arith),
)

pub bit_and-zero : (a : ℕ) → bit_and a 0 ≡ 0
bit_and-zero a =
    WellFounded.induction lt_wf {C = λ k. bit_and k 0 ≡ 0} a
      λ k ih. ground (arith, bit_and-zero_left 0, bit_and-digit k 0, ih (k / 2))

pub bit_or-zero : (a : ℕ) → bit_or a 0 ≡ a
bit_or-zero a =
    WellFounded.induction lt_wf {C = λ k. bit_or k 0 ≡ k} a
      λ k ih. ground (arith, bit_or-zero_left 0, bit_or-digit k 0, ih (k / 2))

two_pow_suc : (q k : ℕ) → q * 2 ^ suc k ≡ 2 * (q * 2 ^ k)
two_pow_suc q k = omega (arith, ap (λ (t : ℕ). q * t) (pow-suc 2 k))

-- A remainder by a product, digit by digit.
pub mod_split : (a n p : ℕ) → 0 < n → 0 < p → a / n % p * n + a % n ≡ a % (n * p)
mod_split a n p hn hp =
    let low : ℕ = a / n % p * n + a % n in
    let parts : a ≡ low + n * p * (a / n / p) =
      omega (arith, div-add-mod a n, ap (λ (t : ℕ). t * n) (div-add-mod (a / n) p)) in
    let digit : suc (a / n % p) * n ≤ p * n = mul-le-mul_right n (mod-lt (a / n) hp) in
    omega (
      arith,
      ap (λ (t : ℕ). t % (n * p)) parts,
      add-mul-mod_self_left low (n * p) (a / n / p),
      mod-eq_of_lt {n = low} {m = n * p} (omega (arith, mod-lt a hn)),
    )

-- `a & (2^k - 1)` keeps the `k` low bits.
pub bit_and-mask : (k a : ℕ) → bit_and a (2 ^ k - 1) ≡ a % 2 ^ k
bit_and-mask zero a = omega (arith, bit_and-zero a)
bit_and-mask (suc k) a = ground (
  arith,
  bit_and-digit a (2 ^ suc k - 1),
  pow-suc 2 k,
  one-le-pow k 2,
  bit_and-mask k (a / 2),
  mod_split a 2 (2 ^ k),
)

-- `a & (m << s)` is the field that `m` selects from `a >> s`, put back in place.
pub bit_and-shifted : (s a m : ℕ) → bit_and a (m * 2 ^ s) ≡ bit_and (a / 2 ^ s) m * 2 ^ s
bit_and-shifted zero a m = ground arith
bit_and-shifted (suc s) a m = ground (
  arith,
  bit_and-digit a (m * 2 ^ suc s),
  two_pow_suc m s,
  bit_and-shifted s (a / 2) m,
  two_pow_suc (bit_and (a / 2 ^ suc s) m) s,
  div-div-eq-div-mul a 2 (2 ^ s),
  pow-suc 2 s,
)

-- `(q << k) | r` is a sum when `r` fits `k` bits.
pub bit_or-shifted : (k q r : ℕ) → r < 2 ^ k → bit_or (q * 2 ^ k) r ≡ q * 2 ^ k + r
bit_or-shifted zero q r h = ground (arith, bit_or-zero q)
bit_or-shifted (suc k) q r h = ground (
  arith,
  bit_or-digit (q * 2 ^ suc k) r,
  two_pow_suc q k,
  pow-suc 2 k,
  bit_or-shifted k q (r / 2),
)
