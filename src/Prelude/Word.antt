-- ===== src/Prelude/Word.antt =====
-- Go's fixed-width integers over ℤ: conversions wrap, `/` truncates, a time difference saturates.
use ntp.Prelude.{
  ℕ, zero, suc, ◌+◌, ◌-◌, ◌*◌, ◌/◌, ◌%◌, ◌^◌, ◌<◌, ◌≤◌, ◌≡◌, refl, arith, ltb, leb, if◌then◌else◌,
}
use native.Mathlib.Nat.{mod-lt}
use ntp.Prelude.Int.{ℤ, pos, negsuc, pos_part, neg_part, ◌+ℤ◌, ◌-ℤ◌, ◌*ℤ◌, ◌≤ℤ◌}

-- The low `w` bits of an integer, as an unsigned number.
unfoldable pub low_bits : ℕ → ℤ → ℕ
low_bits w (pos n) = n % 2 ^ w
low_bits w (negsuc n) = 2 ^ w - 1 - n % 2 ^ w

abbrev pub to_u8 : ℤ → ℕ
to_u8 z = low_bits 8 z

abbrev pub to_u32 : ℤ → ℕ
to_u32 z = low_bits 32 z

-- The `int64` that a bit pattern stands for.
unfoldable pub signed64 : ℕ → ℤ
signed64 n = if ltb n (2 ^ 63) then pos n else negsuc (2 ^ 64 - 1 - n)

-- The `int32` that a bit pattern stands for.
unfoldable pub signed32 : ℕ → ℤ
signed32 n = if ltb n (2 ^ 31) then pos n else negsuc (2 ^ 32 - 1 - n)

-- The `int16` that a bit pattern stands for.
unfoldable pub signed16 : ℕ → ℤ
signed16 n = if ltb n 32768 then pos n else negsuc (65535 - n)

unfoldable pub to_i64 : ℤ → ℤ
unfolding signed64 low_bits
to_i64 z = signed64 (low_bits 64 z)

abbrev pub min_i64 : ℤ
min_i64 = negsuc (2 ^ 63 - 1)

abbrev pub max_i64 : ℤ
max_i64 = pos (2 ^ 63 - 1)

pub to_i64_fits : (z : ℤ) → min_i64 ≤ℤ z → z ≤ℤ max_i64 → to_i64 z ≡ z
unfolding to_i64
to_i64_fits (pos n) lo hi = ground arith
to_i64_fits (negsuc n) lo hi = ground arith

abbrev pub negate_ℕ : ℕ → ℤ
negate_ℕ zero = pos 0
negate_ℕ (suc n) = negsuc n

-- Go's `/` on signed integers, by a positive constant: towards zero.
unfoldable pub quot : ℤ → ℕ → ℤ
quot (pos n) d = pos (n / d)
quot (negsuc n) d = negate_ℕ ((n + 1) / d)

-- Division that rounds down, as `time.Time.Unix` does.
unfoldable pub floor_div : ℤ → ℕ → ℤ
floor_div (pos n) d = pos (n / d)
floor_div (negsuc n) d = negsuc (n / d)

-- `a.Sub(b)` of two times is a Duration, an `int64` that saturates.
unfoldable pub saturate : ℤ → ℤ
saturate z =
    if ltb (pos_part z) (2 ^ 63)
    then (if leb (neg_part z) (2 ^ 63) then z else min_i64)
    else max_i64

pub saturate_fits : (z : ℤ) → min_i64 ≤ℤ z → z ≤ℤ max_i64 → saturate z ≡ z
unfolding saturate
saturate_fits (pos n) lo hi = ground arith
saturate_fits (negsuc n) lo hi = ground arith

-- Non-negative values: the operations are those of ℕ.
pub to_i64-pos : (n : ℕ) → n < 2 ^ 63 → to_i64 (pos n) ≡ pos n
to_i64-pos n h = to_i64_fits (pos n) (omega arith) (omega arith)

pub quot-pos : (n d : ℕ) → quot (pos n) d ≡ pos (n / d)
unfolding quot
quot-pos n d = refl

pub low_bits-pos : (w n : ℕ) → low_bits w (pos n) ≡ n % 2 ^ w
unfolding low_bits
low_bits-pos w n = refl

pub mul-pos : (a b : ℕ) → pos a *ℤ pos b ≡ pos (a * b)
unfolding ◌*ℤ◌
mul-pos a b = ground arith

pub add-pos : (a b : ℕ) → pos a +ℤ pos b ≡ pos (a + b)
unfolding ◌+ℤ◌
add-pos a b = ground arith

pub sub-pos : (a b : ℕ) → b ≤ a → pos a -ℤ pos b ≡ pos (a - b)
unfolding ◌-ℤ◌
sub-pos a b h = ground arith

pub scale_parts :
    (a : ℤ) (b : ℕ)
    → pos_part (a *ℤ pos b) + neg_part a * b ≡ neg_part (a *ℤ pos b) + pos_part a * b
unfolding ◌*ℤ◌
scale_parts a b = ground arith

pub low_bits_lt : (w : ℕ) (z : ℤ) → 0 < 2 ^ w → low_bits w z < 2 ^ w
unfolding low_bits
low_bits_lt w (pos n) h = mod-lt n h
low_bits_lt w (negsuc n) h = omega arith
