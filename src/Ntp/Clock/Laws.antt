-- ===== src/Ntp/Clock/Laws.antt =====
-- NTP timestamps lose at most a nanosecond, and the offset formula finds the offset.
use ntp.Prelude.{ℕ, ◌+◌, ◌-◌, ◌*◌, ◌/◌, ◌%◌, ◌^◌, ◌≤◌, ◌<◌, ◌≡◌, ap, arith}
use ntp.Prelude.Int.{ℤ, pos, negsuc, pos_part, neg_part, ◌+ℤ◌, ◌-ℤ◌, ◌≤ℤ◌, int_laws, +ℤ_parts}
use ntp.Prelude.Word.{
  to_i64_fits, saturate_fits, to_i64-pos, quot-pos, low_bits-pos, mul-pos, sub-pos, scale_parts,
}
use mathlib.Core.Path.{ap₂}
use ntp.Ntp.Clock.{
  second, nanoseconds_to_unix, time, unix, abs, avg_network_delay, current_real_time,
  calculate_offset,
}

-- From 1900 to the end of the range of an `int64`, the seconds are counted modulo 2^32, and the
-- fraction is the nanoseconds scaled to 2^32, rounded down.
pub time_since :
    (t : ℤ) (n : ℕ)
    → t +ℤ pos nanoseconds_to_unix ≡ pos n
    → n < 2 ^ 63
    → time t ≡ (n / second % 2 ^ 32, n % second * 2 ^ 32 / second)
unfolding time
time_since t n e h =
    rw
      (
        e,
        to_i64-pos n h,
        quot-pos,
        mul-pos (n / second) second,
        to_i64-pos (n / second * second) (omega arith),
        sub-pos n (n / second * second) (omega arith),
        to_i64-pos (n - n / second * second) (omega arith),
        mul-pos (n - n / second * second) (2 ^ 32),
        to_i64-pos ((n - n / second * second) * 2 ^ 32) (omega arith),
        quot-pos,
        low_bits-pos 32 (n / second),
        low_bits-pos 32,
      )
      (ap (λ (f : ℕ). (n / second % 2 ^ 32, f)) (omega arith))

-- In the first era of NTP (1900 to 2036) `Unix` undoes `Time` up to one nanosecond, downwards.
pub unix-time :
    (t : ℤ) (n : ℕ)
    → t +ℤ pos nanoseconds_to_unix ≡ pos n
    → n < 2 ^ 32 * second
    → let s = time t in (unix s.0 s.1 ≤ℤ t) × (t ≤ℤ unix s.0 s.1 +ℤ pos 1)
unfolding unix
unix-time t n e h = rw (time_since t n e (omega arith)) (
    omega (
      int_laws,
      +ℤ_parts t (pos nanoseconds_to_unix),
      ap pos_part e,
      ap neg_part e,
      scale_parts (pos (n / second % 2 ^ 32) -ℤ pos (nanoseconds_to_unix / second)) second,
    ))

-- Timestamps repeat after one era of 2^32 seconds.
time-era :
    (t : ℤ) (n : ℕ)
    → t +ℤ pos nanoseconds_to_unix ≡ pos n
    → n + 2 ^ 32 * second < 2 ^ 63
    → time (t +ℤ pos (2 ^ 32 * second)) ≡ time t
time-era t n e h =
    let later : t +ℤ pos (2 ^ 32 * second) +ℤ pos nanoseconds_to_unix ≡ pos (n + 2 ^ 32 * second) =
      omega (int_laws, ap pos_part e, ap neg_part e) in
    rw (time_since t n e (omega arith), time_since _ _ later h)
      (ap₂ (λ (a b : ℕ). (a, b)) (omega arith) (omega arith))

-- In the first era `Time` undoes `Unix` on the seconds, and on the fraction up to five of its units.
time-unix :
    (s f : ℕ)
    → s < 2 ^ 32
    → f < 2 ^ 32
    → let r = time (unix s f) in (r.0 ≡ s) × (r.1 ≤ f) × (f ≤ r.1 + 5)
unfolding unix
time-unix s f hs hf =
    let n : ℕ = s * second + f * second / 2 ^ 32 in
    let e : unix s f +ℤ pos nanoseconds_to_unix ≡ pos n =
      omega (int_laws, scale_parts (pos s -ℤ pos (nanoseconds_to_unix / second)) second) in
    rw (time_since (unix s f) n e (omega arith)) (omega arith)

abs-pos : (n : ℕ) → abs (pos n) ≡ pos n
unfolding abs
abs-pos n = ground arith

-- With the server's clock ahead by `theta` and paths that take `d1` and `d2`, the average delay is
-- half of the round trip, whatever the offset is.
module _ (client_transmit server_transmit theta : ℤ) (d1 d2 : ℕ) (fits : d1 + d2 < 2 ^ 62)
    (theta_low : negsuc (2 ^ 61) ≤ℤ theta) (theta_high : theta ≤ℤ pos (2 ^ 61)) where
  avg_network_delay_symmetric :
      avg_network_delay client_transmit
        (client_transmit +ℤ pos d1 +ℤ theta)
        server_transmit
        (server_transmit +ℤ pos d2 -ℤ theta)
      ≡ pos ((d1 + d2) / 2)
  unfolding avg_network_delay
  avg_network_delay_symmetric =
      let forward : client_transmit +ℤ pos d1 +ℤ theta -ℤ client_transmit ≡ pos d1 +ℤ theta =
        omega int_laws in
      let back : server_transmit +ℤ pos d2 -ℤ theta -ℤ server_transmit ≡ pos d2 -ℤ theta =
        omega int_laws in
      let whole : pos d1 +ℤ theta +ℤ (pos d2 -ℤ theta) ≡ pos (d1 + d2) = omega int_laws in
      rw (
        forward,
        back,
        saturate_fits (pos d1 +ℤ theta) (omega int_laws) (omega int_laws),
        saturate_fits (pos d2 -ℤ theta) (omega int_laws) (omega int_laws),
        whole,
        to_i64-pos (d1 + d2) (omega arith),
        abs-pos,
        quot-pos,
      )

  -- The computed offset is the true one up to half of the asymmetry of the paths.
  pub calculate_offset_error :
      let local = server_transmit +ℤ pos d2 -ℤ theta in
      let delay =
        avg_network_delay client_transmit
          (client_transmit +ℤ pos d1 +ℤ theta)
          server_transmit
          local in
      let offset = calculate_offset (current_real_time server_transmit delay) local in
      offset +ℤ pos d2 ≡ theta +ℤ pos ((d1 + d2) / 2)
  unfolding calculate_offset current_real_time
  calculate_offset_error =
      let local : ℤ = server_transmit +ℤ pos d2 -ℤ theta in
      rw avg_network_delay_symmetric (
        rw
          (to_i64_fits (server_transmit +ℤ pos ((d1 + d2) / 2) -ℤ local) (omega int_laws)
            (omega int_laws))
          (omega int_laws))
