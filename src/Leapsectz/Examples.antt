-- ===== src/Leapsectz/Examples.antt =====
-- Two leap seconds of the time zone database, written and read.
use ntp.Prelude.{ℕ, ◌≡◌, refl, List, [], ◌∷◌, ok, ◌++◌, replicate, arith, ◌^◌}
use ntp.Prelude.Int.{pos, ◌+ℤ◌, ◌-ℤ◌}
use ntp.Prelude.Word.{to_i64, signed32, signed64, low_bits}
use ntp.Leapsectz.{LeapSecond, header_layout, leap_time, parse_vx, write}
use ntp.Leapsectz.RoundTrip.{IsLeapSecond, parse_vx-write_v2}
use ntp.Wire.Struct.{encode}
use ntp.Wire.{All}

abbrev leap_seconds : List LeapSecond
leap_seconds = record { tleap = 78796800; nleap = 1 } ∷ record { tleap = 2 ^ 33; nleap = 2 } ∷ []

leap_seconds-IsLeapSecond : All IsLeapSecond leap_seconds
leap_seconds-IsLeapSecond = (
  record { tleap_fits = omega arith; nleap_fits = omega arith },
  (record { tleap_fits = omega arith; nleap_fits = omega arith }, tt),
)

-- The end of June 1972.
june_1972 : leap_time (record { tleap = 78796800; nleap = 1 }) ≡ pos 78796800
unfolding leap_time to_i64 signed32 signed64 low_bits ◌+ℤ◌ ◌-ℤ◌
june_1972 = refl

parse_vx-write_v2_example :
    (b : List ℕ) × (write b'2' leap_seconds [] ≡ ok b) × (parse_vx b ≡ ok leap_seconds)
parse_vx-write_v2_example =
    parse_vx-write_v2 leap_seconds [] leap_seconds-IsLeapSecond (omega arith) (omega arith)

-- A header that tells of a leap second, with nothing behind it but the rest of its first part.
abbrev cut : List ℕ
cut =
    b'T' ∷ b'Z' ∷ b'i' ∷ b'f' ∷ 0 ∷ replicate 15 0
    ++ (encode header_layout (0 ∷ 0 ∷ 1 ∷ 0 ∷ 1 ∷ 4 ∷ []) ++ replicate 10 0)
