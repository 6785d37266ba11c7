-- ===== src/Leapsectz/Refusals.antt =====
-- The files that `parseVx` of leapsectz/leapsectz.go refuses.
use ntp.Prelude.{
  ℕ, ◌+◌, ◌*◌, ◌<◌, ◌≡◌, ◌≢◌, List, [], ◌∷◌, ◌++◌, Result, err, Error, ◌==◌, if◌then◌else◌, length,
  take,
}
use ntp.Wire.{IsByte, All}
use ntp.Wire.Struct.{encode, Fits}
use ntp.Leapsectz.{LeapSecond, Header, header_layout, header_values, parse_part, parse_vx, no_round}

abbrev pub magic : List ℕ
magic = b'T' ∷ b'Z' ∷ b'i' ∷ b'f' ∷ []

-- The bytes that have to follow a header: of the first part of two, or of the only part up to its last
-- leap second.
abbrev pub needed : ℕ → Header → ℕ
needed version h =
    h.time_cnt * 5
    + h.type_cnt * 6
    + h.char_cnt
    + h.leap_cnt * 8
    + (if version == 0 then 0 else h.is_utc_cnt + h.is_std_cnt)

-- A file that does not start with the magic.
abbrev NoMagic : List ℕ → Type 0
NoMagic b = take 4 b ≢ magic

-- A version that is none of 0, '2' and '3'.
pub record BadVersion (b : List ℕ) : Type 0 where
  pub version : ℕ
  pub rest : List ℕ
  pub is : b ≡ magic ++ version ∷ rest
  pub not_zero : version ≢ 0
  pub not_two : version ≢ b'2'
  pub not_three : version ≢ b'3'

-- A header whose counts tell of more than there is behind it.
pub record Truncated (b : List ℕ) : Type 0 where
  pub version : ℕ
  pub padding : List ℕ
  pub header : Header
  pub rest : List ℕ
  pub is : b ≡ magic ++ version ∷ (padding ++ (encode header_layout (header_values header) ++ rest))
  pub padded : length padding ≡ 15
  pub header_fits : Fits header_layout (header_values header)
  pub bytes : All IsByte rest
  pub short : length rest < needed version header

abbrev Refused : List ℕ → Type 0
Refused b = (e : Error) × (parse_vx b ≡ err e)

abbrev next : List ℕ → Result (List LeapSecond)
next b = parse_part 1 no_round b
