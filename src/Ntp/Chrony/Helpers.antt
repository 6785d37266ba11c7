-- ===== src/Ntp/Chrony/Helpers.antt =====
-- ntp/chrony/helpers.go: addresses, times and floats of chronyd.
use ntp.Prelude.{
  ℕ, ◌+◌, ◌*◌, ◌/◌, ◌%◌, ◌^◌, Bool, true, false, ◌&&◌, Option, none, some, List, [], ◌∷◌, ◌++◌,
  bit_or, ◌==◌, leb, if◌then◌else◌, length, take, drop, replicate,
}
use ntp.Prelude.Int.{ℤ, pos, ◌+ℤ◌, ◌-ℤ◌, ◌*ℤ◌}
use ntp.Prelude.Word.{signed64}
use ntp.Wire.{put_be}

abbrev pub ip_addr_inet4 : ℕ
ip_addr_inet4 = 1

abbrev pub ip_addr_inet6 : ℕ
ip_addr_inet6 = 2

-- `ipAddr`: `IP` is the number of its sixteen bytes.
pub record IpAddr : Type 0 where
  pub ip : ℕ
  pub family : ℕ
  pub pad : ℕ

-- `ToNetIP`: a `net.IP` is its bytes.
unfoldable pub to_net_ip : IpAddr → List ℕ
unfolding put_be
to_net_ip a = if a.family == ip_addr_inet4 then take 4 (put_be 16 a.ip) else put_be 16 a.ip

-- `net.IP.To4` of the standard library: four bytes, or the last four of sixteen that map an IPv4
-- address (ten zeros, then 255 twice).
abbrev is_zeros : List ℕ → Bool
is_zeros [] = true
is_zeros (b ∷ bs) = (b == 0) && is_zeros bs

abbrev is_map_prefix : List ℕ → Bool
is_map_prefix (a ∷ b ∷ []) = (a == 255) && (b == 255)
is_map_prefix _ = false

abbrev pub is_mapped : List ℕ → Bool
is_mapped ip = (length ip == 16) && is_zeros (take 10 ip) && is_map_prefix (take 2 (drop 10 ip))

abbrev pub to4 : List ℕ → Option (List ℕ)
to4 ip = if length ip == 4 then some ip else (if is_mapped ip then some (drop 12 ip) else none)

-- The number that bytes make behind `acc`.
abbrev pub number : ℕ → List ℕ → ℕ
number acc [] = acc
number acc (b ∷ bs) = number (acc * 256 + b) bs

abbrev family_of : Option (List ℕ) → ℕ
family_of none = ip_addr_inet6
family_of (some v4) = ip_addr_inet4

-- `newIPAddr`: the array holds the bytes that it is given, and zeros behind them.
unfoldable pub new_ip_addr : List ℕ → IpAddr
new_ip_addr ip = record {
  ip = number 0 (take 16 (ip ++ replicate 16 0));
  family = family_of (to4 ip);
  pad = 0;
}

-- `timeSpec`, and `ToTime` in nanoseconds since the Unix epoch: the seconds are an int64.
pub record TimeSpec : Type 0 where
  pub sec_high : ℕ
  pub sec_low : ℕ
  pub nsec : ℕ

abbrev pub no_high_sec : ℕ
no_high_sec = 0x7fffffff

unfoldable pub to_time : TimeSpec → ℤ
unfolding signed64
to_time t =
    let high = if t.sec_high == no_high_sec then 0 else t.sec_high in
    signed64 (bit_or (high * 2 ^ 32 % 2 ^ 64) t.sec_low) *ℤ pos 1000000000 +ℤ pos t.nsec

-- A float64 that is `coef` times 2 to the power `exp`; the product of `ToFloat` is exact, since the
-- coefficient has 25 bits and the exponent stays above -90 and below 39.
pub record Float : Type 0 where
  pub coef : ℤ
  pub exp : ℤ

-- `chronyFloat.ToFloat`, of the bits of the int32.
unfoldable pub to_float : ℕ → Float
to_float x =
    let exp = x / 2 ^ 25 in
    let coef = x % 2 ^ 25 in
    record {
      coef = if leb (2 ^ 24) coef then pos coef -ℤ pos (2 ^ 25) else pos coef;
      exp = (if leb 64 exp then pos exp -ℤ pos 128 else pos exp) -ℤ pos 25;
    }
