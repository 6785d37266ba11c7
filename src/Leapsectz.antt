-- ===== src/Leapsectz.antt =====
-- leapsectz/leapsectz.go: leap seconds in a time zone file. A file is the list of its bytes: a read
-- gives what there is, and a write does not fail.
pub mod RoundTrip
pub mod Refusals
mod Examples
use ntp.Prelude.{
  ℕ, zero, suc, ◌+◌, ◌*◌, ◌%◌, ◌^◌, ◌<◌, Bool, true, false, ◌&&◌, ◌||◌, not, List, [], ◌∷◌, ◌++◌,
  map, Result, ok, err, panic, out_of_fuel, malformed, unsupported_version, ◌>>=◌, ◌==◌, ltb,
  if◌then◌else◌, length, take, drop, replicate,
}
use ntp.Prelude.Int.{ℤ, pos, ◌+ℤ◌, ◌-ℤ◌}
use ntp.Prelude.Word.{to_i64, signed32}
use ntp.Wire.Struct.{encode, binary_read}

-- `LeapSecond`: a uint64, and the bits of an int32.
pub record LeapSecond : Type 0 where
  pub tleap : ℕ
  pub nleap : ℕ

-- `LeapSecond.Time`, in seconds of the Unix epoch: the sum is a uint64, read as an int64.
unfoldable pub leap_time : LeapSecond → ℤ
unfolding to_i64 signed32
leap_time l = to_i64 (pos l.tleap -ℤ signed32 l.nleap +ℤ pos 1)

-- `Header`: six uint32.
pub record Header : Type 0 where
  pub is_utc_cnt : ℕ
  pub is_std_cnt : ℕ
  pub leap_cnt : ℕ
  pub time_cnt : ℕ
  pub type_cnt : ℕ
  pub char_cnt : ℕ

abbrev pub header_layout : List ℕ
header_layout = 4 ∷ 4 ∷ 4 ∷ 4 ∷ 4 ∷ 4 ∷ []

abbrev pub header_values : Header → List ℕ
header_values h =
    h.is_utc_cnt ∷ h.is_std_cnt ∷ h.leap_cnt ∷ h.time_cnt ∷ h.type_cnt ∷ h.char_cnt ∷ []

unfoldable pub header_of_values : List ℕ → Result Header
header_of_values (u ∷ s ∷ l ∷ t ∷ k ∷ c ∷ []) = ok (record {
  is_utc_cnt = u;
  is_std_cnt = s;
  leap_cnt = l;
  time_cnt = t;
  type_cnt = k;
  char_cnt = c;
})
header_of_values _ = panic

-- The two forms of a record of the file: pairs of a uint32, or the struct.
abbrev pub leap_layout : ℕ → List ℕ
leap_layout version = if version == 0 then 4 ∷ 4 ∷ [] else 8 ∷ 4 ∷ []

abbrev pub leap_size : ℕ → ℕ
leap_size version = if version == 0 then 8 else 12

unfoldable pub leap_of_values : List ℕ → Result LeapSecond
leap_of_values (t ∷ n ∷ []) = ok (record { tleap = t; nleap = n })
leap_of_values _ = panic

-- The loop over the leap seconds.
unfoldable pub read_leaps : ℕ → ℕ → List ℕ → Result (List LeapSecond)
unfolding leap_of_values
read_leaps version zero b = ok []
read_leaps version (suc n) b = (binary_read (leap_layout version) b >>= leap_of_values) >>= λ l.
    read_leaps version n (drop (leap_size version) b) >>= λ ls. ok (l ∷ ls)

-- The bytes between the header and the leap seconds, with the whole first part of a file of two parts.
abbrev pub is_first_of_two : ℕ → ℕ → Bool
is_first_of_two v version = (v == 0) && ltb 0 version

unfoldable pub skip_size : ℕ → ℕ → Header → ℕ
skip_size v version h =
    (h.time_cnt * (if v == 0 then 5 else 9) + h.type_cnt * 6 + h.char_cnt)
    + (if is_first_of_two v version then h.leap_cnt * 8 + h.is_utc_cnt + h.is_std_cnt else 0)

-- A round of the loop over the parts, from behind the header on; `next` is the round behind it.
unfoldable pub parse_body :
    ℕ → (List ℕ → Result (List LeapSecond)) → ℕ → Header → List ℕ → Result (List LeapSecond)
unfolding read_leaps skip_size
parse_body v next version h b =
    let skip = skip_size v version h in
    if ltb (length b) skip
    then err malformed
    else (if is_first_of_two v version
        then next (drop skip b)
        else read_leaps version h.leap_cnt (drop skip b))

-- `string(magic) != "TZif"`.
abbrev pub is_magic : List ℕ → Bool
is_magic (t ∷ z ∷ i ∷ f ∷ []) = (t == b'T') && (z == b'Z') && (i == b'i') && (f == b'f')
is_magic _ = false

abbrev pub is_version : ℕ → Bool
is_version version = (version == 0) || (version == b'2') || (version == b'3')

-- The version and the padding are sixteen bytes.
unfoldable pub parse_version :
    ℕ → (List ℕ → Result (List LeapSecond)) → List ℕ → List ℕ → Result (List LeapSecond)
unfolding parse_body header_of_values
parse_version v next [] b = err malformed
parse_version v next (version ∷ padding) b =
    if not (length padding == 15)
    then err malformed
    else (if not (is_version version)
        then err unsupported_version
        else (if ltb version v
            then err malformed
            else ((binary_read header_layout b >>= header_of_values) >>= λ h.
                parse_body v next version h (drop 24 b))))

unfoldable pub parse_part :
    ℕ → (List ℕ → Result (List LeapSecond)) → List ℕ → Result (List LeapSecond)
unfolding parse_version
parse_part v next b =
    if is_magic (take 4 b)
    then parse_version v next (take 16 (drop 4 b)) (drop 20 b)
    else err malformed

-- `parseVx`: two rounds at most; the loop is not left by its condition, or it has read nothing.
abbrev pub no_round : List ℕ → Result (List LeapSecond)
no_round rest = ok []

unfoldable pub parse_vx : List ℕ → Result (List LeapSecond)
unfolding parse_part
parse_vx b = parse_part 0 (parse_part 1 no_round) b

-- `prepareHeader`.
abbrev pub prepared : ℕ → ℕ → Header
prepared ls_cnt name_length = record {
  is_utc_cnt = 1;
  is_std_cnt = 1;
  leap_cnt = ls_cnt % 2 ^ 32;
  time_cnt = 0;
  type_cnt = 1;
  char_cnt = name_length % 2 ^ 32;
}

unfoldable pub prepare_header : ℕ → ℕ → List ℕ → List ℕ
unfolding encode
prepare_header ver ls_cnt name =
    b'T' ∷ b'Z' ∷ b'i' ∷ b'f' ∷ ver ∷ replicate 15 0
    ++ encode header_layout (header_values (prepared ls_cnt (length name)))

-- `writePreData` and `writePostData`.
abbrev pub pre_data : List ℕ → List ℕ
pre_data name = replicate 6 0 ++ name

abbrev pub post_data : List ℕ
post_data = 0 ∷ 0 ∷ []

-- The records of either form.
unfoldable pub leaps_v0 : List LeapSecond → List ℕ
unfolding encode
leaps_v0 [] = []
leaps_v0 (l ∷ ls) = encode (4 ∷ 4 ∷ []) (l.tleap % 2 ^ 32 ∷ l.nleap ∷ []) ++ leaps_v0 ls

unfoldable pub leaps_v2 : List LeapSecond → List ℕ
unfolding encode
leaps_v2 [] = []
leaps_v2 (l ∷ ls) = encode (8 ∷ 4 ∷ []) (l.tleap ∷ l.nleap ∷ []) ++ leaps_v2 ls

abbrev pub name_formatted : List ℕ → List ℕ
name_formatted [] = b'U' ∷ b'T' ∷ b'C' ∷ 0 ∷ []
name_formatted (c ∷ cs) = (c ∷ cs) ++ 0 ∷ []

abbrev pub part : List ℕ → List ℕ → List ℕ → List ℕ
part header name leaps = header ++ (pre_data name ++ (leaps ++ post_data))

-- `Write`: what it has written at the end.
unfoldable pub write : ℕ → List LeapSecond → List ℕ → Result (List ℕ)
unfolding prepare_header leaps_v0 leaps_v2
write ver ls name =
    let formatted = name_formatted name in
    let header = prepare_header ver (length ls) formatted in
    let first = part header formatted (leaps_v0 ls) in
    let second = part header formatted (leaps_v2 ls) ++ (b'\n' ∷ (name ++ b'\n' ∷ [])) in
    if (ver == 0) || (ver == b'2')
    then ok (if ver == b'2' then first ++ second else first)
    else err unsupported_version
