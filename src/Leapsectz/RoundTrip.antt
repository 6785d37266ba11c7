-- ===== src/Leapsectz/RoundTrip.antt =====
-- What `parseVx` reads of what `Write` has written.
use ntp.Prelude.{
  ℕ, ◌*◌, ◌%◌, ◌^◌, ◌<◌, ◌≡◌, refl, ap, sym, ◌∙◌, Bool, true, false, List, [], ◌∷◌, ◌++◌, map,
  Result, ok, err, malformed, unsupported_version, not, ◌>>=◌, ltb, if◌then◌else◌, length, drop,
  replicate, length-append, drop-append, arith,
}
use mathlib.Core.List.{append_assoc}
use ntp.Wire.{All, put_be}
use ntp.Wire.Struct.{encode, binary_read, binary_read-encode}
use ntp.Leapsectz.{
  LeapSecond, Header, header_layout, header_values, header_of_values, leap_of_values, read_leaps,
  skip_size, parse_body, parse_version, parse_part, parse_vx, no_round, is_version, is_first_of_two,
  prepared, prepare_header, pre_data, post_data, leaps_v0, leaps_v2, name_formatted, part, write,
}

-- The fields fit their types.
pub record IsLeapSecond (l : LeapSecond) : Type 0 where
  pub tleap_fits : l.tleap < 2 ^ 64
  pub nleap_fits : l.nleap < 2 ^ 32

-- The low half of the time, which is what version 0 holds.
abbrev pub cut : LeapSecond → LeapSecond
cut l = record { tleap = l.tleap % 2 ^ 32; nleap = l.nleap }

read_leaps-leaps_v0 :
    (ls : List LeapSecond) (rest : List ℕ)
    → All IsLeapSecond ls
    → read_leaps 0 (length ls) (leaps_v0 ls ++ rest) ≡ ok (map cut ls)
unfolding read_leaps leaps_v0 leap_of_values encode put_be
read_leaps-leaps_v0 [] rest h = refl
read_leaps-leaps_v0 (l ∷ ls) rest h =
    let vs : List ℕ = l.tleap % 2 ^ 32 ∷ l.nleap ∷ [] in
    let read : binary_read (4 ∷ 4 ∷ []) (leaps_v0 (l ∷ ls) ++ rest) ≡ ok vs =
      binary_read-encode (4 ∷ 4 ∷ []) vs (leaps_v0 ls ++ rest) (omega arith, (h.0.nleap_fits, tt))
        (omega arith) in
    ap
      (λ (r : Result (List ℕ)). (r >>= leap_of_values) >>= λ x.
        read_leaps 0 (length ls) (leaps_v0 ls ++ rest) >>= λ xs. ok (x ∷ xs))
      read
    ∙ ap (λ (r : Result (List LeapSecond)). r >>= λ xs. ok (cut l ∷ xs))
        (read_leaps-leaps_v0 ls rest h.1)

read_leaps-leaps_v2 :
    (ls : List LeapSecond) (rest : List ℕ)
    → All IsLeapSecond ls
    → read_leaps b'2' (length ls) (leaps_v2 ls ++ rest) ≡ ok ls
unfolding read_leaps leaps_v2 leap_of_values encode put_be
read_leaps-leaps_v2 [] rest h = refl
read_leaps-leaps_v2 (l ∷ ls) rest h =
    let vs : List ℕ = l.tleap ∷ l.nleap ∷ [] in
    let read : binary_read (8 ∷ 4 ∷ []) (leaps_v2 (l ∷ ls) ++ rest) ≡ ok vs =
      binary_read-encode (8 ∷ 4 ∷ []) vs (leaps_v2 ls ++ rest)
        (h.0.tleap_fits, (h.0.nleap_fits, tt)) (omega arith) in
    ap
      (λ (r : Result (List ℕ)). (r >>= leap_of_values) >>= λ x.
        read_leaps b'2' (length ls) (leaps_v2 ls ++ rest) >>= λ xs. ok (x ∷ xs))
      read
    ∙ ap (λ (r : Result (List LeapSecond)). r >>= λ xs. ok (l ∷ xs))
        (read_leaps-leaps_v2 ls rest h.1)

-- A written part whose header has the given version, in either round.
parse_part-header :
    (v ver ls_cnt : ℕ) (next : List ℕ → Result (List LeapSecond)) (name rest : List ℕ)
    → is_version ver ≡ true
    → ltb ver v ≡ false
    → parse_part v next (prepare_header ver ls_cnt name ++ rest)
      ≡ parse_body v next ver (prepared ls_cnt (length name)) rest
unfolding parse_part parse_version prepare_header encode put_be header_of_values
parse_part-header v ver ls_cnt next name rest known le =
    let vs : List ℕ = header_values (prepared ls_cnt (length name)) in
    let read : binary_read header_layout (encode header_layout vs ++ rest) ≡ ok vs =
      binary_read-encode header_layout vs rest (omega arith) (omega arith) in
    let from : Result (List ℕ) → Result (List LeapSecond) =
      λ r. (r >>= header_of_values) >>= λ h. parse_body v next ver h rest in
    let whole : Result (List ℕ) = binary_read header_layout (encode header_layout vs ++ rest) in
    ap
      (λ (k : Bool).
        if not k
        then err unsupported_version
        else (if ltb ver v then err malformed else from whole))
      known
    ∙ ap (λ (k : Bool). if k then err malformed else from whole) le
    ∙ ap from read

-- A body behind the bytes to skip.
enough : (n : ℕ) (front rest : List ℕ) → length front ≡ n → ltb (length (front ++ rest)) n ≡ false
enough n front rest h = ground (arith, length-append front rest, h)

body_last :
    (v ver : ℕ) (next : List ℕ → Result (List LeapSecond)) (h : Header) (front rest : List ℕ)
    → is_first_of_two v ver ≡ false
    → length front ≡ skip_size v ver h
    → parse_body v next ver h (front ++ rest) ≡ read_leaps ver h.leap_cnt rest
unfolding parse_body
body_last v ver next h front rest last size =
    let n : ℕ = skip_size v ver h in
    let b : List ℕ = drop n (front ++ rest) in
    let body : Bool → Result (List LeapSecond) =
      λ k. if k then next b else read_leaps ver h.leap_cnt b in
    ap (λ (k : Bool). if k then err malformed else body (is_first_of_two v ver))
      (enough n front rest size)
    ∙ ap body last
    ∙ ap (read_leaps ver h.leap_cnt) (drop-append n front rest (sym size))

body_first :
    (v ver : ℕ) (next : List ℕ → Result (List LeapSecond)) (h : Header) (front rest : List ℕ)
    → is_first_of_two v ver ≡ true
    → length front ≡ skip_size v ver h
    → parse_body v next ver h (front ++ rest) ≡ next rest
unfolding parse_body
body_first v ver next h front rest first size =
    let n : ℕ = skip_size v ver h in
    let b : List ℕ = drop n (front ++ rest) in
    let body : Bool → Result (List LeapSecond) =
      λ k. if k then next b else read_leaps ver h.leap_cnt b in
    ap (λ (k : Bool). if k then err malformed else body (is_first_of_two v ver))
      (enough n front rest size)
    ∙ ap body first
    ∙ ap next (drop-append n front rest (sym size))

length-leaps_v0 : (ls : List LeapSecond) → length (leaps_v0 ls) ≡ length ls * 8
unfolding leaps_v0 encode put_be
length-leaps_v0 [] = refl
length-leaps_v0 (l ∷ ls) = omega (arith, length-leaps_v0 ls)

-- The last part of a written file: the name is skipped, and the leap seconds are read.
leaps_read :
    (v ver : ℕ) (next : List ℕ → Result (List LeapSecond)) (ls : List LeapSecond)
    (name rest : List ℕ)
    → is_first_of_two v ver ≡ false
    → length ls < 2 ^ 32
    → length name < 2 ^ 32
    → parse_body v next ver (prepared (length ls) (length name)) (pre_data name ++ rest)
      ≡ read_leaps ver (length ls) rest
unfolding skip_size
leaps_read v ver next ls name rest last few short =
    let size : length (pre_data name) ≡ skip_size v ver (prepared (length ls) (length name)) =
      ground (arith, last, length-append (replicate 6 0) name) in
    let count : length ls % 2 ^ 32 ≡ length ls = omega arith in
    body_last v ver next (prepared (length ls) (length name)) (pre_data name) rest last size
    ∙ ap (λ n. read_leaps ver n rest) count

part_skipped :
    (ver : ℕ) (next : List ℕ → Result (List LeapSecond)) (ls : List LeapSecond) (name rest : List ℕ)
    → is_first_of_two 0 ver ≡ true
    → length ls < 2 ^ 32
    → length name < 2 ^ 32
    → parse_body 0 next ver
        (prepared (length ls) (length name))
        (pre_data name ++ (leaps_v0 ls ++ (post_data ++ rest)))
      ≡ next rest
unfolding skip_size
part_skipped ver next ls name rest first few short =
    let front : List ℕ = pre_data name ++ (leaps_v0 ls ++ post_data) in
    let size : length front ≡ skip_size 0 ver (prepared (length ls) (length name)) = ground (
      arith,
      first,
      length-append name (leaps_v0 ls ++ post_data),
      length-append (leaps_v0 ls) post_data,
      length-leaps_v0 ls,
    ) in
    let same : front ++ rest ≡ pre_data name ++ (leaps_v0 ls ++ (post_data ++ rest)) =
      simp append_assoc in
    ap (parse_body 0 next ver (prepared (length ls) (length name))) (sym same)
    ∙ body_first 0 ver next (prepared (length ls) (length name)) front rest first size

-- A file that is written in version 0, for fewer than 2^32 leap seconds and a name that a uint32 can
-- count with its end, is parsed as the same leap seconds, of whose times it keeps the low 32 bits.
parse_vx-write_v0 :
    (ls : List LeapSecond) (name : List ℕ)
    → All IsLeapSecond ls
    → length ls < 2 ^ 32
    → length (name_formatted name) < 2 ^ 32
    → (b : List ℕ) × (write 0 ls name ≡ ok b) × (parse_vx b ≡ ok (map cut ls))
unfolding write parse_vx
parse_vx-write_v0 ls name fits few short =
    let formatted : List ℕ = name_formatted name in
    (
      part (prepare_header 0 (length ls) formatted) formatted (leaps_v0 ls),
      refl,
      parse_part-header 0 0 (length ls) (parse_part 1 no_round) formatted
            (pre_data formatted ++ (leaps_v0 ls ++ post_data)) refl refl
          ∙ leaps_read 0 0 (parse_part 1 no_round) ls formatted (leaps_v0 ls ++ post_data) refl few
              short
          ∙ read_leaps-leaps_v0 ls post_data fits,
    )

-- A file that is written in version 2 is parsed as the same leap seconds, times of 64 bits included:
-- the parser skips the first part of the file to the byte, and reads the second.
pub parse_vx-write_v2 :
    (ls : List LeapSecond) (name : List ℕ)
    → All IsLeapSecond ls
    → length ls < 2 ^ 32
    → length (name_formatted name) < 2 ^ 32
    → (b : List ℕ) × (write b'2' ls name ≡ ok b) × (parse_vx b ≡ ok ls)
unfolding write parse_vx
parse_vx-write_v2 ls name fits few short =
    let formatted : List ℕ = name_formatted name in
    let header : List ℕ = prepare_header b'2' (length ls) formatted in
    let posix : List ℕ = b'\n' ∷ (name ++ b'\n' ∷ []) in
    let second : List ℕ = part header formatted (leaps_v2 ls) ++ posix in
    let again : List ℕ → Result (List LeapSecond) = parse_part 1 no_round in
    let behind : List ℕ = leaps_v2 ls ++ (post_data ++ posix) in
    let whole : part header formatted (leaps_v0 ls) ++ second
        ≡ header ++ (pre_data formatted ++ (leaps_v0 ls ++ (post_data ++ second))) =
      simp append_assoc in
    let half : second ≡ header ++ (pre_data formatted ++ behind) = simp append_assoc in
    (
      part header formatted (leaps_v0 ls) ++ second,
      refl,
      ap (parse_part 0 again) whole
          ∙ parse_part-header 0 b'2' (length ls) again formatted
              (pre_data formatted ++ (leaps_v0 ls ++ (post_data ++ second))) refl refl
          ∙ part_skipped b'2' again ls formatted second refl few short
          ∙ ap again half
          ∙ parse_part-header 1 b'2' (length ls) no_round formatted (pre_data formatted ++ behind)
              refl refl
          ∙ leaps_read 1 b'2' no_round ls formatted behind refl few short
          ∙ read_leaps-leaps_v2 ls (post_data ++ posix) fits,
    )
