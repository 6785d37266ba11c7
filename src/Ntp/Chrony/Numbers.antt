-- ===== src/Ntp/Chrony/Numbers.antt =====
-- The floats, the times and the addresses of ntp/chrony/helpers.go.
use ntp.Prelude.{
  ℕ, zero, suc, ◌+◌, ◌-◌, ◌*◌, ◌/◌, ◌%◌, ◌^◌, ◌<◌, ◌≡◌, refl, ap, sym, ◌∙◌, Bool, true, false,
  Bool-cases, inl, inr, List, [], ◌∷◌, ◌++◌, ok, bit_or, ◌==◌, leb, if◌then◌else◌, length, take,
  replicate, arith, length-append, length-take, take-append, take-take_append,
}
use ntp.Prelude.Int.{ℤ, pos, negsuc, ◌+ℤ◌, ◌-ℤ◌, ◌*ℤ◌, ◌≤ℤ◌, int_laws}
use ntp.Prelude.Word.{signed64, low_bits}
use ntp.Prelude.Bits.{bit_or-shifted}
use ntp.Wire.{IsByte, All, put_be, read}
use ntp.Wire.Laws.{put_be-read_acc, All-append}
use ntp.Ntp.Chrony.Helpers.{
  to_net_ip, new_ip_addr, is_mapped, number, to_time, no_high_sec, to_float, ip_addr_inet4,
}

-- A number of 25 bits with its sign, and one of 7 bits less 25.
signed_coef :
    (n : ℕ)
    → n < 2 ^ 25
    → let z = if leb (2 ^ 24) n then pos n -ℤ pos (2 ^ 25) else pos n in
      (negsuc (2 ^ 24 - 1) ≤ℤ z) × (z ≤ℤ pos (2 ^ 24 - 1)) × (low_bits 25 z ≡ n)
unfolding low_bits ◌-ℤ◌
signed_coef n h = ground arith

signed_exp :
    (n : ℕ)
    → n < 128
    → let z = if leb 64 n then pos n -ℤ pos 128 else pos n in
      (negsuc 63 ≤ℤ z) × (z ≤ℤ pos 63) × (low_bits 7 z ≡ n)
unfolding low_bits ◌-ℤ◌
signed_exp n h = ground arith

-- A float of chronyd, taken apart: the coefficient is a signed number of 25 bits, the exponent one of 7
-- bits less 25, and together they are the bits that there were.
pub to_float_bits :
    (x : ℕ)
    → x < 2 ^ 32
    → let f = to_float x in
      (negsuc (2 ^ 24 - 1) ≤ℤ f.coef)
      × (f.coef ≤ℤ pos (2 ^ 24 - 1))
      × (negsuc 88 ≤ℤ f.exp)
      × (f.exp ≤ℤ pos 38)
      × (low_bits 7 (f.exp +ℤ pos 25) * 2 ^ 25 + low_bits 25 f.coef ≡ x)
unfolding to_float
to_float_bits x h =
    let coef = signed_coef (x % 2 ^ 25) (omega arith) in
    let exp = signed_exp (x / 2 ^ 25) (omega arith) in
    let z : ℤ = if leb 64 (x / 2 ^ 25) then pos (x / 2 ^ 25) -ℤ pos 128 else pos (x / 2 ^ 25) in
    let back : z -ℤ pos 25 +ℤ pos 25 ≡ z = omega int_laws in
    let low : low_bits 7 (z -ℤ pos 25 +ℤ pos 25) ≡ x / 2 ^ 25 = ap (low_bits 7) back ∙ exp.2 in
    (coef.0, coef.1, omega (int_laws, exp.0), omega (int_laws, exp.1), omega (arith, low, coef.2))

signed64_small : (n : ℕ) → n < 2 ^ 63 → signed64 n ≡ pos n
unfolding signed64
signed64_small n h = ground arith

scaled : (sec nsec : ℕ) → pos sec *ℤ pos 1000000000 +ℤ pos nsec ≡ pos (sec * 1000000000 + nsec)
unfolding ◌*ℤ◌ ◌+ℤ◌
scaled sec nsec = ground arith

-- A time whose high word is not the mark of a 32-bit time.
to_time-split :
    (sec nsec : ℕ)
    → sec < 2 ^ 63
    → (sec / 2 ^ 32 == no_high_sec) ≡ false
    → to_time (record { sec_high = sec / 2 ^ 32; sec_low = sec % 2 ^ 32; nsec = nsec })
      ≡ pos (sec * 1000000000 + nsec)
unfolding to_time
to_time-split sec nsec h mark =
    let cut : sec / 2 ^ 32 * 2 ^ 32 % 2 ^ 64 ≡ sec / 2 ^ 32 * 2 ^ 32 = omega arith in
    let low : bit_or (sec / 2 ^ 32 * 2 ^ 32 % 2 ^ 64) (sec % 2 ^ 32) ≡ sec =
      ap (λ n. bit_or n (sec % 2 ^ 32)) cut
      ∙ bit_or-shifted 32 (sec / 2 ^ 32) (sec % 2 ^ 32) (omega arith)
      ∙ omega arith in
    let of_words : ℕ → ℤ = λ n. signed64 n *ℤ pos 1000000000 +ℤ pos nsec in
    ap
      (λ (k : Bool).
        of_words (bit_or ((if k then 0 else sec / 2 ^ 32) * 2 ^ 32 % 2 ^ 64) (sec % 2 ^ 32)))
      mark
    ∙ ap of_words low
    ∙ ap (λ (z : ℤ). z *ℤ pos 1000000000 +ℤ pos nsec) (signed64_small sec h)
    ∙ scaled sec nsec

-- A time whose high word is that mark: its seconds are the low word alone.
pub to_time-low :
    (sec_low nsec : ℕ)
    → sec_low < 2 ^ 32
    → to_time (record { sec_high = no_high_sec; sec_low = sec_low; nsec = nsec })
      ≡ pos (sec_low * 1000000000 + nsec)
unfolding to_time
to_time-low sec_low nsec h =
    let low : bit_or (0 * 2 ^ 32 % 2 ^ 64) sec_low ≡ sec_low =
      bit_or-shifted 32 0 sec_low h ∙ omega arith in
    ap (λ (n : ℕ). signed64 n *ℤ pos 1000000000 +ℤ pos nsec) low
    ∙ ap (λ (z : ℤ). z *ℤ pos 1000000000 +ℤ pos nsec) (signed64_small sec_low (omega arith))
    ∙ scaled sec_low nsec

-- An address that is given to `newIPAddr` and taken back by `ToNetIP`.
read-number : (acc : ℕ) (bs : List ℕ) → read (length bs) acc bs ≡ ok (number acc bs)
unfolding read
read-number acc [] = refl
read-number acc (b ∷ bs) = read-number (acc * 256 + b) bs

take_whole : (bs : List ℕ) → take (length bs) bs ≡ bs
take_whole [] = refl
take_whole (b ∷ bs) = ap (λ (t : List ℕ). b ∷ t) (take_whole bs)

put_be-number : (k : ℕ) (bs : List ℕ) → All IsByte bs → length bs ≡ k → put_be k (number 0 bs) ≡ bs
put_be-number k bs h e =
    let back : put_be (length bs) (number 0 bs) ≡ bs =
      (put_be-read_acc (length bs) 0 (number 0 bs) bs h (read-number 0 bs)).0 ∙ take_whole bs in
    ap (λ (n : ℕ). put_be n (number 0 bs)) (sym e) ∙ back

All-take : (n : ℕ) (bs : List ℕ) → All IsByte bs → All IsByte (take n bs)
All-take zero bs h = tt
All-take (suc n) [] h = tt
All-take (suc n) (b ∷ bs) h = (h.0, All-take n bs h.1)

stored :
    (ip : List ℕ) → All IsByte ip → put_be 16 (new_ip_addr ip).ip ≡ take 16 (ip ++ replicate 16 0)
unfolding new_ip_addr
stored ip h =
    let bs : List ℕ = ip ++ replicate 16 0 in
    let bytes : All IsByte bs = All-append IsByte ip (replicate 16 0) h (omega arith) in
    put_be-number 16 (take 16 bs) (All-take 16 bs bytes)
      (omega (arith, length-take 16 bs, length-append ip (replicate 16 0)))

family_v4 :
    (ip : List ℕ)
    → (new_ip_addr ip).family ≡ ip_addr_inet4
    → All IsByte ip
    → to_net_ip (new_ip_addr ip) ≡ take 4 (take 16 (ip ++ replicate 16 0))
unfolding to_net_ip
family_v4 ip v4 h =
    ap
      (λ (f : ℕ).
        if f == ip_addr_inet4
        then take 4 (put_be 16 (new_ip_addr ip).ip)
        else put_be 16 (new_ip_addr ip).ip)
      v4
    ∙ ap (take 4) (stored ip h)

-- An address of four bytes comes back from `ToNetIP`.
to_net_ip-new_ip_addr_v4 :
    (ip : List ℕ) → All IsByte ip → length ip ≡ 4 → to_net_ip (new_ip_addr ip) ≡ ip
unfolding new_ip_addr
to_net_ip-new_ip_addr_v4 ip h four =
    family_v4 ip (rw (four) refl) h
    ∙ take-take_append 4 16 ip (replicate 16 0) (sym four) (omega arith)

-- So does one of sixteen bytes that does not map an IPv4 address.
to_net_ip-new_ip_addr_v6 :
    (ip : List ℕ)
    → All IsByte ip
    → length ip ≡ 16
    → is_mapped ip ≡ false
    → to_net_ip (new_ip_addr ip) ≡ ip
unfolding to_net_ip
to_net_ip-new_ip_addr_v6 ip h sixteen plain =
    let long : (length ip == 4) ≡ false = rw (sixteen) refl in
    let v6 : (new_ip_addr ip).family ≡ 2 = unfold new_ip_addr in rw (long, plain) refl in
    ap
      (λ (f : ℕ).
        if f == ip_addr_inet4
        then take 4 (put_be 16 (new_ip_addr ip).ip)
        else put_be 16 (new_ip_addr ip).ip)
      v6
    ∙ stored ip h
    ∙ take-append 16 ip (replicate 16 0) (sym sixteen)

mapped_zeros :
    (ip : List ℕ) → is_mapped ip ≡ true → take 4 (take 16 (ip ++ replicate 16 0)) ≡ replicate 4 0
mapped_zeros [] m = cc
mapped_zeros (a ∷ []) m = cc
mapped_zeros (a ∷ b ∷ []) m = cc
mapped_zeros (a ∷ b ∷ c ∷ []) m = cc
mapped_zeros (a ∷ b ∷ c ∷ d ∷ ip) m = ground arith

mapped_v4 : (ip : List ℕ) → is_mapped ip ≡ true → (new_ip_addr ip).family ≡ ip_addr_inet4
unfolding new_ip_addr
mapped_v4 ip m = elim (Bool-cases (length ip == 4)) [ inl e ↦ rw (e) refl | inr e ↦ rw (e, m) refl ]

-- But an IPv4 address that is given by its sixteen bytes, as `net.ParseIP` returns it, is sent with the
-- family of IPv4 and the first four of those bytes, so that it stands for 0.0.0.0 whatever it was.
pub to_net_ip-new_ip_addr_mapped :
    (ip : List ℕ) → All IsByte ip → is_mapped ip ≡ true → to_net_ip (new_ip_addr ip) ≡ replicate 4 0
to_net_ip-new_ip_addr_mapped ip h m = family_v4 ip (mapped_v4 ip m) h ∙ mapped_zeros ip m
