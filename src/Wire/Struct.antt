-- ===== src/Wire/Struct.antt =====
-- `binary.Read` and `binary.Write` walk the fields of a struct by reflection, in order and with no
-- padding. A struct is given here by the widths of its fields, and its content by their values.
use ntp.Prelude.{
  ℕ, ◌+◌, ◌*◌, ◌/◌, ◌^◌, ◌<◌, ◌≤◌, ◌≡◌, refl, ◌⊎◌, inl, inr, dec_lt, ap, sym, ◌∙◌, List, [], ◌∷◌,
  ◌++◌, Result, ok, err, Error, eof, unexpected_eof, none, some, ◌>>=◌, >>=-eq-ok, length, drop,
  take, arith, zero, suc, length-append, length-drop,
}
use ntp.Wire.{IsByte, All, put_be, read, read_full}
use ntp.Wire.Laws.{length-put_be, read-put_be, put_be-read_acc}
use mathlib.Core.List.{append_assoc}
use native.Mathlib.Nat.{suc-add, one-le-pow, div-add-mod, mod-lt}

abbrev pub sum : List ℕ → ℕ
sum [] = 0
sum (w ∷ ws) = w + sum ws

unfoldable pub encode : List ℕ → List ℕ → List ℕ
encode [] vs = []
encode (w ∷ ws) [] = []
encode (w ∷ ws) (v ∷ vs) = put_be w v ++ encode ws vs

unfoldable pub decode : List ℕ → List ℕ → Result (List ℕ)
decode [] b = ok []
decode (w ∷ ws) b = read w 0 b >>= λ v. decode ws (drop w b) >>= λ vs. ok (v ∷ vs)

-- `binary.Read(reader, binary.BigEndian, &s)`.
unfoldable pub binary_read : List ℕ → List ℕ → Result (List ℕ)
binary_read ws b = elim (read_full (sum ws) b) [ none ↦ decode ws b | some e ↦ err e ]

-- One value for each field, each within its field's width.
abbrev pub Fits : List ℕ → List ℕ → Type 0
Fits [] [] = Unit
Fits [] (v ∷ vs) = ⊥
Fits (w ∷ ws) [] = ⊥
Fits (w ∷ ws) (v ∷ vs) = (v < 256 ^ w) × Fits ws vs

pub length-encode : (ws vs : List ℕ) → Fits ws vs → length (encode ws vs) ≡ sum ws
unfolding encode
length-encode [] vs h = refl
length-encode (w ∷ ws) [] h = absurd h
length-encode (w ∷ ws) (v ∷ vs) h =
    omega
      (arith, length-append (put_be w v) (encode ws vs), length-put_be w v, length-encode ws vs h.1)

pub drop-put_be : (k v : ℕ) (rest : List ℕ) → drop k (put_be k v ++ rest) ≡ rest
unfolding put_be
drop-put_be zero v rest = refl
drop-put_be (suc k) v rest = drop-put_be k v rest

decode-encode : (ws vs rest : List ℕ) → Fits ws vs → decode ws (encode ws vs ++ rest) ≡ ok vs
unfolding encode decode
decode-encode [] [] rest h = refl
decode-encode [] (v ∷ vs) rest h = absurd h
decode-encode (w ∷ ws) [] rest h = absurd h
decode-encode (w ∷ ws) (v ∷ vs) rest h = rw (
  append_assoc (put_be w v) (encode ws vs) rest,
  read-put_be w v _ h.0,
  drop-put_be w v,
  decode-encode ws vs rest h.1,
)

take-nil : (n : ℕ) → take {A = ℕ} n [] ≡ []
take-nil zero = refl
take-nil (suc n) = refl

take-add : (n m : ℕ) (b : List ℕ) → take n b ++ take m (drop n b) ≡ take (n + m) b
take-add zero m b = ap (λ (t : ℕ). take t b) (omega arith)
take-add (suc n) m [] = take-nil m ∙ sym (take-nil (suc n + m))
take-add (suc n) m (x ∷ b) = rw suc-add (ap (λ (t : List ℕ). x ∷ t) (take-add n m b))

pub drop-IsByte : (n : ℕ) (b : List ℕ) → All IsByte b → All IsByte (drop n b)
drop-IsByte zero b h = h
drop-IsByte (suc n) [] h = tt
drop-IsByte (suc n) (x ∷ b) h = drop-IsByte n b h.1

encode-nil : (ws : List ℕ) → encode ws [] ≡ []
unfolding encode
encode-nil [] = refl
encode-nil (w ∷ ws) = refl

-- The bytes that a successful decoding has read are those that encoding its values writes.
pub encode-decode :
    (ws b vs : List ℕ) → All IsByte b → decode ws b ≡ ok vs → encode ws vs ≡ take (sum ws) b
unfolding encode decode
encode-decode [] b vs h e = refl
encode-decode (w ∷ ws) b vs h e =
    let (v, r, e') = >>=-eq-ok (read w 0 b) _ e in
    let (us, d, e'') = >>=-eq-ok (decode ws (drop w b)) _ e' in
    let front : put_be w v ≡ take w b = (put_be-read_acc w 0 v b h r).0 in
    let back : encode ws us ≡ take (sum ws) (drop w b) =
      encode-decode ws (drop w b) us (drop-IsByte w b h) d in
    let shape : v ∷ us ≡ vs = ground (arith, e'') in
    rw (← shape, front, back) (take-add w (sum ws) b)

lt_of_div_zero : (v p : ℕ) → 0 < p → v / p ≡ 0 → v < p
lt_of_div_zero v p h e = omega (arith, div-add-mod v p, mod-lt v h, ap (λ (t : ℕ). p * t) e)

pub decode-Fits : (ws b vs : List ℕ) → All IsByte b → decode ws b ≡ ok vs → Fits ws vs
unfolding decode
decode-Fits [] b [] h e = tt
decode-Fits [] b (v ∷ vs) h e = cc
decode-Fits (w ∷ ws) b vs h e =
    let (v, r, e') = >>=-eq-ok (read w 0 b) _ e in
    let (us, d, e'') = >>=-eq-ok (decode ws (drop w b)) _ e' in
    let shape : v ∷ us ≡ vs = ground (arith, e'') in
    let small : v / 256 ^ w ≡ 0 = (put_be-read_acc w 0 v b h r).1 in
    rw (← shape) (
      lt_of_div_zero v (256 ^ w) (one-le-pow w 256 (omega arith)) small,
      decode-Fits ws (drop w b) us (drop-IsByte w b h) d,
    )

-- With enough bytes the decoding cannot panic.
pub read_enough : (k acc : ℕ) (b : List ℕ) → k ≤ length b → (v : ℕ) × (read k acc b ≡ ok v)
unfolding read
read_enough zero acc b h = (acc, refl)
read_enough (suc k) acc [] h = absurd (omega arith)
read_enough (suc k) acc (x ∷ b) h = read_enough k (acc * 256 + x) b (omega arith)

decode_enough : (ws b : List ℕ) → sum ws ≤ length b → (vs : List ℕ) × (decode ws b ≡ ok vs)
unfolding decode
decode_enough [] b h = ([], refl)
decode_enough (w ∷ ws) b h =
    let (v, e) = read_enough w 0 b (omega arith) in
    let (vs, f) = decode_enough ws (drop w b) (omega (arith, length-drop w b)) in
    (v ∷ vs, rw (e, f))

pub read_full_enough : (n : ℕ) (b : List ℕ) → 0 < n → n ≤ length b → read_full n b ≡ none
unfolding read_full
read_full_enough n [] p h = absurd (omega arith)
read_full_enough n (x ∷ b) p h = ground arith

pub read_full_short : (n : ℕ) (b : List ℕ) → length b < n → (e : Error) × (read_full n b ≡ some e)
unfolding read_full
read_full_short n [] h = (eof, refl)
read_full_short n (x ∷ b) h = (unexpected_eof, ground arith)

-- A struct is read back from what was written, whatever follows it.
pub binary_read-encode :
    (ws vs rest : List ℕ) → Fits ws vs → 0 < sum ws → binary_read ws (encode ws vs ++ rest) ≡ ok vs
unfolding binary_read
binary_read-encode ws vs rest h p =
    let enough : sum ws ≤ length (encode ws vs ++ rest) =
      omega (arith, length-append (encode ws vs) rest, length-encode ws vs h) in
    rw (read_full_enough (sum ws) (encode ws vs ++ rest) p enough, binary_read)
      (decode-encode ws vs rest h)

-- `binary.Read` fails exactly on inputs shorter than the struct, and it never panics.
pub binary_read_long :
    (ws b : List ℕ)
    → 0 < sum ws
    → sum ws ≤ length b
    → (vs : List ℕ) × (binary_read ws b ≡ ok vs) × (decode ws b ≡ ok vs)
unfolding binary_read
binary_read_long ws b p h =
    let (vs, e) = decode_enough ws b h in
    (vs, rw (read_full_enough (sum ws) b p h, binary_read) e, e)

pub binary_read_short :
    (ws b : List ℕ) → length b < sum ws → (e : Error) × (binary_read ws b ≡ err e)
unfolding binary_read
binary_read_short ws b h = let (e, r) = read_full_short (sum ws) b h in (e, rw (r, binary_read))

-- Of bytes, either it fails or each field has a value that fits.
pub binary_read_cases :
    (ws b : List ℕ)
    → All IsByte b
    → 0 < sum ws
    → ((e : Error) × (binary_read ws b ≡ err e))
      ⊎ ((vs : List ℕ) × (binary_read ws b ≡ ok vs) × Fits ws vs)
binary_read_cases ws b h p = elim (dec_lt (length b) (sum ws)) [
  | yes short ↦ inl (binary_read_short ws b short)
  | no long ↦
      (let (vs, r, d) = binary_read_long ws b p (omega arith) in
        inr (vs, r, decode-Fits ws b vs h d))
]
