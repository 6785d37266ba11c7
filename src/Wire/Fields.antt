-- ===== src/Wire/Fields.antt =====
-- `binary.Read` and `binary.Write` of a struct whose content is one number for each field, as a tuple.
use ntp.Prelude.{
  ℕ, ◌^◌, ◌<◌, ◌≤◌, ◌≡◌, refl, List, [], ◌∷◌, ◌++◌, Result, ok, err, none, some, ◌>>=◌, length,
  drop, length-append, arith,
}
use mathlib.Core.List.{append_assoc}
use ntp.Wire.{put_be, read, read_full}
use ntp.Wire.Laws.{length-put_be, read-put_be}
use ntp.Wire.Struct.{sum, drop-put_be, read_full_enough}

-- A tuple for a struct with these widths.
abbrev pub Fields : List ℕ → Type 0
Fields [] = Unit
Fields (w ∷ ws) = ℕ × Fields ws

abbrev pub FieldsFit : (ws : List ℕ) → Fields ws → Type 0
FieldsFit [] fs = Unit
FieldsFit (w ∷ ws) (v, vs) = (v < 256 ^ w) × FieldsFit ws vs

unfoldable pub put_fields : (ws : List ℕ) → Fields ws → List ℕ
put_fields [] fs = []
put_fields (w ∷ ws) (v, vs) = put_be w v ++ put_fields ws vs

unfoldable pub get_fields : (ws : List ℕ) → List ℕ → Result (Fields ws)
get_fields [] b = ok tt
get_fields (w ∷ ws) b = read w 0 b >>= λ v. get_fields ws (drop w b) >>= λ vs. ok (v, vs)

-- `binary.Read(reader, binary.BigEndian, &s)`.
unfoldable pub read_struct : (ws : List ℕ) → List ℕ → Result (Fields ws)
unfolding get_fields
read_struct ws b = elim (read_full (sum ws) b) [ none ↦ get_fields ws b | some e ↦ err e ]

pub length-put_fields : (ws : List ℕ) (fs : Fields ws) → length (put_fields ws fs) ≡ sum ws
unfolding put_fields
length-put_fields [] fs = refl
length-put_fields (w ∷ ws) (v, vs) = omega (
  arith,
  length-append (put_be w v) (put_fields ws vs),
  length-put_be w v,
  length-put_fields ws vs,
)

get_fields-put_fields :
    (ws : List ℕ) (fs : Fields ws) (rest : List ℕ)
    → FieldsFit ws fs
    → get_fields ws (put_fields ws fs ++ rest) ≡ ok fs
unfolding get_fields put_fields
get_fields-put_fields [] tt rest h = refl
get_fields-put_fields (w ∷ ws) (v, vs) rest h = rw (
  append_assoc (put_be w v) (put_fields ws vs) rest,
  read-put_be w v _ h.0,
  drop-put_be w v,
  get_fields-put_fields ws vs rest h.1,
)

-- A struct is read back from what was written, whatever follows it.
pub read_struct-put_fields :
    (ws : List ℕ) (fs : Fields ws) (rest : List ℕ)
    → FieldsFit ws fs
    → 0 < sum ws
    → read_struct ws (put_fields ws fs ++ rest) ≡ ok fs
unfolding read_struct
read_struct-put_fields ws fs rest h p =
    let enough : sum ws ≤ length (put_fields ws fs ++ rest) =
      omega (arith, length-append (put_fields ws fs) rest, length-put_fields ws fs) in
    rw (read_full_enough (sum ws) (put_fields ws fs ++ rest) p enough, read_struct)
      (get_fields-put_fields ws fs rest h)
