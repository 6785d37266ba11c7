-- ===== src/Ptp/Messages/Buffer.antt =====
-- `BytesTo` on a buffer with room for the packet and its two bytes of padding.
use ntp.Prelude.{
  ℕ, ◌+◌, ◌≤◌, ◌≡◌, refl, List, [], ◌∷◌, ◌++◌, Result, ok, length, drop, take, arith, length-append,
  length-drop,
}
use ntp.Wire.{write_fields}
use ntp.Wire.Laws.{write_fields_behind}
use ntp.Ptp.Messages.{bytes_to}
use mathlib.Core.List.{append_assoc}

pub take-length_append : (xs ys : List ℕ) → take (length xs) (xs ++ ys) ≡ xs
take-length_append [] [] = refl
take-length_append [] (y ∷ ys) = refl
take-length_append (x ∷ xs) ys = rw (take-length_append xs ys)

-- What `BytesTo` sends of a buffer that a marshaller fills with `wire`.
pub bytes_to_fits :
    (marshal_to : List ℕ → Result (List ℕ × ℕ)) (wire b : List ℕ)
    → marshal_to b ≡ ok (wire ++ drop (length wire) b, length wire)
    → length wire + 2 ≤ length b
    → (out : List ℕ) × (bytes_to marshal_to b ≡ ok (out, length wire + 2))
      × (take (length wire + 2) out ≡ wire ++ 0 ∷ 0 ∷ [])
      × (length out ≡ length b)
unfolding bytes_to
bytes_to_fits marshal_to wire b e h =
    let rest : List ℕ = drop (length wire) b in
    let padding : List (ℕ × List ℕ) = (length wire, 0 ∷ []) ∷ (length wire + 1, 0 ∷ []) ∷ [] in
    let room : 2 ≤ length rest = omega (arith, length-drop (length wire) b) in
    let padded : write_fields padding (wire ++ rest) ≡ ok (wire ++ (0 ∷ 0 ∷ drop 2 rest)) =
      write_fields_behind padding wire rest (refl, (refl, tt)) room in
    let whole : (wire ++ 0 ∷ 0 ∷ []) ++ drop 2 rest ≡ wire ++ (0 ∷ 0 ∷ drop 2 rest) =
      append_assoc wire (0 ∷ 0 ∷ []) (drop 2 rest) in
    (
      wire ++ (0 ∷ 0 ∷ drop 2 rest),
      rw (e, padded),
      rw (← length-append wire (0 ∷ 0 ∷ []), ← whole)
          (take-length_append (wire ++ 0 ∷ 0 ∷ []) (drop 2 rest)),
      omega (
        arith,
        length-append wire (0 ∷ 0 ∷ drop 2 rest),
        length-drop 2 rest,
        length-drop (length wire) b,
      ),
    )
