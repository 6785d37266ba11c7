-- ===== src/Ptp/Types/Laws.antt =====
-- The packed bytes and the timestamps, both ways.
use ntp.Prelude.{
  ℕ, ◌*◌, ◌%◌, ◌^◌, ◌<◌, ◌≤◌, ◌≡◌, refl, ap, ◌∙◌, List, [], ◌∷◌, ◌++◌, ok, length, take, arith,
  length-append, ◌==◌, if◌then◌else◌,
}
use mathlib.Core.List.{append_assoc}
use ntp.Wire.{read_full}
use ntp.Prelude.Int.{pos}
use ntp.Prelude.Bits.{bit_and-mask, bit_or-shifted}
use ntp.Prelude.Word.{low_bits, floor_div}
use ntp.Ptp.Types.{
  msg_type, new_sdo_id_and_msg_type, unicast_msg_type, new_unicast_msg_type_and_flags,
  timestamp_time, new_timestamp, unmarshal_text, marshal_text,
}

-- The type that was packed into a first byte is read back, whatever the SdoID.
msg_type-new :
    (message_type sdo_id : ℕ)
    → message_type < 16
    → msg_type (new_sdo_id_and_msg_type message_type sdo_id) ≡ message_type
unfolding msg_type new_sdo_id_and_msg_type
msg_type-new message_type sdo_id h =
    let split : sdo_id * 2 ^ 4 % 256 ≡ sdo_id % 16 * 2 ^ 4 = omega arith in
    rw (split, bit_or-shifted 4 (sdo_id % 16) message_type h, bit_and-mask 4) (omega arith)

-- The type that was packed into a unicast TLV is read back, whatever the flags.
pub unicast_msg_type-new :
    (message_type flags : ℕ)
    → message_type < 16
    → unicast_msg_type (new_unicast_msg_type_and_flags message_type flags) ≡ message_type
unfolding unicast_msg_type new_unicast_msg_type_and_flags
unicast_msg_type-new message_type flags h =
    let fits : message_type * 2 ^ 4 % 256 ≡ message_type * 2 ^ 4 = omega arith in
    rw (fits, bit_and-mask 4 flags, bit_or-shifted 4 message_type (flags % 16) (omega arith))
      (omega arith)

-- Every time from the Unix epoch on that six bytes of seconds can hold survives a PTP timestamp.
timestamp_time-new :
    (n : ℕ) → n < 2 ^ 48 * 1000000000 → timestamp_time (new_timestamp (pos n)) ≡ pos n
unfolding timestamp_time new_timestamp low_bits floor_div
timestamp_time-new n h = ap pos (omega arith)

take-length_append : (xs ys : List ℕ) → take (length xs) (xs ++ ys) ≡ xs
take-length_append [] ys = refl
take-length_append (x ∷ xs) ys = ap (λ (t : List ℕ). x ∷ t) (take-length_append xs ys)

unmarshal_text_front :
    (x : ℕ) (xs tail : List ℕ)
    → length (x ∷ xs) ≤ 255
    → unmarshal_text (length (x ∷ xs) ∷ (x ∷ xs ++ tail)) ≡ ok (x ∷ xs)
unfolding unmarshal_text read_full
unmarshal_text_front x xs tail h =
    ground (arith, length-append (x ∷ xs) tail, take-length_append (x ∷ xs) tail)

-- A text of at most 255 bytes has an encoding, and is read back from it, whatever follows.
pub unmarshal_text-marshal :
    (text rest : List ℕ)
    → length text ≤ 255
    → (b : List ℕ) × (marshal_text text ≡ ok b) × (unmarshal_text (b ++ rest) ≡ ok text)
unfolding unmarshal_text marshal_text read_full
unmarshal_text-marshal [] rest h = (_, refl, refl)
unmarshal_text-marshal (x ∷ xs) rest h =
    let pad : List ℕ = if length (x ∷ xs) % 2 == 0 then [] else 0 ∷ [] in
    let body : (x ∷ xs ++ pad) ++ rest ≡ x ∷ xs ++ (pad ++ rest) = append_assoc (x ∷ xs) pad rest in
    (
      length (x ∷ xs) ∷ (x ∷ xs ++ pad),
      ground arith,
      ap (λ (t : List ℕ). unmarshal_text (length (x ∷ xs) ∷ t)) body
          ∙ unmarshal_text_front x xs (pad ++ rest) h,
    )
