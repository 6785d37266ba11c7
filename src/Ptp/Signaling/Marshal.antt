-- ===== src/Ptp/Signaling/Marshal.antt =====
-- The bytes of a Signaling message, and that marshalling writes them.
use ntp.Prelude.{
  ℕ, ◌+◌, ◌≤◌, ◌≡◌, ◌≢◌, refl, ap, List, [], ◌∷◌, ◌++◌, ok, length, drop, arith, length-append,
  length-drop, not, true,
}
use ntp.Wire.{put_be, write_fields}
use ntp.Wire.Laws.{bytes_of, Consecutive, write_fields_behind, write_fields_fits, drop-drop}
use ntp.Ptp.Header.{header_fields}
use ntp.Ptp.Messages.Laws.{two_rows}
use ntp.Ptp.Signaling.{
  Tlv, Signaling, request, grant, cancel, acknowledge, is_nil, tlv_fields, tlv_size, marshal_tlvs,
  target_fields, signaling_marshal_binary_to,
}
use mathlib.Core.Path.{ap₂}
use mathlib.Core.List.{append_assoc}

unfoldable pub tlv_bytes : Tlv → List ℕ
tlv_bytes t = bytes_of (tlv_fields 0 t)

abbrev pub tlvs_bytes : List Tlv → List ℕ
tlvs_bytes [] = []
tlvs_bytes (t ∷ ts) = tlv_bytes t ++ tlvs_bytes ts

abbrev pub tlvs_size : List Tlv → ℕ
tlvs_size [] = 0
tlvs_size (t ∷ ts) = tlv_size t + tlvs_size ts

-- The header and the target of a Signaling message: 44 bytes.
unfoldable pub front_bytes : Signaling → List ℕ
front_bytes p = bytes_of (header_fields p.header ++ target_fields 34 p.target_port_identity)

abbrev pub signaling_wire : Signaling → List ℕ
signaling_wire p = front_bytes p ++ tlvs_bytes p.tlvs

pub length-front_bytes : (p : Signaling) → length (front_bytes p) ≡ 44
unfolding front_bytes header_fields target_fields put_be
length-front_bytes p = refl

pub length-tlv_bytes : (t : Tlv) → length (tlv_bytes t) ≡ tlv_size t
unfolding tlv_bytes tlv_fields put_be
length-tlv_bytes (request t) = refl
length-tlv_bytes (grant t) = refl
length-tlv_bytes (cancel t) = refl
length-tlv_bytes (acknowledge t) = refl

pub length-tlvs_bytes : (ts : List Tlv) → length (tlvs_bytes ts) ≡ tlvs_size ts
length-tlvs_bytes [] = refl
length-tlvs_bytes (t ∷ ts) =
    omega
      (arith, length-append (tlv_bytes t) (tlvs_bytes ts), length-tlv_bytes t, length-tlvs_bytes ts)

-- Where a TLV is written does not change its bytes, and its writes follow one another.
tlv_fields-bytes : (off : ℕ) (t : Tlv) → bytes_of (tlv_fields off t) ≡ tlv_bytes t
unfolding tlv_bytes tlv_fields
tlv_fields-bytes off (request t) = refl
tlv_fields-bytes off (grant t) = refl
tlv_fields-bytes off (cancel t) = refl
tlv_fields-bytes off (acknowledge t) = refl

tlv_fields-Consecutive : (off : ℕ) (t : Tlv) → Consecutive off (tlv_fields off t)
unfolding tlv_fields put_be
tlv_fields-Consecutive off (request t) = omega arith
tlv_fields-Consecutive off (grant t) = omega arith
tlv_fields-Consecutive off (cancel t) = omega arith
tlv_fields-Consecutive off (acknowledge t) = omega arith

marshal_tlvs_behind :
    (ts : List Tlv) (done b : List ℕ)
    → tlvs_size ts ≤ length b
    → marshal_tlvs ts (length done) (done ++ b)
      ≡ ok (done ++ (tlvs_bytes ts ++ drop (length (tlvs_bytes ts)) b), length done + tlvs_size ts)
unfolding marshal_tlvs
marshal_tlvs_behind [] done b h = ap (λ (n : ℕ). ok (done ++ b, n)) (omega arith)
marshal_tlvs_behind (t ∷ ts) done b h =
    let tb : List ℕ = tlv_bytes t in
    let size : length tb ≡ tlv_size t = length-tlv_bytes t in
    let fs : List (ℕ × List ℕ) = tlv_fields (length done) t in
    let same : bytes_of fs ≡ tb = tlv_fields-bytes (length done) t in
    let here : write_fields fs (done ++ b) ≡ ok (done ++ (tb ++ drop (length tb) b)) = rw (← same) (
      write_fields_behind fs done b (tlv_fields-Consecutive (length done) t)
        (omega (arith, ap (length {A = ℕ}) same))) in
    let there : length (done ++ tb) ≡ length done + tlv_size t =
      omega (arith, length-append done tb) in
    let ih =
      marshal_tlvs_behind ts (done ++ tb) (drop (length tb) b)
        (omega (arith, length-drop (length tb) b)) in
    rw (here, ← append_assoc done tb, ← there, ih)
      (ap₂ (λ (x : List ℕ) (n : ℕ). ok (x, n))
        (rw (append_assoc done tb, drop-drop tb (tlvs_bytes ts) b, append_assoc tb (tlvs_bytes ts)))
        (omega (arith, there)))

pub is_nil_of_ne : (ts : List Tlv) → ts ≢ [] → not (is_nil ts) ≡ true
is_nil_of_ne [] h = absurd (h refl)
is_nil_of_ne (t ∷ ts) h = refl

front_bytes_written :
    (p : Signaling) (b : List ℕ)
    → 44 ≤ length b
    → write_fields (header_fields p.header ++ target_fields 34 p.target_port_identity) b
      ≡ ok (front_bytes p ++ drop 44 b)
unfolding front_bytes header_fields target_fields put_be
front_bytes_written p b h =
    write_fields_fits (header_fields p.header ++ target_fields 34 p.target_port_identity) b
      (omega arith) (omega arith)

-- A Signaling message with a TLV fills the front of any buffer that is large enough with its header,
-- its target and its TLVs, one after the other; it leaves the rest, and gives the number of bytes.
pub signaling_marshal_binary_to_fits :
    (p : Signaling) (b : List ℕ)
    → p.tlvs ≢ []
    → 44 + tlvs_size p.tlvs ≤ length b
    → signaling_marshal_binary_to p b
      ≡ ok (signaling_wire p ++ drop (length (signaling_wire p)) b, 44 + tlvs_size p.tlvs)
unfolding signaling_marshal_binary_to
signaling_marshal_binary_to_fits p b ne h =
    let (b', head, target) =
      two_rows (header_fields p.header) (target_fields 34 p.target_port_identity) b _
        (front_bytes_written p b (omega arith)) in
    let front : length (front_bytes p) ≡ 44 = length-front_bytes p in
    let tail =
      marshal_tlvs_behind p.tlvs (front_bytes p) (drop 44 b) (omega (arith, length-drop 44 b)) in
    let shape : drop (length (tlvs_bytes p.tlvs)) (drop 44 b) ≡ drop (length (signaling_wire p)) b =
      rw (← front) (drop-drop (front_bytes p) (tlvs_bytes p.tlvs) b) in
    rw (
      is_nil_of_ne p.tlvs ne,
      head,
      target,
      rw front at tail,
      shape,
      append_assoc (front_bytes p) (tlvs_bytes p.tlvs),
    )
