-- ===== src/Ptp/Signaling/RoundTrip.antt =====
-- Signaling messages from end to end: `Bytes`, `ProbeMsgType` and `FromBytes`.
use ntp.Prelude.{
  ℕ, ◌+◌, ◌/◌, ◌%◌, ◌≤◌, ◌≡◌, ap, ◌∙◌, List, [], ◌∷◌, ◌++◌, ok, length, take, drop, replicate,
  length-append, arith,
}
use ntp.Wire.{put_be}
use ntp.Ptp.MessageType
use ntp.Ptp.Types.{probe_msg_type, msg_type}
use ntp.Ptp.Header.{header_fields, message_type}
use ntp.Ptp.Messages.Buffer.{take-length_append}
use ntp.Ptp.Signaling.{Signaling, signaling_bytes, signaling_unmarshal_binary}
use ntp.Ptp.Signaling.Marshal.{
  signaling_wire, tlvs_size, front_bytes, tlvs_bytes, length-front_bytes, length-tlvs_bytes,
  signaling_marshal_binary_to_fits,
}
use ntp.Ptp.Signaling.Unmarshal.{IsSignaling, signaling_unmarshal_binary-wire}

first_byte :
    (p : Signaling) (rest : List ℕ)
    → IsSignaling p
    → probe_msg_type (signaling_wire p ++ rest) ≡ ok MessageType.signaling
unfolding probe_msg_type front_bytes header_fields put_be message_type
first_byte p rest h =
    let small : p.header.sdo_id_and_msg_type / 1 % 256 ≡ p.header.sdo_id_and_msg_type =
      omega (arith, h.header_fits.sdo_id_and_msg_type_fits) in
    ap ok (ap msg_type small ∙ h.signaling_type)

-- A Signaling message that fits the buffer of `MarshalBinary` goes out as bytes whose type is probed
-- as Signaling and that the parser reads back, padding included.
pub signaling_round_trip :
    (p : Signaling)
    → IsSignaling p
    → tlvs_size p.tlvs ≤ 156
    → (b : List ℕ) × (signaling_bytes p ≡ ok b)
      × (probe_msg_type b ≡ ok MessageType.signaling)
      × (signaling_unmarshal_binary b ≡ ok p)
unfolding signaling_bytes
signaling_round_trip p h size =
    let buffer : List ℕ = replicate 200 0 in
    let wire : List ℕ = signaling_wire p in
    let n : length wire ≡ 44 + tlvs_size p.tlvs =
      length-append (front_bytes p) (tlvs_bytes p.tlvs)
      ∙ omega (arith, length-front_bytes p, length-tlvs_bytes p.tlvs) in
    let cut : take (44 + tlvs_size p.tlvs) (wire ++ drop (length wire) buffer) ≡ wire =
      rw (← n) (take-length_append wire (drop (length wire) buffer)) in
    (
      wire ++ 0 ∷ 0 ∷ [],
      rw (signaling_marshal_binary_to_fits p buffer h.some_tlv (omega arith), cut),
      first_byte p (0 ∷ 0 ∷ []) h,
      signaling_unmarshal_binary-wire p (0 ∷ 0 ∷ []) h,
    )
