-- ===== src/Ptp/Signaling/Unmarshal.antt =====
-- Reading Signaling messages: round trip, termination, and inputs on which the code panics.
use ntp.Prelude.{
  ℕ, zero, suc, ◌+◌, ◌^◌, ◌<◌, ◌≤◌, ◌≡◌, ◌≢◌, refl, ap, ◌∙◌, List, [], ◌∷◌, ◌++◌, ok,
  not_enough_data, length, arith, length-append, false, ltb,
}
use ntp.Wire.{All, put_be, read, get_be}
use ntp.Wire.Laws.{bytes_of, read-put_be, drop-length_append}
use ntp.Ptp.TlvType
use ntp.Ptp.MessageType
use ntp.Ptp.Header.{IsHeader, IsPortIdentity, header_fields, unmarshal_header, message_type}
use ntp.Ptp.Header.Laws.{unmarshal_header-bytes}
use ntp.Ptp.Messages.Laws.{guard_long}
use ntp.Ptp.Signaling.{
  Tlv, TlvHead, Signaling, RequestUnicast, GrantUnicast, CancelUnicast, AcknowledgeCancelUnicast,
  request, grant, cancel, acknowledge, tlv_fields, tlv_size, tlv_head, target_fields, next_tlv,
  unmarshal_tlv, unmarshal_tlvs, unmarshal_tlv_head, unmarshal_request, unmarshal_grant,
  unmarshal_cancel, unmarshal_acknowledge, signaling_unmarshal_binary,
}
use ntp.Ptp.Signaling.Marshal.{
  tlv_bytes, tlvs_bytes, tlvs_size, front_bytes, signaling_wire, length-tlv_bytes,
  length-tlvs_bytes, length-front_bytes, is_nil_of_ne,
}
use mathlib.Core.List.{append_assoc, append-nil}

-- The stored type is the one of the TLV, and the stored length is that of its body.
pub record IsHead (h : TlvHead) (tlv_type size : ℕ) : Type 0 where
  pub type_fits : h.tlv_type ≡ tlv_type
  pub length_fits : h.length_field ≡ size

abbrev pub IsTlv : Tlv → Type 0
IsTlv (request t) =
    IsHead t.head TlvType.request_unicast_transmission 6
    × (t.msg_type_and_reserved < 256)
    × (t.log_inter_message_period < 256)
    × (t.duration_field < 2 ^ 32)
IsTlv (grant t) =
    IsHead t.head TlvType.grant_unicast_transmission 8
    × (t.msg_type_and_reserved < 256)
    × (t.log_inter_message_period < 256)
    × (t.duration_field < 2 ^ 32)
    × (t.reserved < 256)
    × (t.renewal < 256)
IsTlv (cancel t) =
    IsHead t.head TlvType.cancel_unicast_transmission 2
    × (t.msg_type_and_flags < 256)
    × (t.reserved < 256)
IsTlv (acknowledge t) =
    IsHead t.head TlvType.acknowledge_cancel_unicast_transmission 2
    × (t.msg_type_and_flags < 256)
    × (t.reserved < 256)

unmarshal_tlv_head-bytes :
    (h : TlvHead) (rest : List ℕ)
    → h.tlv_type < 65536
    → h.length_field < 65536
    → unmarshal_tlv_head (put_be 2 h.tlv_type ++ (put_be 2 h.length_field ++ rest)) ≡ ok h
unfolding unmarshal_tlv_head put_be
unmarshal_tlv_head-bytes h rest a b =
    let long =
      guard_long 4 (put_be 2 h.tlv_type ++ (put_be 2 h.length_field ++ rest)) not_enough_data
        (omega arith) in
    rw (long, read-put_be 2 h.tlv_type _ a, read-put_be 2 h.length_field _ b)

-- Each TLV is read back from its bytes.
unmarshal_request-bytes :
    (t : RequestUnicast) (rest : List ℕ)
    → IsTlv (request t)
    → unmarshal_request (tlv_bytes (request t) ++ rest) ≡ ok (request t)
unfolding unmarshal_request tlv_bytes tlv_fields put_be
unmarshal_request-bytes t rest h =
    let body : List ℕ =
      put_be 1 t.msg_type_and_reserved
      ++ (put_be 1 t.log_inter_message_period ++ (put_be 4 t.duration_field ++ rest)) in
    rw (
      unmarshal_tlv_head-bytes t.head body (omega arith) (omega arith),
      read-put_be 1 t.msg_type_and_reserved _ (omega arith),
      read-put_be 1 t.log_inter_message_period _ (omega arith),
      read-put_be 4 t.duration_field _ (omega arith),
    )

unmarshal_grant-bytes :
    (t : GrantUnicast) (rest : List ℕ)
    → IsTlv (grant t)
    → unmarshal_grant (tlv_bytes (grant t) ++ rest) ≡ ok (grant t)
unfolding unmarshal_grant tlv_bytes tlv_fields put_be
unmarshal_grant-bytes t rest h =
    let body : List ℕ =
      put_be 1 t.msg_type_and_reserved
      ++ (put_be 1 t.log_inter_message_period
          ++ (put_be 4 t.duration_field
              ++ (put_be 1 t.reserved ++ (put_be 1 t.renewal ++ rest)))) in
    rw (
      unmarshal_tlv_head-bytes t.head body (omega arith) (omega arith),
      read-put_be 1 t.msg_type_and_reserved _ (omega arith),
      read-put_be 1 t.log_inter_message_period _ (omega arith),
      read-put_be 4 t.duration_field _ (omega arith),
      read-put_be 1 t.reserved _ (omega arith),
      read-put_be 1 t.renewal _ (omega arith),
    )

unmarshal_cancel-bytes :
    (t : CancelUnicast) (rest : List ℕ)
    → IsTlv (cancel t)
    → unmarshal_cancel (tlv_bytes (cancel t) ++ rest) ≡ ok (cancel t)
unfolding unmarshal_cancel tlv_bytes tlv_fields put_be
unmarshal_cancel-bytes t rest h =
    let body : List ℕ = put_be 1 t.msg_type_and_flags ++ (put_be 1 t.reserved ++ rest) in
    rw (
      unmarshal_tlv_head-bytes t.head body (omega arith) (omega arith),
      read-put_be 1 t.msg_type_and_flags _ (omega arith),
      read-put_be 1 t.reserved _ (omega arith),
    )

unmarshal_acknowledge-bytes :
    (t : AcknowledgeCancelUnicast) (rest : List ℕ)
    → IsTlv (acknowledge t)
    → unmarshal_acknowledge (tlv_bytes (acknowledge t) ++ rest) ≡ ok (acknowledge t)
unfolding unmarshal_acknowledge tlv_bytes tlv_fields put_be
unmarshal_acknowledge-bytes t rest h =
    let body : List ℕ = put_be 1 t.msg_type_and_flags ++ (put_be 1 t.reserved ++ rest) in
    rw (
      unmarshal_tlv_head-bytes t.head body (omega arith) (omega arith),
      read-put_be 1 t.msg_type_and_flags _ (omega arith),
      read-put_be 1 t.reserved _ (omega arith),
    )

unmarshal_tlv-bytes :
    (t : Tlv) (rest : List ℕ)
    → IsTlv t
    → unmarshal_tlv (tlv_head t).tlv_type (tlv_bytes t ++ rest) ≡ ok t
unfolding unmarshal_tlv
unmarshal_tlv-bytes (request t) rest h =
    ap (λ (n : ℕ). unmarshal_tlv n (tlv_bytes (request t) ++ rest)) h.0.type_fits
    ∙ unmarshal_request-bytes t rest h
unmarshal_tlv-bytes (grant t) rest h =
    ap (λ (n : ℕ). unmarshal_tlv n (tlv_bytes (grant t) ++ rest)) h.0.type_fits
    ∙ unmarshal_grant-bytes t rest h
unmarshal_tlv-bytes (cancel t) rest h =
    ap (λ (n : ℕ). unmarshal_tlv n (tlv_bytes (cancel t) ++ rest)) h.0.type_fits
    ∙ unmarshal_cancel-bytes t rest h
unmarshal_tlv-bytes (acknowledge t) rest h =
    ap (λ (n : ℕ). unmarshal_tlv n (tlv_bytes (acknowledge t) ++ rest)) h.0.type_fits
    ∙ unmarshal_acknowledge-bytes t rest h

tlv_type-bytes :
    (t : Tlv) (rest : List ℕ) → IsTlv t → read 2 0 (tlv_bytes t ++ rest) ≡ ok (tlv_head t).tlv_type
unfolding tlv_bytes tlv_fields put_be
tlv_type-bytes (request t) rest h = read-put_be 2 t.head.tlv_type _ (omega arith)
tlv_type-bytes (grant t) rest h = read-put_be 2 t.head.tlv_type _ (omega arith)
tlv_type-bytes (cancel t) rest h = read-put_be 2 t.head.tlv_type _ (omega arith)
tlv_type-bytes (acknowledge t) rest h = read-put_be 2 t.head.tlv_type _ (omega arith)

next_tlv-bytes :
    (t : Tlv) (done rest : List ℕ)
    → IsTlv t
    → next_tlv (length done) (done ++ (tlv_bytes t ++ rest)) ≡ ok t
unfolding next_tlv
next_tlv-bytes t done rest h =
    rw (drop-length_append done (tlv_bytes t ++ rest), tlv_type-bytes t rest h)
      (unmarshal_tlv-bytes t rest h)

stored_size : (t : Tlv) → IsTlv t → 4 + (tlv_head t).length_field ≡ tlv_size t
stored_size (request t) h = omega arith
stored_size (grant t) h = omega arith
stored_size (cancel t) h = omega arith
stored_size (acknowledge t) h = omega arith

tlv_size_bound : (t : Tlv) → 6 ≤ tlv_size t
tlv_size_bound (request t) = omega arith
tlv_size_bound (grant t) = omega arith
tlv_size_bound (cancel t) = omega arith
tlv_size_bound (acknowledge t) = omega arith

-- The loop reads all TLVs up to the stated length, and stops there.
unmarshal_tlvs-bytes :
    (ts : List Tlv) (fuel : ℕ) (done rest : List ℕ) (acc : List Tlv)
    → All IsTlv ts
    → tlvs_size ts ≤ fuel
    → unmarshal_tlvs fuel
        (length done + tlvs_size ts)
        (length done)
        (done ++ (tlvs_bytes ts ++ rest))
        acc
      ≡ ok (acc ++ ts)
unfolding unmarshal_tlvs
unmarshal_tlvs-bytes [] zero done rest acc h f = ground (arith, append-nil acc)
unmarshal_tlvs-bytes [] (suc fuel) done rest acc h f = ground (arith, append-nil acc)
unmarshal_tlvs-bytes (t ∷ ts) zero done rest acc h f = absurd (omega (arith, tlv_size_bound t))
unmarshal_tlvs-bytes (t ∷ ts) (suc fuel) done rest acc (p, ps) f =
    let goes_on : ltb (length done + tlvs_size (t ∷ ts)) (length done + 4) ≡ false =
      ground (arith, tlv_size_bound t) in
    let there : length done + 4 + (tlv_head t).length_field ≡ length (done ++ tlv_bytes t) =
      omega (arith, stored_size t p, length-append done (tlv_bytes t), length-tlv_bytes t) in
    let total : length done + tlvs_size (t ∷ ts) ≡ length (done ++ tlv_bytes t) + tlvs_size ts =
      omega (arith, length-append done (tlv_bytes t), length-tlv_bytes t) in
    let ih =
      unmarshal_tlvs-bytes ts fuel (done ++ tlv_bytes t) rest (acc ++ t ∷ []) ps
        (omega (arith, tlv_size_bound t)) in
    let input : done ++ (tlvs_bytes (t ∷ ts) ++ rest)
        ≡ done ++ (tlv_bytes t ++ (tlvs_bytes ts ++ rest)) =
      rw (append_assoc (tlv_bytes t) (tlvs_bytes ts) rest) in
    rw (
      goes_on,
      input,
      next_tlv-bytes t done (tlvs_bytes ts ++ rest) p,
      there,
      total,
      ← append_assoc done (tlv_bytes t) (tlvs_bytes ts ++ rest),
      ih,
      append_assoc acc (t ∷ []) ts,
    )

pub record IsSignaling (p : Signaling) : Type 0 where
  pub header_fits : IsHeader p.header
  pub signaling_type : message_type p.header ≡ MessageType.signaling
  pub stated_length : p.header.message_length ≡ 44 + tlvs_size p.tlvs
  pub target_fits : IsPortIdentity p.target_port_identity
  pub some_tlv : p.tlvs ≢ []
  pub tlvs_fit : All IsTlv p.tlvs

front_bytes-read :
    (p : Signaling) (rest : List ℕ)
    → IsSignaling p
    → (unmarshal_header (front_bytes p ++ rest) ≡ ok p.header)
      × (get_be 8 34 (front_bytes p ++ rest) ≡ ok p.target_port_identity.clock_identity)
      × (get_be 2 42 (front_bytes p ++ rest) ≡ ok p.target_port_identity.port_number)
unfolding front_bytes header_fields target_fields put_be
front_bytes-read p rest h = (
  unmarshal_header-bytes p.header (bytes_of (target_fields 34 p.target_port_identity) ++ rest)
      h.header_fits,
  read-put_be 8 p.target_port_identity.clock_identity _ h.target_fits.clock_identity_fits,
  read-put_be 2 p.target_port_identity.port_number _ h.target_fits.port_number_fits,
)

some_size : (ts : List Tlv) → ts ≢ [] → 6 ≤ tlvs_size ts
some_size [] h = absurd (h refl)
some_size (t ∷ ts) h = omega (arith, tlv_size_bound t)

-- A Signaling message whose stated length is its own, whose type is Signaling, and whose TLVs carry
-- their own type and length and are at least one, is read back from its bytes, whatever follows them.
pub signaling_unmarshal_binary-wire :
    (p : Signaling) (rest : List ℕ)
    → IsSignaling p
    → signaling_unmarshal_binary (signaling_wire p ++ rest) ≡ ok p
unfolding signaling_unmarshal_binary
signaling_unmarshal_binary-wire p rest h =
    let front : length (front_bytes p) ≡ 44 = length-front_bytes p in
    let behind : List ℕ = tlvs_bytes p.tlvs ++ rest in
    let input : signaling_wire p ++ rest ≡ front_bytes p ++ behind =
      append_assoc (front_bytes p) (tlvs_bytes p.tlvs) rest in
    let long : 48 ≤ length (front_bytes p ++ behind) = omega (
      arith,
      length-append (front_bytes p) behind,
      length-append (tlvs_bytes p.tlvs) rest,
      length-tlvs_bytes p.tlvs,
      some_size p.tlvs h.some_tlv,
    ) in
    let (head, clock, port) = front_bytes-read p behind h in
    let tlvs =
      unmarshal_tlvs-bytes p.tlvs (44 + tlvs_size p.tlvs) (front_bytes p) rest [] h.tlvs_fit
        (omega arith) in
    rw (input, guard_long 48 (front_bytes p ++ behind) not_enough_data long, head)
      (simp (h.signaling_type, clock, port, h.stated_length)
        (rw (rw front at tlvs, is_nil_of_ne p.tlvs h.some_tlv)))
