-- ===== src/Ptp/Management/Client/Asking.antt =====
-- A question of the management client and its answer.
use ntp.Prelude.{
  ℕ, zero, suc, ◌+◌, ◌%◌, ◌<◌, ◌≤◌, ◌≡◌, refl, ap, ◌∙◌, List, [], ◌∷◌, ◌++◌, Option, some, Result,
  ok, err, ◌>>=◌, management_error, length, length-append, take, arith,
}
use mathlib.Core.List.{append-nil}
use ntp.Wire.Fields.{FieldsFit, put_fields, length-put_fields}
use ntp.Ptp.Management.Structs.{
  msg_head_layout, msg_head_fields, default_data_set_layout, default_data_set_fields,
  current_data_set_layout, current_data_set_fields, parent_data_set_layout, parent_data_set_fields,
  time_status_np_layout, time_status_np_fields,
}
use ntp.Ptp.Management.{
  Management, MgmtTlv, request, default_data_set, current_data_set, parent_data_set, port_stats_np,
  time_status_np, tlv_management_error_status, mgmt_tlv_bytes, management_marshal_binary,
  management_unmarshal_binary,
}
use ntp.Ptp.Management.RoundTrip.{IsDataSet, management_round_trip}
use ntp.Ptp.Management.Refusals.{HasRoom, decode_mgmt_packet-error_status}
use ntp.Ptp.Management.ErrorStatus.{
  ErrorStatus, error_layout, error_fields, MgmtPacket, decode_refused, decode_mgmt_packet,
  error_status_marshal_binary,
}
use ntp.Ptp.Management.Client.{
  MgmtClient, set_sequence, send_packet, accepted, received, communicate, asserted, ask,
}

module _ {ℓ} {A : Type ℓ} where
  take_all : (n : ℕ) (xs : List A) → length xs ≤ n → take n xs ≡ xs
  take_all zero [] h = refl
  take_all zero (x ∷ xs) h = absurd (omega (arith, h))
  take_all (suc n) [] h = refl
  take_all (suc n) (x ∷ xs) h = ap (λ (t : List A). x ∷ t) (take_all n xs (omega (arith, h)))

length-mgmt_tlv_bytes : (t : MgmtTlv) → IsDataSet t → length (mgmt_tlv_bytes t) ≤ 100
unfolding mgmt_tlv_bytes
length-mgmt_tlv_bytes (request t) h = absurd h
length-mgmt_tlv_bytes (default_data_set t) h =
    omega (arith, length-put_fields default_data_set_layout (default_data_set_fields t))
length-mgmt_tlv_bytes (current_data_set t) h =
    omega (arith, length-put_fields current_data_set_layout (current_data_set_fields t))
length-mgmt_tlv_bytes (parent_data_set t) h =
    omega (arith, length-put_fields parent_data_set_layout (parent_data_set_fields t))
length-mgmt_tlv_bytes (port_stats_np t) h = absurd h
length-mgmt_tlv_bytes (time_status_np t) h =
    omega (arith, length-put_fields time_status_np_layout (time_status_np_fields t))

fits_the_buffer :
    (p : Management)
    → IsDataSet p.tlv
    → take 1024 (management_marshal_binary p) ≡ management_marshal_binary p
unfolding management_marshal_binary
fits_the_buffer p set = take_all 1024 (management_marshal_binary p) (
    omega (
      arith,
      length-append (put_fields msg_head_layout (msg_head_fields p.head)) (mgmt_tlv_bytes p.tlv),
      length-put_fields msg_head_layout (msg_head_fields p.head),
      length-mgmt_tlv_bytes p.tlv set,
    ))

read_alone :
    (p : Management)
    → FieldsFit msg_head_layout (msg_head_fields p.head)
    → IsDataSet p.tlv
    → management_unmarshal_binary (management_marshal_binary p) ≡ ok p
read_alone p fits set = rw append-nil at (management_round_trip p [] fits set)

pub received_message :
    (p : Management)
    → FieldsFit msg_head_layout (msg_head_fields p.head)
    → IsDataSet p.tlv
    → received (some (management_marshal_binary p)) ≡ ok p
unfolding received accepted decode_mgmt_packet decode_refused
received_message p fits set =
    let b : List ℕ = management_marshal_binary p in
    ap (λ (d : List ℕ). decode_mgmt_packet d >>= accepted) (fits_the_buffer p set)
    ∙ ap (λ (r : Result Management). decode_refused b r >>= accepted) (read_alone p fits set)

sequence_fits :
    (n : ℕ) (p : Management)
    → n < 65536
    → FieldsFit msg_head_layout (msg_head_fields p.head)
    → FieldsFit msg_head_layout (msg_head_fields (set_sequence n p).head)
sequence_fits n p h fits = omega (arith, h, fits)

module _ {ℓ} {A : Type ℓ} where
  -- A client that asks with a well-formed data set writes one packet, which is read as its question
  -- under the number after the client's last (modulo 2^16); when the read brings a well-formed data
  -- set, the question ends with it if it is of the type asked for, and with an error if not.
  pub ask_answered :
      (of : MgmtTlv → Option A) (c : MgmtClient) (q p : Management)
      → FieldsFit msg_head_layout (msg_head_fields q.head)
      → IsDataSet q.tlv
      → FieldsFit msg_head_layout (msg_head_fields p.head)
      → IsDataSet p.tlv
      → (b : List ℕ) × (ask of c q (some (management_marshal_binary p)) ≡ (
        record { sequence = (c.sequence + 1) % 65536; written = c.written ++ b ∷ [] },
        asserted (of p.tlv),
      ))
        × (management_unmarshal_binary b ≡ ok (set_sequence ((c.sequence + 1) % 65536) q))
  unfolding ask communicate send_packet
  ask_answered of c q p q_fits q_set p_fits p_set =
      let n : ℕ = (c.sequence + 1) % 65536 in
      (
        management_marshal_binary (set_sequence n q),
        ap (λ (r : Result Management). (send_packet c q, r >>= λ p. asserted (of p.tlv)))
            (received_message p p_fits p_set),
        read_alone (set_sequence n q) (sequence_fits n q (omega arith) q_fits) q_set,
      )

  -- An error status of that TLV type whose fields are within their types, whose text has at most 255
  -- bytes, and whose stated length exceeds 60 if it has a text, is marshalled without error; whatever
  -- a client asks, when it is answered so, it returns the management error of that id.
  pub ask_refused :
      (of : MgmtTlv → Option A) (c : MgmtClient) (q : Management) (e : ErrorStatus)
      → FieldsFit msg_head_layout (msg_head_fields e.head)
      → FieldsFit error_layout (error_fields e)
      → e.tlv_type ≡ tlv_management_error_status
      → length e.display_data ≤ 255
      → HasRoom e.head e.display_data
      → (b : List ℕ) × (error_status_marshal_binary e ≡ ok b)
        × (ask of c q (some b) ≡ (send_packet c q, err (management_error e.management_error_id)))
  unfolding ask communicate received accepted
  ask_refused of c q e head fits is short room =
      let (b, written, size, read) = decode_mgmt_packet-error_status e head fits is short room in
      (
        b,
        written,
        ap
            (λ (r : Result MgmtPacket).
              (send_packet c q, r >>= accepted >>= λ p. asserted (of p.tlv)))
            (ap decode_mgmt_packet (take_all 1024 b (omega (arith, size))) ∙ read),
      )
