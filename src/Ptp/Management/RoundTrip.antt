-- ===== src/Ptp/Management/RoundTrip.antt =====
-- The data sets of a management message, there and back.
use ntp.Prelude.{
  ℕ, ◌≡◌, refl, ap, ◌∙◌, List, [], ◌∷◌, ◌++◌, Result, ok, err, error_status, wrong_message, ◌>>=◌,
  ◌==◌, if◌then◌else◌, drop, arith,
}
use mathlib.Core.List.{append_assoc}
use ntp.Wire.{put_be}
use ntp.Wire.Fields.{Fields, FieldsFit, put_fields, read_struct, read_struct-put_fields}
use ntp.Ptp.Management.Structs.{
  MsgHead, msg_head_layout, msg_head_fields, msg_head_of_fields, TlvHead, tlv_head_layout,
  tlv_head_fields, default_data_set_layout, default_data_set_fields, current_data_set_layout,
  current_data_set_fields, parent_data_set_layout, parent_data_set_fields, time_status_np_layout,
  time_status_np_fields, current_data_set_of_fields, default_data_set_of_fields,
  parent_data_set_of_fields, time_status_np_of_fields,
}
use ntp.Ptp.Management.{
  Management, MgmtTlv, request, default_data_set, current_data_set, parent_data_set, port_stats_np,
  time_status_np, tlv_management, tlv_management_error_status, id_default_data_set,
  id_current_data_set, id_parent_data_set, id_time_status_np, decode_mgmt_tlv,
  management_unmarshal_tlv, management_unmarshal_binary, mgmt_tlv_bytes, management_marshal_binary,
}

-- The head of a TLV that is read back: its type, and the id of what is in it.
abbrev IsHeadOf : TlvHead → ℕ → Type 0
IsHeadOf h id = (h.tlv_type ≡ tlv_management) × (h.management_id ≡ id)

-- A data set whose head says what it is, and whose fields fit.
abbrev pub IsDataSet : MgmtTlv → Type 0
IsDataSet (request t) = ⊥
IsDataSet (default_data_set t) =
    IsHeadOf t.head id_default_data_set
    × FieldsFit default_data_set_layout (default_data_set_fields t)
IsDataSet (current_data_set t) =
    IsHeadOf t.head id_current_data_set
    × FieldsFit current_data_set_layout (current_data_set_fields t)
IsDataSet (parent_data_set t) =
    IsHeadOf t.head id_parent_data_set × FieldsFit parent_data_set_layout (parent_data_set_fields t)
IsDataSet (port_stats_np t) = ⊥
IsDataSet (time_status_np t) =
    IsHeadOf t.head id_time_status_np × FieldsFit time_status_np_layout (time_status_np_fields t)

-- What is read of the head of a TLV, before the TLV is read from its start.
pub tlv_head_read :
    (h : TlvHead) (rest : List ℕ)
    → FieldsFit tlv_head_layout (tlv_head_fields h)
    → management_unmarshal_tlv (put_fields tlv_head_layout (tlv_head_fields h) ++ rest) ≡ (
        if h.tlv_type == tlv_management_error_status
        then err error_status
        else (if h.tlv_type == tlv_management
            then decode_mgmt_tlv h.management_id
                (put_fields tlv_head_layout (tlv_head_fields h) ++ rest)
            else err wrong_message))
unfolding management_unmarshal_tlv put_fields put_be
tlv_head_read h rest fits =
    let b : List ℕ = put_fields tlv_head_layout (tlv_head_fields h) ++ rest in
    let behind : List ℕ = put_fields (2 ∷ []) (h.management_id, tt) ++ rest in
    let from : Fields (2 ∷ 2 ∷ []) → Result (Fields (2 ∷ [])) → Result MgmtTlv = λ t r.
      if t.0 == tlv_management_error_status
      then err error_status
      else (if t.0 == tlv_management
          then (r >>= λ id. decode_mgmt_tlv id.0 b)
          else err wrong_message) in
    ap (λ (r : Result (Fields (2 ∷ 2 ∷ []))). r >>= λ t. from t (read_struct (2 ∷ []) behind))
      (read_struct-put_fields (2 ∷ 2 ∷ []) (h.tlv_type, (h.length_field, tt)) behind
        (fits.0, (fits.1.0, tt)) (omega arith))
    ∙ ap (from (h.tlv_type, (h.length_field, tt)))
        (read_struct-put_fields (2 ∷ []) (h.management_id, tt) rest (fits.1.1.0, tt) (omega arith))

management_tlv :
    (h : TlvHead) (rest : List ℕ) (id : ℕ)
    → FieldsFit tlv_head_layout (tlv_head_fields h)
    → IsHeadOf h id
    → management_unmarshal_tlv (put_fields tlv_head_layout (tlv_head_fields h) ++ rest)
      ≡ decode_mgmt_tlv id (put_fields tlv_head_layout (tlv_head_fields h) ++ rest)
management_tlv h rest id fits is =
    let b : List ℕ = put_fields tlv_head_layout (tlv_head_fields h) ++ rest in
    tlv_head_read h rest fits
    ∙ ap
        (λ (t : ℕ).
          if t == tlv_management_error_status
          then err error_status
          else (if t == tlv_management
              then decode_mgmt_tlv h.management_id b
              else err wrong_message))
        is.0
    ∙ ap (λ (k : ℕ). decode_mgmt_tlv k b) is.1

-- A data set whose decoder reads one struct, the head of the TLV in front.
data_set :
    (ws : List ℕ) (h : TlvHead) (fs : Fields ws) (rest : List ℕ) (id : ℕ)
    (of : Fields (2 ∷ 2 ∷ 2 ∷ ws) → MgmtTlv)
    → ((b : List ℕ) → decode_mgmt_tlv id b ≡ (read_struct (2 ∷ 2 ∷ 2 ∷ ws) b >>= λ f. ok (of f)))
    → IsHeadOf h id
    → FieldsFit (2 ∷ 2 ∷ 2 ∷ ws) (h.tlv_type, (h.length_field, (h.management_id, fs)))
    → management_unmarshal_tlv
        (put_fields (2 ∷ 2 ∷ 2 ∷ ws) (h.tlv_type, (h.length_field, (h.management_id, fs))) ++ rest)
      ≡ ok (of (h.tlv_type, (h.length_field, (h.management_id, fs))))
unfolding put_fields put_be
data_set ws h fs rest id of decoder is fits =
    let whole : Fields (2 ∷ 2 ∷ 2 ∷ ws) = (h.tlv_type, (h.length_field, (h.management_id, fs))) in
    let b : List ℕ = put_fields (2 ∷ 2 ∷ 2 ∷ ws) whole ++ rest in
    management_tlv h (put_fields ws fs ++ rest) id (fits.0, (fits.1.0, (fits.1.1.0, tt))) is
    ∙ decoder b
    ∙ ap (λ (r : Result (Fields (2 ∷ 2 ∷ 2 ∷ ws))). r >>= λ f. ok (of f))
        (read_struct-put_fields (2 ∷ 2 ∷ 2 ∷ ws) whole rest fits (omega arith))

tlv_read :
    (t : MgmtTlv) (rest : List ℕ)
    → IsDataSet t
    → management_unmarshal_tlv (mgmt_tlv_bytes t ++ rest) ≡ ok t
unfolding mgmt_tlv_bytes decode_mgmt_tlv
tlv_read (request t) rest h = absurd h
tlv_read (default_data_set t) rest h =
    data_set (1 ∷ 1 ∷ 2 ∷ 1 ∷ 1 ∷ 1 ∷ 2 ∷ 1 ∷ 8 ∷ 1 ∷ 1 ∷ []) t.head
      (default_data_set_fields t).1.1.1 rest id_default_data_set
      (λ f. default_data_set (default_data_set_of_fields f)) (λ b. refl) h.0 h.1
tlv_read (current_data_set t) rest h =
    data_set (2 ∷ 8 ∷ 8 ∷ []) t.head (current_data_set_fields t).1.1.1 rest id_current_data_set
      (λ f. current_data_set (current_data_set_of_fields f)) (λ b. refl) h.0 h.1
tlv_read (parent_data_set t) rest h =
    data_set (8 ∷ 2 ∷ 1 ∷ 1 ∷ 2 ∷ 4 ∷ 1 ∷ 1 ∷ 1 ∷ 2 ∷ 1 ∷ 8 ∷ []) t.head
      (parent_data_set_fields t).1.1.1 rest id_parent_data_set
      (λ f. parent_data_set (parent_data_set_of_fields f)) (λ b. refl) h.0 h.1
tlv_read (port_stats_np t) rest h = absurd h
tlv_read (time_status_np t) rest h =
    data_set (8 ∷ 8 ∷ 4 ∷ 4 ∷ 2 ∷ 2 ∷ 8 ∷ 2 ∷ 4 ∷ 8 ∷ []) t.head (time_status_np_fields t).1.1.1
      rest id_time_status_np (λ f. time_status_np (time_status_np_of_fields f)) (λ b. refl) h.0 h.1

pub behind_msg_head :
    (h : MsgHead) (rest : List ℕ)
    → drop 48 (put_fields msg_head_layout (msg_head_fields h) ++ rest) ≡ rest
unfolding put_fields put_be
behind_msg_head h rest = refl

-- A management message with a default, current or parent data set, or with the time status of ptp4l,
-- its TLV's head true to it and its fields within their types, is read back from its bytes, whatever
-- follows them.
pub management_round_trip :
    (p : Management) (rest : List ℕ)
    → FieldsFit msg_head_layout (msg_head_fields p.head)
    → IsDataSet p.tlv
    → management_unmarshal_binary (management_marshal_binary p ++ rest) ≡ ok p
unfolding management_unmarshal_binary management_marshal_binary
management_round_trip p rest fits set =
    let head : List ℕ = put_fields msg_head_layout (msg_head_fields p.head) in
    let body : List ℕ = mgmt_tlv_bytes p.tlv ++ rest in
    let from : MsgHead → Result MgmtTlv → Result Management =
      λ h r. r >>= λ t. ok (record { head = h; tlv = t }) in
    let parse : List ℕ → Result Management = λ b. read_struct msg_head_layout b >>= λ h.
    from (msg_head_of_fields h) (management_unmarshal_tlv (drop 48 b)) in
    ap parse (append_assoc head (mgmt_tlv_bytes p.tlv) rest)
    ∙ ap
        (λ (r : Result (Fields msg_head_layout)). r >>= λ h.
          from (msg_head_of_fields h) (management_unmarshal_tlv (drop 48 (head ++ body))))
        (read_struct-put_fields msg_head_layout (msg_head_fields p.head) body fits (omega arith))
    ∙ ap (λ (b : List ℕ). from p.head (management_unmarshal_tlv b)) (behind_msg_head p.head body)
    ∙ ap (from p.head) (tlv_read p.tlv rest set)
