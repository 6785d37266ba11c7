-- ===== src/Ptp/Management/Refusals.antt =====
-- What a packet with a management error status is decoded to.
use ntp.Prelude.{
  ℕ, ◌<◌, ◌≤◌, ◌≡◌, refl, ap, ◌∙◌, List, [], ◌∷◌, ◌++◌, Result, ok, err, error_status, ◌>>=◌,
  length, drop, arith, length-append,
}
use mathlib.Core.List.{append-nil}
use ntp.Wire.{put_be}
use ntp.Wire.Fields.{
  Fields, FieldsFit, put_fields, read_struct, read_struct-put_fields, length-put_fields,
}
use ntp.Ptp.Types.{unmarshal_text, marshal_text}
use ntp.Ptp.Types.Laws.{unmarshal_text-marshal}
use ntp.Ptp.Management.Structs.{
  MsgHead, msg_head_layout, msg_head_fields, msg_head_of_fields, TlvHead,
}
use ntp.Ptp.Management.{
  Management, MgmtTlv, tlv_management_error_status, management_unmarshal_tlv,
  management_unmarshal_binary,
}
use ntp.Ptp.Management.RoundTrip.{tlv_head_read, behind_msg_head}
use ntp.Ptp.Management.ErrorStatus.{
  ErrorStatus, error_layout, error_fields, read_display_data, error_status_unmarshal_binary,
  display_data_bytes, error_status_marshal_binary, refusal, decode_refused, decode_mgmt_packet,
}

-- The stated length leaves room for a text when there is one.
abbrev pub HasRoom : MsgHead → List ℕ → Type 0
HasRoom h [] = Unit
HasRoom h (c ∷ cs) = 60 < h.header.message_length

read_text :
    (h : MsgHead) (d text : List ℕ)
    → 60 < h.header.message_length
    → unmarshal_text d ≡ ok text
    → read_display_data h d ≡ ok text
unfolding read_display_data unmarshal_text
read_text h [] text room u = ground (arith, u)
read_text h (x ∷ d) text room u = ground (arith, u)

text_size : (text d : List ℕ) → length text ≤ 255 → marshal_text text ≡ ok d → length d ≤ 257
unfolding marshal_text
text_size text d short written =
    ground (arith, written, length-append text [], length-append text (0 ∷ []))

display_data_read :
    (h : MsgHead) (text : List ℕ)
    → length text ≤ 255
    → HasRoom h text
    → (d : List ℕ) × (display_data_bytes text ≡ ok d)
      × (length d ≤ 257)
      × (read_display_data h d ≡ ok text)
unfolding display_data_bytes read_display_data
display_data_read h [] short room = ([], refl, omega arith, refl)
display_data_read h (c ∷ cs) short room =
    let (d, written, read) = unmarshal_text-marshal (c ∷ cs) [] short in
    (
      d,
      written,
      text_size (c ∷ cs) d short written,
      read_text h d (c ∷ cs) room (rw append-nil at read),
    )

error_status_read :
    (p : ErrorStatus) (d : List ℕ)
    → FieldsFit msg_head_layout (msg_head_fields p.head)
    → FieldsFit error_layout (error_fields p)
    → read_display_data p.head d ≡ ok p.display_data
    → error_status_unmarshal_binary (
        put_fields msg_head_layout (msg_head_fields p.head)
        ++ (put_fields error_layout (error_fields p) ++ d))
      ≡ ok p
unfolding error_status_unmarshal_binary put_fields put_be
error_status_read p d head fits text =
    let body : List ℕ = put_fields error_layout (error_fields p) ++ d in
    let b : List ℕ = put_fields msg_head_layout (msg_head_fields p.head) ++ body in
    let with_text : Fields (2 ∷ 2 ∷ [])
        → Fields (2 ∷ [])
        → Fields (2 ∷ [])
        → Fields (4 ∷ [])
        → Result (List ℕ)
        → Result ErrorStatus =
      λ t e m r x. x >>= λ d. ok (record {
        head = p.head;
        tlv_type = t.0;
        length_field = t.1.0;
        management_error_id = e.0;
        management_id = m.0;
        reserved = r.0;
        display_data = d;
      }) in
    let text_at : Result (List ℕ) = read_display_data p.head (drop 60 b) in
    let types : Fields (2 ∷ 2 ∷ []) = (p.tlv_type, (p.length_field, tt)) in
    let error : Fields (2 ∷ []) = (p.management_error_id, tt) in
    let id : Fields (2 ∷ []) = (p.management_id, tt) in
    let reserved : Fields (4 ∷ []) = (p.reserved, tt) in
    let behind_id : List ℕ = put_fields (4 ∷ []) reserved ++ d in
    let behind_error : List ℕ = put_fields (2 ∷ []) id ++ behind_id in
    let behind_types : List ℕ = put_fields (2 ∷ []) error ++ behind_error in
    ap
      (λ (x : Result (Fields msg_head_layout)). x >>= λ h.
        read_struct (2 ∷ 2 ∷ []) (drop 48 b) >>= λ t. read_struct (2 ∷ []) (drop 52 b) >>= λ e.
        read_struct (2 ∷ []) (drop 54 b) >>= λ m. read_struct (4 ∷ []) (drop 56 b) >>= λ r.
        read_display_data (msg_head_of_fields h) (drop 60 b) >>= λ d. ok (record {
          head = msg_head_of_fields h;
          tlv_type = t.0;
          length_field = t.1.0;
          management_error_id = e.0;
          management_id = m.0;
          reserved = r.0;
          display_data = d;
        }))
      (read_struct-put_fields msg_head_layout (msg_head_fields p.head) body head (omega arith))
    ∙ ap
        (λ (x : Result (Fields (2 ∷ 2 ∷ []))). x >>= λ t. read_struct (2 ∷ []) (drop 52 b) >>= λ e.
          read_struct (2 ∷ []) (drop 54 b) >>= λ m.
          read_struct (4 ∷ []) (drop 56 b) >>= λ r. with_text t e m r text_at)
        (read_struct-put_fields (2 ∷ 2 ∷ []) types behind_types (fits.0, (fits.1.0, tt))
          (omega arith))
    ∙ ap
        (λ (x : Result (Fields (2 ∷ []))). x >>= λ e. read_struct (2 ∷ []) (drop 54 b) >>= λ m.
          read_struct (4 ∷ []) (drop 56 b) >>= λ r. with_text types e m r text_at)
        (read_struct-put_fields (2 ∷ []) error behind_error (fits.1.1.0, tt) (omega arith))
    ∙ ap
        (λ (x : Result (Fields (2 ∷ []))).
          x >>= λ m. read_struct (4 ∷ []) (drop 56 b) >>= λ r. with_text types error m r text_at)
        (read_struct-put_fields (2 ∷ []) id behind_id (fits.1.1.1.0, tt) (omega arith))
    ∙ ap (λ (x : Result (Fields (4 ∷ []))). x >>= λ r. with_text types error id r text_at)
        (read_struct-put_fields (4 ∷ []) reserved d (fits.1.1.1.1.0, tt) (omega arith))
    ∙ ap (with_text types error id reserved) text

refused_as_message :
    (p : ErrorStatus) (d : List ℕ)
    → FieldsFit msg_head_layout (msg_head_fields p.head)
    → FieldsFit error_layout (error_fields p)
    → p.tlv_type ≡ tlv_management_error_status
    → management_unmarshal_binary (
        put_fields msg_head_layout (msg_head_fields p.head)
        ++ (put_fields error_layout (error_fields p) ++ d))
      ≡ err error_status
unfolding management_unmarshal_binary put_fields put_be
refused_as_message p d head fits is =
    let body : List ℕ = put_fields error_layout (error_fields p) ++ d in
    let tlv : TlvHead = record {
      tlv_type = p.tlv_type;
      length_field = p.length_field;
      management_id = p.management_error_id;
    } in
    let rest : List ℕ = put_fields (2 ∷ 4 ∷ []) (p.management_id, (p.reserved, tt)) ++ d in
    let put : MsgHead → Result MgmtTlv → Result Management =
      λ h x. x >>= λ t. ok (record { head = h; tlv = t }) in
    let refused : management_unmarshal_tlv body ≡ err error_status =
      tlv_head_read tlv rest (fits.0, (fits.1.0, (fits.1.1.0, tt))) ∙ (grind (arith, is)) in
    ap
      (λ (x : Result (Fields msg_head_layout)). x >>= λ h. put (msg_head_of_fields h) (
        management_unmarshal_tlv
          (drop 48 (put_fields msg_head_layout (msg_head_fields p.head) ++ body))))
      (read_struct-put_fields msg_head_layout (msg_head_fields p.head) body head (omega arith))
    ∙ ap (λ (b : List ℕ). put p.head (management_unmarshal_tlv b)) (behind_msg_head p.head body)
    ∙ ap (put p.head) refused

-- An error status of that TLV type whose fields are within their types, whose text has at most 255
-- bytes, and whose stated length exceeds 60 if it has a text, is marshalled without error to at
-- most 317 bytes, and the packet is decoded to it as a refusal.
pub decode_mgmt_packet-error_status :
    (p : ErrorStatus)
    → FieldsFit msg_head_layout (msg_head_fields p.head)
    → FieldsFit error_layout (error_fields p)
    → p.tlv_type ≡ tlv_management_error_status
    → length p.display_data ≤ 255
    → HasRoom p.head p.display_data
    → (b : List ℕ) × (error_status_marshal_binary p ≡ ok b)
      × (length b ≤ 317)
      × (decode_mgmt_packet b ≡ ok (refusal p))
unfolding error_status_marshal_binary decode_mgmt_packet decode_refused
decode_mgmt_packet-error_status p head fits is short room =
    let (d, written, size, read) = display_data_read p.head p.display_data short room in
    let front : List ℕ = put_fields msg_head_layout (msg_head_fields p.head) in
    let b : List ℕ = front ++ (put_fields error_layout (error_fields p) ++ d) in
    (
      b,
      ap
          (λ (x : Result (List ℕ)).
            x >>= λ d. ok (front ++ (put_fields error_layout (error_fields p) ++ d)))
          written,
      omega (
        arith,
        length-append front (put_fields error_layout (error_fields p) ++ d),
        length-append (put_fields error_layout (error_fields p)) d,
        length-put_fields msg_head_layout (msg_head_fields p.head),
        length-put_fields error_layout (error_fields p),
        size,
      ),
      ap (decode_refused b) (refused_as_message p d head fits is)
          ∙ ap (λ (x : Result ErrorStatus). x >>= λ p. ok (refusal p))
              (error_status_read p d head fits read),
    )
