-- ===== src/Ptp/Management/ErrorStatus.antt =====
-- ptp/protocol/management.go: the error status, and what any management packet is decoded to.
use ntp.Prelude.{
  ℕ, ◌==◌, List, [], ◌∷◌, ◌++◌, Result, ok, err, panic, out_of_fuel, error_status, ◌>>=◌, ◌||◌, leb,
  if◌then◌else◌, length, drop,
}
use ntp.Wire.Fields.{Fields, put_fields, read_struct}
use ntp.Ptp.Types.{unmarshal_text, marshal_text}
use ntp.Ptp.Management.Structs.{MsgHead, msg_head_layout, msg_head_fields, msg_head_of_fields}
use ntp.Ptp.Management.{Management, management_unmarshal_binary}

-- `ManagementMsgErrorStatus`.
pub record ErrorStatus : Type 0 where
  pub head : MsgHead
  pub tlv_type : ℕ
  pub length_field : ℕ
  pub management_error_id : ℕ
  pub management_id : ℕ
  pub reserved : ℕ
  pub display_data : List ℕ

-- The fields behind the head of the message are read one by one, with the same outcome as a struct
-- when they are there.
abbrev pub error_layout : List ℕ
error_layout = 2 ∷ 2 ∷ 2 ∷ 2 ∷ 4 ∷ []

abbrev pub error_fields : ErrorStatus → Fields error_layout
error_fields p =
    (p.tlv_type, (p.length_field, (p.management_error_id, (p.management_id, (p.reserved, tt)))))

-- The text at the end: none when nothing is left, or when the stated length (less 60) leaves nothing.
unfoldable pub read_display_data : MsgHead → List ℕ → Result (List ℕ)
unfolding unmarshal_text
read_display_data h b =
    if (length b == 0) || leb h.header.message_length 60 then ok [] else unmarshal_text b

-- `ManagementMsgErrorStatus.UnmarshalBinary`.
unfoldable pub error_status_unmarshal_binary : List ℕ → Result ErrorStatus
unfolding read_struct read_display_data
error_status_unmarshal_binary b = read_struct msg_head_layout b >>= λ h.
    read_struct (2 ∷ 2 ∷ []) (drop 48 b) >>= λ t. read_struct (2 ∷ []) (drop 52 b) >>= λ e.
    read_struct (2 ∷ []) (drop 54 b) >>= λ m. read_struct (4 ∷ []) (drop 56 b) >>= λ r.
    read_display_data (msg_head_of_fields h) (drop 60 b) >>= λ d. ok (record {
      head = msg_head_of_fields h;
      tlv_type = t.0;
      length_field = t.1.0;
      management_error_id = e.0;
      management_id = m.0;
      reserved = r.0;
      display_data = d;
    })

-- `ManagementMsgErrorStatus.MarshalBinary`.
unfoldable pub display_data_bytes : List ℕ → Result (List ℕ)
unfolding marshal_text
display_data_bytes [] = ok []
display_data_bytes (c ∷ cs) = marshal_text (c ∷ cs)

unfoldable pub error_status_marshal_binary : ErrorStatus → Result (List ℕ)
unfolding put_fields display_data_bytes
error_status_marshal_binary p = display_data_bytes p.display_data >>= λ d. ok (
    put_fields msg_head_layout (msg_head_fields p.head)
    ++ (put_fields error_layout (error_fields p) ++ d))

-- `decodeMgmtPacket`.
pub data MgmtPacket : Type 0 where
  message : Management → MgmtPacket
  refusal : ErrorStatus → MgmtPacket

unfoldable pub decode_refused : List ℕ → Result Management → Result MgmtPacket
unfolding error_status_unmarshal_binary
decode_refused b (ok p) = ok (message p)
decode_refused b (err error_status) = error_status_unmarshal_binary b >>= λ p. ok (refusal p)
decode_refused b (err e) = err e
decode_refused b panic = panic
decode_refused b out_of_fuel = out_of_fuel

unfoldable pub decode_mgmt_packet : List ℕ → Result MgmtPacket
unfolding decode_refused management_unmarshal_binary
decode_mgmt_packet b = decode_refused b (management_unmarshal_binary b)
