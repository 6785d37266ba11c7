-- ===== src/Ptp/Management.antt =====
-- ptp/protocol/management.go: management messages.
pub mod Structs
pub mod RoundTrip
pub mod Requests
pub mod ErrorStatus
pub mod Refusals
pub mod Client
mod Examples
use ntp.Prelude.{
  ℕ, zero, suc, ◌+◌, ◌*◌, ◌-◌, List, [], ◌∷◌, ◌++◌, Result, ok, err, panic, out_of_fuel, Error, eof,
  error_status, wrong_message, unsupported_type, ◌>>=◌, ◌==◌, leb, if◌then◌else◌, length, drop,
  take, Option, none, some,
}
use ntp.Wire.{read_full}
use ntp.Wire.Fields.{Fields, put_fields, read_struct}
use ntp.Ptp.Types.{PortIdentity, unmarshal_text, marshal_text}
use ntp.Ptp.Management.Structs.{
  MsgHead, msg_head_layout, msg_head_fields, msg_head_of_fields, TlvHead, tlv_head_layout,
  tlv_head_fields, tlv_head_of_fields, CurrentDataSet, current_data_set_layout,
  current_data_set_fields, current_data_set_of_fields, DefaultDataSet, default_data_set_layout,
  default_data_set_fields, default_data_set_of_fields, ParentDataSet, parent_data_set_layout,
  parent_data_set_fields, parent_data_set_of_fields, TimeStatusNp, time_status_np_layout,
  time_status_np_fields, time_status_np_of_fields,
}

abbrev pub tlv_management : ℕ
tlv_management = 0x0001

abbrev pub tlv_management_error_status : ℕ
tlv_management_error_status = 0x0002

abbrev pub id_default_data_set : ℕ
id_default_data_set = 0x2000

abbrev pub id_current_data_set : ℕ
id_current_data_set = 0x2001

abbrev pub id_parent_data_set : ℕ
id_parent_data_set = 0x2002

abbrev pub id_time_status_np : ℕ
id_time_status_np = 0xc000

abbrev pub id_port_stats_np : ℕ
id_port_stats_np = 0xc005

-- `PortStatsNPTLV`: its two arrays of sixteen uint64 are lists.
pub record PortStatsNp : Type 0 where
  pub head : TlvHead
  pub port_identity : PortIdentity
  pub rx_msg_type : List ℕ
  pub tx_msg_type : List ℕ

-- `ManagementTLV`: `request` is the head alone, which the requests for the two TLVs of ptp4l have.
pub data MgmtTlv : Type 0 where
  request : TlvHead → MgmtTlv
  default_data_set : DefaultDataSet → MgmtTlv
  current_data_set : CurrentDataSet → MgmtTlv
  parent_data_set : ParentDataSet → MgmtTlv
  port_stats_np : PortStatsNp → MgmtTlv
  time_status_np : TimeStatusNp → MgmtTlv

-- `Management`.
pub record Management : Type 0 where
  pub head : MsgHead
  pub tlv : MgmtTlv

-- A number of `k` bytes, lowest byte first, and `n` such numbers of eight bytes.
unfoldable pub read_le : ℕ → List ℕ → Result ℕ
read_le zero b = ok 0
read_le (suc k) [] = panic
read_le (suc k) (x ∷ b) = read_le k b >>= λ v. ok (x + 256 * v)

unfoldable pub read_array : ℕ → List ℕ → Result (List ℕ)
unfolding read_le
read_array zero b = ok []
read_array (suc n) b = read_le 8 b >>= λ v. read_array n (drop 8 b) >>= λ vs. ok (v ∷ vs)

-- `binary.Read` of the statistics: 256 bytes, or an error.
unfoldable pub read_port_stats : List ℕ → Result (List ℕ × List ℕ)
unfolding read_array read_full
read_port_stats b = elim (read_full 256 b) [
  | none ↦ read_array 16 b >>= λ rx. read_array 16 (drop 128 b) >>= λ tx. ok (rx, tx)
  | some e ↦ err e
]

abbrev pub port_identity_layout : List ℕ
port_identity_layout = 8 ∷ 2 ∷ []

abbrev pub port_identity_of_fields : Fields port_identity_layout → PortIdentity
port_identity_of_fields (clock, (port, tt)) = record { clock_identity = clock; port_number = port }

unfoldable pub decode_port_stats_np : List ℕ → Result MgmtTlv
unfolding read_struct read_port_stats
decode_port_stats_np b = read_struct tlv_head_layout b >>= λ h.
    read_struct port_identity_layout (drop 6 b) >>= λ i. read_port_stats (drop 16 b) >>= λ s. ok (
      port_stats_np (record {
        head = tlv_head_of_fields h;
        port_identity = port_identity_of_fields i;
        rx_msg_type = s.0;
        tx_msg_type = s.1;
      }))

-- `mgmtTLVDecoder`, with no decoder registered besides its own.
unfoldable pub decode_mgmt_tlv : ℕ → List ℕ → Result MgmtTlv
unfolding read_struct decode_port_stats_np
decode_mgmt_tlv id b =
    if id == id_default_data_set
    then (read_struct default_data_set_layout b >>= λ f.
        ok (default_data_set (default_data_set_of_fields f)))
    else (if id == id_current_data_set
        then (read_struct current_data_set_layout b >>= λ f.
            ok (current_data_set (current_data_set_of_fields f)))
        else (if id == id_parent_data_set
            then (read_struct parent_data_set_layout b >>= λ f.
                ok (parent_data_set (parent_data_set_of_fields f)))
            else (if id == id_port_stats_np
                then decode_port_stats_np b
                else (if id == id_time_status_np
                    then (read_struct time_status_np_layout b >>= λ f.
                        ok (time_status_np (time_status_np_of_fields f)))
                    else err unsupported_type))))

-- `Management.UnmarshalBinary`: the head, the TLV's head (its two parts are read one after the other),
-- and the TLV from its own start.
unfoldable pub management_unmarshal_tlv : List ℕ → Result MgmtTlv
unfolding read_struct decode_mgmt_tlv
management_unmarshal_tlv b = read_struct (2 ∷ 2 ∷ []) b >>= λ t.
    if t.0 == tlv_management_error_status
    then err error_status
    else (if t.0 == tlv_management
        then (read_struct (2 ∷ []) (drop 4 b) >>= λ id. decode_mgmt_tlv id.0 b)
        else err wrong_message)

unfoldable pub management_unmarshal_binary : List ℕ → Result Management
unfolding read_struct management_unmarshal_tlv
management_unmarshal_binary b = read_struct msg_head_layout b >>= λ h.
    management_unmarshal_tlv (drop 48 b) >>= λ t.
    ok (record { head = msg_head_of_fields h; tlv = t })

-- `binary.Write` of a TLV, every field highest byte first.
unfoldable pub write_array : List ℕ → List ℕ
unfolding put_fields
write_array [] = []
write_array (v ∷ vs) = put_fields (8 ∷ []) (v, tt) ++ write_array vs

unfoldable pub mgmt_tlv_bytes : MgmtTlv → List ℕ
unfolding put_fields write_array
mgmt_tlv_bytes (request t) = put_fields tlv_head_layout (tlv_head_fields t)
mgmt_tlv_bytes (default_data_set t) = put_fields default_data_set_layout (default_data_set_fields t)
mgmt_tlv_bytes (current_data_set t) = put_fields current_data_set_layout (current_data_set_fields t)
mgmt_tlv_bytes (parent_data_set t) = put_fields parent_data_set_layout (parent_data_set_fields t)
mgmt_tlv_bytes (port_stats_np t) =
    put_fields tlv_head_layout (tlv_head_fields t.head)
    ++ (put_fields port_identity_layout
          (t.port_identity.clock_identity, (t.port_identity.port_number, tt))
        ++ (write_array t.rx_msg_type ++ write_array t.tx_msg_type))
mgmt_tlv_bytes (time_status_np t) = put_fields time_status_np_layout (time_status_np_fields t)

-- `Management.MarshalBinary`.
unfoldable pub management_marshal_binary : Management → List ℕ
unfolding put_fields mgmt_tlv_bytes
management_marshal_binary p =
    put_fields msg_head_layout (msg_head_fields p.head) ++ mgmt_tlv_bytes p.tlv
