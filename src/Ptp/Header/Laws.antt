-- ===== src/Ptp/Header/Laws.antt =====
-- The header's bytes, both ways.
use ntp.Prelude.{ℕ, ◌≡◌, refl, List, ◌++◌, ok, length, arith}
use ntp.Wire.{put_be}
use ntp.Wire.Laws.{read-put_be, bytes_of, Consecutive}
use ntp.Ptp.Header.{Header, IsHeader, header_fields, unmarshal_header}

-- The 34 bytes of a header.
abbrev pub header_bytes : Header → List ℕ
header_bytes p = bytes_of (header_fields p)

length-header_bytes : (p : Header) → length (header_bytes p) ≡ 34
unfolding header_fields put_be
length-header_bytes p = refl

header_fields-Consecutive : (p : Header) → Consecutive 0 (header_fields p)
unfolding header_fields put_be
header_fields-Consecutive p = omega arith

-- A header whose fields fit their types is read back from its bytes, whatever follows them.
pub unmarshal_header-bytes :
    (p : Header) (rest : List ℕ) → IsHeader p → unmarshal_header (header_bytes p ++ rest) ≡ ok p
unfolding unmarshal_header header_fields put_be
unmarshal_header-bytes p rest h = rw (
  read-put_be 1 p.sdo_id_and_msg_type _ (omega arith),
  read-put_be 1 p.version _ (omega arith),
  read-put_be 2 p.message_length _ (omega arith),
  read-put_be 1 p.domain_number _ (omega arith),
  read-put_be 1 p.minor_sdo_id _ (omega arith),
  read-put_be 2 p.flag_field _ (omega arith),
  read-put_be 8 p.correction_field _ (omega arith),
  read-put_be 4 p.message_type_specific _ (omega arith),
  read-put_be 8 p.source_port_identity.clock_identity _ (omega arith),
  read-put_be 2 p.source_port_identity.port_number _ (omega arith),
  read-put_be 2 p.sequence_id _ (omega arith),
  read-put_be 1 p.control_field _ (omega arith),
  read-put_be 1 p.log_message_interval _ (omega arith),
)
