-- ===== src/Ptp/Header.antt =====
-- The common header of ptp/protocol/protocol.go: 34 bytes, read and written at fixed offsets.
pub mod Laws
use ntp.Prelude.{ℕ, ◌+◌, ◌^◌, ◌<◌, List, [], ◌∷◌, ◌++◌, Result, ok, err, panic, out_of_fuel, ◌>>=◌}
use ntp.Wire.{put_be, get_be, write_fields}
use ntp.Ptp.Types.{PortIdentity, msg_type}

abbrev pub header_size : ℕ
header_size = 34

pub record Header : Type 0 where
  pub sdo_id_and_msg_type : ℕ  -- uint8
  pub version : ℕ  -- uint8
  pub message_length : ℕ  -- uint16
  pub domain_number : ℕ  -- uint8
  pub minor_sdo_id : ℕ  -- uint8
  pub flag_field : ℕ  -- uint16
  pub correction_field : ℕ  -- the bits of an int64
  pub message_type_specific : ℕ  -- uint32
  pub source_port_identity : PortIdentity
  pub sequence_id : ℕ  -- uint16
  pub control_field : ℕ  -- uint8
  pub log_message_interval : ℕ  -- the bits of an int8

pub record IsPortIdentity (p : PortIdentity) : Type 0 where
  pub clock_identity_fits : p.clock_identity < 2 ^ 64
  pub port_number_fits : p.port_number < 65536

-- Every field fits its Go type.
pub record IsHeader (h : Header) : Type 0 where
  pub sdo_id_and_msg_type_fits : h.sdo_id_and_msg_type < 256
  pub version_fits : h.version < 256
  pub message_length_fits : h.message_length < 65536
  pub domain_number_fits : h.domain_number < 256
  pub minor_sdo_id_fits : h.minor_sdo_id < 256
  pub flag_field_fits : h.flag_field < 65536
  pub correction_field_fits : h.correction_field < 2 ^ 64
  pub message_type_specific_fits : h.message_type_specific < 2 ^ 32
  pub source_port_identity_fits : IsPortIdentity h.source_port_identity
  pub sequence_id_fits : h.sequence_id < 65536
  pub control_field_fits : h.control_field < 256
  pub log_message_interval_fits : h.log_message_interval < 256

-- The writes of `headerMarshalBinaryTo`, in order.
unfoldable pub header_fields : Header → List (ℕ × List ℕ)
header_fields p =
    (0, put_be 1 p.sdo_id_and_msg_type)
    ∷ (1, put_be 1 p.version)
    ∷ (2, put_be 2 p.message_length)
    ∷ (4, put_be 1 p.domain_number)
    ∷ (5, put_be 1 p.minor_sdo_id)
    ∷ (6, put_be 2 p.flag_field)
    ∷ (8, put_be 8 p.correction_field)
    ∷ (16, put_be 4 p.message_type_specific)
    ∷ (20, put_be 8 p.source_port_identity.clock_identity)
    ∷ (28, put_be 2 p.source_port_identity.port_number)
    ∷ (30, put_be 2 p.sequence_id)
    ∷ (32, put_be 1 p.control_field)
    ∷ (33, put_be 1 p.log_message_interval)
    ∷ []

-- `headerMarshalBinaryTo`: the buffer after it, and the bytes used.
unfoldable pub header_marshal_binary_to : Header → List ℕ → Result (List ℕ × ℕ)
header_marshal_binary_to p b = do b' ← write_fields (header_fields p) b; ok (b', header_size)

-- `unmarshalHeader`.
unfoldable pub unmarshal_header : List ℕ → Result Header
unmarshal_header b = do
  sdo ← get_be 1 0 b
  version ← get_be 1 1 b
  message_length ← get_be 2 2 b
  domain ← get_be 1 4 b
  minor ← get_be 1 5 b
  flags ← get_be 2 6 b
  correction ← get_be 8 8 b
  specific ← get_be 4 16 b
  clock ← get_be 8 20 b
  port ← get_be 2 28 b
  sequence ← get_be 2 30 b
  control ← get_be 1 32 b
  interval ← get_be 1 33 b
  ok (record {
    sdo_id_and_msg_type = sdo;
    version = version;
    message_length = message_length;
    domain_number = domain;
    minor_sdo_id = minor;
    flag_field = flags;
    correction_field = correction;
    message_type_specific = specific;
    source_port_identity = record { clock_identity = clock; port_number = port };
    sequence_id = sequence;
    control_field = control;
    log_message_interval = interval;
  })

-- `Header.MessageType` and `Header.SetSequence`.
unfoldable pub message_type : Header → ℕ
message_type p = msg_type p.sdo_id_and_msg_type

unfoldable pub set_sequence : Header → ℕ → Header
set_sequence p sequence = record p { sequence_id = sequence }
