-- ===== src/Ptp/Management/Requests.antt =====
-- ptp/protocol/management_tlvs.go: the requests for the three data sets.
use ntp.Prelude.{ℕ, ◌+◌, ◌-◌, ◌<◌, ◌≡◌, refl, [], ◌++◌, ok, length, arith}
use ntp.Wire.{put_be}
use ntp.Wire.Fields.{put_fields}
use ntp.Ptp.MessageType
use ntp.Ptp.Types.{new_sdo_id_and_msg_type}
use ntp.Ptp.Management.Structs.{MsgHead, TlvHead}
use ntp.Ptp.Management.{
  Management, MgmtTlv, request, port_stats_np, time_status_np, current_data_set, default_data_set,
  parent_data_set, tlv_management, id_current_data_set, id_default_data_set, id_parent_data_set,
  id_port_stats_np, id_time_status_np, mgmt_tlv_bytes, management_marshal_binary,
  management_unmarshal_binary,
}
use ntp.Ptp.Management.RoundTrip.{management_round_trip}

-- The requests, for the process id that `identity` holds as its port number. `binary.Size` of the
-- head of a message is 48.
unfoldable pub request_head : ℕ → ℕ → MsgHead
unfolding new_sdo_id_and_msg_type
request_head pid size = record {
  header = record {
    sdo_id_and_msg_type = new_sdo_id_and_msg_type MessageType.management 0;
    version = 0x12;
    message_length = 48 + size;
    domain_number = 0;
    minor_sdo_id = 0;
    flag_field = 0;
    correction_field = 0;
    message_type_specific = 0;
    source_port_identity = record { clock_identity = 0; port_number = pid };
    sequence_id = 0;
    control_field = 0;
    log_message_interval = 0x7f;
  };
  target_port_identity = record { clock_identity = 0xffffffffffffffff; port_number = 0xffff };
  starting_boundary_hops = 0;
  boundary_hops = 0;
  action_field = 0;
  reserved = 0;
}

abbrev pub request_tlv_head : ℕ → ℕ → TlvHead
request_tlv_head size id = record {
  tlv_type = tlv_management;
  length_field = size - 4;
  management_id = id;
}

-- `CurrentDataSetRequest`, `DefaultDataSetRequest` and `ParentDataSetRequest`: the sizes of the three
-- TLVs are 24, 26 and 38.
unfoldable pub current_data_set_request : ℕ → Management
unfolding request_head
current_data_set_request pid = record {
  head = request_head pid 24;
  tlv = current_data_set (record {
    head = request_tlv_head 24 id_current_data_set;
    steps_removed = 0;
    offset_from_master = 0;
    mean_path_delay = 0;
  });
}

unfoldable pub default_data_set_request : ℕ → Management
unfolding request_head
default_data_set_request pid = record {
  head = request_head pid 26;
  tlv = default_data_set (record {
    head = request_tlv_head 26 id_default_data_set;
    so_tsc = 0;
    reserved0 = 0;
    number_ports = 0;
    priority1 = 0;
    clock_quality = record { clock_class = 0; clock_accuracy = 0; offset_scaled_log_variance = 0 };
    priority2 = 0;
    clock_identity = 0;
    domain_number = 0;
    reserved1 = 0;
  });
}

unfoldable pub parent_data_set_request : ℕ → Management
unfolding request_head
parent_data_set_request pid = record {
  head = request_head pid 38;
  tlv = parent_data_set (record {
    head = request_tlv_head 38 id_parent_data_set;
    parent_port_identity = record { clock_identity = 0; port_number = 0 };
    ps = 0;
    reserved = 0;
    observed_parent_offset_scaled_log_variance = 0;
    observed_parent_clock_phase_change_rate = 0;
    grandmaster_priority1 = 0;
    grandmaster_clock_quality = record {
      clock_class = 0;
      clock_accuracy = 0;
      offset_scaled_log_variance = 0;
    };
    grandmaster_priority2 = 0;
    grandmaster_identity = 0;
  });
}

-- `PortStatsNPRequest` and `TimeStatusNPRequest`: a TLV head with no data behind it.
unfoldable pub np_request : ℕ → ℕ → Management
unfolding request_head
np_request pid id = record {
  head = request_head pid (4 + 2);
  tlv = request (record { tlv_type = tlv_management; length_field = 2; management_id = id });
}

unfoldable pub port_stats_np_request : ℕ → Management
unfolding np_request
port_stats_np_request pid = np_request pid id_port_stats_np

unfoldable pub time_status_np_request : ℕ → Management
unfolding np_request
time_status_np_request pid = np_request pid id_time_status_np

-- The head of a TLV.
abbrev pub head_of : MgmtTlv → TlvHead
head_of (request t) = t
head_of (default_data_set t) = t.head
head_of (current_data_set t) = t.head
head_of (parent_data_set t) = t.head
head_of (port_stats_np t) = t.head
head_of (time_status_np t) = t.head

-- A request that says its own length, in the message and in the TLV, and is read back from its bytes.
abbrev pub IsRequest : Management → Type 0
IsRequest p =
    (length (management_marshal_binary p) ≡ p.head.header.message_length)
    × (length (mgmt_tlv_bytes p.tlv) ≡ 4 + (head_of p.tlv).length_field)
    × (management_unmarshal_binary (management_marshal_binary p ++ []) ≡ ok p)

-- For a process id of sixteen bits, the requests for the current, the default and the parent data set
-- state their lengths truly, in the head of the message and in that of the TLV, and are read back from
-- their bytes.
pub data_set_requests :
    (pid : ℕ)
    → pid < 65536
    → IsRequest (current_data_set_request pid)
      × IsRequest (default_data_set_request pid)
      × IsRequest (parent_data_set_request pid)
unfolding current_data_set_request default_data_set_request parent_data_set_request
    management_marshal_binary mgmt_tlv_bytes put_fields put_be
data_set_requests pid h = (
  (refl, refl, management_round_trip (current_data_set_request pid) [] (omega arith) (omega arith)),
  (refl, refl, management_round_trip (default_data_set_request pid) [] (omega arith) (omega arith)),
  (refl, refl, management_round_trip (parent_data_set_request pid) [] (omega arith) (omega arith)),
)
