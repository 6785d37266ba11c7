-- ===== src/Ptp/Management/Examples.antt =====
-- Concrete management messages: tests, and the theorems at these inputs.
use ntp.Prelude.{
  ℕ, ◌≡◌, refl, List, [], ◌∷◌, ◌++◌, some, ok, err, wrong_message, management_error, length, arith,
}
use ntp.Wire.{put_be}
use ntp.Wire.Fields.{put_fields}
use ntp.Ptp.Examples.{example_identity}
use ntp.Ptp.Management.Structs.{CurrentDataSet}
use ntp.Ptp.Management.{
  Management, current_data_set, tlv_management_error_status, management_marshal_binary,
  management_unmarshal_binary, mgmt_tlv_bytes,
}
use ntp.Ptp.Management.RoundTrip.{management_round_trip}
use ntp.Ptp.Management.Requests.{
  request_head, request_tlv_head, current_data_set_request, port_stats_np_request,
  time_status_np_request, np_request, IsRequest, default_data_set_request, parent_data_set_request,
  data_set_requests,
}
use ntp.Ptp.Management.ErrorStatus.{ErrorStatus, error_status_marshal_binary}
use ntp.Ptp.Management.Client.{
  MgmtClient, send_packet, ask, ask_default_data_set, ask_current_data_set, ask_parent_data_set,
  ask_port_stats_np, ask_time_status_np, parent_data_set_of,
}
use ntp.Ptp.Management.Client.Asking.{ask_refused}
use ntp.Ptp.Management.Client.Questions.{Asked, AskedById, questions_answered}

-- What a server one step from its master answers.
abbrev example_current : CurrentDataSet
example_current = record {
  head = request_tlv_head 24 0x2001;
  steps_removed = 1;
  offset_from_master = 7864320;
  mean_path_delay = 2949120;
}

abbrev example_answer : Management
example_answer = record {
  head = record (request_head 4711 24) {
    action_field = 2;
    target_port_identity = example_identity;
  };
  tlv = current_data_set example_current;
}

management_round_trip_example :
    management_unmarshal_binary (management_marshal_binary example_answer ++ 0 ∷ 0 ∷ [])
    ≡ ok example_answer
unfolding request_head
management_round_trip_example =
    management_round_trip example_answer (0 ∷ 0 ∷ []) (omega arith) (omega arith)

data_set_requests_example :
    IsRequest (current_data_set_request 4711)
    × IsRequest (default_data_set_request 4711)
    × IsRequest (parent_data_set_request 4711)
data_set_requests_example = data_set_requests 4711 (omega arith)

abbrev example_client : MgmtClient
example_client = record { sequence = 65535; written = [] }

questions_answered_example :
    let read = some (management_marshal_binary example_answer) in
    Asked example_client
      (default_data_set_request 4711)
      (err wrong_message)
      (ask_default_data_set 4711 example_client read)
    × Asked example_client
        (current_data_set_request 4711)
        (ok example_current)
        (ask_current_data_set 4711 example_client read)
    × Asked example_client
        (parent_data_set_request 4711)
        (err wrong_message)
        (ask_parent_data_set 4711 example_client read)
    × AskedById example_client
        (port_stats_np_request 4711)
        0xc005
        (err wrong_message)
        (ask_port_stats_np 4711 example_client read)
    × AskedById example_client
        (time_status_np_request 4711)
        0xc000
        (err wrong_message)
        (ask_time_status_np 4711 example_client read)
unfolding request_head
questions_answered_example =
    questions_answered 4711 example_client example_answer (omega arith) (omega arith) (omega arith)

-- NO_SUCH_ID, with the text "no".
abbrev example_error : ErrorStatus
example_error = record {
  head = request_head 4711 15;
  tlv_type = tlv_management_error_status;
  length_field = 12;
  management_error_id = 2;
  management_id = 0x2002;
  reserved = 0;
  display_data = 110 ∷ 111 ∷ [];
}

ask_refused_example :
    (b : List ℕ) × (error_status_marshal_binary example_error ≡ ok b)
    × (ask parent_data_set_of example_client (parent_data_set_request 4711) (some b)
        ≡ (send_packet example_client (parent_data_set_request 4711), err (management_error 2)))
unfolding request_head
ask_refused_example =
    ask_refused parent_data_set_of example_client (parent_data_set_request 4711) example_error
      (omega arith) (omega arith) refl (omega arith) (omega arith)

-- A request for the port statistics is its two heads.
port_stats_np_request_short :
    length (management_marshal_binary (port_stats_np_request 4711))
    ≡ (port_stats_np_request 4711).head.header.message_length
unfolding port_stats_np_request np_request request_head management_marshal_binary mgmt_tlv_bytes
    put_fields put_be
port_stats_np_request_short = refl
