-- ===== src/Ptp/Management/Client.antt =====
-- ptp/protocol/management_client.go, and the two questions of ptp4l.go: the client of a management
-- socket. Its state is the number of its last packet and what it has written.
pub mod Asking
pub mod Questions
use ntp.Prelude.{
  ℕ, ◌+◌, ◌%◌, List, [], ◌∷◌, ◌++◌, Option, none, some, Bool, true, false, Result, ok, err, io,
  wrong_message, management_error, ◌>>=◌, take,
}
use ntp.Ptp.Header.{Header}
use ntp.Ptp.Management.Structs.{DefaultDataSet, CurrentDataSet, ParentDataSet, TimeStatusNp}
use ntp.Ptp.Management.{
  Management, MgmtTlv, PortStatsNp, request, default_data_set, current_data_set, parent_data_set,
  port_stats_np, time_status_np, management_marshal_binary,
}
use ntp.Ptp.Management.Requests.{
  current_data_set_request, default_data_set_request, parent_data_set_request,
  port_stats_np_request, time_status_np_request,
}
use ntp.Ptp.Management.ErrorStatus.{MgmtPacket, message, refusal, decode_mgmt_packet}

-- `MgmtClient`, with what was written, oldest first.
pub record MgmtClient : Type 0 where
  pub sequence : ℕ
  pub written : List (List ℕ)

-- `SetSequence` of the header.
abbrev pub set_sequence : ℕ → Management → Management
set_sequence n p = record p {
  head = record p.head { header = record p.head.header { sequence_id = n } };
}

-- `SendPacket`, on a connection that takes what is written to it.
unfoldable pub send_packet : MgmtClient → Management → MgmtClient
unfolding management_marshal_binary
send_packet c p =
    let n = (c.sequence + 1) % 65536 in
    record {
      sequence = n;
      written = c.written ++ management_marshal_binary (set_sequence n p) ∷ [];
    }

-- What `Communicate` makes of a read: none is a read that fails, and 1024 bytes are read at most.
unfoldable pub accepted : MgmtPacket → Result Management
accepted (message p) = ok p
accepted (refusal e) = err (management_error e.management_error_id)

unfoldable pub received : Option (List ℕ) → Result Management
unfolding decode_mgmt_packet accepted
received none = err io
received (some b) = decode_mgmt_packet (take 1024 b) >>= accepted

-- `Communicate`.
unfoldable pub communicate :
    MgmtClient → Management → Option (List ℕ) → MgmtClient × Result Management
unfolding send_packet received
communicate c p read = (send_packet c p, received read)

-- The type assertions on the TLV of an answer.
abbrev pub default_data_set_of : MgmtTlv → Option DefaultDataSet
default_data_set_of (default_data_set t) = some t
default_data_set_of t = none

abbrev pub current_data_set_of : MgmtTlv → Option CurrentDataSet
current_data_set_of (current_data_set t) = some t
current_data_set_of t = none

abbrev pub parent_data_set_of : MgmtTlv → Option ParentDataSet
parent_data_set_of (parent_data_set t) = some t
parent_data_set_of t = none

abbrev pub port_stats_np_of : MgmtTlv → Option PortStatsNp
port_stats_np_of (port_stats_np t) = some t
port_stats_np_of t = none

abbrev pub time_status_np_of : MgmtTlv → Option TimeStatusNp
time_status_np_of (time_status_np t) = some t
time_status_np_of t = none

module _ {ℓ} {A : Type ℓ} where
  abbrev pub asserted : Option A → Result A
  asserted none = err wrong_message
  asserted (some t) = ok t

  -- A question: the request is sent, and the TLV of the answer has to be of the type asked for.
  unfoldable pub ask :
      (MgmtTlv → Option A) → MgmtClient → Management → Option (List ℕ) → MgmtClient × Result A
  unfolding communicate
  ask of c p read =
      let (after, answer) = communicate c p read in (after, answer >>= λ p. asserted (of p.tlv))

-- `DefaultDataSet`, `CurrentDataSet`, `ParentDataSet`, `PortStatsNP` and `TimeStatusNP`, for a process id.
unfoldable pub ask_default_data_set :
    ℕ → MgmtClient → Option (List ℕ) → MgmtClient × Result DefaultDataSet
unfolding ask default_data_set_request
ask_default_data_set pid c read = ask default_data_set_of c (default_data_set_request pid) read

unfoldable pub ask_current_data_set :
    ℕ → MgmtClient → Option (List ℕ) → MgmtClient × Result CurrentDataSet
unfolding ask current_data_set_request
ask_current_data_set pid c read = ask current_data_set_of c (current_data_set_request pid) read

unfoldable pub ask_parent_data_set :
    ℕ → MgmtClient → Option (List ℕ) → MgmtClient × Result ParentDataSet
unfolding ask parent_data_set_request
ask_parent_data_set pid c read = ask parent_data_set_of c (parent_data_set_request pid) read

unfoldable pub ask_port_stats_np :
    ℕ → MgmtClient → Option (List ℕ) → MgmtClient × Result PortStatsNp
unfolding ask port_stats_np_request
ask_port_stats_np pid c read = ask port_stats_np_of c (port_stats_np_request pid) read

unfoldable pub ask_time_status_np :
    ℕ → MgmtClient → Option (List ℕ) → MgmtClient × Result TimeStatusNp
unfolding ask time_status_np_request
ask_time_status_np pid c read = ask time_status_np_of c (time_status_np_request pid) read
