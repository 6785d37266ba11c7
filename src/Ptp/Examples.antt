-- ===== src/Ptp/Examples.antt =====
-- Concrete packets: tests, and the theorems of the protocol's modules at these inputs.
use ntp.Prelude.{
  ℕ, ◌<◌, ◌≡◌, ◌≢◌, refl, List, [], ◌∷◌, ◌++◌, replicate, ok, panic, out_of_fuel, arith,
}
use ntp.Wire.{read}
use ntp.Ptp.MessageType
use ntp.Ptp.TlvType
use ntp.Ptp.Types.{PortIdentity, Timestamp, msg_type}
use ntp.Ptp.Header.{Header, IsHeader, unmarshal_header, message_type}
use ntp.Ptp.Messages.{SyncDelayReq, FollowUp, DelayResp, IsTimestamp}
use ntp.Ptp.Announce.{Announce, announce_bytes, announce_from_bytes}
use ntp.Ptp.Announce.Laws.{announce_round_trip}
use ntp.Ptp.Signaling.{signaling_unmarshal_binary}
use ntp.Ptp.Signaling.Ends.{signaling_unmarshal_binary_ends, signaling_unmarshal_binary_panics}

abbrev pub example_identity : PortIdentity
example_identity = record { clock_identity = 0xc42a1fffe6d7ca6; port_number = 1 }

-- A header of the given type and length.
abbrev pub example_header : ℕ → ℕ → Header
example_header t n = record {
  sdo_id_and_msg_type = t;
  version = 2;
  message_length = n;
  domain_number = 0;
  minor_sdo_id = 0;
  flag_field = 0x0400;
  correction_field = 0;
  message_type_specific = 0;
  source_port_identity = example_identity;
  sequence_id = 116;
  control_field = 0;
  log_message_interval = 0x7f;
}

example_header-IsHeader : (t n : ℕ) → t < 256 → n < 65536 → IsHeader (example_header t n)
example_header-IsHeader t n ht hn = ground arith

abbrev example_time : Timestamp
example_time = record { seconds = 1638355200; nanoseconds = 123456789 }

example_time-IsTimestamp : IsTimestamp example_time
example_time-IsTimestamp = record { seconds_fits = omega arith; nanoseconds_fits = omega arith }

abbrev pub example_sync : SyncDelayReq
example_sync = record { header = example_header 0 44; origin_timestamp = example_time }

abbrev example_follow_up : FollowUp
example_follow_up = record { header = example_header 8 44; precise_origin_timestamp = example_time }

abbrev example_delay_resp : DelayResp
example_delay_resp = record {
  header = example_header 9 54;
  receive_timestamp = example_time;
  requesting_port_identity = example_identity;
}

abbrev example_announce : Announce
example_announce = record {
  header = example_header 11 64;
  origin_timestamp = example_time;
  current_utc_offset = 37;
  reserved = 0;
  grandmaster_priority1 = 128;
  grandmaster_clock_quality = record {
    clock_class = 6;
    clock_accuracy = 33;
    offset_scaled_log_variance = 23008;
  };
  grandmaster_priority2 = 128;
  grandmaster_identity = 77;
  steps_removed = 1;
  time_source = 0x20;
}

announce_round_trip_example :
    (b : List ℕ) × (announce_bytes example_announce ≡ ok b)
    × (announce_from_bytes b ≡ ok example_announce)
announce_round_trip_example = announce_round_trip example_announce (omega arith)

signaling_unmarshal_binary_ends_example : signaling_unmarshal_binary (replicate 60 12) ≢ out_of_fuel
signaling_unmarshal_binary_ends_example = signaling_unmarshal_binary_ends (replicate 60 12)

-- 48 bytes: a Signaling header that states 48 bytes, the target, and the head of a request.
abbrev cut_short : List ℕ
cut_short = (12 ∷ 2 ∷ 0 ∷ 48 ∷ replicate 40 0) ++ 0 ∷ 4 ∷ 0 ∷ 6 ∷ []

abbrev cut_short_header : Header
cut_short_header = record {
  sdo_id_and_msg_type = 12;
  version = 2;
  message_length = 48;
  domain_number = 0;
  minor_sdo_id = 0;
  flag_field = 0;
  correction_field = 0;
  message_type_specific = 0;
  source_port_identity = record { clock_identity = 0; port_number = 0 };
  sequence_id = 0;
  control_field = 0;
  log_message_interval = 0;
}

cut_short-header : unmarshal_header cut_short ≡ ok cut_short_header
unfolding unmarshal_header read
cut_short-header = refl

cut_short-type : message_type cut_short_header ≡ MessageType.signaling
unfolding message_type msg_type
cut_short-type = refl

cut_short-tlv : read 2 0 (0 ∷ 4 ∷ 0 ∷ 6 ∷ []) ≡ ok TlvType.request_unicast_transmission
unfolding read
cut_short-tlv = refl

signaling_unmarshal_binary_panics_example : signaling_unmarshal_binary cut_short ≡ panic
signaling_unmarshal_binary_panics_example =
    signaling_unmarshal_binary_panics cut_short cut_short_header (omega arith) (omega arith)
      cut_short-header cut_short-type (omega arith) cut_short-tlv
