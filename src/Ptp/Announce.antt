-- ===== src/Ptp/Announce.antt =====
-- The Announce message of ptp/protocol/protocol.go. It marshals itself by offsets; nothing but
-- `binary.Read` of the whole struct decodes it.
pub mod Laws
use ntp.Prelude.{
  ℕ, ◌+◌, ◌^◌, ◌<◌, List, [], ◌∷◌, ◌++◌, Result, ok, err, panic, out_of_fuel, ◌>>=◌, ◌>>◌, guard,
  Error, not_enough_buffer, leb, length,
}
use ntp.Wire.{put_be, write_fields}
use ntp.Wire.Struct.{binary_read}
use ntp.Ptp.Types.{Timestamp}
use ntp.Ptp.Header.{Header, header_size, header_marshal_binary_to}
use ntp.Ptp.Messages.{timestamp_fields, marshal_binary, bytes}

-- `ClockQuality`.
pub record ClockQuality : Type 0 where
  pub clock_class : ℕ  -- uint8
  pub clock_accuracy : ℕ  -- uint8
  pub offset_scaled_log_variance : ℕ  -- uint16

-- `Announce`.
pub record Announce : Type 0 where
  pub header : Header
  pub origin_timestamp : Timestamp
  pub current_utc_offset : ℕ  -- the bits of an int16
  pub reserved : ℕ  -- uint8
  pub grandmaster_priority1 : ℕ  -- uint8
  pub grandmaster_clock_quality : ClockQuality
  pub grandmaster_priority2 : ℕ  -- uint8
  pub grandmaster_identity : ℕ  -- uint64
  pub steps_removed : ℕ  -- uint16
  pub time_source : ℕ  -- uint8

unfoldable pub announce_fields : ℕ → Announce → List (ℕ × List ℕ)
unfolding timestamp_fields
announce_fields n p =
    timestamp_fields n p.origin_timestamp
    ++ (n + 10, put_be 2 p.current_utc_offset)
      ∷ (n + 12, put_be 1 p.reserved)
      ∷ (n + 13, put_be 1 p.grandmaster_priority1)
      ∷ (n + 14, put_be 1 p.grandmaster_clock_quality.clock_class)
      ∷ (n + 15, put_be 1 p.grandmaster_clock_quality.clock_accuracy)
      ∷ (n + 16, put_be 2 p.grandmaster_clock_quality.offset_scaled_log_variance)
      ∷ (n + 18, put_be 1 p.grandmaster_priority2)
      ∷ (n + 19, put_be 8 p.grandmaster_identity)
      ∷ (n + 27, put_be 2 p.steps_removed)
      ∷ (n + 29, put_be 1 p.time_source)
      ∷ []

-- `Announce.MarshalBinaryTo`.
unfoldable pub announce_marshal_binary_to : Announce → List ℕ → Result (List ℕ × ℕ)
unfolding header_marshal_binary_to
announce_marshal_binary_to p b = do
  guard (leb (header_size + 30) (length b)) not_enough_buffer
  (b', n) ← header_marshal_binary_to p.header b
  b'' ← write_fields (announce_fields n p) b'
  ok (b'', n + 30)

-- `Bytes` of an Announce, whose `MarshalBinary` has a buffer of 64 bytes.
unfoldable pub announce_bytes : Announce → Result (List ℕ)
unfolding marshal_binary bytes
announce_bytes p = bytes (marshal_binary 64 (announce_marshal_binary_to p))

-- The struct as `binary.Read` sees it: the fields of the header, then those of the body; the six
-- bytes of the seconds are one field here.
abbrev pub layout : List ℕ
layout =
    1 ∷ 1 ∷ 2 ∷ 1 ∷ 1 ∷ 2 ∷ 8 ∷ 4 ∷ 8 ∷ 2 ∷ 2 ∷ 1 ∷ 1 ∷ 6 ∷ 4 ∷ 2 ∷ 1 ∷ 1 ∷ 1 ∷ 1 ∷ 2 ∷ 1 ∷ 8 ∷ 2
    ∷ 1 ∷ []

abbrev pub values : Announce → List ℕ
values p =
    p.header.sdo_id_and_msg_type ∷ p.header.version ∷ p.header.message_length
    ∷ p.header.domain_number ∷ p.header.minor_sdo_id ∷ p.header.flag_field
    ∷ p.header.correction_field ∷ p.header.message_type_specific
    ∷ p.header.source_port_identity.clock_identity ∷ p.header.source_port_identity.port_number
    ∷ p.header.sequence_id ∷ p.header.control_field ∷ p.header.log_message_interval
    ∷ p.origin_timestamp.seconds ∷ p.origin_timestamp.nanoseconds ∷ p.current_utc_offset
    ∷ p.reserved ∷ p.grandmaster_priority1 ∷ p.grandmaster_clock_quality.clock_class
    ∷ p.grandmaster_clock_quality.clock_accuracy
    ∷ p.grandmaster_clock_quality.offset_scaled_log_variance ∷ p.grandmaster_priority2
    ∷ p.grandmaster_identity ∷ p.steps_removed ∷ p.time_source ∷ []

unfoldable pub of_values : List ℕ → Result Announce
of_values
      (a ∷ b ∷ c ∷ d ∷ e ∷ f ∷ g ∷ h ∷ i ∷ j ∷ k ∷ l ∷ m ∷ n ∷ o ∷ p ∷ q ∷ r ∷ s ∷ t ∷ u ∷ v ∷ w ∷ x
        ∷ y ∷ []) =
    ok (record {
      header = record {
        sdo_id_and_msg_type = a;
        version = b;
        message_length = c;
        domain_number = d;
        minor_sdo_id = e;
        flag_field = f;
        correction_field = g;
        message_type_specific = h;
        source_port_identity = record { clock_identity = i; port_number = j };
        sequence_id = k;
        control_field = l;
        log_message_interval = m;
      };
      origin_timestamp = record { seconds = n; nanoseconds = o };
      current_utc_offset = p;
      reserved = q;
      grandmaster_priority1 = r;
      grandmaster_clock_quality = record {
        clock_class = s;
        clock_accuracy = t;
        offset_scaled_log_variance = u;
      };
      grandmaster_priority2 = v;
      grandmaster_identity = w;
      steps_removed = x;
      time_source = y;
    })
of_values _ = panic

-- `FromBytes` into an Announce.
unfoldable pub announce_from_bytes : List ℕ → Result Announce
announce_from_bytes b = binary_read layout b >>= of_values
