-- ===== src/Ptp/Client/Requests.antt =====
-- ptp/simpleclient/requests.go: the packets that the client asks with.
use ntp.Prelude.{ℕ, ◌*◌, ◌%◌, ◌^◌, ◌<◌, ◌≡◌, refl, List, [], ◌∷◌, ok, arith}
use ntp.Prelude.Bits.{bit_or-shifted}
use ntp.Ptp.MessageType
use ntp.Ptp.TlvType
use ntp.Ptp.Types.{
  PortIdentity, msg_type, new_sdo_id_and_msg_type, unicast_msg_type, new_unicast_msg_type_and_flags,
}
use ntp.Ptp.Types.Laws.{unicast_msg_type-new}
use ntp.Ptp.Header.{Header, IsHeader, message_type}
use ntp.Ptp.Messages.{SyncDelayReq}
use ntp.Ptp.Signaling.{
  signaling_bytes, Signaling, RequestUnicast, request, acknowledge, signaling_unmarshal_binary,
}
use ntp.Ptp.Signaling.Unmarshal.{IsSignaling}
use ntp.Ptp.Signaling.RoundTrip.{signaling_round_trip}

-- The header that the three packets share but for the type and the length.
abbrev pub request_header : ℕ → ℕ → ℕ → Header
request_header clock_id sdo_id_and_msg_type message_length = record {
  sdo_id_and_msg_type = sdo_id_and_msg_type;
  version = 0x12;
  message_length = message_length;
  domain_number = 0;
  minor_sdo_id = 0;
  flag_field = 0x0400;
  correction_field = 0;
  message_type_specific = 0;
  source_port_identity = record { clock_identity = clock_id; port_number = 1 };
  sequence_id = 0;
  control_field = 0;
  log_message_interval = 0x7f;
}

abbrev pub any_port : PortIdentity
any_port = record { clock_identity = 0xffffffffffffffff; port_number = 0xffff }

-- `reqUnicast`, for the seconds that `uint32(duration.Seconds())` gives.
unfoldable pub req_unicast : ℕ → ℕ → ℕ → Signaling
unfolding new_sdo_id_and_msg_type new_unicast_msg_type_and_flags
req_unicast clock_id seconds what = record {
  header = request_header clock_id (new_sdo_id_and_msg_type MessageType.signaling 0) 54;
  target_port_identity = any_port;
  tlvs =
      request (record {
        head = record { tlv_type = TlvType.request_unicast_transmission; length_field = 6 };
        msg_type_and_reserved = new_unicast_msg_type_and_flags what 0;
        log_inter_message_period = 1;
        duration_field = seconds;
      })
      ∷ [];
}

-- `reqAckCancelUnicast`, with the TLV type that the code gives it.
unfoldable pub req_ack_cancel_unicast : ℕ → ℕ → Signaling
unfolding new_sdo_id_and_msg_type new_unicast_msg_type_and_flags
req_ack_cancel_unicast clock_id what = record {
  header = request_header clock_id (new_sdo_id_and_msg_type MessageType.signaling 0) 50;
  target_port_identity = any_port;
  tlvs =
      acknowledge (record {
        head = record { tlv_type = TlvType.cancel_unicast_transmission; length_field = 2 };
        msg_type_and_flags = new_unicast_msg_type_and_flags what 0;
        reserved = 0;
      })
      ∷ [];
}

-- `reqDelay`.
unfoldable pub req_delay : ℕ → SyncDelayReq
unfolding new_sdo_id_and_msg_type
req_delay clock_id = record {
  header = request_header clock_id (new_sdo_id_and_msg_type MessageType.delay_req 0) 44;
  origin_timestamp = record { seconds = 0; nanoseconds = 0 };
}

pub request_header-IsHeader :
    (clock_id t n : ℕ)
    → clock_id < 2 ^ 64
    → t < 256
    → n < 65536
    → IsHeader (request_header clock_id t n)
request_header-IsHeader clock_id t n h ht hn = ground arith

-- The packed type is a byte.
pub packed_type-lt : (what : ℕ) → new_unicast_msg_type_and_flags what 0 < 256
unfolding new_unicast_msg_type_and_flags
packed_type-lt what =
    let fits : what * 2 ^ 4 % 256 ≡ what % 16 * 2 ^ 4 = omega arith in
    rw (fits, bit_or-shifted 4 (what % 16) 0 (omega arith)) (omega arith)

-- The request that the client sends for a message type and a number of seconds is read by the
-- server's parser as one request TLV for that type and that many seconds, from the client's clock.
req_unicast_parsed :
    (clock_id seconds what : ℕ)
    → clock_id < 2 ^ 64
    → seconds < 2 ^ 32
    → what < 16
    → (b : List ℕ) × (p : Signaling) × (v : RequestUnicast) × (signaling_bytes
          (req_unicast clock_id seconds what)
        ≡ ok b)
      × (signaling_unmarshal_binary b ≡ ok p)
      × (p.tlvs ≡ request v ∷ [])
      × (p.header.source_port_identity.clock_identity ≡ clock_id)
      × (unicast_msg_type v.msg_type_and_reserved ≡ what)
      × (v.duration_field ≡ seconds)
unfolding req_unicast message_type msg_type new_sdo_id_and_msg_type
req_unicast_parsed clock_id seconds what hc hs hw =
    let p : Signaling = req_unicast clock_id seconds what in
    let fits : IsSignaling p = record {
      header_fits = request_header-IsHeader clock_id _ 54 hc (omega arith) (omega arith);
      signaling_type = refl;
      stated_length = refl;
      target_fits = record { clock_identity_fits = omega arith; port_number_fits = omega arith };
      some_tlv = λ e. cc;
      tlvs_fit = (
        (record { type_fits = refl; length_fits = refl }, packed_type-lt what, omega arith, hs),
        tt,
      );
    } in
    let (b, out, probed, parsed) = signaling_round_trip p fits (omega arith) in
    (b, p, _, out, parsed, refl, refl, unicast_msg_type-new what 0 hw, refl)
