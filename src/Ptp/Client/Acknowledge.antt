-- ===== src/Ptp/Client/Acknowledge.antt =====
-- What the server makes of the client's acknowledgement of a cancellation.
use ntp.Prelude.{ℕ, ◌^◌, ◌<◌, ◌≡◌, refl, ◌∙◌, List, [], ◌∷◌, ok, arith}
use ntp.Ptp.MessageType
use ntp.Ptp.TlvType
use ntp.Ptp.Types.{
  msg_type, new_sdo_id_and_msg_type, unicast_msg_type, new_unicast_msg_type_and_flags,
}
use ntp.Ptp.Types.Laws.{unicast_msg_type-new}
use ntp.Ptp.Header.{message_type}
use ntp.Ptp.Signaling.{
  signaling_bytes, Signaling, CancelUnicast, cancel, tlv_fields, marshal_tlvs,
  signaling_marshal_binary_to, signaling_unmarshal_binary,
}
use ntp.Ptp.Signaling.Unmarshal.{IsSignaling}
use ntp.Ptp.Signaling.RoundTrip.{signaling_round_trip}
use ntp.Ptp.Client.Requests.{
  request_header, any_port, req_ack_cancel_unicast, request_header-IsHeader, packed_type-lt,
}

-- The same packet with a cancellation in it.
abbrev pub cancelling : ℕ → ℕ → Signaling
cancelling clock_id what = record {
  header = request_header clock_id (new_sdo_id_and_msg_type MessageType.signaling 0) 50;
  target_port_identity = any_port;
  tlvs =
      cancel (record {
        head = record { tlv_type = TlvType.cancel_unicast_transmission; length_field = 2 };
        msg_type_and_flags = new_unicast_msg_type_and_flags what 0;
        reserved = 0;
      })
      ∷ [];
}

same_bytes :
    (clock_id what : ℕ)
    → signaling_bytes (req_ack_cancel_unicast clock_id what)
      ≡ signaling_bytes (cancelling clock_id what)
unfolding signaling_bytes signaling_marshal_binary_to marshal_tlvs tlv_fields req_ack_cancel_unicast
same_bytes clock_id what = refl

-- The packet that the client builds to acknowledge a cancellation is, on the wire, a cancellation: the
-- parser reads one cancel TLV for the message type, from the client's clock.
pub req_ack_cancel_unicast_cancels :
    (clock_id what : ℕ)
    → clock_id < 2 ^ 64
    → what < 16
    → (b : List ℕ) × (p : Signaling) × (v : CancelUnicast) × (signaling_bytes
          (req_ack_cancel_unicast clock_id what)
        ≡ ok b)
      × (signaling_unmarshal_binary b ≡ ok p)
      × (p.tlvs ≡ cancel v ∷ [])
      × (p.header.source_port_identity.clock_identity ≡ clock_id)
      × (unicast_msg_type v.msg_type_and_flags ≡ what)
unfolding message_type msg_type new_sdo_id_and_msg_type
req_ack_cancel_unicast_cancels clock_id what hc hw =
    let p : Signaling = cancelling clock_id what in
    let fits : IsSignaling p = record {
      header_fits = request_header-IsHeader clock_id _ 50 hc (omega arith) (omega arith);
      signaling_type = refl;
      stated_length = refl;
      target_fits = record { clock_identity_fits = omega arith; port_number_fits = omega arith };
      some_tlv = λ e. cc;
      tlvs_fit =
          ((record { type_fits = refl; length_fits = refl }, packed_type-lt what, omega arith), tt);
    } in
    let (b, out, probed, parsed) = signaling_round_trip p fits (omega arith) in
    (b, p, _, same_bytes clock_id what ∙ out, parsed, refl, refl, unicast_msg_type-new what 0 hw)
