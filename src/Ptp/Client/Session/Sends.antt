-- ===== src/Ptp/Client/Session/Sends.antt =====
-- What the handlers of ptp/simpleclient/client.go send.
use ntp.Prelude.{ℕ, ◌^◌, ◌<◌, ◌≡◌, refl, sym, subst, ◌∙◌, List, ok, ◌>>=◌, Holds, arith}
use ntp.Ptp.Types.{msg_type, new_sdo_id_and_msg_type}
use ntp.Ptp.Header.{Header, IsHeader, set_sequence, message_type}
use ntp.Ptp.Messages.{SyncDelayReq, IsSyncDelayReq}
use ntp.Ptp.Messages.Laws.{sync_round_trip}
use ntp.Ptp.Signaling.{
  Signaling, signaling_bytes, marshal_tlvs, tlv_fields, signaling_marshal_binary_to,
}
use ntp.Ptp.Signaling.Unmarshal.{IsSignaling}
use ntp.Ptp.Signaling.RoundTrip.{signaling_round_trip}
use ntp.Ptp.Client.Requests.{
  req_unicast, req_ack_cancel_unicast, req_delay, request_header, request_header-IsHeader,
  packed_type-lt,
}
use ntp.Ptp.Client.Acknowledge.{cancelling}
use ntp.Ptp.Client.Session.{
  Client, Io, send_general_msg, write_general, send_delay_req, write_event, signaling_with_sequence,
  sync_with_sequence,
}
use ntp.Ptp.Client.Session.Counting.{
  GeneralNumbered, IsClient, write_general-IsClient, write_event-IsClient,
}

set_sequence-IsHeader : (p : Header) (n : ℕ) → n < 65536 → IsHeader p → IsHeader (set_sequence p n)
unfolding set_sequence
set_sequence-IsHeader p n hn h = ground arith

-- The request under any sequence number is well formed.
pub numbered_request-IsSignaling :
    (clock_id seconds what n : ℕ)
    → clock_id < 2 ^ 64
    → seconds < 2 ^ 32
    → n < 65536
    → IsSignaling (signaling_with_sequence (req_unicast clock_id seconds what) n)
unfolding req_unicast message_type msg_type new_sdo_id_and_msg_type signaling_with_sequence
    set_sequence
numbered_request-IsSignaling clock_id seconds what n hc hs hn = record {
  header_fits =
      unfold set_sequence in
      set_sequence-IsHeader (request_header clock_id 12 54) n hn
        (request_header-IsHeader clock_id _ 54 hc (omega arith) (omega arith));
  signaling_type = refl;
  stated_length = refl;
  target_fits = record { clock_identity_fits = omega arith; port_number_fits = omega arith };
  some_tlv = λ e. cc;
  tlvs_fit =
      ((record { type_fits = refl; length_fits = refl }, packed_type-lt what, omega arith, hs), tt);
}

acknowledgement_same_bytes :
    (clock_id what n : ℕ)
    → signaling_bytes (signaling_with_sequence (req_ack_cancel_unicast clock_id what) n)
      ≡ signaling_bytes (signaling_with_sequence (cancelling clock_id what) n)
unfolding signaling_bytes signaling_marshal_binary_to marshal_tlvs tlv_fields req_ack_cancel_unicast
    signaling_with_sequence
acknowledgement_same_bytes clock_id what n = refl

numbered_cancelling-IsSignaling :
    (clock_id what n : ℕ)
    → clock_id < 2 ^ 64
    → n < 65536
    → IsSignaling (signaling_with_sequence (cancelling clock_id what) n)
unfolding message_type msg_type new_sdo_id_and_msg_type signaling_with_sequence set_sequence
numbered_cancelling-IsSignaling clock_id what n hc hn = record {
  header_fits =
      unfold set_sequence in
      set_sequence-IsHeader (request_header clock_id 12 50) n hn
        (request_header-IsHeader clock_id _ 50 hc (omega arith) (omega arith));
  signaling_type = refl;
  stated_length = refl;
  target_fits = record { clock_identity_fits = omega arith; port_number_fits = omega arith };
  some_tlv = λ e. cc;
  tlvs_fit =
      ((record { type_fits = refl; length_fits = refl }, packed_type-lt what, omega arith), tt);
}

-- A packet whose numbered form parses is sent with the next number.
send_general_msg-IsClient :
    (i : Io) (p : Signaling) (c : Client)
    → IsClient c
    → (b : List ℕ) × (signaling_bytes (signaling_with_sequence p c.gen_sequence) ≡ ok b)
      × GeneralNumbered b c.gen_sequence
    → Holds IsClient (send_general_msg i p c)
unfolding send_general_msg
send_general_msg-IsClient i p c h (b, out, n) =
    subst (λ r. Holds IsClient (r >>= λ v. write_general i.written v c)) (sym out)
      (write_general-IsClient i.written b c h n)

gen_sequence-lt : (c : Client) → IsClient c → c.gen_sequence < 65536
gen_sequence-lt c h = omega (arith, h.gen_counts)

pub request_sent-IsClient :
    (i : Io) (what : ℕ) (c : Client)
    → IsClient c
    → Holds IsClient (send_general_msg i (req_unicast c.clock_id c.duration what) c)
unfolding signaling_with_sequence set_sequence
request_sent-IsClient i what c h =
    let p : Signaling = req_unicast c.clock_id c.duration what in
    let n : c.gen_sequence < 65536 = gen_sequence-lt c h in
    let (b, out, probed, parsed) =
      signaling_round_trip (signaling_with_sequence p c.gen_sequence)
        (numbered_request-IsSignaling c.clock_id c.duration what c.gen_sequence h.clock_fits
          h.duration_fits n)
        (unfold req_unicast in omega arith) in
    send_general_msg-IsClient i p c h (b, out, (_, parsed, refl))

pub acknowledgement_sent-IsClient :
    (i : Io) (what : ℕ) (c : Client)
    → IsClient c
    → Holds IsClient (send_general_msg i (req_ack_cancel_unicast c.clock_id what) c)
unfolding signaling_with_sequence set_sequence
acknowledgement_sent-IsClient i what c h =
    let n : c.gen_sequence < 65536 = gen_sequence-lt c h in
    let (b, out, probed, parsed) =
      signaling_round_trip (signaling_with_sequence (cancelling c.clock_id what) c.gen_sequence)
        (numbered_cancelling-IsSignaling c.clock_id what c.gen_sequence h.clock_fits n)
        (omega arith) in
    send_general_msg-IsClient i (req_ack_cancel_unicast c.clock_id what) c h
      (b, acknowledgement_same_bytes c.clock_id what c.gen_sequence ∙ out, (_, parsed, refl))

pub delay_req_sent-IsClient :
    (i : Io) (c : Client) → IsClient c → Holds IsClient (send_delay_req i c)
unfolding send_delay_req sync_with_sequence set_sequence req_delay message_type msg_type
    new_sdo_id_and_msg_type
delay_req_sent-IsClient i c h =
    let n : c.event_sequence < 65536 = omega (arith, h.event_counts) in
    let p : SyncDelayReq = sync_with_sequence (req_delay c.clock_id) c.event_sequence in
    let fits : IsSyncDelayReq p = record {
      header_fits =
          unfold set_sequence in
          set_sequence-IsHeader (request_header c.clock_id 1 44) c.event_sequence n
            (request_header-IsHeader c.clock_id _ 44 h.clock_fits (omega arith) (omega arith));
      timestamp_fits = record { seconds_fits = omega arith; nanoseconds_fits = omega arith };
    } in
    let (b, out, size, parsed) = sync_round_trip p fits in
    subst (λ r. Holds IsClient (r >>= λ v. write_event i.tx_timestamp v c)) (sym out)
      (write_event-IsClient i.tx_timestamp b c h (p, parsed, refl, refl))
