-- ===== src/Ptp/Client/Session.antt =====
-- ptp/simpleclient/client.go: the state machine of the client. What the sockets answer is an input,
-- one answer for each TLV of a packet; what the client sends and reports is a list, oldest first.
pub mod Sends
pub mod Invariant
pub mod Examples
pub mod Counting
use ntp.Prelude.{
  ℕ, suc, ◌+◌, ◌*◌, ◌%◌, ◌≡◌, Bool, true, false, Option, none, some, List, [], ◌∷◌, ◌++◌, Result,
  ok, err, panic, out_of_fuel, Error, denied, unexpected_grant, unsupported_type, io, ◌>>=◌, ◌==◌,
  if◌then◌else◌,
}
use ntp.Prelude.Int.{ℤ, pos, negsuc, ◌*ℤ◌}
use ntp.Prelude.Word.{signed16}
use ntp.Ptp.MessageType
use ntp.Ptp.Types.{probe_msg_type, unicast_msg_type, timestamp_time}
use ntp.Ptp.Header.{Header, set_sequence}
use ntp.Ptp.Messages.{
  SyncDelayReq, FollowUp, DelayResp, sync_bytes, sync_unmarshal_binary, follow_up_unmarshal_binary,
  delay_resp_unmarshal_binary,
}
use ntp.Ptp.Announce.{Announce, announce_from_bytes}
use ntp.Ptp.Signaling.{
  Signaling, Tlv, GrantUnicast, CancelUnicast, request, grant, cancel, acknowledge, signaling_bytes,
  signaling_unmarshal_binary,
}
use ntp.Ptp.Client.Requests.{req_unicast, req_ack_cancel_unicast, req_delay}
use ntp.Ptp.Client.Measurements.{
  Measurements, MeasurementResult, add_sync, add_follow_up, add_delay_req, add_delay_resp, latest,
}

-- `state`.
pub data Phase : Type 0 where
  init : Phase
  in_progress : Phase
  done : Phase

-- A datagram to the general or the event address, or a call of `callback`.
pub data Output : Type 0 where
  sent_general : List ℕ → Output
  sent_event : List ℕ → Output
  measured : MeasurementResult → Output

pub record Client : Type 0 where
  pub clock_id : ℕ
  pub duration : ℕ  -- the seconds of cfg.Duration, as `reqUnicast` cuts them to a uint32
  pub gen_sequence : ℕ
  pub event_sequence : ℕ
  pub phase : Phase
  pub measurements : Measurements
  pub outputs : List Output

-- Whether a write to the general port succeeds, and the TX timestamp of a write to the event port.
pub record Io : Type 0 where
  pub written : Bool
  pub tx_timestamp : Option ℤ

abbrev pub output : Output → Client → Client
output o c = record c { outputs = c.outputs ++ o ∷ [] }

-- `SetSequence` of either packet.
unfoldable pub signaling_with_sequence : Signaling → ℕ → Signaling
unfolding set_sequence
signaling_with_sequence p n = record p { header = set_sequence p.header n }

unfoldable pub sync_with_sequence : SyncDelayReq → ℕ → SyncDelayReq
unfolding set_sequence
sync_with_sequence p n = record p { header = set_sequence p.header n }

-- `sendGeneralMsg`. The sequence number is a uint16.
unfoldable pub write_general : Bool → List ℕ → Client → Result Client
write_general true b c =
    ok (output (sent_general b) (record c { gen_sequence = (c.gen_sequence + 1) % 65536 }))
write_general false b c = err io

unfoldable pub send_general_msg : Io → Signaling → Client → Result Client
unfolding signaling_with_sequence write_general
send_general_msg i p c =
    signaling_bytes (signaling_with_sequence p c.gen_sequence) >>= λ b. write_general i.written b c

-- `sendEventMsg`, with what `handleFollowUp` does with its timestamp.
unfoldable pub write_event : Option ℤ → List ℕ → Client → Result Client
unfolding add_delay_req
write_event none b c = err io
write_event (some ts) b c = ok (
    output (sent_event b) (record c {
      event_sequence = (c.event_sequence + 1) % 65536;
      measurements = add_delay_req c.event_sequence ts c.measurements;
    }))

unfoldable pub send_delay_req : Io → Client → Result Client
unfolding sync_with_sequence write_event req_delay sync_bytes
send_delay_req i c =
    sync_bytes (sync_with_sequence (req_delay c.clock_id) c.event_sequence) >>= λ b.
    write_event i.tx_timestamp b c

-- `setState`.
unfoldable pub set_state : Phase → Client → Client
set_state p c = record c { phase = p }

-- `handleGrantUnicast`.
unfoldable pub handle_grant_unicast : Io → GrantUnicast → Client → Result Client
unfolding unicast_msg_type set_state send_general_msg req_unicast
handle_grant_unicast i t c =
    let msg_type = unicast_msg_type t.msg_type_and_reserved in
    if msg_type == MessageType.announce
    then (if t.duration_field == 0
        then err denied
        else send_general_msg i (req_unicast c.clock_id c.duration MessageType.sync)
            (set_state in_progress c))
    else (if msg_type == MessageType.sync
        then (if t.duration_field == 0
            then err denied
            else send_general_msg i (req_unicast c.clock_id c.duration MessageType.delay_resp) c)
        else (if msg_type == MessageType.delay_resp
            then (if t.duration_field == 0 then err denied else ok c)
            else err unexpected_grant))

-- `handleCancelUnicast`.
unfoldable pub handle_cancel_unicast : Io → CancelUnicast → Client → Result Client
unfolding send_general_msg set_state req_ack_cancel_unicast unicast_msg_type
handle_cancel_unicast i t c =
    send_general_msg i (req_ack_cancel_unicast c.clock_id (unicast_msg_type t.msg_type_and_flags)) c
    >>= λ c'. ok (set_state done c')

-- The switch on the type of a TLV.
unfoldable pub handle_tlv : Io → Tlv → Client → Result Client
unfolding handle_grant_unicast handle_cancel_unicast
handle_tlv i (grant t) c = handle_grant_unicast i t c
handle_tlv i (cancel t) c = handle_cancel_unicast i t c
handle_tlv i (request t) c = err unsupported_type
handle_tlv i (acknowledge t) c = err unsupported_type

unfoldable pub handle_tlvs : (ℕ → Io) → ℕ → List Tlv → Client → Result Client
unfolding handle_tlv
handle_tlvs env n [] c = ok c
handle_tlvs env n (t ∷ ts) c = handle_tlv (env n) t c >>= handle_tlvs env (n + 1) ts

-- `handleAnnounce`.
unfoldable pub handle_announce : Announce → Client → Result Client
handle_announce b c = ok (record c {
  measurements = record c.measurements {
    current_utc_offset = signed16 b.current_utc_offset *ℤ pos 1000000000;
  };
})

-- `handleSync`.
unfoldable pub handle_sync : SyncDelayReq → Option ℤ → Client → Result Client
unfolding add_sync
handle_sync b ts c =
    ok (record c { measurements = add_sync b.header.sequence_id ts c.measurements })

-- The end of `handleDelay`: no result yet is only logged.
unfoldable pub report : Result MeasurementResult → Client → Result Client
report (ok r) c = ok (output (measured r) c)
report (err e) c = ok c
report panic c = panic
report out_of_fuel c = out_of_fuel

-- `handleDelay`.
unfoldable pub handle_delay : DelayResp → Client → Result Client
unfolding add_delay_resp timestamp_time report latest
handle_delay b c =
    let m =
      add_delay_resp b.header.sequence_id (timestamp_time b.receive_timestamp) c.measurements in
    report (latest m) (record c { measurements = m })

-- `handleFollowUp`.
unfoldable pub handle_follow_up : Io → FollowUp → Client → Result Client
unfolding add_follow_up timestamp_time send_delay_req
handle_follow_up i b c = send_delay_req i (record c {
  measurements =
      add_follow_up b.header.sequence_id (timestamp_time b.precise_origin_timestamp) c.measurements;
})

-- `handleMsg`, of a packet with its receive timestamp.
unfoldable pub dispatch : (ℕ → Io) → ℕ → List ℕ → Option ℤ → Client → Result Client
unfolding handle_tlvs handle_announce handle_sync handle_delay handle_follow_up
dispatch env t b ts c =
    if t == MessageType.signaling
    then (signaling_unmarshal_binary b >>= λ p. handle_tlvs env 0 p.tlvs c)
    else (if t == MessageType.announce
        then (announce_from_bytes b >>= λ p. handle_announce p c)
        else (if t == MessageType.sync
            then (sync_unmarshal_binary b >>= λ p. handle_sync p ts c)
            else (if t == MessageType.delay_resp
                then (delay_resp_unmarshal_binary b >>= λ p. handle_delay p c)
                else (if t == MessageType.follow_up
                    then (follow_up_unmarshal_binary b >>= λ p. handle_follow_up (env 0) p c)
                    else ok c))))

unfoldable pub handle_msg : (ℕ → Io) → List ℕ → Option ℤ → Client → Result Client
unfolding dispatch
handle_msg env b ts c = probe_msg_type b >>= λ t. dispatch env t b ts c

-- The default branch of the loop in `runInternal`: in the first state the client asks for Announce.
unfoldable pub ask : Io → Client → Result Client
unfolding send_general_msg req_unicast
ask i c = send_general_msg i (req_unicast c.clock_id c.duration MessageType.announce) c

-- A round of the loop in `runInternal` that does not return.
pub data Step (c : Client) (c' : Client) : Type 0 where
  receives : (env : ℕ → Io) (b : List ℕ) (ts : Option ℤ) → handle_msg env b ts c ≡ ok c' → Step c c'
  asks : (i : Io) → c.phase ≡ init → ask i c ≡ ok c' → Step c c'
  idles : c.phase ≡ in_progress → c' ≡ c → Step c c'

-- Rounds one after the other.
pub data Steps (c : Client) : Client → Type 0 where
  stays : Steps c c
  steps : {c' c'' : Client} → Steps c c' → Step c' c'' → Steps c c''
