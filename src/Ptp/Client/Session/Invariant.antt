-- ===== src/Ptp/Client/Session/Invariant.antt =====
-- The states that the loop of ptp/simpleclient/client.go reaches.
use ntp.Prelude.{
  ℕ, ◌+◌, ◌%◌, ◌^◌, ◌<◌, ◌≡◌, refl, subst, sym, Option, List, [], ◌∷◌, Result, ok, err, panic,
  out_of_fuel, Holds, Holds-bind, Holds-ok, Holds-chain, Holds-if, holds_ok, holds_err, holds_panic,
  holds_out_of_fuel,
}
use ntp.Prelude.Int.{ℤ}
use ntp.Ptp.MessageType
use ntp.Ptp.Types.{unicast_msg_type, probe_msg_type}
use ntp.Ptp.Messages.{
  sync_unmarshal_binary, follow_up_unmarshal_binary, delay_resp_unmarshal_binary,
}
use ntp.Ptp.Announce.{announce_from_bytes}
use ntp.Ptp.Signaling.{
  Tlv, request, grant, cancel, acknowledge, GrantUnicast, CancelUnicast, signaling_unmarshal_binary,
}
use ntp.Ptp.Client.Measurements.{Measurements, MeasurementResult}
use ntp.Ptp.Client.Session.{
  Client, Phase, in_progress, done, Io, set_state, handle_grant_unicast, handle_cancel_unicast,
  handle_tlv, handle_tlvs, handle_announce, handle_sync, report, handle_delay, handle_follow_up,
  dispatch, handle_msg, ask, Step, receives, asks, idles, Steps, stays, steps,
}
use ntp.Ptp.Client.Session.Counting.{IsClient, Numbered, generals, events, measured-IsClient}
use ntp.Ptp.Client.Session.Sends.{
  request_sent-IsClient, acknowledgement_sent-IsClient, delay_req_sent-IsClient,
}

-- What the code changes besides the counters and the list.
set_state-IsClient : (p : Phase) (c : Client) → IsClient c → IsClient (set_state p c)
unfolding set_state
set_state-IsClient p c h = record {
  clock_fits = h.clock_fits;
  duration_fits = h.duration_fits;
  gen_counts = h.gen_counts;
  event_counts = h.event_counts;
  numbered = h.numbered;
}

measurements-IsClient :
    (m : Measurements) (c : Client) → IsClient c → IsClient (record c { measurements = m })
measurements-IsClient m c h = record {
  clock_fits = h.clock_fits;
  duration_fits = h.duration_fits;
  gen_counts = h.gen_counts;
  event_counts = h.event_counts;
  numbered = h.numbered;
}

handle_grant_unicast-IsClient :
    (i : Io) (t : GrantUnicast) (c : Client)
    → IsClient c
    → Holds IsClient (handle_grant_unicast i t c)
unfolding handle_grant_unicast
handle_grant_unicast-IsClient i t c h =
    let sync =
      request_sent-IsClient i MessageType.sync (set_state in_progress c)
        (set_state-IsClient in_progress c h) in
    let delay = request_sent-IsClient i MessageType.delay_resp c h in
    search (Holds-if, holds_err, sync, delay, holds_ok, h)

handle_cancel_unicast-IsClient :
    (i : Io) (t : CancelUnicast) (c : Client)
    → IsClient c
    → Holds IsClient (handle_cancel_unicast i t c)
unfolding handle_cancel_unicast
handle_cancel_unicast-IsClient i t c h =
    Holds-chain (acknowledgement_sent-IsClient i (unicast_msg_type t.msg_type_and_flags) c h)
      (λ c' h'. holds_ok (set_state-IsClient done c' h'))

handle_tlv-IsClient :
    (i : Io) (t : Tlv) (c : Client) → IsClient c → Holds IsClient (handle_tlv i t c)
unfolding handle_tlv
handle_tlv-IsClient i (grant t) c h = handle_grant_unicast-IsClient i t c h
handle_tlv-IsClient i (cancel t) c h = handle_cancel_unicast-IsClient i t c h
handle_tlv-IsClient i (request t) c h = holds_err
handle_tlv-IsClient i (acknowledge t) c h = holds_err

handle_tlvs-IsClient :
    (env : ℕ → Io) (n : ℕ) (ts : List Tlv) (c : Client)
    → IsClient c
    → Holds IsClient (handle_tlvs env n ts c)
unfolding handle_tlvs
handle_tlvs-IsClient env n [] c h = holds_ok h
handle_tlvs-IsClient env n (t ∷ ts) c h =
    Holds-chain (handle_tlv-IsClient (env n) t c h) (handle_tlvs-IsClient env (n + 1) ts)

report-IsClient :
    (r : Result MeasurementResult) (c : Client) → IsClient c → Holds IsClient (report r c)
unfolding report
report-IsClient (ok r) c h = holds_ok (measured-IsClient r c h)
report-IsClient (err e) c h = holds_ok h
report-IsClient panic c h = holds_panic
report-IsClient out_of_fuel c h = holds_out_of_fuel

dispatch-IsClient :
    (env : ℕ → Io) (t : ℕ) (b : List ℕ) (ts : Option ℤ) (c : Client)
    → IsClient c
    → Holds IsClient (dispatch env t b ts c)
unfolding dispatch handle_announce handle_sync handle_delay handle_follow_up
dispatch-IsClient env t b ts c h =
    let signaling =
      Holds-bind IsClient (signaling_unmarshal_binary b) (λ p. handle_tlvs env 0 p.tlvs c)
        (λ p e. handle_tlvs-IsClient env 0 p.tlvs c h) in
    let announce =
      Holds-bind IsClient (announce_from_bytes b) (λ p. handle_announce p c)
        (λ p e. holds_ok (measurements-IsClient _ c h)) in
    let sync =
      Holds-bind IsClient (sync_unmarshal_binary b) (λ p. handle_sync p ts c)
        (λ p e. holds_ok (measurements-IsClient _ c h)) in
    let delay =
      Holds-bind IsClient (delay_resp_unmarshal_binary b) (λ p. handle_delay p c)
        (λ p e. report-IsClient _ _ (measurements-IsClient _ c h)) in
    let follow_up =
      Holds-bind IsClient (follow_up_unmarshal_binary b) (λ p. handle_follow_up (env 0) p c)
        (λ p e. delay_req_sent-IsClient (env 0) _ (measurements-IsClient _ c h)) in
    search (Holds-if, signaling, announce, sync, delay, follow_up, holds_ok, h) depth 8

handle_msg-IsClient :
    (env : ℕ → Io) (b : List ℕ) (ts : Option ℤ) (c : Client)
    → IsClient c
    → Holds IsClient (handle_msg env b ts c)
unfolding handle_msg
handle_msg-IsClient env b ts c h =
    Holds-bind IsClient (probe_msg_type b) (λ t. dispatch env t b ts c)
      (λ t e. dispatch-IsClient env t b ts c h)

Step-IsClient : (c c' : Client) → Step c c' → IsClient c → IsClient c'
unfolding ask
Step-IsClient c c' (receives env b ts e) h =
    Holds-ok IsClient _ c' (handle_msg-IsClient env b ts c h) e
Step-IsClient c c' (asks i p e) h =
    Holds-ok IsClient _ c' (request_sent-IsClient i MessageType.announce c h) e
Step-IsClient c c' (idles p e) h = subst IsClient (sym e) h

Steps-IsClient : {c c' : Client} → Steps c c' → IsClient c → IsClient c'
Steps-IsClient stays h = h
Steps-IsClient (steps before step) h = Step-IsClient _ _ step (Steps-IsClient before h)

-- A client before its first round.
pub record IsFresh (c : Client) : Type 0 where
  pub clock_fits : c.clock_id < 2 ^ 64
  pub duration_fits : c.duration < 2 ^ 32
  pub first_general : c.gen_sequence ≡ 0
  pub first_event : c.event_sequence ≡ 0
  pub nothing_sent : c.outputs ≡ []

fresh-IsClient : (c : Client) → IsFresh c → IsClient c
fresh-IsClient c h = record {
  clock_fits = h.clock_fits;
  duration_fits = h.duration_fits;
  gen_counts = rw (h.first_general, h.nothing_sent) refl;
  event_counts = rw (h.first_event, h.nothing_sent) refl;
  numbered = subst (Numbered 0 0) (sym h.nothing_sent) tt;
}

-- However many rounds of its loop a client goes through, whatever arrives and however the writes
-- end: every datagram that it has sent to the general port parses as a Signaling message, every one
-- that it has sent to the event port as a Delay_Req, and those to either port are numbered 0, 1, 2, …
-- modulo 2^16 in the order in which they were sent, the next numbers being the counters of the client.
pub sent_in_sequence :
    {c c' : Client}
    → Steps c c'
    → IsFresh c
    → Numbered 0 0 c'.outputs
      × (c'.gen_sequence ≡ generals c'.outputs % 65536)
      × (c'.event_sequence ≡ events c'.outputs % 65536)
sent_in_sequence run fresh =
    let h = Steps-IsClient run (fresh-IsClient _ fresh) in
    (h.numbered, h.gen_counts, h.event_counts)
