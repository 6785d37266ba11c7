-- ===== src/Ptp/Client/Measurements.antt =====
-- ptp/simpleclient/measurements.go: the samples of the client and what it computes of them. A time is
-- its distance from the Unix epoch in nanoseconds, and none is the zero `time.Time`, which no clock
-- reads: a packet from the general port has it. A map is a list with each key once; `range` goes over it in some order.
pub mod Samples
pub mod Latest
use ntp.Prelude.{
  ℕ, ◌+◌, Bool, true, false, Option, none, some, List, [], ◌∷◌, Result, ok, err, Error, no_data,
  ◌==◌, if◌then◌else◌,
}
use ntp.Prelude.Int.{ℤ, pos, ◌+ℤ◌, ◌-ℤ◌, ltb_ℤ}
use ntp.Prelude.Word.{saturate, to_i64, quot}

-- `mData`.
pub record Sample : Type 0 where
  pub send_ts : Option ℤ
  pub receive_ts : Option ℤ

abbrev pub Samples : Type 0
Samples = List (ℕ × Sample)

pub record MeasurementResult : Type 0 where
  pub delay : ℤ
  pub offset : ℤ
  pub server_to_client_diff : ℤ
  pub client_to_server_diff : ℤ
  pub timestamp : ℤ

pub record Measurements : Type 0 where
  pub current_utc_offset : ℤ
  pub server_to_client : Samples
  pub client_to_server : Samples

unfoldable pub lookup : Samples → ℕ → Option Sample
lookup [] seq = none
lookup ((k, v) ∷ m) seq = if k == seq then some v else lookup m seq

-- The branches of the four `add` methods: the sample found is changed in place, or a new one stored.
unfoldable pub set_receive : Samples → ℕ → Option ℤ → Samples
set_receive [] seq ts = (seq, record { send_ts = none; receive_ts = ts }) ∷ []
set_receive ((k, v) ∷ m) seq ts =
    if k == seq then (k, record v { receive_ts = ts }) ∷ m else (k, v) ∷ set_receive m seq ts

unfoldable pub set_send : Samples → ℕ → ℤ → Samples
set_send [] seq ts = (seq, record { send_ts = some ts; receive_ts = none }) ∷ []
set_send ((k, v) ∷ m) seq ts =
    if k == seq then (k, record v { send_ts = some ts }) ∷ m else (k, v) ∷ set_send m seq ts

-- `addSync`, `addFollowUp`, `addDelayReq` and `addDelayResp`.
unfoldable pub add_sync : ℕ → Option ℤ → Measurements → Measurements
unfolding set_receive
add_sync seq ts m = record m { server_to_client = set_receive m.server_to_client seq ts }

unfoldable pub add_follow_up : ℕ → ℤ → Measurements → Measurements
unfolding set_send
add_follow_up seq ts m = record m { server_to_client = set_send m.server_to_client seq ts }

unfoldable pub add_delay_req : ℕ → ℤ → Measurements → Measurements
unfolding set_send
add_delay_req seq ts m = record m { client_to_server = set_send m.client_to_server seq ts }

unfoldable pub add_delay_resp : ℕ → ℤ → Measurements → Measurements
unfolding set_receive
add_delay_resp seq ts m = record m {
  client_to_server = set_receive m.client_to_server seq (some ts);
}

-- A complete sample: when it was sent and when it was received.
abbrev pub both : Option ℤ → Option ℤ → Option (ℤ × ℤ)
both none r = none
both (some s) none = none
both (some s) (some r) = some (s, r)

abbrev pub complete : Sample → Option (ℤ × ℤ)
complete v = both v.send_ts v.receive_ts

-- One step of the loops of `latest`: a complete sample that was received later wins.
abbrev pub later : Option (ℤ × ℤ) → Option (ℤ × ℤ) → Option (ℤ × ℤ)
later best none = best
later none (some v) = some v
later (some b) (some v) = if ltb_ℤ b.1 v.1 then some v else some b

unfoldable pub last_complete : Option (ℤ × ℤ) → Samples → Option (ℤ × ℤ)
last_complete best [] = best
last_complete best ((k, v) ∷ m) = last_complete (later best (complete v)) m

-- The arithmetic at the end of `latest`; a `Duration` is an int64, and `Sub` saturates.
unfoldable pub measure : ℤ × ℤ → ℤ × ℤ → MeasurementResult
measure s2c c2s =
    let client_to_server_diff = saturate (c2s.1 -ℤ c2s.0) in
    let server_to_client_diff = saturate (s2c.1 -ℤ s2c.0) in
    let delay = quot (to_i64 (client_to_server_diff +ℤ server_to_client_diff)) 2 in
    record {
      delay = delay;
      offset = to_i64 (server_to_client_diff -ℤ delay);
      server_to_client_diff = server_to_client_diff;
      client_to_server_diff = client_to_server_diff;
      timestamp = c2s.1;
    }

-- `latest`, from the two samples that its loops found.
unfoldable pub result : Option (ℤ × ℤ) → Option (ℤ × ℤ) → Result MeasurementResult
unfolding measure
result none c2s = err no_data
result (some s) none = err no_data
result (some s) (some c) = ok (measure s c)

unfoldable pub latest : Measurements → Result MeasurementResult
unfolding last_complete result
latest m = result (last_complete none m.server_to_client) (last_complete none m.client_to_server)
