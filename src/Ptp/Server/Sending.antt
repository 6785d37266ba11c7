-- ===== src/Ptp/Server/Sending.antt =====
-- ptp/ptp4u/server/worker.go: what `sendWorker.Start` does with one subscription from its queue. The
-- results of the system calls are inputs; the datagrams and the counters of ptp/ptp4u/stats are a
-- list of effects, oldest first.
pub mod Invariant
pub mod Packets
pub mod TwoStep
use ntp.Prelude.{
  ℕ, ◌+◌, Bool, true, false, Option, none, some, List, [], ◌∷◌, ◌++◌, Result, ok, err, panic,
  out_of_fuel, ◌==◌, if◌then◌else◌, take,
}
use ntp.Prelude.Int.{ℤ, pos, ◌+ℤ◌}
use ntp.Ptp.MessageType
use ntp.Ptp.Messages.{
  sync_marshal_binary_to, follow_up_marshal_binary_to, delay_resp_marshal_binary_to, bytes_to,
}
use ntp.Ptp.Announce.{announce_marshal_binary_to}
use ntp.Ptp.Server.Subscription.{
  Config, Floats, Address, SubscriptionClient, update_sync, update_followup, update_announce,
  inc_sequence_id,
}

pub data Effect : Type 0 where
  send_event : List ℕ → Address → Effect
  send_general : List ℕ → Address → Effect
  inc_tx : ℕ → Effect
  set_max_tx_ts_attempts : ℕ → Effect
  set_max_worker_queue : ℕ → Effect

-- What the system answers: whether `Sendto` succeeds on either socket, the TX timestamp and the
-- attempts that it took, and the length of the queue.
pub record Io : Type 0 where
  pub event_sent : Bool
  pub general_sent : Bool
  pub tx_timestamp : Option ℤ
  pub attempts : ℕ
  pub queue_length : ℕ

-- The subscription in hand, the reusable buffer, and the effects so far.
pub record Work : Type 0 where
  pub sc : SubscriptionClient
  pub buf : List ℕ
  pub effects : List Effect

-- The end of a case of the switch: `IncSequenceID` is next, or the case did `continue`; or a
-- run-time panic.
pub data Job : Type 0 where
  done : Work → Job
  dropped : Work → Job
  crash : Job

abbrev pub with_sc : (SubscriptionClient → SubscriptionClient) → Work → Work
with_sc f w = record w { sc = f w.sc }

abbrev pub emit : List Effect → Work → Work
emit es w = record w { effects = w.effects ++ es }

abbrev pub and_then : Job → (Work → Job) → Job
and_then (done w) k = k w
and_then (dropped w) k = dropped w
and_then crash k = crash

-- `BytesTo`, its error test, `Sendto` and its error test.
abbrev pub send : Bool → (List ℕ → Effect) → Result (List ℕ × ℕ) → Work → Job
send true effect (ok (b, n)) w = done (emit (effect (take n b) ∷ []) (record w { buf = b }))
send false effect (ok (b, n)) w = dropped (record w { buf = b })
send sent effect (err e) w = dropped w
send sent effect panic w = crash
send sent effect out_of_fuel w = crash

-- The software clock is moved by the configured offset.
unfoldable pub adjusted : Config → ℤ → ℤ
adjusted c t = if c.hardware_timestamps then t else t +ℤ c.utc_offset

-- The second half of the Sync case, behind `ReadTXtimestampBuf`.
unfoldable pub send_follow_up : Config → Floats → Io → Option ℤ → Work → Job
unfolding update_followup
send_follow_up c f io none w = dropped w
send_follow_up c f io (some tx) w =
    let w' = with_sc (update_followup f (adjusted c tx)) w in
    and_then
      (send io.general_sent (λ b. send_general b w'.sc.gclisa)
        (bytes_to (follow_up_marshal_binary_to w'.sc.followup_p) w'.buf) w')
      (λ w''. done (emit (inc_tx MessageType.follow_up ∷ []) w''))

unfoldable pub send_sync : Config → Floats → Io → Work → Job
unfolding update_sync send_follow_up
send_sync c f io w =
    let w' = with_sc update_sync w in
    and_then
      (send io.event_sent (λ b. send_event b w'.sc.eclisa)
        (bytes_to (sync_marshal_binary_to w'.sc.sync_p) w'.buf) w')
      (λ w''.
        send_follow_up c f io io.tx_timestamp
          (emit (inc_tx w.sc.subscription_type ∷ set_max_tx_ts_attempts io.attempts ∷ []) w''))

unfoldable pub send_announce : Config → Floats → Io → Work → Job
unfolding update_announce
send_announce c f io w =
    let w' = with_sc (update_announce c f) w in
    and_then
      (send io.general_sent (λ b. send_general b w'.sc.gclisa)
        (bytes_to (announce_marshal_binary_to w'.sc.announce_p) w'.buf) w')
      (λ w''. done (emit (inc_tx w.sc.subscription_type ∷ []) w''))

unfoldable pub send_delay_resp : Io → Work → Job
send_delay_resp io w =
    and_then
      (send io.general_sent (λ b. send_general b w.sc.gclisa)
        (bytes_to (delay_resp_marshal_binary_to w.sc.delay_resp_p) w.buf) w)
      (λ w'. done (emit (inc_tx w.sc.subscription_type ∷ []) w'))

-- The switch on the subscription's type.
unfoldable pub send_packets : Config → Floats → Io → Work → Job
unfolding send_sync send_announce send_delay_resp
send_packets c f io w =
    if w.sc.subscription_type == MessageType.sync
    then send_sync c f io w
    else (if w.sc.subscription_type == MessageType.announce
        then send_announce c f io w
        else (if w.sc.subscription_type == MessageType.delay_resp
            then send_delay_resp io w
            else dropped w))

-- The body of the loop of `sendWorker.Start`.
unfoldable pub process : Config → Floats → Io → Work → Job
unfolding send_packets inc_sequence_id
process c f io w =
    and_then (send_packets c f io w)
      (λ w'. done (emit (set_max_worker_queue io.queue_length ∷ []) (with_sc inc_sequence_id w')))
