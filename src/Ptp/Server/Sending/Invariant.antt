-- ===== src/Ptp/Server/Sending/Invariant.antt =====
-- What every path of the worker's loop keeps of a subscription.
use ntp.Prelude.{
  ℕ, ◌+◌, ◌%◌, ◌≡◌, refl, ap, Bool, true, false, Bool-cases, Option, none, some, inl, inr, List, [],
  ◌∷◌, Result, ok, err, panic, out_of_fuel, ◌==◌,
}
use ntp.Prelude.Int.{ℤ}
use ntp.Ptp.MessageType
use ntp.Ptp.Messages.{bytes_to, sync_marshal_binary_to}
use ntp.Ptp.Server.Subscription.{
  Config, Floats, SubscriptionClient, update_sync, update_followup, update_announce,
  inc_sequence_id,
}
use ntp.Ptp.Server.Sending.{
  Io, Work, Job, done, dropped, crash, Effect, send_event, inc_tx, set_max_tx_ts_attempts,
  set_max_worker_queue, send, and_then, with_sc, emit, process, send_packets, send_sync,
  send_announce, send_delay_resp, send_follow_up,
}

-- `sc'` is scheduled as `sc`, and answers the same client.
abbrev pub Scheduled : SubscriptionClient → SubscriptionClient → Type 0
Scheduled sc sc' =
    (sc'.subscription_type ≡ sc.subscription_type)
    × (sc'.interval ≡ sc.interval)
    × (sc'.expire ≡ sc.expire)
    × (sc'.running ≡ sc.running)
    × (sc'.grant ≡ sc.grant)

-- A job that is done took the sequence number to `n'`, one that was dropped left it at `n`.
abbrev pub Counted : SubscriptionClient → ℕ → ℕ → Job → Type 0
Counted sc n n' (done w) = (w.sc.sequence_id ≡ n') × Scheduled sc w.sc
Counted sc n n' (dropped w) = (w.sc.sequence_id ≡ n) × Scheduled sc w.sc
Counted sc n n' crash = Unit

and_then-Counted :
    (sc : SubscriptionClient) (n n' : ℕ) (j : Job) (k : Work → Job)
    → Counted sc n n j
    → ((w : Work) → w.sc.sequence_id ≡ n → Scheduled sc w.sc → Counted sc n n' (k w))
    → Counted sc n n' (and_then j k)
and_then-Counted sc n n' (done w) k h next = next w h.0 h.1
and_then-Counted sc n n' (dropped w) k h next = h
and_then-Counted sc n n' crash k h next = tt

send-Counted :
    (sc : SubscriptionClient) (n : ℕ) (sent : Bool) (effect : List ℕ → Effect)
    (r : Result (List ℕ × ℕ)) (w : Work)
    → w.sc.sequence_id ≡ n
    → Scheduled sc w.sc
    → Counted sc n n (send sent effect r w)
send-Counted sc n true effect (ok (b, m)) w e s = (e, s)
send-Counted sc n false effect (ok (b, m)) w e s = (e, s)
send-Counted sc n sent effect (err x) w e s = (e, s)
send-Counted sc n sent effect panic w e s = tt
send-Counted sc n sent effect out_of_fuel w e s = tt

-- One datagram, and the effects noted after it.
one-Counted :
    (sc : SubscriptionClient) (n : ℕ) (sent : Bool) (effect : List ℕ → Effect)
    (r : Result (List ℕ × ℕ)) (w : Work) (es : List Effect)
    → w.sc.sequence_id ≡ n
    → Scheduled sc w.sc
    → Counted sc n n (and_then (send sent effect r w) (λ w'. done (emit es w')))
one-Counted sc n sent effect r w es e s =
    and_then-Counted sc n n (send sent effect r w) (λ w'. done (emit es w'))
      (send-Counted sc n sent effect r w e s) (λ w' e' s'. (e', s'))

unchanged : (sc : SubscriptionClient) → Scheduled sc sc
unchanged sc = (refl, refl, refl, refl, refl)

send_follow_up-Counted :
    (c : Config) (f : Floats) (io : Io) (tx : Option ℤ) (sc : SubscriptionClient) (n : ℕ) (w : Work)
    → w.sc.sequence_id ≡ n
    → Scheduled sc w.sc
    → Counted sc n n (send_follow_up c f io tx w)
unfolding send_follow_up update_followup
send_follow_up-Counted c f io none sc n w e s = (e, s)
send_follow_up-Counted c f io (some tx) sc n w e s = one-Counted sc n io.general_sent _ _ _ _ e s

send_sync-Counted :
    (c : Config) (f : Floats) (io : Io) (w : Work)
    → Counted w.sc w.sc.sequence_id w.sc.sequence_id (send_sync c f io w)
unfolding send_sync update_sync
send_sync-Counted c f io w =
    let w1 : Work = with_sc update_sync w in
    let m : Result (List ℕ × ℕ) = bytes_to (sync_marshal_binary_to w1.sc.sync_p) w1.buf in
    let es : List Effect =
      inc_tx w.sc.subscription_type ∷ set_max_tx_ts_attempts io.attempts ∷ [] in
    and_then-Counted w.sc w.sc.sequence_id w.sc.sequence_id
      (send io.event_sent (λ b. send_event b w1.sc.eclisa) m w1)
      (λ w2. send_follow_up c f io io.tx_timestamp (emit es w2))
      (send-Counted w.sc w.sc.sequence_id io.event_sent (λ b. send_event b w1.sc.eclisa) m w1 refl
        (unchanged w.sc))
      (λ w2 e s.
        send_follow_up-Counted c f io io.tx_timestamp w.sc w.sc.sequence_id (emit es w2) e s)

send_packets-Counted :
    (c : Config) (f : Floats) (io : Io) (w : Work)
    → Counted w.sc w.sc.sequence_id w.sc.sequence_id (send_packets c f io w)
unfolding send_packets send_announce send_delay_resp update_announce
send_packets-Counted c f io w = elim (Bool-cases (w.sc.subscription_type == MessageType.sync)) [
  | inl e ↦ rw (e) (send_sync-Counted c f io w)
  | inr e ↦ elim (Bool-cases (w.sc.subscription_type == MessageType.announce)) [
    | inl e2 ↦
        rw (e, e2) (one-Counted w.sc w.sc.sequence_id io.general_sent _ _ _ _ refl (unchanged w.sc))
    | inr e2 ↦ elim (Bool-cases (w.sc.subscription_type == MessageType.delay_resp)) [
      | inl e3 ↦
          rw (e, e2, e3)
            (one-Counted w.sc w.sc.sequence_id io.general_sent _ _ _ _ refl (unchanged w.sc))
      | inr e3 ↦ rw (e, e2, e3) (refl, unchanged w.sc)
    ]
  ]
]

-- On every path of the loop's body, whatever the system calls answer: a job that runs to its end
-- advances the sequence number of its subscription by one (mod 2^16); one that is dropped leaves it
-- alone; and neither touches the type, the interval, the end, the `running` flag or the grant.
pub process-Counted :
    (c : Config) (f : Floats) (io : Io) (w : Work)
    → Counted w.sc w.sc.sequence_id ((w.sc.sequence_id + 1) % 65536) (process c f io w)
unfolding process inc_sequence_id
process-Counted c f io w =
    and_then-Counted w.sc w.sc.sequence_id ((w.sc.sequence_id + 1) % 65536) (send_packets c f io w)
      (λ w'. done (emit (set_max_worker_queue io.queue_length ∷ []) (with_sc inc_sequence_id w')))
      (send_packets-Counted c f io w) (λ w' e s. (ap (λ (n : ℕ). (n + 1) % 65536) e, s))
