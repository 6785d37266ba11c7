-- ===== src/Ptp/Server/Sending/TwoStep.antt =====
-- The Sync case of the worker: a pair of packets with one sequence number.
use ntp.Prelude.{
  ℕ, ◌+◌, ◌%◌, ◌≤◌, ◌≡◌, refl, ap, Bool, true, Option, some, Result, ◌==◌, ◌∙◌, List, [], ◌∷◌, ◌++◌,
  ok, length, take, arith, if◌then◌else◌,
}
use mathlib.Core.List.{append_assoc}
use ntp.Prelude.Int.{ℤ}
use ntp.Ptp.MessageType
use ntp.Ptp.Types.{new_timestamp}
use ntp.Ptp.Messages.{
  SyncDelayReq, FollowUp, bytes_to, sync_marshal_binary_to, sync_unmarshal_binary,
  follow_up_marshal_binary_to, follow_up_unmarshal_binary,
}
use ntp.Ptp.Messages.Laws.{sync_unmarshal_binary-wire, follow_up_unmarshal_binary-wire}
use ntp.Ptp.Server.Subscription.{
  Config, Floats, SubscriptionClient, update_sync, update_followup, inc_sequence_id,
}
use ntp.Ptp.Server.Sending.{
  Io, Work, Job, done, dropped, Effect, send, and_then, with_sc, emit, send_announce,
  send_delay_resp, send_event, send_general, inc_tx, set_max_tx_ts_attempts, set_max_worker_queue,
  adjusted, process, send_packets, send_sync, send_follow_up,
}
use ntp.Ptp.Server.Sending.Packets.{
  IsSubscription, update_sync-IsSyncDelayReq, update_followup-IsFollowUp, sync_sent, follow_up_sent,
}

send_ok :
    (sent : Bool) (effect : List ℕ → Effect) (r : Result (List ℕ × ℕ)) (w : Work) (out : List ℕ)
    (n : ℕ)
    → sent ≡ true
    → r ≡ ok (out, n)
    → send sent effect r w ≡ done (emit (effect (take n out) ∷ []) (record w { buf = out }))
send_ok sent effect r w out n e h = rw (e, h)

follow_up_done :
    (c : Config) (f : Floats) (io : Io) (w : Work) (tx : ℤ) (out : List ℕ)
    → io.general_sent ≡ true
    → bytes_to
        (follow_up_marshal_binary_to (update_followup f (adjusted c tx) w.sc).followup_p)
        w.buf
      ≡ ok (out, 46)
    → send_follow_up c f io (some tx) w
      ≡ done (record {
        sc = update_followup f (adjusted c tx) w.sc;
        buf = out;
        effects =
            (w.effects ++ send_general (take 46 out) w.sc.gclisa ∷ [])
            ++ inc_tx MessageType.follow_up ∷ [];
      })
unfolding send_follow_up update_followup
follow_up_done c f io w tx out gs e =
    ap (λ (j : Job). and_then j (λ w'. done (emit (inc_tx MessageType.follow_up ∷ []) w')))
      (send_ok io.general_sent _ _ (with_sc (update_followup f (adjusted c tx)) w) out 46 gs e)

sync_done :
    (c : Config) (f : Floats) (io : Io) (w : Work) (tx : ℤ) (out : List ℕ)
    → io.event_sent ≡ true
    → io.tx_timestamp ≡ some tx
    → bytes_to (sync_marshal_binary_to (update_sync w.sc).sync_p) w.buf ≡ ok (out, 46)
    → send_sync c f io w
      ≡ send_follow_up c f io (some tx) (record {
        sc = update_sync w.sc;
        buf = out;
        effects =
            (w.effects ++ send_event (take 46 out) w.sc.eclisa ∷ [])
            ++ inc_tx w.sc.subscription_type ∷ set_max_tx_ts_attempts io.attempts ∷ [];
      })
unfolding send_sync update_sync
sync_done c f io w tx out es ts e =
    let es' : List Effect =
      inc_tx w.sc.subscription_type ∷ set_max_tx_ts_attempts io.attempts ∷ [] in
    ap (λ (j : Job). and_then j (λ w'. send_follow_up c f io io.tx_timestamp (emit es' w')))
      (send_ok io.event_sent _ _ (with_sc update_sync w) out 46 es e)
    ∙ ap
        (λ (t : Option ℤ). send_follow_up c f io t (
          emit es' (record {
            sc = update_sync w.sc;
            buf = out;
            effects = w.effects ++ send_event (take 46 out) w.sc.eclisa ∷ [];
          })))
        ts

sync_case :
    (c : Config) (f : Floats) (io : Io) (w : Work)
    → w.sc.subscription_type ≡ MessageType.sync
    → send_packets c f io w ≡ send_sync c f io w
unfolding send_packets
sync_case c f io w st =
    ap
      (λ (t : ℕ).
        if t == MessageType.sync
        then send_sync c f io w
        else (if w.sc.subscription_type == MessageType.announce
            then send_announce c f io w
            else (if w.sc.subscription_type == MessageType.delay_resp
                then send_delay_resp io w
                else dropped w)))
      st

-- A Sync job whose packets fit their types, in a buffer of at least 46 bytes, when both sends succeed
-- and a TX timestamp is read: exactly one Sync goes to the event address and one Follow_Up to the
-- general address; both are read back by the protocol's parsers; both carry the subscription's
-- sequence number; the Follow_Up carries the (adjusted) TX timestamp of the Sync; and the job is done
-- with the next sequence number.
pub process-two_step :
    (c : Config) (f : Floats) (io : Io) (w : Work) (tx : ℤ)
    → w.sc.subscription_type ≡ MessageType.sync
    → IsSubscription w.sc
    → 46 ≤ length w.buf
    → io.event_sent ≡ true
    → io.general_sent ≡ true
    → io.tx_timestamp ≡ some tx
    → (w' : Work) × (b1 : List ℕ) × (b2 : List ℕ) × (p1 : SyncDelayReq) × (p2 : FollowUp) × (process
          c f io w
        ≡ done w')
      × (w'.effects
          ≡ w.effects
            ++ send_event b1 w.sc.eclisa
              ∷ inc_tx MessageType.sync
              ∷ set_max_tx_ts_attempts io.attempts
              ∷ send_general b2 w.sc.gclisa
              ∷ inc_tx MessageType.follow_up
              ∷ set_max_worker_queue io.queue_length
              ∷ [])
      × (sync_unmarshal_binary b1 ≡ ok p1)
      × (follow_up_unmarshal_binary b2 ≡ ok p2)
      × (p1.header.sequence_id ≡ w.sc.sequence_id)
      × (p2.header.sequence_id ≡ w.sc.sequence_id)
      × (p2.precise_origin_timestamp ≡ new_timestamp (adjusted c tx))
      × (w'.sc.sequence_id ≡ (w.sc.sequence_id + 1) % 65536)
unfolding process inc_sequence_id update_sync update_followup
process-two_step c f io w tx st h room es gs ts =
    let s1 : SubscriptionClient = update_sync w.sc in
    let s2 : SubscriptionClient = update_followup f (adjusted c tx) s1 in
    let (out1, e1, t1, l1) = sync_sent s1 w.buf room in
    let (out2, e2, t2, l2) = follow_up_sent s2 out1 (omega arith) in
    let sent : ℕ → List Effect = λ t.
      (w.effects ++ send_event (take 46 out1) w.sc.eclisa ∷ [])
      ++ inc_tx t ∷ set_max_tx_ts_attempts io.attempts ∷ [] in
    let all : ℕ → List Effect = λ t.
      ((sent t ++ send_general (take 46 out2) w.sc.gclisa ∷ [])
        ++ inc_tx MessageType.follow_up ∷ [])
      ++ set_max_worker_queue io.queue_length ∷ [] in
    let w1 : Work = record { sc = s1; buf = out1; effects = sent w.sc.subscription_type } in
    (
      record { sc = inc_sequence_id s2; buf = out2; effects = all w.sc.subscription_type },
      take 46 out1,
      take 46 out2,
      s1.sync_p,
      s2.followup_p,
      ap
          (λ (j : Job). and_then j (λ w'.
            done (emit (set_max_worker_queue io.queue_length ∷ []) (with_sc inc_sequence_id w'))))
          (sync_case c f io w st
            ∙ sync_done c f io w tx out1 es ts e1
            ∙ follow_up_done c f io w1 tx out2 gs e2),
      ap all st ∙ simp (append_assoc),
      rw (t1)
          (sync_unmarshal_binary-wire s1.sync_p (0 ∷ 0 ∷ []) (update_sync-IsSyncDelayReq w.sc h)),
      rw (t2) (
          follow_up_unmarshal_binary-wire s2.followup_p (0 ∷ 0 ∷ []) (
            update_followup-IsFollowUp f (adjusted c tx) s1 (record {
              sequence_fits = h.sequence_fits;
              sync_fits = update_sync-IsSyncDelayReq w.sc h;
              followup_fits = h.followup_fits;
              delay_resp_fits = h.delay_resp_fits;
            }))),
      refl,
      refl,
      refl,
      refl,
    )
