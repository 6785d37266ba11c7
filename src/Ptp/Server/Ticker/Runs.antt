-- ===== src/Ptp/Server/Ticker/Runs.antt =====
-- How a subscription runs and ends.
use ntp.Prelude.{
  ℕ, ◌+◌, ◌≡◌, refl, ap, ◌∙◌, Bool, true, false, Bool-cases, inl, inr, List, [], ◌∷◌, ◌++◌, Result,
  ok, panic, ◌>>=◌, ◌==◌, if◌then◌else◌, length, arith,
}
use ntp.Prelude.Int.{ℤ, pos, ltb_ℤ}
use ntp.Wire.{All}
use ntp.Ptp.MessageType
use ntp.Ptp.Server.Subscription.{SubscriptionClient, expired, set_running}
use ntp.Ptp.Server.Ticker.{
  Run, Tick, tick, tick_running, start_run, run_ticks, reset, same_ℤ, once_unless_delay_resp,
}

-- Ticks before the end, with a positive interval.
abbrev pub Lives : Tick → Type 0
Lives t = (ltb_ℤ t.expire t.now ≡ false) × (ltb_ℤ (pos 0) t.interval ≡ true)

-- What a run of a subscription that sends packets has counted.
record Counts (r : Run) (n : ℕ) : Type 0 where
  pub counted : r.queued ≡ n
  pub goes_on : r.over ≡ false
  pub sends : (r.sc.subscription_type == MessageType.delay_resp) ≡ false

reset_ok :
    (period interval : ℤ) → ltb_ℤ (pos 0) interval ≡ true → (p : ℤ) × (reset period interval ≡ ok p)
reset_ok period interval h = elim (Bool-cases (same_ℤ period interval)) [
  | inl e ↦ (period, rw (e))
  | inr e ↦ (interval, rw (e, h))
]

once_counts :
    (sc : SubscriptionClient) (n : ℕ)
    → (sc.subscription_type == MessageType.delay_resp) ≡ false
    → once_unless_delay_resp sc n ≡ n + 1
once_counts sc n h = ap (λ (b : Bool). if b then n else n + 1) h

tick-Lives :
    (t : Tick) (r : Run) (n : ℕ)
    → Counts r n
    → Lives t
    → (r' : Run) × (tick t r ≡ ok r') × Counts r' (n + 1)
unfolding tick tick_running expired
tick-Lives t r n c l =
    let sc : SubscriptionClient = record r.sc { expire = t.expire; interval = t.interval } in
    let (period, e) = reset_ok r.period t.interval l.1 in
    let r' : Run = record r {
      sc = sc;
      period = period;
      queued = once_unless_delay_resp sc r.queued;
    } in
    (
      r',
      ap (λ (b : Bool). if b then ok r else tick_running t r) c.goes_on
          ∙ ap
              (λ (b : Bool).
                if b
                then ok (record r { sc = set_running false sc; over = true })
                else (reset r.period t.interval >>= λ d. ok (record r {
                  sc = sc;
                  period = d;
                  queued = once_unless_delay_resp sc r.queued;
                })))
              l.0
          ∙ ap
              (λ (d : Result ℤ). d >>= λ d'.
                ok (record r { sc = sc; period = d'; queued = once_unless_delay_resp sc r.queued }))
              e,
      record {
        counted = once_counts sc r.queued c.sends ∙ ap (λ (q : ℕ). q + 1) c.counted;
        goes_on = c.goes_on;
        sends = c.sends;
      },
    )

stays_over : (ts : List Tick) (r : Run) → r.over ≡ true → run_ticks ts r ≡ ok r
unfolding run_ticks tick
stays_over [] r o = refl
stays_over (t ∷ ts) r o =
    ap (λ (b : Bool). (if b then ok r else tick_running t r) >>= run_ticks ts) o ∙ stays_over ts r o

run_ends :
    (ts rest : List Tick) (t : Tick) (r : Run) (n : ℕ)
    → Counts r n
    → All Lives ts
    → ltb_ℤ t.expire t.now ≡ true
    → (r' : Run) × (run_ticks (ts ++ t ∷ rest) r ≡ ok r')
      × (r'.queued ≡ n + length ts)
      × (r'.over ≡ true)
      × (r'.sc.running ≡ false)
unfolding run_ticks tick tick_running expired set_running
run_ends [] rest t r n c h e =
    let sc : SubscriptionClient = record r.sc { expire = t.expire; interval = t.interval } in
    let r' : Run = record r { sc = record sc { running = false }; over = true } in
    (
      r',
      ap (λ (b : Bool). (if b then ok r else tick_running t r) >>= run_ticks rest) c.goes_on
          ∙ ap
              (λ (b : Bool).
                (if b
                  then ok r'
                  else (reset r.period t.interval >>= λ d. ok (record r {
                    sc = sc;
                    period = d;
                    queued = once_unless_delay_resp sc r.queued;
                  })))
                >>= run_ticks rest)
              e
          ∙ stays_over rest r' refl,
      omega (arith, c.counted),
      refl,
      refl,
    )
run_ends (t0 ∷ ts) rest t r n c h e =
    let (r1, step, c1) = tick-Lives t0 r n c h.0 in
    let (r', run, q, o, s) = run_ends ts rest t r1 (n + 1) c1 h.1 e in
    (
      r',
      ap (λ (x : Result Run). x >>= run_ticks (ts ++ t ∷ rest)) step ∙ run,
      omega (arith, q),
      o,
      s,
    )

-- A subscription to another type than Delay_Resp with a positive interval is queued once at its start and once
-- at each tick before its end, as long as its interval stays positive; it stops at the first tick
-- behind its end, for good, and is then not running.
pub start_run-run_ticks :
    (sc : SubscriptionClient) (ts rest : List Tick) (t : Tick)
    → ltb_ℤ (pos 0) sc.interval ≡ true
    → (sc.subscription_type == MessageType.delay_resp) ≡ false
    → All Lives ts
    → ltb_ℤ t.expire t.now ≡ true
    → (r0 : Run) × (r' : Run) × (start_run sc ≡ ok r0)
      × (r0.sc.running ≡ true)
      × (run_ticks (ts ++ t ∷ rest) r0 ≡ ok r')
      × (r'.queued ≡ 1 + length ts)
      × (r'.over ≡ true)
      × (r'.sc.running ≡ false)
unfolding start_run set_running
start_run-run_ticks sc ts rest t p d h e =
    let r0 : Run = record {
      sc = record sc { running = true };
      period = sc.interval;
      queued = once_unless_delay_resp sc 0;
      over = false;
    } in
    let (r', run, q, o, s) =
      run_ends ts rest t r0 1 (record { counted = once_counts sc 0 d; goes_on = refl; sends = d }) h
        e in
    (
      r0,
      r',
      ap
          (λ (b : Bool). (if b then ok sc.interval else panic) >>= λ period. ok (record {
            sc = record sc { running = true };
            period = period;
            queued = once_unless_delay_resp sc 0;
            over = false;
          }))
          p,
      refl,
      run,
      q,
      o,
      s,
    )
