-- ===== src/Ptp/Server/Ticker.antt =====
-- ptp/ptp4u/server/subscription.go: `SubscriptionClient.Start`, which puts a subscription in its
-- worker's queue on every tick until it has expired. Between ticks the handlers may have changed its
-- end and its interval. `time.NewTicker` panics on a period that is not positive, as does
-- `Ticker.Reset` from Go 1.17 on.
pub mod Runs
use ntp.Prelude.{
  ℕ, ◌+◌, Bool, true, false, not, List, [], ◌∷◌, Result, ok, panic, ◌>>=◌, ◌==◌, if◌then◌else◌,
}
use ntp.Prelude.Int.{ℤ, pos, ltb_ℤ}
use ntp.Ptp.MessageType
use ntp.Ptp.Server.Subscription.{SubscriptionClient, expired, set_running}

-- The goroutine: the subscription, the period of its ticker, how often it was queued, and whether the
-- loop has returned.
pub record Run : Type 0 where
  pub sc : SubscriptionClient
  pub period : ℤ
  pub queued : ℕ
  pub over : Bool

-- A tick: when it is handled, and the end and the interval that the subscription has then.
pub record Tick : Type 0 where
  pub now : ℤ
  pub expire : ℤ
  pub interval : ℤ

-- `Once`, unless for Delay_Resp.
abbrev pub once_unless_delay_resp : SubscriptionClient → ℕ → ℕ
once_unless_delay_resp sc queued =
    if sc.subscription_type == MessageType.delay_resp then queued else queued + 1

abbrev pub positive : ℤ → Result ℤ
positive d = if ltb_ℤ (pos 0) d then ok d else panic

abbrev pub same_ℤ : ℤ → ℤ → Bool
same_ℤ a b = if ltb_ℤ a b then false else not (ltb_ℤ b a)

-- `Start`, up to its loop.
unfoldable pub start_run : SubscriptionClient → Result Run
unfolding set_running
start_run sc =
    let sc' : SubscriptionClient = set_running true sc in
    positive sc.interval >>= λ period.
    ok (record { sc = sc'; period = period; queued = once_unless_delay_resp sc 0; over = false })

-- `intervalTicker.Reset`, when the interval is not that of the ticker.
abbrev pub reset : ℤ → ℤ → Result ℤ
reset period interval = if same_ℤ period interval then ok period else positive interval

-- A round of the loop that is still running.
unfoldable pub tick_running : Tick → Run → Result Run
unfolding expired set_running
tick_running t r =
    let sc : SubscriptionClient = record r.sc { expire = t.expire; interval = t.interval } in
    if expired t.now sc
    then ok (record r { sc = set_running false sc; over = true })
    else (reset r.period t.interval >>= λ period.
        ok (record r { sc = sc; period = period; queued = once_unless_delay_resp sc r.queued }))

unfoldable pub tick : Tick → Run → Result Run
unfolding tick_running
tick t r = if r.over then ok r else tick_running t r

unfoldable pub run_ticks : List Tick → Run → Result Run
unfolding tick
run_ticks [] r = ok r
run_ticks (t ∷ ts) r = tick t r >>= run_ticks ts
