-- ===== src/Ptp/Client/Measurements/Samples.antt =====
-- Pairing the packets of one exchange by their sequence number.
use ntp.Prelude.{ℕ, ◌≡◌, ◌∙◌, false, Bool-cases, inl, inr, Option, none, some, [], ◌∷◌, ◌==◌, arith}
use ntp.Prelude.Int.{ℤ}
use ntp.Ptp.Client.Measurements.{
  Sample, Samples, Measurements, lookup, set_receive, set_send, add_sync, add_follow_up,
}

-- The sample that a change starts from.
abbrev stored : Option Sample → Sample
stored none = record { send_ts = none; receive_ts = none }
stored (some v) = v

lookup-set_receive :
    (m : Samples) (q : ℕ) (ts : Option ℤ)
    → lookup (set_receive m q ts) q ≡ some (record (stored (lookup m q)) { receive_ts = ts })
unfolding lookup set_receive
lookup-set_receive [] q ts = ground arith
lookup-set_receive ((k, v) ∷ m) q ts = elim (Bool-cases (k == q)) [
  | inl e ↦ rw (e, e)
  | inr e ↦ rw (e, e, lookup-set_receive m q ts)
]

lookup-set_send :
    (m : Samples) (q : ℕ) (ts : ℤ)
    → lookup (set_send m q ts) q ≡ some (record (stored (lookup m q)) { send_ts = some ts })
unfolding lookup set_send
lookup-set_send [] q ts = ground arith
lookup-set_send ((k, v) ∷ m) q ts = elim (Bool-cases (k == q)) [
  | inl e ↦ rw (e, e)
  | inr e ↦ rw (e, e, lookup-set_send m q ts)
]

lookup-set_receive_other :
    (m : Samples) (q other : ℕ) (ts : Option ℤ)
    → (q == other) ≡ false
    → lookup (set_receive m q ts) other ≡ lookup m other
unfolding lookup set_receive
lookup-set_receive_other [] q other ts h = rw (h)
lookup-set_receive_other ((k, v) ∷ m) q other ts h = elim (Bool-cases (k == q)) [
  | inl e ↦ (let f : (k == other) ≡ false = ground arith in rw (e, f))
  | inr e ↦ rw (e, lookup-set_receive_other m q other ts h)
]

lookup-set_send_other :
    (m : Samples) (q other : ℕ) (ts : ℤ)
    → (q == other) ≡ false
    → lookup (set_send m q ts) other ≡ lookup m other
unfolding lookup set_send
lookup-set_send_other [] q other ts h = rw (h)
lookup-set_send_other ((k, v) ∷ m) q other ts h = elim (Bool-cases (k == q)) [
  | inl e ↦ (let f : (k == other) ≡ false = ground arith in rw (e, f))
  | inr e ↦ rw (e, lookup-set_send_other m q other ts h)
]

-- A Sync and the Follow_Up with its sequence number make one complete sample, in whichever order
-- they arrive, and the samples of the other sequence numbers stay as they were.
pub add_follow_up-add_sync :
    (m : Measurements) (seq other : ℕ) (sent received : ℤ)
    → (seq == other) ≡ false
    → let a = add_follow_up seq sent (add_sync seq (some received) m) in
      let b = add_sync seq (some received) (add_follow_up seq sent m) in
      (lookup a.server_to_client seq
        ≡ some (record { send_ts = some sent; receive_ts = some received }))
      × (lookup b.server_to_client seq
          ≡ some (record { send_ts = some sent; receive_ts = some received }))
      × (lookup a.server_to_client other ≡ lookup m.server_to_client other)
      × (lookup b.server_to_client other ≡ lookup m.server_to_client other)
unfolding add_sync add_follow_up
add_follow_up-add_sync m seq other sent received h =
    let xs : Samples = m.server_to_client in
    (
      rw (
        lookup-set_send (set_receive xs seq (some received)) seq sent,
        lookup-set_receive xs seq (some received),
      ),
      rw (
        lookup-set_receive (set_send xs seq sent) seq (some received),
        lookup-set_send xs seq sent,
      ),
      lookup-set_send_other (set_receive xs seq (some received)) seq other sent h
          ∙ lookup-set_receive_other xs seq other (some received) h,
      lookup-set_receive_other (set_send xs seq sent) seq other (some received) h
          ∙ lookup-set_send_other xs seq other sent h,
    )
