-- ===== src/Ptp/Client/Measurements/Latest.antt =====
-- What the client computes of its latest samples.
use ntp.Prelude.{
  ℕ, ◌+◌, ◌/◌, ◌^◌, ◌<◌, ◌≡◌, refl, ap, ◌∙◌, Bool, true, false, Bool-cases, ◌⊎◌, inl, inr, ◌==◌,
  if◌then◌else◌, [], ◌∷◌, Option, none, some, ok, arith,
}
use ntp.Prelude.Int.{ℤ, pos, negsuc, ◌+ℤ◌, ◌-ℤ◌, ◌≤ℤ◌, ltb_ℤ, int_laws}
use ntp.Prelude.Word.{saturate_fits, to_i64, to_i64_fits, to_i64-pos, quot-pos}
use ntp.Ptp.Client.Measurements.{
  Measurements, MeasurementResult, Sample, Samples, lookup, both, later, last_complete, measure,
  result, latest,
}

-- A sample that is not complete, or is the one sent and received at these times, or was received
-- strictly earlier.
abbrev NotLater : ℤ → ℤ → Option ℤ → Option ℤ → Type 0
NotLater sent received none r = Unit
NotLater sent received (some s) none = Unit
NotLater sent received (some s) (some r) = ((s ≡ sent) × (r ≡ received)) ⊎ (ltb_ℤ r received ≡ true)

abbrev AllNotLater : ℤ → ℤ → Samples → Type 0
AllNotLater sent received [] = Unit
AllNotLater sent received ((k, v) ∷ m) =
    NotLater sent received v.send_ts v.receive_ts × AllNotLater sent received m

-- A sample of the map, sent and received at these times, such that any other complete sample was
-- received strictly earlier, or else was sent and received at the same times.
pub record IsLatest (m : Samples) (sent received : ℤ) : Type 0 where
  pub seq : ℕ
  pub found : lookup m seq ≡ some (record { send_ts = some sent; receive_ts = some received })
  pub others : AllNotLater sent received m

same_either {ℓ} : {A : Type ℓ} (c : Bool) (a : A) → (if c then a else a) ≡ a
same_either true a = refl
same_either false a = refl

later_kept :
    (s r : ℤ) (send receive : Option ℤ)
    → NotLater s r send receive
    → later (some (s, r)) (both send receive) ≡ some (s, r)
later_kept s r none receive h = refl
later_kept s r (some a) none h = refl
later_kept s r (some a) (some b) (inl same) =
    rw (same.0, same.1) (same_either (ltb_ℤ r r) (some (s, r)))
later_kept s r (some a) (some b) (inr earlier) =
    let late : ltb_ℤ r b ≡ false = ground (arith, earlier) in rw late refl

last_kept :
    (s r : ℤ) (m : Samples) → AllNotLater s r m → last_complete (some (s, r)) m ≡ some (s, r)
unfolding last_complete
last_kept s r [] h = refl
last_kept s r ((k, v) ∷ m) h =
    ap (λ (best : Option (ℤ × ℤ)). last_complete best m) (later_kept s r v.send_ts v.receive_ts h.0)
    ∙ last_kept s r m h.1

-- What the loop may hold before it meets the latest sample.
abbrev Earlier : ℤ → ℤ → Option (ℤ × ℤ) → Type 0
Earlier s r none = Unit
Earlier s r (some (a, b)) = NotLater s r (some a) (some b)

either_Earlier :
    (s r : ℤ) (c : Bool) (a b : Option (ℤ × ℤ))
    → Earlier s r a
    → Earlier s r b
    → Earlier s r (if c then a else b)
either_Earlier s r true a b h k = h
either_Earlier s r false a b h k = k

later-Earlier :
    (s r : ℤ) (best : Option (ℤ × ℤ)) (send receive : Option ℤ)
    → Earlier s r best
    → NotLater s r send receive
    → Earlier s r (later best (both send receive))
later-Earlier s r best none receive h k = h
later-Earlier s r best (some a) none h k = h
later-Earlier s r none (some a) (some b) h k = k
later-Earlier s r (some (c, d)) (some a) (some b) h k =
    either_Earlier s r (ltb_ℤ d b) (some (a, b)) (some (c, d)) k h

later_taken :
    (s r : ℤ) (best : Option (ℤ × ℤ)) → Earlier s r best → later best (some (s, r)) ≡ some (s, r)
later_taken s r none h = refl
later_taken s r (some (a, b)) (inl same) =
    rw (same.0, same.1) (same_either (ltb_ℤ r r) (some (s, r)))
later_taken s r (some (a, b)) (inr earlier) = rw earlier refl

last_found :
    (s r : ℤ) (seq : ℕ) (best : Option (ℤ × ℤ)) (m : Samples)
    → Earlier s r best
    → lookup m seq ≡ some (record { send_ts = some s; receive_ts = some r })
    → AllNotLater s r m
    → last_complete best m ≡ some (s, r)
unfolding last_complete lookup
last_found s r seq best [] e found h = absurd cc
last_found s r seq best ((k, v) ∷ m) e found h = elim (Bool-cases (k == seq)) [
  | inl here ↦
      (let is : v ≡ record { send_ts = some s; receive_ts = some r } = cc in
        ap (λ (w : Sample). last_complete (later best (both w.send_ts w.receive_ts)) m) is
        ∙ ap (λ (b : Option (ℤ × ℤ)). last_complete b m) (later_taken s r best e)
        ∙ last_kept s r m h.1)
  | inr there ↦
      last_found s r seq (later best (both v.send_ts v.receive_ts)) m
        (later-Earlier s r best v.send_ts v.receive_ts e h.0) (rw there at found) h.1
]

-- `last_complete` finds the latest sample.
is_found :
    (m : Samples) (sent received : ℤ)
    → IsLatest m sent received
    → last_complete none m ≡ some (sent, received)
is_found m sent received l = last_found sent received l.seq none m tt l.found l.others

-- With the client's clock ahead by `theta` and a path that takes `d1` from the server and `d2` to it,
-- the complete samples that were received last give the mean delay, rounded down, and an offset that
-- differs from `theta` by half of the asymmetry of the path.
pub latest_offset :
    (m : Measurements) (sync_sent request_sent theta : ℤ) (d1 d2 : ℕ)
    → d1 + d2 < 2 ^ 62
    → negsuc (2 ^ 61) ≤ℤ theta
    → theta ≤ℤ pos (2 ^ 61)
    → IsLatest m.server_to_client sync_sent (sync_sent +ℤ pos d1 +ℤ theta)
    → IsLatest m.client_to_server request_sent (request_sent +ℤ pos d2 -ℤ theta)
    → (r : MeasurementResult) × (latest m ≡ ok r)
      × (r.delay ≡ pos ((d1 + d2) / 2))
      × (r.offset +ℤ pos ((d1 + d2) / 2) ≡ theta +ℤ pos d1)
unfolding latest result measure
latest_offset m t1 t2 theta d1 d2 fits low high l1 l2 =
    let e1 = is_found m.server_to_client t1 (t1 +ℤ pos d1 +ℤ theta) l1 in
    let e2 = is_found m.client_to_server t2 (t2 +ℤ pos d2 -ℤ theta) l2 in
    let forward : t1 +ℤ pos d1 +ℤ theta -ℤ t1 ≡ pos d1 +ℤ theta = omega int_laws in
    let back : t2 +ℤ pos d2 -ℤ theta -ℤ t2 ≡ pos d2 -ℤ theta = omega int_laws in
    let whole : pos d2 -ℤ theta +ℤ (pos d1 +ℤ theta) ≡ pos (d1 + d2) = omega int_laws in
    let in_range : to_i64 (pos d1 +ℤ theta -ℤ pos ((d1 + d2) / 2))
        ≡ pos d1 +ℤ theta -ℤ pos ((d1 + d2) / 2) =
      to_i64_fits _ (omega int_laws) (omega int_laws) in
    (
      measure (t1, t1 +ℤ pos d1 +ℤ theta) (t2, t2 +ℤ pos d2 -ℤ theta),
      ap (λ (o : Option (ℤ × ℤ)). result o (last_complete none m.client_to_server)) e1
          ∙ ap (result (some (t1, t1 +ℤ pos d1 +ℤ theta))) e2,
      rw (
        forward,
        back,
        saturate_fits (pos d1 +ℤ theta) (omega int_laws) (omega int_laws),
        saturate_fits (pos d2 -ℤ theta) (omega int_laws) (omega int_laws),
        whole,
        to_i64-pos (d1 + d2) (omega arith),
        quot-pos,
      ),
      rw
          (
            forward,
            back,
            saturate_fits (pos d1 +ℤ theta) (omega int_laws) (omega int_laws),
            saturate_fits (pos d2 -ℤ theta) (omega int_laws) (omega int_laws),
            whole,
            to_i64-pos (d1 + d2) (omega arith),
            quot-pos,
            in_range,
          )
          (omega int_laws),
    )
