-- ===== src/Ptp/Client/Session/Counting.antt =====
-- The sequence numbers of what a client sends.
use ntp.Prelude.{
  ℕ, suc, ◌+◌, ◌%◌, ◌^◌, ◌<◌, ◌≡◌, refl, ap, sym, subst, ◌∙◌, Bool, true, false, Option, none, some,
  List, [], ◌∷◌, ◌++◌, ok, Holds, holds_ok, holds_err, arith,
}
use ntp.Prelude.Int.{ℤ}
use ntp.Ptp.MessageType
use ntp.Ptp.Header.{message_type}
use ntp.Ptp.Messages.{SyncDelayReq, sync_unmarshal_binary}
use ntp.Ptp.Signaling.{Signaling, signaling_unmarshal_binary}
use ntp.Ptp.Client.Measurements.{MeasurementResult}
use ntp.Ptp.Client.Session.{
  Client, Output, sent_general, sent_event, measured, write_general, write_event, output,
}

-- The datagrams of either kind.
abbrev pub generals : List Output → ℕ
generals [] = 0
generals (sent_general b ∷ os) = suc (generals os)
generals (sent_event b ∷ os) = generals os
generals (measured r ∷ os) = generals os

abbrev pub events : List Output → ℕ
events [] = 0
events (sent_general b ∷ os) = events os
events (sent_event b ∷ os) = suc (events os)
events (measured r ∷ os) = events os

-- A datagram that parses and has the given sequence number.
abbrev pub GeneralNumbered : List ℕ → ℕ → Type 0
GeneralNumbered b n =
    (p : Signaling) × (signaling_unmarshal_binary b ≡ ok p) × (p.header.sequence_id ≡ n)

abbrev pub EventNumbered : List ℕ → ℕ → Type 0
EventNumbered b n =
    (p : SyncDelayReq) × (sync_unmarshal_binary b ≡ ok p)
    × (message_type p.header ≡ MessageType.delay_req)
    × (p.header.sequence_id ≡ n)

-- The datagrams of either kind parse, and count up from `g` and from `e`, modulo 2^16.
abbrev pub Numbered : ℕ → ℕ → List Output → Type 0
Numbered g e [] = Unit
Numbered g e (sent_general b ∷ os) = GeneralNumbered b (g % 65536) × Numbered (suc g) e os
Numbered g e (sent_event b ∷ os) = EventNumbered b (e % 65536) × Numbered g (suc e) os
Numbered g e (measured r ∷ os) = Numbered g e os

pub record IsClient (c : Client) : Type 0 where
  pub clock_fits : c.clock_id < 2 ^ 64
  pub duration_fits : c.duration < 2 ^ 32
  pub gen_counts : c.gen_sequence ≡ generals c.outputs % 65536
  pub event_counts : c.event_sequence ≡ events c.outputs % 65536
  pub numbered : Numbered 0 0 c.outputs

-- One more output.
Numbered-general :
    (g e : ℕ) (os : List Output) (b : List ℕ)
    → Numbered g e os
    → GeneralNumbered b ((g + generals os) % 65536)
    → Numbered g e (os ++ sent_general b ∷ [])
Numbered-general g e [] b h n =
    let step : (g + 0) % 65536 ≡ g % 65536 = omega arith in (subst (GeneralNumbered b) (step) n, tt)
Numbered-general g e (sent_general a ∷ os) b h n =
    let step : (g + suc (generals os)) % 65536 ≡ (suc g + generals os) % 65536 = omega arith in
    (h.0, Numbered-general (suc g) e os b h.1 (subst (GeneralNumbered b) (step) n))
Numbered-general g e (sent_event a ∷ os) b h n = (h.0, Numbered-general g (suc e) os b h.1 n)
Numbered-general g e (measured r ∷ os) b h n = Numbered-general g e os b h n

Numbered-event :
    (g e : ℕ) (os : List Output) (b : List ℕ)
    → Numbered g e os
    → EventNumbered b ((e + events os) % 65536)
    → Numbered g e (os ++ sent_event b ∷ [])
Numbered-event g e [] b h n =
    let step : (e + 0) % 65536 ≡ e % 65536 = omega arith in (subst (EventNumbered b) (step) n, tt)
Numbered-event g e (sent_general a ∷ os) b h n = (h.0, Numbered-event (suc g) e os b h.1 n)
Numbered-event g e (sent_event a ∷ os) b h n =
    let step : (e + suc (events os)) % 65536 ≡ (suc e + events os) % 65536 = omega arith in
    (h.0, Numbered-event g (suc e) os b h.1 (subst (EventNumbered b) (step) n))
Numbered-event g e (measured r ∷ os) b h n = Numbered-event g e os b h n

Numbered-measured :
    (g e : ℕ) (os : List Output) (r : MeasurementResult)
    → Numbered g e os
    → Numbered g e (os ++ measured r ∷ [])
Numbered-measured g e [] r h = tt
Numbered-measured g e (sent_general a ∷ os) r h = (h.0, Numbered-measured (suc g) e os r h.1)
Numbered-measured g e (sent_event a ∷ os) r h = (h.0, Numbered-measured g (suc e) os r h.1)
Numbered-measured g e (measured a ∷ os) r h = Numbered-measured g e os r h

generals-output :
    (os : List Output) (b : List ℕ) → generals (os ++ sent_general b ∷ []) ≡ suc (generals os)
generals-output [] b = refl
generals-output (sent_general a ∷ os) b = ap suc (generals-output os b)
generals-output (sent_event a ∷ os) b = generals-output os b
generals-output (measured a ∷ os) b = generals-output os b

generals-event : (os : List Output) (b : List ℕ) → generals (os ++ sent_event b ∷ []) ≡ generals os
generals-event [] b = refl
generals-event (sent_general a ∷ os) b = ap suc (generals-event os b)
generals-event (sent_event a ∷ os) b = generals-event os b
generals-event (measured a ∷ os) b = generals-event os b

generals-measured :
    (os : List Output) (r : MeasurementResult) → generals (os ++ measured r ∷ []) ≡ generals os
generals-measured [] r = refl
generals-measured (sent_general a ∷ os) r = ap suc (generals-measured os r)
generals-measured (sent_event a ∷ os) r = generals-measured os r
generals-measured (measured a ∷ os) r = generals-measured os r

events-output : (os : List Output) (b : List ℕ) → events (os ++ sent_event b ∷ []) ≡ suc (events os)
events-output [] b = refl
events-output (sent_general a ∷ os) b = events-output os b
events-output (sent_event a ∷ os) b = ap suc (events-output os b)
events-output (measured a ∷ os) b = events-output os b

events-general : (os : List Output) (b : List ℕ) → events (os ++ sent_general b ∷ []) ≡ events os
events-general [] b = refl
events-general (sent_general a ∷ os) b = events-general os b
events-general (sent_event a ∷ os) b = ap suc (events-general os b)
events-general (measured a ∷ os) b = events-general os b

events-measured :
    (os : List Output) (r : MeasurementResult) → events (os ++ measured r ∷ []) ≡ events os
events-measured [] r = refl
events-measured (sent_general a ∷ os) r = events-measured os r
events-measured (sent_event a ∷ os) r = ap suc (events-measured os r)
events-measured (measured a ∷ os) r = events-measured os r

-- What a client does with its state keeps `IsClient`.
pub write_general-IsClient :
    (w : Bool) (b : List ℕ) (c : Client)
    → IsClient c
    → GeneralNumbered b c.gen_sequence
    → Holds IsClient (write_general w b c)
unfolding write_general
write_general-IsClient true b c h n = holds_ok (record {
  clock_fits = h.clock_fits;
  duration_fits = h.duration_fits;
  gen_counts =
      let g : c.gen_sequence ≡ generals c.outputs % 65536 = h.gen_counts in
      omega (arith, g, generals-output c.outputs b);
  event_counts = h.event_counts ∙ ap (λ k. k % 65536) (sym (events-general c.outputs b));
  numbered =
      let g : c.gen_sequence ≡ (0 + generals c.outputs) % 65536 = omega (arith, h.gen_counts) in
      Numbered-general 0 0 c.outputs b h.numbered (subst (GeneralNumbered b) (g) n);
})
write_general-IsClient false b c h n = holds_err

pub write_event-IsClient :
    (ts : Option ℤ) (b : List ℕ) (c : Client)
    → IsClient c
    → EventNumbered b c.event_sequence
    → Holds IsClient (write_event ts b c)
unfolding write_event
write_event-IsClient none b c h n = holds_err
write_event-IsClient (some ts) b c h n = holds_ok (record {
  clock_fits = h.clock_fits;
  duration_fits = h.duration_fits;
  gen_counts = h.gen_counts ∙ ap (λ k. k % 65536) (sym (generals-event c.outputs b));
  event_counts =
      let g : c.event_sequence ≡ events c.outputs % 65536 = h.event_counts in
      omega (arith, g, events-output c.outputs b);
  numbered =
      let e : c.event_sequence ≡ (0 + events c.outputs) % 65536 = omega (arith, h.event_counts) in
      Numbered-event 0 0 c.outputs b h.numbered (subst (EventNumbered b) (e) n);
})

pub measured-IsClient :
    (r : MeasurementResult) (c : Client) → IsClient c → IsClient (output (measured r) c)
measured-IsClient r c h = record {
  clock_fits = h.clock_fits;
  duration_fits = h.duration_fits;
  gen_counts = h.gen_counts ∙ ap (λ k. k % 65536) (sym (generals-measured c.outputs r));
  event_counts = h.event_counts ∙ ap (λ k. k % 65536) (sym (events-measured c.outputs r));
  numbered = Numbered-measured 0 0 c.outputs r h.numbered;
}
