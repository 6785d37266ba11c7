-- ===== src/Ptp/Server/Handlers/Limits.antt =====
-- Requests within the configured limits and out of them.
use ntp.Prelude.{
  ℕ, ◌*◌, ◌^◌, ◌<◌, ◌≡◌, refl, ap, sym, ◌∙◌, Bool, true, false, ◌||◌, Option, List, [], ◌∷◌, ◌++◌,
  Result, ok, ◌>>=◌, if◌then◌else◌, arith,
}
use mathlib.Core.List.{append-nil, append_assoc}
use ntp.Prelude.Int.{ℤ, pos, ◌+ℤ◌, ltb_ℤ}
use ntp.Ptp.Types.{unicast_msg_type}
use ntp.Ptp.Signaling.{Signaling, RequestUnicast, request}
use ntp.Ptp.Signaling.Unmarshal.{IsSignaling, IsTlv}
use ntp.Ptp.Server.Subscription.{Address, SubscriptionClient, log_interval_duration}
use ntp.Ptp.Server.Clients.{Key}
use ntp.Ptp.Server.Handlers.{
  State, Env, Action, Context, key, act, start, deref, accept_request, send_grant, answer_request,
  handle_request, is_granted_type, inc_rx_signaling, inc_tx_signaling, send_grant_to,
}
use ntp.Ptp.Server.Handlers.Grants.{IsSent}
use ntp.Ptp.Server.Handlers.WellFormed.{IsState}
use ntp.Ptp.Server.Handlers.Requests.{Subscribed, runs, subscribe_registers, sent_to}

-- A request out of the configured limits.
abbrev pub out_of_limit : Context → RequestUnicast → Bool
out_of_limit x v =
    ltb_ℤ (log_interval_duration x.floats v.log_inter_message_period) x.config.min_sub_interval
    || ltb_ℤ x.config.max_sub_duration (pos (v.duration_field * 1000000000))

if_true {ℓ} : {A : Type ℓ} (c : Bool) (a b : A) → c ≡ true → (if c then a else b) ≡ a
if_true c a b e = rw (e)

if_false {ℓ} : {A : Type ℓ} (c : Bool) (a b : A) → c ≡ false → (if c then a else b) ≡ b
if_false c a b e = rw (e)

started :
    (p : ℕ) (running : Bool) (s : State)
    → (if running then s else act (start p) s)
      ≡ record s { actions = s.actions ++ (if running then [] else start p ∷ []) }
started p true s =
    ap (λ (as' : List Action). record s { actions = as' }) (sym (append-nil s.actions))
started p false s = refl

-- The accepted branch, from a subscribed client on.
accept_sent :
    (e : Env) (sg : Signaling) (gclisa : Address) (v : RequestUnicast) (k : Key) (p : ℕ)
    (expire interval : ℤ) (s : State)
    → e.sent ≡ true
    → IsState s
    → (sub : Subscribed s k p expire interval) → IsSignaling sg
    → IsTlv (request v)
    → (b : List ℕ) × (s' : State) × (u : ℕ) × (accept_request e sg gclisa v p s sub.sc ≡ ok s')
      × Subscribed s' k p expire interval
      × IsState s'
      × IsSent sg v.msg_type_and_reserved v.log_inter_message_period v.duration_field b
      × (s'.actions
          ≡ (s.actions ++ (if sub.sc.running then [] else start p ∷ []))
            ++ send_grant_to b gclisa
              ∷ inc_tx_signaling u
              ∷ inc_rx_signaling (unicast_msg_type v.msg_type_and_reserved)
              ∷ [])
unfolding accept_request
accept_sent e sg gclisa v k p expire interval s sent h sub g fits =
    let s0 : State = record s {
      actions = s.actions ++ (if sub.sc.running then [] else start p ∷ []);
    } in
    let h0 : IsState s0 = record {
      distinct = h.distinct;
      pointers = h.pointers;
      grants = h.grants;
    } in
    let sub0 : Subscribed s0 k p expire interval = record {
      sc = sub.sc;
      found = sub.found;
      at = sub.at;
      expires = sub.expires;
      paced = sub.paced;
    } in
    let (b, s1, u, run, sub1, h1, out, acts) =
      sent_to e sg v.msg_type_and_reserved v.log_inter_message_period v.duration_field gclisa k p
        expire interval s0 sent h0 sub0 g fits.1 fits.2 fits.3 in
    let t : ℕ = unicast_msg_type v.msg_type_and_reserved in
    (
      b,
      act (inc_rx_signaling t) s1,
      u,
      ap
            (λ (s' : State).
              send_grant e p sg v.msg_type_and_reserved v.log_inter_message_period v.duration_field
                gclisa s'
              >>= λ s''. ok (act (inc_rx_signaling t) s''))
            (started p sub.sc.running s)
          ∙ ap (λ (r : Result State). r >>= λ s''. ok (act (inc_rx_signaling t) s'')) run,
      record {
        sc = sub1.sc;
        found = sub1.found;
        at = sub1.at;
        expires = sub1.expires;
        paced = sub1.paced;
      },
      record { distinct = h1.distinct; pointers = h1.pointers; grants = h1.grants },
      out,
      ap (λ (l : List Action). l ++ inc_rx_signaling t ∷ []) acts
          ∙ append_assoc s0.actions (send_grant_to b gclisa ∷ inc_tx_signaling u ∷ [])
              (inc_rx_signaling t ∷ []),
    )

-- A request within the configured limits, for Announce, Sync or Delay_Resp, when the grant can be
-- sent: the client has the subscription afterwards, with the requested interval and an end at the
-- requested distance from now; the grant that goes out is for the requested type, interval and
-- duration; a goroutine is started for the subscription unless it was running before; and the state
-- stays well-formed.
pub handle_request_accepts :
    (x : Context) (e : Env) (sg : Signaling) (gclisa : Address) (v : RequestUnicast) (s : State)
    → e.sent ≡ true
    → IsState s
    → x.config.clock_identity < 2 ^ 64
    → IsSignaling sg
    → IsTlv (request v)
    → is_granted_type (unicast_msg_type v.msg_type_and_reserved) ≡ true
    → out_of_limit x v ≡ false
    → (p : ℕ) × (b : List ℕ) × (s' : State) × (u : ℕ) × (handle_request x e sg gclisa v s ≡ ok s')
      × Subscribed s'
          (key x sg.header.source_port_identity (unicast_msg_type v.msg_type_and_reserved))
          p
          (e.now +ℤ pos (v.duration_field * 1000000000))
          (log_interval_duration x.floats v.log_inter_message_period)
      × IsState s'
      × IsSent sg v.msg_type_and_reserved v.log_inter_message_period v.duration_field b
      × (s'.actions
          ≡ (s.actions
              ++ (if runs s (
                    key x sg.header.source_port_identity (unicast_msg_type v.msg_type_and_reserved))
                  then []
                  else start p ∷ []))
            ++ send_grant_to b gclisa
              ∷ inc_tx_signaling u
              ∷ inc_rx_signaling (unicast_msg_type v.msg_type_and_reserved)
              ∷ [])
unfolding handle_request answer_request
handle_request_accepts x e sg gclisa v s sent h c g fits served limits =
    let t : ℕ = unicast_msg_type v.msg_type_and_reserved in
    let interval : ℤ = log_interval_duration x.floats v.log_inter_message_period in
    let expire : ℤ = e.now +ℤ pos (v.duration_field * 1000000000) in
    let (p, s1, run, same, sub, h1, ran) =
      subscribe_registers x e sg gclisa t interval expire s h c in
    let (b, s2, u, run2, sub2, h2, out, acts) =
      accept_sent e sg gclisa v (key x sg.header.source_port_identity t) p expire interval s1 sent
        h1 sub g fits in
    (
      p,
      b,
      s2,
      u,
      if_true _ _ _ served
          ∙ ap (λ (r : Result (ℕ × State)). r >>= answer_request x e sg gclisa v) run
          ∙ if_false _ _ _ limits
          ∙ ap (λ (o : Option SubscriptionClient). deref o >>= accept_request e sg gclisa v p s1)
              sub.at
          ∙ run2,
      sub2,
      h2,
      out,
      rw (acts, same, ran) refl,
    )

-- A request out of the limits, when the grant can be sent: the grant that goes out has duration 0 and
-- no goroutine is started. But the subscription is in the map all the same, and where the client had
-- one before, it now has the rejected interval and end.
pub handle_request_rejects :
    (x : Context) (e : Env) (sg : Signaling) (gclisa : Address) (v : RequestUnicast) (s : State)
    → e.sent ≡ true
    → IsState s
    → x.config.clock_identity < 2 ^ 64
    → IsSignaling sg
    → IsTlv (request v)
    → is_granted_type (unicast_msg_type v.msg_type_and_reserved) ≡ true
    → out_of_limit x v ≡ true
    → (p : ℕ) × (b : List ℕ) × (s' : State) × (u : ℕ) × (handle_request x e sg gclisa v s ≡ ok s')
      × Subscribed s'
          (key x sg.header.source_port_identity (unicast_msg_type v.msg_type_and_reserved))
          p
          (e.now +ℤ pos (v.duration_field * 1000000000))
          (log_interval_duration x.floats v.log_inter_message_period)
      × IsState s'
      × IsSent sg v.msg_type_and_reserved v.log_inter_message_period 0 b
      × (s'.actions ≡ s.actions ++ send_grant_to b gclisa ∷ inc_tx_signaling u ∷ [])
unfolding handle_request answer_request
handle_request_rejects x e sg gclisa v s sent h c g fits served limits =
    let t : ℕ = unicast_msg_type v.msg_type_and_reserved in
    let interval : ℤ = log_interval_duration x.floats v.log_inter_message_period in
    let expire : ℤ = e.now +ℤ pos (v.duration_field * 1000000000) in
    let (p, s1, run, same, sub, h1, ran) =
      subscribe_registers x e sg gclisa t interval expire s h c in
    let (b, s2, u, run2, sub2, h2, out, acts) =
      sent_to e sg v.msg_type_and_reserved v.log_inter_message_period 0 gclisa _ p expire interval
        s1 sent h1 sub g fits.1 fits.2 (omega arith) in
    (
      p,
      b,
      s2,
      u,
      if_true _ _ _ served
          ∙ ap (λ (r : Result (ℕ × State)). r >>= answer_request x e sg gclisa v) run
          ∙ if_true _ _ _ limits
          ∙ run2,
      sub2,
      h2,
      out,
      rw (acts, same),
    )
