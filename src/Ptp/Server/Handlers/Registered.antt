-- ===== src/Ptp/Server/Handlers/Registered.antt =====
-- Registrations over the handling of a packet.
use ntp.Prelude.{
  ℕ, ◌+◌, ◌*◌, ◌≡◌, refl, sym, ◌∙◌, Bool, true, false, Bool-cases, inl, inr, Option, none, some,
  List, [], ◌∷◌, Result, ok, err, panic, out_of_fuel, ◌>>=◌, if◌then◌else◌, length, get_elem?, set,
  Holds, Holds-chain, Holds-if, Holds-ok, holds_ok, holds_panic, holds_out_of_fuel,
}
use ntp.Prelude.Int.{ℤ, pos, ◌+ℤ◌}
use ntp.Ptp.Types.{unicast_msg_type, probe_msg_type}
use ntp.Ptp.Signaling.{
  Signaling, Tlv, RequestUnicast, request, grant, cancel, acknowledge, signaling_unmarshal_binary,
}
use ntp.Ptp.Server.Subscription.{Address, SubscriptionClient, log_interval_duration}
use ntp.Ptp.Server.Clients.{Key, same_key, find_subscription}
use ntp.Ptp.Server.Clients.Laws.{find-register_other, find-congruent}
use ntp.Ptp.Server.Handlers.{
  State, Env, Context, Action, key, act, start, deref, deliver_grant, send_grant, create_or_update,
  subscribe, accept_request, answer_request, handle_request, cancel_found, handle_cancel,
  handle_tlv, handle_tlvs, general_signaling, general_packet, handle_general, inc_tx_signaling,
  send_grant_to, is_granted_type,
}

-- What was registered is registered still, under the same pointer.
pub record Remembers (s s' : State) : Type 0 where
  pub finds :
      (k : Key) (p : ℕ)
      → find_subscription s.clients k ≡ some p
      → find_subscription s'.clients k ≡ some p

same : (s : State) → Remembers s s
same s = record { finds = λ k p e. e }

-- A state with the same maps.
same_maps :
    (s s1 : State) (h : List SubscriptionClient) (as' : List Action)
    → Remembers s s1
    → Remembers s (record s1 { heap = h; actions = as' })
same_maps s s1 h as' r = record { finds = r.finds }

either :
    (s : State) (t : Bool) (a b : State)
    → Remembers s a
    → Remembers s b
    → Remembers s (if t then a else b)
either s true a b h k = h
either s false a b h k = k

deref-Holds :
    (P : State → Type 0) (o : Option SubscriptionClient) (next : SubscriptionClient → Result State)
    → ((sc : SubscriptionClient) → Holds P (next sc))
    → Holds P (deref o >>= next)
deref-Holds P none next h = holds_panic
deref-Holds P (some sc) next h = h sc

deliver_grant-Remembers :
    (s0 : State) (e : Env) (a : Address) (t : ℕ) (b : Result (List ℕ)) (s : State)
    → Remembers s0 s
    → Holds (Remembers s0) (deliver_grant e a t b s)
unfolding deliver_grant
deliver_grant-Remembers s0 e a t (ok b) s r = holds_ok (
    either s0 e.sent (act (inc_tx_signaling t) (act (send_grant_to b a) s)) s (same_maps s0 s _ _ r)
      r)
deliver_grant-Remembers s0 e a t (err x) s r = holds_ok r
deliver_grant-Remembers s0 e a t panic s r = holds_panic
deliver_grant-Remembers s0 e a t out_of_fuel s r = holds_out_of_fuel

send_grant-Remembers :
    (s0 : State) (e : Env) (p : ℕ) (sg : Signaling) (mt interval duration : ℕ) (a : Address)
    (s : State)
    → Remembers s0 s
    → Holds (Remembers s0) (send_grant e p sg mt interval duration a s)
unfolding send_grant
send_grant-Remembers s0 e p sg mt interval duration a s r =
    deref-Holds (Remembers s0) (get_elem? s.heap p) _
      (λ sc. deliver_grant-Remembers s0 e a _ _ _ (same_maps s0 s _ s.actions r))

accept_request-Remembers :
    (s0 : State) (e : Env) (sg : Signaling) (a : Address) (v : RequestUnicast) (p : ℕ) (s : State)
    (sc : SubscriptionClient)
    → Remembers s0 s
    → Holds (Remembers s0) (accept_request e sg a v p s sc)
unfolding accept_request
accept_request-Remembers s0 e sg a v p s sc r =
    Holds-chain
      (send_grant-Remembers s0 e p sg _ _ _ a (if sc.running then s else act (start p) s)
        (either s0 sc.running s (act (start p) s) r (same_maps s0 s _ _ r)))
      (λ s' r'. holds_ok (same_maps s0 s' _ _ r'))

answer_request-Remembers :
    (s0 : State) (x : Context) (e : Env) (sg : Signaling) (a : Address) (v : RequestUnicast) (p : ℕ)
    (s : State)
    → Remembers s0 s
    → Holds (Remembers s0) (answer_request x e sg a v (p, s))
unfolding answer_request
answer_request-Remembers s0 x e sg a v p s r =
    let reject =
      send_grant-Remembers s0 e p sg v.msg_type_and_reserved v.log_inter_message_period 0 a s r in
    let accept =
      deref-Holds (Remembers s0) (get_elem? s.heap p) (accept_request e sg a v p s)
        (λ sc. accept_request-Remembers s0 e sg a v p s sc r) in
    search (Holds-if, reject, accept)

-- The map after a request: an entry that there was not is new, or a subscription is changed in place.
create_or_update-Remembers :
    (x : Context) (e : Env) (sg : Signaling) (a : Address) (t : ℕ) (interval expire : ℤ) (s : State)
    (o : Option ℕ)
    → find_subscription s.clients (key x sg.header.source_port_identity t) ≡ o
    → Holds (λ (r : ℕ × State). Remembers s r.1) (create_or_update x e sg a t interval expire s o)
unfolding create_or_update
create_or_update-Remembers x e sg a t interval expire s none new =
    let k : Key = key x sg.header.source_port_identity t in
    holds_ok (record {
      finds = λ j q found. elim (Bool-cases (same_key k j)) [
        | inl e ↦
            (let gone : none ≡ some q = sym new ∙ find-congruent s.clients k j e ∙ found in cc)
        | inr e ↦ find-register_other s.clients k j (length s.heap) e ∙ found
      ];
    })
create_or_update-Remembers x e sg a t interval expire s (some p) old =
    elim (get_elem? s.heap p)
      as (λ (sc : Option SubscriptionClient).
        Holds (λ (r : ℕ × State). Remembers s r.1)
          (deref sc >>= λ c. ok (
            p,
            record s { heap = set s.heap p (record c { expire = expire; interval = interval }) },
          ))) [ none ↦ holds_panic | some sc ↦ holds_ok (same_maps s s _ s.actions (same s)) ]

handle_request-Remembers :
    (x : Context) (e : Env) (sg : Signaling) (a : Address) (v : RequestUnicast) (s : State)
    → Holds (Remembers s) (handle_request x e sg a v s)
unfolding handle_request subscribe
handle_request-Remembers x e sg a v s =
    let t = unicast_msg_type v.msg_type_and_reserved in
    let interval = log_interval_duration x.floats v.log_inter_message_period in
    let expire = e.now +ℤ pos (v.duration_field * 1000000000) in
    let served =
      Holds-chain
        (create_or_update-Remembers x e sg a t interval expire s
          (find_subscription s.clients (key x sg.header.source_port_identity t)) refl)
        (λ r h. answer_request-Remembers s x e sg a v r.0 r.1 h) in
    Holds-if (is_granted_type t) served (holds_ok (same_maps s s s.heap _ (same s)))

cancel_found-Remembers :
    (e : Env) (s : State) (o : Option ℕ) → Holds (Remembers s) (cancel_found e s o)
unfolding cancel_found
cancel_found-Remembers e s none = holds_ok (same s)
cancel_found-Remembers e s (some p) =
    deref-Holds (Remembers s) (get_elem? s.heap p) _
      (λ sc. holds_ok (same_maps s s _ s.actions (same s)))

handle_tlv-Remembers :
    (x : Context) (e : Env) (sg : Signaling) (a : Address) (t : Tlv) (s : State)
    → Holds (Remembers s) (handle_tlv x e sg a t s)
unfolding handle_tlv handle_cancel
handle_tlv-Remembers x e sg a (request v) s = handle_request-Remembers x e sg a v s
handle_tlv-Remembers x e sg a (cancel v) s = cancel_found-Remembers e s _
handle_tlv-Remembers x e sg a (grant v) s = holds_ok (same s)
handle_tlv-Remembers x e sg a (acknowledge v) s = holds_ok (same s)

-- Two states after one another.
Remembers-trans : (s s1 s2 : State) → Remembers s s1 → Remembers s1 s2 → Remembers s s2
Remembers-trans s s1 s2 g h = record { finds = λ k p e. h.finds k p (g.finds k p e) }

handle_tlvs-Remembers :
    (x : Context) (env : ℕ → Env) (n : ℕ) (sg : Signaling) (a : Address) (ts : List Tlv)
    (s0 s : State)
    → Remembers s0 s
    → Holds (Remembers s0) (handle_tlvs x env n sg a ts s)
unfolding handle_tlvs
handle_tlvs-Remembers x env n sg a [] s0 s r = holds_ok r
handle_tlvs-Remembers x env n sg a (t ∷ ts) s0 s r =
    Holds-chain (handle_tlv-Remembers x (env n) sg a t s)
      (λ s1 r1. handle_tlvs-Remembers x env (n + 1) sg a ts s0 s1 (Remembers-trans s0 s s1 r r1))

general_signaling-Remembers :
    (x : Context) (env : ℕ → Env) (a : Address) (s : State) (r : Result Signaling)
    → Holds (Remembers s) (general_signaling x env a s r)
unfolding general_signaling
general_signaling-Remembers x env a s (ok sg) =
    handle_tlvs-Remembers x env 0 sg a sg.tlvs s s (same s)
general_signaling-Remembers x env a s (err e) = holds_ok (same s)
general_signaling-Remembers x env a s panic = holds_panic
general_signaling-Remembers x env a s out_of_fuel = holds_out_of_fuel

general_packet-Remembers :
    (x : Context) (env : ℕ → Env) (b : List ℕ) (a : Address) (s : State) (r : Result ℕ)
    → Holds (Remembers s) (general_packet x env b a s r)
unfolding general_packet
general_packet-Remembers x env b a s (ok t) =
    Holds-if _ (general_signaling-Remembers x env a s (signaling_unmarshal_binary b))
      (holds_ok (same s))
general_packet-Remembers x env b a s (err e) = holds_ok (same s)
general_packet-Remembers x env b a s panic = holds_panic
general_packet-Remembers x env b a s out_of_fuel = holds_out_of_fuel

-- Whatever arrives at the general port, and however the sends end: a client that had a subscription
-- of a type has it still when the handler is through, under the same pointer.
pub handle_general_remembers :
    (x : Context) (env : ℕ → Env) (packet : Option (List ℕ × Address)) (s s' : State) (k : Key)
    (p : ℕ)
    → handle_general x env packet s ≡ ok s'
    → find_subscription s.clients k ≡ some p
    → find_subscription s'.clients k ≡ some p
unfolding handle_general
handle_general_remembers x env none s s' k p run found =
    (Holds-ok (Remembers s) (ok s) s' (holds_ok (same s)) run).finds k p found
handle_general_remembers x env (some (b, a)) s s' k p run found =
    (Holds-ok (Remembers s) _ s' (general_packet-Remembers x env b a s (probe_msg_type b))
        run).finds
      k p found
