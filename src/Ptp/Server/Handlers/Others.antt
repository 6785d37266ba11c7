-- ===== src/Ptp/Server/Handlers/Others.antt =====
-- Cancellations and Delay_Req packets.
use ntp.Prelude.{
  ℕ, ◌≡◌, refl, ap, ◌∙◌, true, Option, some, [], ◌∷◌, ◌++◌, ok, ◌>>=◌, get_elem?, set,
  get_elem?-set_self,
}
use ntp.Prelude.Int.{ℤ, ltb_ℤ}
use ntp.Ptp.MessageType
use ntp.Ptp.Types.{unicast_msg_type, new_timestamp}
use ntp.Ptp.Header.{Header}
use ntp.Ptp.Signaling.{Signaling, CancelUnicast}
use ntp.Ptp.Server.Subscription.{SubscriptionClient, stop, expired, update_delay_resp}
use ntp.Ptp.Server.Clients.{find_subscription}
use ntp.Ptp.Server.Handlers.{
  State, Env, Context, key, act, once, deref, cancel_found, handle_cancel, answer_delay_req,
  handle_delay_req,
}
use ntp.Ptp.Server.Handlers.WellFormed.{IsState, set-IsState}
use ntp.Ptp.Server.Handlers.Requests.{Subscribed}

-- A cancellation of a subscription that the client has: its end is now, so it has expired at the later
-- time `later`; nothing else of it changes, its interval, its sequence number and whether it runs
-- included; no other subscription and no map changes; nothing is sent; and the state stays well-formed.
pub handle_cancel_stops :
    (x : Context) (e : Env) (sg : Signaling) (v : CancelUnicast) (s : State) (p : ℕ)
    (sc : SubscriptionClient) (later : ℤ)
    → IsState s
    → find_subscription s.clients
        (key x sg.header.source_port_identity (unicast_msg_type v.msg_type_and_flags))
      ≡ some p
    → get_elem? s.heap p ≡ some sc
    → ltb_ℤ e.now later ≡ true
    → (s' : State) × (handle_cancel x e sg v s ≡ ok s')
      × Subscribed s'
          (key x sg.header.source_port_identity (unicast_msg_type v.msg_type_and_flags))
          p
          e.now
          sc.interval
      × (expired later (stop e.now sc) ≡ true)
      × (s' ≡ record s { heap = set s.heap p (record sc { expire = e.now }) })
      × IsState s'
unfolding handle_cancel cancel_found stop expired
handle_cancel_stops x e sg v s p sc later h found at l =
    let sc' : SubscriptionClient = record sc { expire = e.now } in
    (
      record s { heap = set s.heap p sc' },
      ap (cancel_found e s) found
          ∙ ap
              (λ (o : Option SubscriptionClient). deref o >>= λ a.
                ok (record s { heap = set s.heap p (record a { expire = e.now }) }))
              at,
      record {
        sc = sc';
        found = found;
        at = get_elem?-set_self s.heap p sc' (h.pointers _ p found);
        expires = refl;
        paced = refl;
      },
      l,
      refl,
      set-IsState s p sc' h (h.grants p sc at),
    )

-- A Delay_Req from a client with a Delay_Resp subscription, running or not: the subscription is put
-- in its worker's queue once, and its response now has the sequence number, the correction and the
-- port of the request, and the time at which it was received; the state stays well-formed.
pub handle_delay_req_answers :
    (x : Context) (received : ℤ) (h : Header) (s : State) (p : ℕ) (sc : SubscriptionClient)
    → IsState s
    → find_subscription s.clients (key x h.source_port_identity MessageType.delay_resp) ≡ some p
    → get_elem? s.heap p ≡ some sc
    → (s' : State) × (sc' : SubscriptionClient) × (handle_delay_req x received h s ≡ ok s')
      × (get_elem? s'.heap p ≡ some sc')
      × (sc'.delay_resp_p.header.sequence_id ≡ h.sequence_id)
      × (sc'.delay_resp_p.header.correction_field ≡ h.correction_field)
      × (sc'.delay_resp_p.requesting_port_identity ≡ h.source_port_identity)
      × (sc'.delay_resp_p.receive_timestamp ≡ new_timestamp received)
      × (s'.actions ≡ s.actions ++ once sc.worker p ∷ [])
      × IsState s'
unfolding handle_delay_req answer_delay_req update_delay_resp
handle_delay_req_answers x received h s p sc w found at =
    let sc' : SubscriptionClient = update_delay_resp h received sc in
    let s1 : State = record s { heap = set s.heap p sc' } in
    let w1 : IsState s1 = set-IsState s p sc' w (w.grants p sc at) in
    (
      act (once sc.worker p) s1,
      sc',
      ap (answer_delay_req received h s) found
          ∙ ap
              (λ (o : Option SubscriptionClient). deref o >>= λ a. ok (
                act (once a.worker p)
                  (record s { heap = set s.heap p (update_delay_resp h received a) })))
              at,
      get_elem?-set_self s.heap p sc' (w.pointers _ p found),
      refl,
      refl,
      refl,
      refl,
      refl,
      record { distinct = w1.distinct; pointers = w1.pointers; grants = w1.grants },
    )
