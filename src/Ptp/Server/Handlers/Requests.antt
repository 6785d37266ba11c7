-- ===== src/Ptp/Server/Handlers/Requests.antt =====
-- A request for a subscription, from the map to the grant that goes out.
use ntp.Prelude.{
  ℕ, ◌^◌, ◌<◌, ◌≡◌, refl, ap, sym, ◌∙◌, Bool, true, false, Option-cases, inl, inr, Option, none,
  some, List, [], ◌∷◌, ◌++◌, ok, ◌>>=◌, if◌then◌else◌, length, get_elem?, set, get_elem?-set_self,
}
use mathlib.Core.List.{append_assoc}
use ntp.Prelude.Int.{ℤ}
use ntp.Ptp.Signaling.{Signaling}
use ntp.Ptp.Signaling.Unmarshal.{IsSignaling}
use ntp.Ptp.Server.Subscription.{Address, SubscriptionClient, new_subscription_client, update_grant}
use ntp.Ptp.Server.Clients.{Key, find_subscription, register_subscription}
use ntp.Ptp.Server.Clients.Laws.{find-register_self}
use ntp.Ptp.Server.Handlers.{
  State, Env, Context, key, act, deref, create_or_update, send_grant, subscribe, inc_tx_signaling,
  send_grant_to,
}
use ntp.Ptp.Server.Handlers.Grants.{IsGrant, IsSent, send_grant_sends, update_grant-IsSignaling}
use ntp.Ptp.Server.Handlers.WellFormed.{
  IsState, get_elem?_of_lt, get_elem?-append_last, set-IsState, register-IsState,
  new_subscription_client-IsGrant,
}

-- A subscription in the map, with its end and interval.
pub record Subscribed (s : State) (k : Key) (p : ℕ) (expire interval : ℤ) : Type 0 where
  pub sc : SubscriptionClient
  pub found : find_subscription s.clients k ≡ some p
  pub at : get_elem? s.heap p ≡ some sc
  pub expires : sc.expire ≡ expire
  pub paced : sc.interval ≡ interval

-- Whether the goroutine of the subscription with this key runs: not when there is no subscription.
abbrev running_of : Option SubscriptionClient → Bool
running_of none = false
running_of (some sc) = sc.running

abbrev runs_at : List SubscriptionClient → Option ℕ → Bool
runs_at heap none = false
runs_at heap (some p) = running_of (get_elem? heap p)

abbrev pub runs : State → Key → Bool
runs s k = runs_at s.heap (find_subscription s.clients k)

-- Whether the client was known or not, it has the subscription afterwards, running if it ran before,
-- without a panic.
pub subscribe_registers :
    (x : Context) (e : Env) (sg : Signaling) (gclisa : Address) (t : ℕ) (interval expire : ℤ)
    (s : State)
    → IsState s
    → x.config.clock_identity < 2 ^ 64
    → (p : ℕ) × (s' : State) × (subscribe x e sg gclisa t interval expire s ≡ ok (p, s'))
      × (s'.actions ≡ s.actions)
      × (sub : Subscribed s' (key x sg.header.source_port_identity t) p expire interval) × IsState
          s'
      × (sub.sc.running ≡ runs s (key x sg.header.source_port_identity t))
unfolding subscribe create_or_update new_subscription_client
subscribe_registers x e sg gclisa t interval expire s h c =
    let k : Key = key x sg.header.source_port_identity t in
    elim (Option-cases (find_subscription s.clients k)) [
      | inl new ↦
          (let p : ℕ = length s.heap in
            let eclisa : Address = record { ip = gclisa.ip; port = 319 } in
            let sc : SubscriptionClient =
              new_subscription_client k.worker eclisa gclisa t x.config interval expire e.created in
            let s' : State = record s {
              heap = s.heap ++ sc ∷ [];
              clients = register_subscription s.clients k p;
            } in
            (
              p,
              s',
              ap (create_or_update x e sg gclisa t interval expire s) new,
              refl,
              record {
                sc = sc;
                found = find-register_self s.clients k p;
                at = get_elem?-append_last s.heap sc;
                expires = refl;
                paced = refl;
              },
              register-IsState s k sc h (
                  new_subscription_client-IsGrant k.worker eclisa gclisa t x.config interval expire
                    e.created c),
              sym (ap (runs_at s.heap) new),
            ))
      | inr (p, old) ↦
          (let (sc, at) = get_elem?_of_lt s.heap p (h.pointers k p old) in
            let sc' : SubscriptionClient = record sc { expire = expire; interval = interval } in
            (
              p,
              record s { heap = set s.heap p sc' },
              ap (create_or_update x e sg gclisa t interval expire s) old
                  ∙ ap
                      (λ (o : Option SubscriptionClient). deref o >>= λ a. ok (
                        p,
                        record s {
                          heap = set s.heap p (record a { expire = expire; interval = interval });
                        },
                      ))
                      at,
              refl,
              record {
                sc = sc';
                found = old;
                at = get_elem?-set_self s.heap p sc' (h.pointers k p old);
                expires = refl;
                paced = refl;
              },
              set-IsState s p sc' h (h.grants p sc at),
              sym (ap (runs_at s.heap) old ∙ ap running_of at),
            ))
    ]

-- A grant that is sent to a subscribed client: the state that `sendGrant` leaves.
pub sent_to :
    (e : Env) (sg : Signaling) (mt i duration : ℕ) (gclisa : Address) (k : Key) (p : ℕ)
    (expire interval : ℤ) (s : State)
    → e.sent ≡ true
    → IsState s
    → Subscribed s k p expire interval
    → IsSignaling sg
    → mt < 256
    → i < 256
    → duration < 2 ^ 32
    → (b : List ℕ) × (s' : State) × (u : ℕ) × (send_grant e p sg mt i duration gclisa s ≡ ok s')
      × Subscribed s' k p expire interval
      × IsState s'
      × IsSent sg mt i duration b
      × (s'.actions ≡ s.actions ++ send_grant_to b gclisa ∷ inc_tx_signaling u ∷ [])
unfolding update_grant
sent_to e sg mt i duration gclisa k p expire interval s sent h sub g m1 i1 d1 =
    let shape : IsGrant sub.sc.grant = h.grants p sub.sc sub.at in
    let (b, run, out) =
      send_grant_sends e p sg mt i duration gclisa s sub.sc sub.at shape g m1 i1 d1 in
    let sc' : SubscriptionClient = update_grant sg mt i duration sub.sc in
    let s1 : State = record s { heap = set s.heap p sc' } in
    let h1 : IsState s1 =
      set-IsState s p sc' h (update_grant-IsSignaling sg mt i duration sub.sc g m1 i1 d1 shape).0 in
    let u : ℕ = sub.sc.subscription_type in
    (
      b,
      act (inc_tx_signaling u) (act (send_grant_to b gclisa) s1),
      u,
      run
          ∙ ap
              (λ (d : Bool).
                ok (if d then act (inc_tx_signaling u) (act (send_grant_to b gclisa) s1) else s1))
              sent,
      record {
        sc = sc';
        found = sub.found;
        at = get_elem?-set_self s.heap p sc' (h.pointers k p sub.found);
        expires = sub.expires;
        paced = sub.paced;
      },
      record { distinct = h1.distinct; pointers = h1.pointers; grants = h1.grants },
      out,
      append_assoc s.actions (send_grant_to b gclisa ∷ []) (inc_tx_signaling u ∷ []),
    )
