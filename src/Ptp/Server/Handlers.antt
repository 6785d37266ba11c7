-- ===== src/Ptp/Server/Handlers.antt =====
-- ptp/ptp4u/server/server.go: what the two handlers do with one packet. The results of the system
-- calls and of the clock are inputs; `go sc.Start()`, the queue, the datagrams and the counters are a
-- list of actions, oldest first. A send on a full queue would wait, which is not modelled.
pub mod Grants
pub mod WellFormed
pub mod Requests
pub mod Limits
pub mod Others
pub mod Registered
use ntp.Prelude.{
  ℕ, zero, suc, ◌+◌, ◌*◌, Bool, true, false, ◌||◌, Option, none, some, List, [], ◌∷◌, ◌++◌, Result,
  ok, err, panic, out_of_fuel, ◌>>=◌, ◌==◌, if◌then◌else◌, length, get_elem?, set, take, replicate,
}
use ntp.Prelude.Int.{ℤ, pos, ◌+ℤ◌, ltb_ℤ}
use ntp.Prelude.Word.{to_i64}
use ntp.Ptp.MessageType
use ntp.Ptp.Types.{PortIdentity, probe_msg_type, unicast_msg_type}
use ntp.Ptp.Header.{Header}
use ntp.Ptp.Messages.{marshal_binary, bytes, sync_unmarshal_binary}
use ntp.Ptp.Signaling.{
  Signaling, Tlv, RequestUnicast, CancelUnicast, request, grant, cancel, acknowledge,
  signaling_bytes, signaling_unmarshal_binary,
}
use ntp.Ptp.Server.Subscription.{
  Config, Floats, Address, SubscriptionClient, log_interval_duration, new_subscription_client,
  update_grant, update_delay_resp, stop,
}
use ntp.Ptp.Server.Clients.{Key, Clients, find_subscription, register_subscription}
use ntp.Ptp.Server.Sending.{adjusted}

pub data Action : Type 0 where
  inc_rx : ℕ → Action
  inc_rx_signaling : ℕ → Action
  inc_tx_signaling : ℕ → Action
  start : ℕ → Action  -- go sc.Start()
  once : ℕ → ℕ → Action  -- the worker's queue, the subscription
  send_grant_to : List ℕ → Address → Action

-- The heap of subscriptions, the workers' maps, and the actions so far.
pub record State : Type 0 where
  pub heap : List SubscriptionClient
  pub clients : Clients
  pub actions : List Action

-- What a round of the loop over the TLVs reads: the clock, for the end of a subscription and then in
-- `initFollowup`, and whether `Sendto` succeeds.
pub record Env : Type 0 where
  pub now : ℤ
  pub created : ℤ
  pub sent : Bool

-- What the server takes from outside: the configuration, the floating point, and `Seed` and `Intn` of
-- `math/rand`, the worker that a seed and a number of workers give.
pub record Context : Type 0 where
  pub config : Config
  pub floats : Floats
  pub intn : ℤ → ℕ → ℕ

abbrev pub act : Action → State → State
act a s = record s { actions = s.actions ++ a ∷ [] }

-- `findWorker`.
unfoldable pub find_worker : Context → PortIdentity → ℕ
find_worker x p =
    let seed = to_i64 (pos (p.clock_identity + p.port_number)) in x.intn seed x.config.send_workers

abbrev pub key : Context → PortIdentity → ℕ → Key
key x p t = record {
  worker = find_worker x p;
  subscription_type = t;
  clock_identity = p.clock_identity;
  port_number = p.port_number;
}

-- The end of `sendGrant`: the bytes of the grant, and `Sendto`.
unfoldable pub deliver_grant : Env → Address → ℕ → Result (List ℕ) → State → Result State
deliver_grant e gclisa t (ok b) s =
    ok (if e.sent then act (inc_tx_signaling t) (act (send_grant_to b gclisa) s) else s)
deliver_grant e gclisa t (err x) s = ok s
deliver_grant e gclisa t panic s = panic
deliver_grant e gclisa t out_of_fuel s = out_of_fuel

-- A nil or dangling pointer panics.
abbrev pub deref : Option SubscriptionClient → Result SubscriptionClient
deref none = panic
deref (some sc) = ok sc

-- `sendGrant`.
unfoldable pub send_grant : Env → ℕ → Signaling → ℕ → ℕ → ℕ → Address → State → Result State
unfolding update_grant signaling_bytes deliver_grant
send_grant e p sg mt interval duration gclisa s = do
  sc ← deref (get_elem? s.heap p)
  let sc' = update_grant sg mt interval duration sc
  deliver_grant e gclisa sc'.subscription_type (signaling_bytes sc'.grant)
      (record s { heap = set s.heap p sc' })

-- The two branches on what `FindSubscription` found: a new subscription, registered, or the end and
-- the interval of the one there replaced. (319 is the event port.)
unfoldable pub create_or_update :
    Context → Env → Signaling → Address → ℕ → ℤ → ℤ → State → Option ℕ → Result (ℕ × State)
unfolding register_subscription new_subscription_client find_worker
create_or_update x e sg gclisa t interval expire s none =
    let k : Key = key x sg.header.source_port_identity t in
    let p : ℕ = length s.heap in
    let eclisa : Address = record { ip = gclisa.ip; port = 319 } in
    let sc : SubscriptionClient =
      new_subscription_client k.worker eclisa gclisa t x.config interval expire e.created in
    ok (p, record s { heap = s.heap ++ sc ∷ []; clients = register_subscription s.clients k p })
create_or_update x e sg gclisa t interval expire s (some p) = deref (get_elem? s.heap p) >>= λ sc.
    ok (p, record s { heap = set s.heap p (record sc { expire = expire; interval = interval }) })

unfoldable pub subscribe :
    Context → Env → Signaling → Address → ℕ → ℤ → ℤ → State → Result (ℕ × State)
unfolding find_subscription find_worker create_or_update
subscribe x e sg gclisa t interval expire s =
    create_or_update x e sg gclisa t interval expire s
      (find_subscription s.clients (key x sg.header.source_port_identity t))

-- A request within the limits: the goroutine, the grant, and the counter behind the switch.
unfoldable pub accept_request :
    Env → Signaling → Address → RequestUnicast → ℕ → State → SubscriptionClient → Result State
unfolding send_grant
accept_request e sg gclisa v p s sc =
    send_grant e p sg v.msg_type_and_reserved v.log_inter_message_period v.duration_field gclisa
      (if sc.running then s else act (start p) s)
    >>= λ s'. ok (act (inc_rx_signaling (unicast_msg_type v.msg_type_and_reserved)) s')

-- The end of the case of a request whose type is served: rejected out of limit, or granted.
unfoldable pub answer_request :
    Context → Env → Signaling → Address → RequestUnicast → ℕ × State → Result State
unfolding send_grant accept_request
answer_request x e sg gclisa v (p, s) =
    let interval = log_interval_duration x.floats v.log_inter_message_period in
    let duration = pos (v.duration_field * 1000000000) in
    let reject = send_grant e p sg v.msg_type_and_reserved v.log_inter_message_period 0 gclisa s in
    let accept = deref (get_elem? s.heap p) >>= accept_request e sg gclisa v p s in
    if ltb_ℤ interval x.config.min_sub_interval || ltb_ℤ x.config.max_sub_duration duration
    then reject
    else accept

abbrev pub is_granted_type : ℕ → Bool
is_granted_type t =
    (t == MessageType.announce) || (t == MessageType.sync) || (t == MessageType.delay_resp)

-- The case of `RequestUnicastTransmissionTLV`.
unfoldable pub handle_request :
    Context → Env → Signaling → Address → RequestUnicast → State → Result State
unfolding subscribe answer_request unicast_msg_type log_interval_duration
handle_request x e sg gclisa v s =
    let t = unicast_msg_type v.msg_type_and_reserved in
    let interval = log_interval_duration x.floats v.log_inter_message_period in
    let expire = e.now +ℤ pos (v.duration_field * 1000000000) in
    if is_granted_type t
    then (subscribe x e sg gclisa t interval expire s >>= answer_request x e sg gclisa v)
    else ok (act (inc_rx_signaling t) s)

-- The case of `CancelUnicastTransmissionTLV`.
unfoldable pub cancel_found : Env → State → Option ℕ → Result State
unfolding stop
cancel_found e s none = ok s
cancel_found e s (some p) =
    deref (get_elem? s.heap p) >>= λ sc. ok (record s { heap = set s.heap p (stop e.now sc) })

unfoldable pub handle_cancel : Context → Env → Signaling → CancelUnicast → State → Result State
unfolding find_subscription find_worker unicast_msg_type cancel_found
handle_cancel x e sg v s =
    let t = unicast_msg_type v.msg_type_and_flags in
    cancel_found e s (find_subscription s.clients (key x sg.header.source_port_identity t))

-- The switch on the type of a TLV.
unfoldable pub handle_tlv : Context → Env → Signaling → Address → Tlv → State → Result State
unfolding handle_request handle_cancel
handle_tlv x e sg gclisa (request v) s = handle_request x e sg gclisa v s
handle_tlv x e sg gclisa (cancel v) s = handle_cancel x e sg v s
handle_tlv x e sg gclisa (grant v) s = ok s
handle_tlv x e sg gclisa (acknowledge v) s = ok s

-- The loop over the TLVs; `env n` is what its round `n` reads.
unfoldable pub handle_tlvs :
    Context → (ℕ → Env) → ℕ → Signaling → Address → List Tlv → State → Result State
unfolding handle_tlv
handle_tlvs x env n sg gclisa [] s = ok s
handle_tlvs x env n sg gclisa (t ∷ ts) s =
    handle_tlv x (env n) sg gclisa t s >>= handle_tlvs x env (n + 1) sg gclisa ts

-- What `handleGeneralMessages` does with a Signaling message, with a packet of any type, and in one
-- round (none is a read that failed); its errors are logged.
unfoldable pub general_signaling :
    Context → (ℕ → Env) → Address → State → Result Signaling → Result State
unfolding handle_tlvs
general_signaling x env gclisa s (ok sg) = handle_tlvs x env 0 sg gclisa sg.tlvs s
general_signaling x env gclisa s (err e) = ok s
general_signaling x env gclisa s panic = panic
general_signaling x env gclisa s out_of_fuel = out_of_fuel

unfoldable pub general_packet :
    Context → (ℕ → Env) → List ℕ → Address → State → Result ℕ → Result State
unfolding general_signaling
general_packet x env b gclisa s (ok t) =
    if t == MessageType.signaling
    then general_signaling x env gclisa s (signaling_unmarshal_binary b)
    else ok s
general_packet x env b gclisa s (err e) = ok s
general_packet x env b gclisa s panic = panic
general_packet x env b gclisa s out_of_fuel = out_of_fuel

unfoldable pub handle_general :
    Context → (ℕ → Env) → Option (List ℕ × Address) → State → Result State
unfolding general_packet
handle_general x env none s = ok s
handle_general x env (some (b, gclisa)) s = general_packet x env b gclisa s (probe_msg_type b)

-- The case of a Delay_Req, received at `received`.
unfoldable pub answer_delay_req : ℤ → Header → State → Option ℕ → Result State
unfolding update_delay_resp
answer_delay_req received h s none = ok s
answer_delay_req received h s (some p) = deref (get_elem? s.heap p) >>= λ sc.
    ok (act (once sc.worker p) (record s { heap = set s.heap p (update_delay_resp h received sc) }))

unfoldable pub handle_delay_req : Context → ℤ → Header → State → Result State
unfolding find_subscription find_worker answer_delay_req
handle_delay_req x received h s =
    answer_delay_req received h s
      (find_subscription s.clients (key x h.source_port_identity MessageType.delay_resp))

-- One round of `handleEventMessages`: none is a read that failed.
unfoldable pub handle_event : Context → Option (List ℕ × ℤ) → State → Result State
unfolding handle_delay_req
handle_event x none s = ok s
handle_event x (some (b, t)) s = elim (probe_msg_type b) [
  | ok m ↦
      (if m == MessageType.delay_req
        then elim (sync_unmarshal_binary b) [
          | ok p ↦ handle_delay_req x (adjusted x.config t) p.header (act (inc_rx m) s)
          | err e ↦ ok (act (inc_rx m) s)
          | panic ↦ panic
          | out_of_fuel ↦ out_of_fuel
        ]
        else ok (act (inc_rx m) s))
  | err e ↦ ok s
  | panic ↦ panic
  | out_of_fuel ↦ out_of_fuel
]
