-- ===== src/Ptp/Server/Examples.antt =====
-- A server with one worker and one client: tests, and the theorems of the server at this input.
use ntp.Prelude.{
  ◌==◌, ℕ, ◌+◌, ◌-◌, ◌*◌, ◌%◌, ◌^◌, ◌<◌, ◌≡◌, refl, true, false, some, List, [], ◌∷◌, ◌++◌,
  replicate, ok, if◌then◌else◌, get_elem?, arith,
}
use ntp.Prelude.Int.{ltb_ℤ, pos, negsuc, ◌+ℤ◌}
use ntp.Ptp.MessageType
use ntp.Ptp.TlvType
use ntp.Ptp.Types.{probe_msg_type, PortIdentity, unicast_msg_type, new_timestamp, msg_type}
use ntp.Ptp.Header.{Header, IsHeader, message_type}
use ntp.Ptp.Messages.{SyncDelayReq, FollowUp, sync_unmarshal_binary, follow_up_unmarshal_binary}
use ntp.Ptp.Signaling.{
  signaling_bytes, Signaling, RequestUnicast, CancelUnicast, request, signaling_unmarshal_binary,
}
use ntp.Ptp.Signaling.Unmarshal.{IsSignaling, IsTlv, signaling_unmarshal_binary-wire}
use ntp.Ptp.Signaling.Marshal.{signaling_wire}
use ntp.Ptp.Server.Subscription.{
  Config, Floats, Address, SubscriptionClient, new_subscription_client, log_interval_duration,
  expired, stop,
}
use ntp.Ptp.Server.Clients.{
  Key, same_key, find_subscription, register_subscription, inventory_clients,
}
use ntp.Ptp.Server.Clients.Laws.{kept, find-inventory}
use ntp.Ptp.Server.Ticker.{Run, Tick, start_run, run_ticks}
use ntp.Ptp.Server.Ticker.Runs.{start_run-run_ticks}
use ntp.Ptp.Server.Sending.{
  Io, Work, process, done, send_event, send_general, inc_tx, set_max_tx_ts_attempts,
  set_max_worker_queue, adjusted,
}
use ntp.Ptp.Server.Sending.Invariant.{Counted, process-Counted}
use ntp.Ptp.Server.Sending.Packets.{IsSubscription, new_subscription_client-IsSubscription}
use ntp.Ptp.Server.Sending.TwoStep.{process-two_step}
use ntp.Ptp.Server.Handlers.{
  State, Env, Context, key, find_worker, start, once, send_grant_to, inc_tx_signaling,
  inc_rx_signaling, is_granted_type, handle_request, handle_cancel, handle_delay_req,
}
use ntp.Ptp.Server.Handlers.Grants.{IsSent}
use ntp.Ptp.Signaling.RoundTrip.{signaling_round_trip}
use ntp.Ptp.Server.Handlers.WellFormed.{IsState, new_subscription_client-IsGrant, register-IsState}
use ntp.Ptp.Server.Handlers.Requests.{Subscribed, runs}
use ntp.Ptp.Server.Handlers.Limits.{out_of_limit, handle_request_accepts, handle_request_rejects}
use ntp.Ptp.Server.Handlers.Others.{handle_cancel_stops, handle_delay_req_answers}

-- An hour at most, an interval of a second at least, TAI.
abbrev pub config : Config
config = record {
  clock_identity = 0xc42a1fffe6d7ca6;
  max_sub_duration = pos 3600000000000;
  min_sub_interval = pos 1000000000;
  utc_offset = pos 37000000000;
  hardware_timestamps = false;
  send_workers = 1;
}

abbrev pub floats : Floats
floats = record { log2_seconds = λ d. pos 0; out_of_range = negsuc (2 ^ 63 - 1) }

abbrev pub context : Context
context = record { config = config; floats = floats; intn = λ seed n. 0 }

abbrev pub address : Address
address = record { ip = 1; port = 320 }

abbrev pub env : Env
env = record { now = pos 1638355200000000000; created = pos 1638355200000000001; sent = true }

abbrev pub subscription : ℕ → SubscriptionClient
subscription t =
    new_subscription_client 0 address address t config (pos 1000000000) (pos 1638355500000000000)
      (pos 1638355200000000000)

subscription-type : (subscription MessageType.sync).subscription_type ≡ MessageType.sync
unfolding new_subscription_client
subscription-type = refl

subscription-paced : ltb_ℤ (pos 0) (subscription MessageType.sync).interval ≡ true
unfolding new_subscription_client
subscription-paced = refl

subscription-sends :
    ((subscription MessageType.sync).subscription_type == MessageType.delay_resp) ≡ false
unfolding new_subscription_client
subscription-sends = refl

subscription-IsSubscription : (t : ℕ) → IsSubscription (subscription t)
subscription-IsSubscription t =
    new_subscription_client-IsSubscription 0 address address t config (pos 1000000000)
      (pos 1638355500000000000) (pos 1638355200000000000) (omega arith)

abbrev io : Io
io = record {
  event_sent = true;
  general_sent = true;
  tx_timestamp = some (pos 1638355200000500000);
  attempts = 1;
  queue_length = 0;
}

abbrev work : Work
work = record { sc = subscription MessageType.sync; buf = replicate 128 0; effects = [] }

process-Counted_example :
    Counted work.sc work.sc.sequence_id
      ((work.sc.sequence_id + 1) % 65536)
      (process config floats io work)
process-Counted_example = process-Counted config floats io work

process-two_step_example :
    (w' : Work) × (b1 : List ℕ) × (b2 : List ℕ) × (p1 : SyncDelayReq) × (p2 : FollowUp) × (process
        config floats io work
      ≡ done w')
    × (w'.effects
        ≡ send_event b1 work.sc.eclisa
          ∷ inc_tx MessageType.sync
          ∷ set_max_tx_ts_attempts 1
          ∷ send_general b2 work.sc.gclisa
          ∷ inc_tx MessageType.follow_up
          ∷ set_max_worker_queue 0
          ∷ [])
    × (sync_unmarshal_binary b1 ≡ ok p1)
    × (follow_up_unmarshal_binary b2 ≡ ok p2)
    × (p1.header.sequence_id ≡ work.sc.sequence_id)
    × (p2.header.sequence_id ≡ work.sc.sequence_id)
    × (p2.precise_origin_timestamp ≡ new_timestamp (adjusted config (pos 1638355200000500000)))
    × (w'.sc.sequence_id ≡ (work.sc.sequence_id + 1) % 65536)
process-two_step_example =
    process-two_step config floats io work (pos 1638355200000500000) subscription-type
      (subscription-IsSubscription MessageType.sync) (omega arith) refl refl refl

-- A request for Sync packets each second, for the given number of seconds.
abbrev asking : ℕ → RequestUnicast
asking seconds = record {
  head = record { tlv_type = TlvType.request_unicast_transmission; length_field = 6 };
  msg_type_and_reserved = 0;
  log_inter_message_period = 0;
  duration_field = seconds;
}

abbrev pub client : PortIdentity
client = record { clock_identity = 77; port_number = 1 }

abbrev signaling_header : Header
signaling_header = record {
  sdo_id_and_msg_type = 0x0c;
  version = 2;
  message_length = 54;
  domain_number = 0;
  minor_sdo_id = 0;
  flag_field = 0x0400;
  correction_field = 0;
  message_type_specific = 0;
  source_port_identity = client;
  sequence_id = 5;
  control_field = 5;
  log_message_interval = 0x7f;
}

abbrev packet : ℕ → Signaling
packet seconds = record {
  header = signaling_header;
  target_port_identity = client;
  tlvs = request (asking seconds) ∷ [];
}

signaling_header-IsHeader : IsHeader signaling_header
signaling_header-IsHeader = ground arith

asking-IsTlv : (n : ℕ) → n < 2 ^ 32 → IsTlv (request (asking n))
asking-IsTlv n h = (record { type_fits = refl; length_fits = refl }, omega arith, omega arith, h)

packet-IsSignaling : (n : ℕ) → n < 2 ^ 32 → IsSignaling (packet n)
unfolding message_type msg_type
packet-IsSignaling n h = record {
  header_fits = signaling_header-IsHeader;
  signaling_type = refl;
  stated_length = refl;
  target_fits = record { clock_identity_fits = omega arith; port_number_fits = omega arith };
  some_tlv = λ e. cc;
  tlvs_fit = (asking-IsTlv n h, tt);
}

signaling_unmarshal_binary-wire_example :
    signaling_unmarshal_binary (signaling_wire (packet 60) ++ 0 ∷ 0 ∷ []) ≡ ok (packet 60)
signaling_unmarshal_binary-wire_example =
    signaling_unmarshal_binary-wire (packet 60) (0 ∷ 0 ∷ []) (packet-IsSignaling 60 (omega arith))

signaling_round_trip_example :
    (b : List ℕ) × (signaling_bytes (packet 60) ≡ ok b)
    × (probe_msg_type b ≡ ok MessageType.signaling)
    × (signaling_unmarshal_binary b ≡ ok (packet 60))
signaling_round_trip_example =
    signaling_round_trip (packet 60) (packet-IsSignaling 60 (omega arith)) (omega arith)

-- Before any request, and with one subscription of the given type.
abbrev pub empty : State
empty = record { heap = []; clients = []; actions = [] }

pub empty-IsState : IsState empty
unfolding find_subscription
empty-IsState = record {
  distinct = tt;
  pointers = λ k p e. absurd cc;
  grants = λ p sc e. absurd cc;
}

abbrev pub client_key : ℕ → Key
client_key t = key context client t

abbrev pub one : ℕ → State
one t = record {
  heap = subscription t ∷ [];
  clients = register_subscription [] (client_key t) 0;
  actions = [];
}

pub one-IsState : (t : ℕ) → IsState (one t)
one-IsState t = register-IsState empty (client_key t) (subscription t) empty-IsState (
    new_subscription_client-IsGrant 0 address address t config (pos 1000000000)
      (pos 1638355500000000000) (pos 1638355200000000000) (omega arith))

sync_is_served : is_granted_type (unicast_msg_type 0) ≡ true
unfolding unicast_msg_type
sync_is_served = refl

asking-within : out_of_limit context (asking 60) ≡ false
unfolding log_interval_duration
asking-within = refl

asking-beyond : out_of_limit context (asking 7200) ≡ true
unfolding log_interval_duration
asking-beyond = refl

handle_request_accepts_example :
    (p : ℕ) × (b : List ℕ) × (s' : State) × (u : ℕ) × (handle_request context env
        (packet 60)
        address
        (asking 60)
        empty
      ≡ ok s')
    × Subscribed s'
        (client_key (unicast_msg_type 0))
        p
        (env.now +ℤ pos (60 * 1000000000))
        (log_interval_duration floats 0)
    × IsState s'
    × IsSent (packet 60) 0 0 60 b
    × (s'.actions
        ≡ ([] ++ (if runs empty (client_key (unicast_msg_type 0)) then [] else start p ∷ []))
          ++ send_grant_to b address
            ∷ inc_tx_signaling u
            ∷ inc_rx_signaling (unicast_msg_type 0)
            ∷ [])
handle_request_accepts_example =
    handle_request_accepts context env (packet 60) address (asking 60) empty refl empty-IsState
      (omega arith) (packet-IsSignaling 60 (omega arith)) (asking-IsTlv 60 (omega arith))
      sync_is_served asking-within

-- Two hours are refused, and yet they are the new end of the subscription.
handle_request_rejects_example :
    (p : ℕ) × (b : List ℕ) × (s' : State) × (u : ℕ) × (handle_request context env
        (packet 7200)
        address
        (asking 7200)
        (one 0)
      ≡ ok s')
    × Subscribed s'
        (client_key (unicast_msg_type 0))
        p
        (env.now +ℤ pos (7200 * 1000000000))
        (log_interval_duration floats 0)
    × IsState s'
    × IsSent (packet 7200) 0 0 0 b
    × (s'.actions ≡ [] ++ send_grant_to b address ∷ inc_tx_signaling u ∷ [])
handle_request_rejects_example =
    handle_request_rejects context env (packet 7200) address (asking 7200) (one 0) refl
      (one-IsState 0) (omega arith) (packet-IsSignaling 7200 (omega arith))
      (asking-IsTlv 7200 (omega arith)) sync_is_served asking-beyond

abbrev cancelling : CancelUnicast
cancelling = record {
  head = record { tlv_type = TlvType.cancel_unicast_transmission; length_field = 2 };
  msg_type_and_flags = 0;
  reserved = 0;
}

pub one-found : find_subscription (one 0).clients (client_key (unicast_msg_type 0)) ≡ some 0
unfolding find_subscription register_subscription unicast_msg_type same_key find_worker
one-found = refl

handle_cancel_stops_example :
    (s' : State) × (handle_cancel context env (packet 60) cancelling (one 0) ≡ ok s')
    × Subscribed s' (client_key (unicast_msg_type 0)) 0 env.now (subscription 0).interval
    × (expired (pos 1638355200000000005) (stop env.now (subscription 0)) ≡ true)
    × (s' ≡ record (one 0) { heap = record (subscription 0) { expire = env.now } ∷ [] })
    × IsState s'
handle_cancel_stops_example =
    handle_cancel_stops context env (packet 60) cancelling (one 0) 0 (subscription 0)
      (pos 1638355200000000005) (one-IsState 0) one-found refl refl

two-found :
    find_subscription (one MessageType.delay_resp).clients (client_key MessageType.delay_resp)
    ≡ some 0
unfolding find_subscription register_subscription same_key find_worker
two-found = refl

handle_delay_req_answers_example :
    let s = one MessageType.delay_resp in
    (s' : State) × (sc' : SubscriptionClient) × (handle_delay_req context
        (pos 1638355200000000000)
        signaling_header
        s
      ≡ ok s')
    × (get_elem? s'.heap 0 ≡ some sc')
    × (sc'.delay_resp_p.header.sequence_id ≡ 5)
    × (sc'.delay_resp_p.header.correction_field ≡ 0)
    × (sc'.delay_resp_p.requesting_port_identity ≡ client)
    × (sc'.delay_resp_p.receive_timestamp ≡ new_timestamp (pos 1638355200000000000))
    × (s'.actions ≡ [] ++ once (subscription MessageType.delay_resp).worker 0 ∷ [])
    × IsState s'
handle_delay_req_answers_example =
    handle_delay_req_answers context (pos 1638355200000000000) signaling_header
      (one MessageType.delay_resp) 0 (subscription MessageType.delay_resp)
      (one-IsState MessageType.delay_resp) two-found refl

find-inventory_example :
    find_subscription (inventory_clients 0 (one 0).heap (one 0).clients).0 (client_key 0)
    ≡ kept 0 (one 0).heap (client_key 0) (find_subscription (one 0).clients (client_key 0))
find-inventory_example =
    find-inventory 0 (one 0).heap (one 0).clients (client_key 0) (one-IsState 0).distinct

-- Two ticks before the end and one behind it.
abbrev ticks : List Tick
ticks =
    record {
      now = pos 1638355201000000000;
      expire = pos 1638355500000000000;
      interval = pos 1000000000;
    }
    ∷ record {
      now = pos 1638355202000000000;
      expire = pos 1638355500000000000;
      interval = pos 2000000000;
    }
    ∷ []

abbrev last_tick : Tick
last_tick = record {
  now = pos 1638355500000000001;
  expire = pos 1638355500000000000;
  interval = pos 2000000000;
}

start_run-run_ticks_example :
    (r0 : Run) × (r' : Run) × (start_run (subscription MessageType.sync) ≡ ok r0)
    × (r0.sc.running ≡ true)
    × (run_ticks (ticks ++ last_tick ∷ []) r0 ≡ ok r')
    × (r'.queued ≡ 1 + 2)
    × (r'.over ≡ true)
    × (r'.sc.running ≡ false)
start_run-run_ticks_example =
    start_run-run_ticks (subscription MessageType.sync) ticks [] last_tick subscription-paced
      subscription-sends ((refl, refl), ((refl, refl), tt)) refl
