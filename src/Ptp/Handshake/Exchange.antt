-- ===== src/Ptp/Handshake/Exchange.antt =====
-- One request and its grant, from the client to the server and back.
use ntp.Prelude.{
  ℕ, ◌+◌, ◌*◌, ◌%◌, ◌||◌, ◌^◌, ◌<◌, ◌≡◌, refl, ap, subst, ◌∙◌, Bool, true, false, Option, some,
  List, [], ◌∷◌, ◌++◌, ok, ◌>>=◌, if◌then◌else◌, arith,
}
use ntp.Prelude.Int.{ℤ, pos, ◌+ℤ◌, ltb_ℤ}
use ntp.Ptp.MessageType
use ntp.Ptp.TlvType
use ntp.Ptp.Types.{probe_msg_type, unicast_msg_type, new_unicast_msg_type_and_flags}
use ntp.Ptp.Types.Laws.{unicast_msg_type-new}
use ntp.Ptp.Header.{set_sequence}
use ntp.Ptp.Signaling.{
  Signaling, RequestUnicast, request, grant, GrantUnicast, signaling_unmarshal_binary,
}
use ntp.Ptp.Signaling.Unmarshal.{IsSignaling}
use ntp.Ptp.Signaling.RoundTrip.{signaling_round_trip}
use ntp.Ptp.Server.Subscription.{Address, log_interval_duration}
use ntp.Ptp.Server.Handlers.{
  State, Env, Action, Context, key, start, handle_general, handle_request, handle_tlvs, handle_tlv,
  general_packet, general_signaling, is_granted_type, send_grant_to, inc_tx_signaling,
  inc_rx_signaling,
}
use ntp.Ptp.Server.Handlers.WellFormed.{IsState}
use ntp.Ptp.Server.Handlers.Requests.{Subscribed, runs}
use ntp.Ptp.Server.Handlers.Limits.{handle_request_accepts}
use ntp.Ptp.Client.Requests.{req_unicast}
use ntp.Ptp.Client.Session
use ntp.Ptp.Client.Session.{
  Client, Io, handle_grant_unicast, Output, sent_general, send_general_msg, write_general, output,
  signaling_with_sequence, handle_msg, dispatch,
}
use ntp.Ptp.Client.Session.Sends.{numbered_request-IsSignaling}

-- A request of the server's general port with one TLV is the case of that TLV.
one_request :
    (x : Context) (env : ℕ → Env) (b : List ℕ) (a : Address) (sg : Signaling) (v : RequestUnicast)
    (s s' : State)
    → probe_msg_type b ≡ ok MessageType.signaling
    → signaling_unmarshal_binary b ≡ ok sg
    → sg.tlvs ≡ request v ∷ []
    → handle_request x (env 0) sg a v s ≡ ok s'
    → handle_general x env (some (b, a)) s ≡ ok s'
unfolding handle_general general_packet general_signaling handle_tlvs handle_tlv
one_request x env b a sg v s s' probed parsed tlvs run =
    ap (general_packet x env b a s) probed
    ∙ ap (general_signaling x env a s) parsed
    ∙ ap (λ ts. handle_tlvs x env 0 sg a ts s) tlvs
    ∙ ap (λ r. r >>= handle_tlvs x env 1 sg a []) run

-- A packet of the client with one grant is the case of that grant.
pub one_grant :
    (env : ℕ → Io) (b : List ℕ) (received : Option ℤ) (sg : Signaling) (t : GrantUnicast)
    (c c' : Client)
    → probe_msg_type b ≡ ok MessageType.signaling
    → signaling_unmarshal_binary b ≡ ok sg
    → sg.tlvs ≡ grant t ∷ []
    → handle_grant_unicast (env 0) t c ≡ ok c'
    → handle_msg env b received c ≡ ok c'
unfolding handle_msg dispatch Session.handle_tlvs Session.handle_tlv
one_grant env b received sg t c c' probed parsed tlvs run = rw (probed, parsed, tlvs, run) refl

-- What the client has asked for, and the server has granted.
pub record Answered (x : Context) (home : Address) (env : ℕ → Env) (i : Io) (what : ℕ) (c : Client)
    (s : State) : Type 0 where
  pub asked : List ℕ
  pub state : State
  pub subscription : ℕ
  pub before : List Action
  pub granted : List ℕ
  pub counted : ℕ
  pub packet : Signaling
  pub tlv : GrantUnicast
  pub sent :
      send_general_msg i (req_unicast c.clock_id c.duration what) c
      ≡ ok (output (sent_general asked) (record c { gen_sequence = (c.gen_sequence + 1) % 65536 }))
  pub handled : handle_general x env (some (asked, home)) s ≡ ok state
  pub subscribed :
      Subscribed state
        (key x (record { clock_identity = c.clock_id; port_number = 1 }) what)
        subscription
        ((env 0).now +ℤ pos (c.duration * 1000000000))
        (log_interval_duration x.floats 1)
  pub well_formed : IsState state
  pub replied :
      state.actions
      ≡ before ++ send_grant_to granted home ∷ inc_tx_signaling counted ∷ inc_rx_signaling what ∷ []
  pub probed : probe_msg_type granted ≡ ok MessageType.signaling
  pub parsed : signaling_unmarshal_binary granted ≡ ok packet
  pub one_tlv : packet.tlvs ≡ grant tlv ∷ []
  pub granted_type : unicast_msg_type tlv.msg_type_and_reserved ≡ what
  pub granted_duration : tlv.duration_field ≡ c.duration

-- The request TLV of `reqUnicast`.
abbrev asking : ℕ → ℕ → RequestUnicast
asking seconds what = record {
  head = record { tlv_type = TlvType.request_unicast_transmission; length_field = 6 };
  msg_type_and_reserved = new_unicast_msg_type_and_flags what 0;
  log_inter_message_period = 1;
  duration_field = seconds;
}

-- A server whose limits admit an interval of two seconds and the client's duration.
abbrev pub admits : Context → ℕ → Bool
admits x seconds =
    ltb_ℤ (log_interval_duration x.floats 1) x.config.min_sub_interval
    || ltb_ℤ x.config.max_sub_duration (pos (seconds * 1000000000))

pub request_answered :
    (x : Context) (home : Address) (env : ℕ → Env) (i : Io) (what : ℕ) (c : Client) (s : State)
    → i.written ≡ true
    → (env 0).sent ≡ true
    → IsState s
    → x.config.clock_identity < 2 ^ 64
    → c.clock_id < 2 ^ 64
    → c.duration < 2 ^ 32
    → c.gen_sequence < 65536
    → what < 16
    → is_granted_type what ≡ true
    → admits x c.duration ≡ false
    → Answered x home env i what c s
unfolding send_general_msg write_general signaling_with_sequence set_sequence req_unicast
request_answered x home env i what c s written sent h xc cc' cd cn small served limits =
    let sg : Signaling =
      signaling_with_sequence (req_unicast c.clock_id c.duration what) c.gen_sequence in
    let v : RequestUnicast = asking c.duration what in
    let same : unicast_msg_type v.msg_type_and_reserved ≡ what =
      unicast_msg_type-new what 0 small in
    let shape : IsSignaling sg =
      numbered_request-IsSignaling c.clock_id c.duration what c.gen_sequence cc' cd cn in
    let (b, out, probed, parsed) = signaling_round_trip sg shape (omega arith) in
    let running : Bool =
      runs s (key x sg.header.source_port_identity (unicast_msg_type v.msg_type_and_reserved)) in
    let (p, g, s', u, run, sub, w, grants, acts) =
      handle_request_accepts x (env 0) sg home v s sent h xc shape shape.tlvs_fit.0
        (ap is_granted_type same ∙ served) limits in
    record {
      asked = b;
      state = s';
      subscription = p;
      before = s.actions ++ (if running then [] else start p ∷ []);
      granted = g;
      counted = u;
      packet = grants.packet;
      tlv = grants.tlv;
      sent = rw (out, written) refl;
      handled = one_request x env b home sg v s s' probed parsed refl run;
      subscribed =
          subst
            (λ t.
              Subscribed s' (key x (record { clock_identity = c.clock_id; port_number = 1 }) t) p
                ((env 0).now +ℤ pos (c.duration * 1000000000)) (log_interval_duration x.floats 1))
            (same) sub;
      well_formed = w;
      replied =
          acts
          ∙ ap
              (λ t.
                (s.actions ++ (if running then [] else start p ∷ []))
                ++ send_grant_to g home ∷ inc_tx_signaling u ∷ inc_rx_signaling t ∷ [])
              same;
      probed = grants.probed;
      parsed = grants.parsed;
      one_tlv = grants.one_tlv;
      granted_type = ap unicast_msg_type grants.granted_type ∙ same;
      granted_duration = grants.granted_duration;
    }
