-- ===== src/Ptp/Server/Handlers/Grants.antt =====
-- The grants of the server: what it keeps and sends when a client asks for a subscription.
use ntp.Prelude.{
  ℕ, ◌+◌, ◌^◌, ◌<◌, ◌≡◌, refl, ap, sym, ◌∙◌, some, List, [], ◌∷◌, ok, if◌then◌else◌, get_elem?, set,
  arith,
}
use ntp.Ptp.MessageType
use ntp.Ptp.Types.{probe_msg_type}
use ntp.Ptp.Header.{IsHeader, message_type}
use ntp.Ptp.Signaling.{Signaling, Tlv, GrantUnicast, grant, signaling_unmarshal_binary}
use ntp.Ptp.Signaling.Marshal.{tlvs_size}
use ntp.Ptp.Signaling.RoundTrip.{signaling_round_trip}
use ntp.Ptp.Signaling.Unmarshal.{IsTlv, IsSignaling}
use ntp.Ptp.Server.Subscription.{Address, SubscriptionClient, update_grant, grant_tlvs}
use ntp.Ptp.Server.Handlers.{
  State, Env, act, inc_tx_signaling, send_grant_to, send_grant, deliver_grant,
}

-- The grant of a subscription: fields that fit, one TLV with its type and length.
pub record IsGrant (g : Signaling) : Type 0 where
  pub header_fits : IsHeader g.header
  pub stated_length : g.header.message_length ≡ 56
  pub tlv : GrantUnicast
  pub one_tlv : g.tlvs ≡ grant tlv ∷ []
  pub tlv_fits : IsTlv (grant tlv)

-- `UpdateGrant` keeps that shape, and makes it a Signaling message when the request was one.
pub update_grant-IsSignaling :
    (sg : Signaling) (mt interval duration : ℕ) (sc : SubscriptionClient)
    → IsSignaling sg
    → mt < 256
    → interval < 256
    → duration < 2 ^ 32
    → IsGrant sc.grant
    → IsGrant (update_grant sg mt interval duration sc).grant
      × IsSignaling (update_grant sg mt interval duration sc).grant
unfolding update_grant message_type
update_grant-IsSignaling sg mt interval duration sc h m i d g =
    let t : GrantUnicast = record g.tlv {
      msg_type_and_reserved = mt;
      log_inter_message_period = interval;
      duration_field = duration;
    } in
    let e : grant_tlvs mt interval duration sc.grant.tlvs ≡ grant t ∷ [] =
      ap (grant_tlvs mt interval duration) g.one_tlv in
    let fits : IsTlv (grant t) = (g.tlv_fits.0, m, i, d, g.tlv_fits.4, g.tlv_fits.5) in
    let head : IsHeader (update_grant sg mt interval duration sc).grant.header = record {
      sdo_id_and_msg_type_fits = h.header_fits.sdo_id_and_msg_type_fits;
      version_fits = g.header_fits.version_fits;
      message_length_fits = g.header_fits.message_length_fits;
      domain_number_fits = h.header_fits.domain_number_fits;
      minor_sdo_id_fits = h.header_fits.minor_sdo_id_fits;
      flag_field_fits = g.header_fits.flag_field_fits;
      correction_field_fits = h.header_fits.correction_field_fits;
      message_type_specific_fits = h.header_fits.message_type_specific_fits;
      source_port_identity_fits = g.header_fits.source_port_identity_fits;
      sequence_id_fits = h.header_fits.sequence_id_fits;
      control_field_fits = h.header_fits.control_field_fits;
      log_message_interval_fits = h.header_fits.log_message_interval_fits;
    } in
    (
      record {
        header_fits = head;
        stated_length = g.stated_length;
        tlv = t;
        one_tlv = e;
        tlv_fits = fits;
      },
      record {
        header_fits = head;
        signaling_type = h.signaling_type;
        stated_length = g.stated_length ∙ ap (λ (ts : List Tlv). 44 + tlvs_size ts) (sym e);
        target_fits = h.header_fits.source_port_identity_fits;
        some_tlv = λ z. cc;
        tlvs_fit = rw (e) (fits, tt);
      },
    )

-- What is known of a grant that goes out: it is read back as a Signaling message to the requester's
-- port with one grant TLV, for the message type, interval and duration given.
pub record IsSent (sg : Signaling) (mt interval duration : ℕ) (b : List ℕ) : Type 0 where
  pub packet : Signaling
  pub probed : probe_msg_type b ≡ ok MessageType.signaling
  pub parsed : signaling_unmarshal_binary b ≡ ok packet
  pub tlv : GrantUnicast
  pub one_tlv : packet.tlvs ≡ grant tlv ∷ []
  pub to_requester : packet.target_port_identity ≡ sg.header.source_port_identity
  pub same_sequence : packet.header.sequence_id ≡ sg.header.sequence_id
  pub granted_type : tlv.msg_type_and_reserved ≡ mt
  pub granted_interval : tlv.log_inter_message_period ≡ interval
  pub granted_duration : tlv.duration_field ≡ duration

-- The state after `sendGrant`.
abbrev pub granted : Env → Address → ℕ → SubscriptionClient → List ℕ → State → State
granted e gclisa p sc' b s =
    let s' : State = record s { heap = set s.heap p sc' } in
    if e.sent
    then act (inc_tx_signaling sc'.subscription_type) (act (send_grant_to b gclisa) s')
    else s'

-- `sendGrant` on a subscription with a well-formed grant does not panic and does not fail before
-- `Sendto`; what it sends is the grant that was asked for.
pub send_grant_sends :
    (e : Env) (p : ℕ) (sg : Signaling) (mt interval duration : ℕ) (gclisa : Address) (s : State)
    (sc : SubscriptionClient)
    → get_elem? s.heap p ≡ some sc
    → IsGrant sc.grant
    → IsSignaling sg
    → mt < 256
    → interval < 256
    → duration < 2 ^ 32
    → (b : List ℕ) × (send_grant e p sg mt interval duration gclisa s
        ≡ ok (granted e gclisa p (update_grant sg mt interval duration sc) b s))
      × IsSent sg mt interval duration b
unfolding send_grant deliver_grant update_grant
send_grant_sends e p sg mt interval duration gclisa s sc at g h m i d =
    let (shape, fits) = update_grant-IsSignaling sg mt interval duration sc h m i d g in
    let sc' : SubscriptionClient = update_grant sg mt interval duration sc in
    let (b, out, probed, parsed) =
      signaling_round_trip sc'.grant fits
        (omega (arith, shape.stated_length, fits.stated_length)) in
    (
      b,
      simp (at, out),
      record {
        packet = sc'.grant;
        probed = probed;
        parsed = parsed;
        tlv = record g.tlv {
          msg_type_and_reserved = mt;
          log_inter_message_period = interval;
          duration_field = duration;
        };
        one_tlv = ap (grant_tlvs mt interval duration) g.one_tlv;
        to_requester = refl;
        same_sequence = refl;
        granted_type = refl;
        granted_interval = refl;
        granted_duration = refl;
      },
    )
