-- ===== src/Ptp/Server/Subscription.antt =====
-- ptp/ptp4u/server/subscription.go: a subscription and the packets that it keeps. A `time.Time` is
-- its distance from the Unix epoch in nanoseconds. The mutex is held within single steps only.
use ntp.Prelude.{ℕ, ◌+◌, ◌-◌, ◌*◌, ◌/◌, ◌%◌, ◌^◌, Bool, false, List, [], ◌∷◌, ltb, if◌then◌else◌}
use ntp.Prelude.Int.{ℤ, pos, negsuc, ltb_ℤ}
use ntp.Prelude.Word.{low_bits, quot}
use ntp.Ptp.MessageType
use ntp.Ptp.TlvType
use ntp.Ptp.Types.{new_timestamp, new_sdo_id_and_msg_type}
use ntp.Ptp.Header.{Header}
use ntp.Ptp.Messages.{SyncDelayReq, FollowUp, DelayResp}
use ntp.Ptp.Announce.{Announce}
use ntp.Ptp.Signaling.{Signaling, Tlv, grant}

-- The fields of `Config` that the modelled code reads.
pub record Config : Type 0 where
  pub clock_identity : ℕ
  pub max_sub_duration : ℤ
  pub min_sub_interval : ℤ
  pub utc_offset : ℤ
  pub hardware_timestamps : Bool  -- TimestampType is HWTIMESTAMP
  pub send_workers : ℕ

-- What the code takes from floating point: `int(math.Log2(d.Seconds()))`, and the `int64` that the
-- platform gives for a float out of its range.
pub record Floats : Type 0 where
  pub log2_seconds : ℤ → ℤ
  pub out_of_range : ℤ

pub record Address : Type 0 where
  pub ip : ℕ
  pub port : ℕ

-- `LogInterval.Duration`: 2^i seconds in nanoseconds, cut to an integer. The float is exact, and it
-- leaves the range of an `int64` from 2^34 on.
unfoldable pub log_interval_duration : Floats → ℕ → ℤ
log_interval_duration f i =
    if ltb i 34
    then pos (2 ^ i * 1000000000)
    else (if ltb i 128 then f.out_of_range else pos (1000000000 / 2 ^ (256 - i)))

-- `NewLogInterval`, the bits of an int8. Its callers drop the error and keep the 0 beside it.
unfoldable pub new_log_interval : Floats → ℤ → ℕ
new_log_interval f d =
    let li = f.log2_seconds d in
    if ltb_ℤ (pos 127) li then 0 else (if ltb_ℤ li (negsuc 127) then 0 else low_bits 8 li)

-- `SubscriptionClient`. `worker` is the worker whose queue it adds itself to.
pub record SubscriptionClient : Type 0 where
  pub worker : ℕ
  pub subscription_type : ℕ
  pub interval : ℤ
  pub expire : ℤ
  pub sequence_id : ℕ
  pub running : Bool
  pub eclisa : Address
  pub gclisa : Address
  pub sync_p : SyncDelayReq
  pub followup_p : FollowUp
  pub announce_p : Announce
  pub delay_resp_p : DelayResp
  pub grant : Signaling

abbrev pub ptp_version : ℕ
ptp_version = 0x12

abbrev pub flag_unicast : ℕ
flag_unicast = 0x0400

abbrev pub flag_two_step : ℕ
flag_two_step = 0x0200

abbrev pub flag_ptp_timescale : ℕ
flag_ptp_timescale = 0x0008

-- The header that the packets of a subscription share but for these five fields.
abbrev pub new_header : Config → ℕ → ℕ → ℕ → ℕ → ℕ → Header
new_header c sdo_id_and_msg_type message_length flag_field log_message_interval control_field =
    record {
      sdo_id_and_msg_type = sdo_id_and_msg_type;
      version = ptp_version;
      message_length = message_length;
      domain_number = 0;
      minor_sdo_id = 0;
      flag_field = flag_field;
      correction_field = 0;
      message_type_specific = 0;
      source_port_identity = record { clock_identity = c.clock_identity; port_number = 1 };
      sequence_id = 0;
      control_field = control_field;
      log_message_interval = log_message_interval;
    }

-- `initSync`.
unfoldable pub init_sync : Config → SyncDelayReq
init_sync c = record {
  header =
      new_header c (new_sdo_id_and_msg_type MessageType.sync 0) 44 (flag_unicast + flag_two_step)
        0x7f 0;
  origin_timestamp = record { seconds = 0; nanoseconds = 0 };
}

-- `initFollowup`, at the clock reading `now`.
unfoldable pub init_followup : Config → ℤ → FollowUp
init_followup c now = record {
  header = new_header c (new_sdo_id_and_msg_type MessageType.follow_up 0) 44 flag_unicast 0 2;
  precise_origin_timestamp = new_timestamp now;
}

-- `initAnnounce`.
unfoldable pub init_announce : Config → Announce
init_announce c = record {
  header =
      new_header c (new_sdo_id_and_msg_type MessageType.announce 0) 64
        (flag_unicast + flag_ptp_timescale) 0 5;
  origin_timestamp = record { seconds = 0; nanoseconds = 0 };
  current_utc_offset = 0;
  reserved = 0;
  grandmaster_priority1 = 128;
  grandmaster_clock_quality = record {
    clock_class = 6;
    clock_accuracy = 33;
    offset_scaled_log_variance = 23008;
  };
  grandmaster_priority2 = 128;
  grandmaster_identity = c.clock_identity;
  steps_removed = 0;
  time_source = 0x20;
}

-- `initDelayResp`.
unfoldable pub init_delay_resp : Config → DelayResp
init_delay_resp c = record {
  header = new_header c (new_sdo_id_and_msg_type MessageType.delay_resp 0) 54 flag_unicast 0x7f 3;
  receive_timestamp = record { seconds = 0; nanoseconds = 0 };
  requesting_port_identity = record { clock_identity = 0; port_number = 0 };
}

-- `initGrant`.
unfoldable pub init_grant : Config → Signaling
init_grant c = record {
  header = new_header c 0 56 flag_unicast 0 0;
  target_port_identity = record { clock_identity = 0; port_number = 0 };
  tlvs =
      grant (record {
        head = record { tlv_type = TlvType.grant_unicast_transmission; length_field = 8 };
        msg_type_and_reserved = 0;
        log_inter_message_period = 0;
        duration_field = 0;
        reserved = 0;
        renewal = 1;
      })
      ∷ [];
}

-- `NewSubscriptionClient`, at the clock reading `now`.
unfoldable pub new_subscription_client :
    ℕ → Address → Address → ℕ → Config → ℤ → ℤ → ℤ → SubscriptionClient
unfolding init_sync init_followup init_announce init_delay_resp init_grant
new_subscription_client worker eclisa gclisa st c i e now = record {
  worker = worker;
  subscription_type = st;
  interval = i;
  expire = e;
  sequence_id = 0;
  running = false;
  eclisa = eclisa;
  gclisa = gclisa;
  sync_p = init_sync c;
  followup_p = init_followup c now;
  announce_p = init_announce c;
  delay_resp_p = init_delay_resp c;
  grant = init_grant c;
}

-- `Expired`.
unfoldable pub expired : ℤ → SubscriptionClient → Bool
expired now sc = ltb_ℤ sc.expire now

-- `Stop`.
unfoldable pub stop : ℤ → SubscriptionClient → SubscriptionClient
stop now sc = record sc { expire = now }

-- `setRunning`.
unfoldable pub set_running : Bool → SubscriptionClient → SubscriptionClient
set_running running sc = record sc { running = running }

-- `IncSequenceID`, of a uint16.
unfoldable pub inc_sequence_id : SubscriptionClient → SubscriptionClient
inc_sequence_id sc = record sc { sequence_id = (sc.sequence_id + 1) % 65536 }

-- `UpdateSync`.
unfoldable pub update_sync : SubscriptionClient → SubscriptionClient
update_sync sc =
    let p = sc.sync_p in
    let h = p.header in
    record sc { sync_p = record p { header = record h { sequence_id = sc.sequence_id } } }

-- `UpdateFollowup`.
unfoldable pub update_followup : Floats → ℤ → SubscriptionClient → SubscriptionClient
update_followup f hwts sc =
    let i = new_log_interval f sc.interval in
    let p = sc.followup_p in
    let h = p.header in
    record sc {
      followup_p = record {
        header = record h { sequence_id = sc.sequence_id; log_message_interval = i };
        precise_origin_timestamp = new_timestamp hwts;
      };
    }

-- `UpdateAnnounce`. The seconds of the UTC offset are cut to an int16.
unfoldable pub update_announce : Config → Floats → SubscriptionClient → SubscriptionClient
update_announce c f sc =
    let i = new_log_interval f sc.interval in
    let p = sc.announce_p in
    let h = p.header in
    record sc {
      announce_p = record p {
        header = record h { sequence_id = sc.sequence_id; log_message_interval = i };
        current_utc_offset = low_bits 16 (quot c.utc_offset 1000000000);
      };
    }

-- `UpdateDelayResp`.
unfoldable pub update_delay_resp : Header → ℤ → SubscriptionClient → SubscriptionClient
update_delay_resp request received sc =
    let p = sc.delay_resp_p in
    let h = p.header in
    record sc {
      delay_resp_p = record {
        header = record h {
          sequence_id = request.sequence_id;
          correction_field = request.correction_field;
        };
        receive_timestamp = new_timestamp received;
        requesting_port_identity = request.source_port_identity;
      };
    }

-- The grant TLV of `UpdateGrant`, set in place. (The list has this one TLV from `initGrant` on.)
abbrev pub grant_tlvs : ℕ → ℕ → ℕ → List Tlv → List Tlv
grant_tlvs mt interval duration (grant t ∷ ts) =
    grant (record t {
      msg_type_and_reserved = mt;
      log_inter_message_period = interval;
      duration_field = duration;
    })
    ∷ ts
grant_tlvs mt interval duration ts = ts

-- `UpdateGrant`, of the grant that a subscription keeps.
unfoldable pub update_grant : Signaling → ℕ → ℕ → ℕ → SubscriptionClient → SubscriptionClient
update_grant sg mt interval duration sc =
    let g = sc.grant in
    let h = g.header in
    record sc {
      grant = record {
        header = record h {
          sdo_id_and_msg_type = sg.header.sdo_id_and_msg_type;
          domain_number = sg.header.domain_number;
          minor_sdo_id = sg.header.minor_sdo_id;
          correction_field = sg.header.correction_field;
          message_type_specific = sg.header.message_type_specific;
          sequence_id = sg.header.sequence_id;
          control_field = sg.header.control_field;
          log_message_interval = sg.header.log_message_interval;
        };
        target_port_identity = sg.header.source_port_identity;
        tlvs = grant_tlvs mt interval duration g.tlvs;
      };
    }
