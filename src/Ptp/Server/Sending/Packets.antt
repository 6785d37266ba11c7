-- ===== src/Ptp/Server/Sending/Packets.antt =====
-- The packets of a subscription fit their types, and so reach the wire.
use ntp.Prelude.{
  ℕ, ◌^◌, ◌<◌, ◌≤◌, ◌≡◌, true, false, List, [], ◌∷◌, ◌++◌, ok, length, take, arith, if◌then◌else◌,
}
use native.Mathlib.Nat.{mod-lt}
use ntp.Prelude.Int.{ℤ, pos, negsuc, ltb_ℤ}
use ntp.Prelude.Word.{low_bits, low_bits_lt}
use ntp.Ptp.Types.{new_timestamp, new_sdo_id_and_msg_type}
use ntp.Ptp.Header.{Header, IsHeader, header_fields}
use ntp.Wire.{put_be}
use ntp.Ptp.Messages.{
  IsSyncDelayReq, IsFollowUp, IsTimestamp, IsDelayResp, bytes_to, sync_fields, follow_up_fields,
  sync_marshal_binary_to, follow_up_marshal_binary_to,
}
use ntp.Ptp.Messages.Laws.{
  sync_wire, sync_marshal_binary_to_fits, follow_up_wire, follow_up_marshal_binary_to_fits,
}
use ntp.Ptp.Messages.Buffer.{bytes_to_fits}
use ntp.Ptp.Server.Subscription.{
  Config, Floats, SubscriptionClient, new_log_interval, update_sync, update_followup,
  new_subscription_client, new_header, init_sync, init_followup, init_delay_resp, Address,
}

-- The fields of a subscription's packets fit their types.
pub record IsSubscription (sc : SubscriptionClient) : Type 0 where
  pub sequence_fits : sc.sequence_id < 2 ^ 16
  pub sync_fits : IsSyncDelayReq sc.sync_p
  pub followup_fits : IsFollowUp sc.followup_p
  pub delay_resp_fits : IsDelayResp sc.delay_resp_p

new_timestamp-IsTimestamp : (t : ℤ) → IsTimestamp (new_timestamp t)
unfolding new_timestamp
new_timestamp-IsTimestamp t = record {
  seconds_fits = mod-lt _ (omega arith);
  nanoseconds_fits = mod-lt _ (omega arith);
}

new_log_interval-lt : (f : Floats) (d : ℤ) → new_log_interval f d < 256
unfolding new_log_interval
new_log_interval-lt f d =
    let li : ℤ = f.log2_seconds d in
    elim (ltb_ℤ (pos 127) li)
      as (λ t. (if t then 0 else (if ltb_ℤ li (negsuc 127) then 0 else low_bits 8 li)) < 256) [
        | true ↦ omega arith
        | false ↦ elim (ltb_ℤ li (negsuc 127)) as (λ t. (if t then 0 else low_bits 8 li) < 256) [
          | true ↦ omega arith
          | false ↦ low_bits_lt 8 li (omega arith)
        ]
      ]

with_sequence :
    (h : Header) (n i : ℕ)
    → IsHeader h
    → n < 2 ^ 16
    → i < 256
    → IsHeader (record h { sequence_id = n; log_message_interval = i })
with_sequence h n i p a b = record {
  sdo_id_and_msg_type_fits = p.sdo_id_and_msg_type_fits;
  version_fits = p.version_fits;
  message_length_fits = p.message_length_fits;
  domain_number_fits = p.domain_number_fits;
  minor_sdo_id_fits = p.minor_sdo_id_fits;
  flag_field_fits = p.flag_field_fits;
  correction_field_fits = p.correction_field_fits;
  message_type_specific_fits = p.message_type_specific_fits;
  source_port_identity_fits = p.source_port_identity_fits;
  control_field_fits = p.control_field_fits;
  sequence_id_fits = a;
  log_message_interval_fits = b;
}

pub update_sync-IsSyncDelayReq :
    (sc : SubscriptionClient) → IsSubscription sc → IsSyncDelayReq (update_sync sc).sync_p
unfolding update_sync
update_sync-IsSyncDelayReq sc h = record {
  header_fits =
      with_sequence sc.sync_p.header sc.sequence_id sc.sync_p.header.log_message_interval
        h.sync_fits.header_fits h.sequence_fits h.sync_fits.header_fits.log_message_interval_fits;
  timestamp_fits = h.sync_fits.timestamp_fits;
}

pub update_followup-IsFollowUp :
    (f : Floats) (tx : ℤ) (sc : SubscriptionClient)
    → IsSubscription sc
    → IsFollowUp (update_followup f tx sc).followup_p
unfolding update_followup
update_followup-IsFollowUp f tx sc h = record {
  header_fits =
      with_sequence sc.followup_p.header sc.sequence_id (new_log_interval f sc.interval)
        h.followup_fits.header_fits h.sequence_fits (new_log_interval-lt f sc.interval);
  timestamp_fits = new_timestamp-IsTimestamp tx;
}

-- The header that every packet of a new subscription starts from.
pub new_header-IsHeader :
    (c : Config) (t l n i e : ℕ)
    → c.clock_identity < 2 ^ 64
    → t < 256
    → l < 65536
    → n < 65536
    → i < 256
    → e < 256
    → IsHeader (new_header c t l n i e)
new_header-IsHeader c t l n i e h t1 l1 n1 i1 e1 = ground arith

-- A new subscription of a server whose clock identity fits a uint64 has a Sync, a Follow_Up, a
-- Delay_Resp and a sequence number whose fields fit their types.
pub new_subscription_client-IsSubscription :
    (worker : ℕ) (eclisa gclisa : Address) (st : ℕ) (c : Config) (i e now : ℤ)
    → c.clock_identity < 2 ^ 64
    → IsSubscription (new_subscription_client worker eclisa gclisa st c i e now)
unfolding new_subscription_client init_sync init_followup init_delay_resp new_sdo_id_and_msg_type
new_subscription_client-IsSubscription worker eclisa gclisa st c i e now h = record {
  sequence_fits = omega arith;
  sync_fits = record {
    header_fits =
        new_header-IsHeader c _ _ _ _ _ h (omega arith) (omega arith) (omega arith) (omega arith)
          (omega arith);
    timestamp_fits = record { seconds_fits = omega arith; nanoseconds_fits = omega arith };
  };
  followup_fits = record {
    header_fits =
        new_header-IsHeader c _ _ _ _ _ h (omega arith) (omega arith) (omega arith) (omega arith)
          (omega arith);
    timestamp_fits = new_timestamp-IsTimestamp now;
  };
  delay_resp_fits = record {
    header_fits =
        new_header-IsHeader c _ _ _ _ _ h (omega arith) (omega arith) (omega arith) (omega arith)
          (omega arith);
    timestamp_fits = record { seconds_fits = omega arith; nanoseconds_fits = omega arith };
    identity_fits = record { clock_identity_fits = omega arith; port_number_fits = omega arith };
  };
}

-- What `BytesTo` makes of either packet.
pub sync_sent :
    (sc : SubscriptionClient) (b : List ℕ)
    → 46 ≤ length b
    → (out : List ℕ) × (bytes_to (sync_marshal_binary_to sc.sync_p) b ≡ ok (out, 46))
      × (take 46 out ≡ sync_wire sc.sync_p ++ 0 ∷ 0 ∷ [])
      × (length out ≡ length b)
sync_sent sc b h =
    unfold header_fields sync_fields put_be in
    bytes_to_fits (sync_marshal_binary_to sc.sync_p) (sync_wire sc.sync_p) b
      (sync_marshal_binary_to_fits sc.sync_p b (omega arith)) h

pub follow_up_sent :
    (sc : SubscriptionClient) (b : List ℕ)
    → 46 ≤ length b
    → (out : List ℕ) × (bytes_to (follow_up_marshal_binary_to sc.followup_p) b ≡ ok (out, 46))
      × (take 46 out ≡ follow_up_wire sc.followup_p ++ 0 ∷ 0 ∷ [])
      × (length out ≡ length b)
follow_up_sent sc b h =
    unfold header_fields follow_up_fields put_be in
    bytes_to_fits (follow_up_marshal_binary_to sc.followup_p) (follow_up_wire sc.followup_p) b
      (follow_up_marshal_binary_to_fits sc.followup_p b (omega arith)) h
