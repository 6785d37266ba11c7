-- ===== src/Ptp/Client/Examples.antt =====
-- A client that asks for Sync packets and measures: the theorems of the client at this input.
use ntp.Prelude.{ℕ, ◌+◌, ◌/◌, ◌≡◌, refl, none, some, List, [], ◌∷◌, ok, arith, inl, inr}
use ntp.Prelude.Int.{pos, ◌+ℤ◌, ◌-ℤ◌}
use ntp.Ptp.Types.{unicast_msg_type}
use ntp.Ptp.Signaling.{
  signaling_bytes, Signaling, CancelUnicast, cancel, signaling_unmarshal_binary,
}
use ntp.Ptp.Client.Requests.{req_ack_cancel_unicast}
use ntp.Ptp.Client.Acknowledge.{req_ack_cancel_unicast_cancels}
use ntp.Ptp.Client.Measurements.{
  Measurements, MeasurementResult, lookup, add_sync, add_follow_up, latest,
}
use ntp.Ptp.Client.Measurements.Samples.{add_follow_up-add_sync}
use ntp.Ptp.Client.Measurements.Latest.{IsLatest, latest_offset}

req_ack_cancel_unicast_cancels_example :
    (b : List ℕ) × (p : Signaling) × (v : CancelUnicast) × (signaling_bytes
        (req_ack_cancel_unicast 77 11)
      ≡ ok b)
    × (signaling_unmarshal_binary b ≡ ok p)
    × (p.tlvs ≡ cancel v ∷ [])
    × (p.header.source_port_identity.clock_identity ≡ 77)
    × (unicast_msg_type v.msg_type_and_flags ≡ 11)
req_ack_cancel_unicast_cancels_example =
    req_ack_cancel_unicast_cancels 77 11 (omega arith) (omega arith)

-- The path takes 40 ns from the server and 30 ns to it; the client's clock is 900 ns ahead. The first
-- exchange has no Follow_Up.
abbrev measured : Measurements
measured = record {
  current_utc_offset = pos 37000000000;
  server_to_client =
      (1, record { send_ts = none; receive_ts = some (pos 9000) })
      ∷ (2, record { send_ts = some (pos 5000); receive_ts = some (pos 5940) })
      ∷ [];
  client_to_server =
      (2, record { send_ts = some (pos 6000); receive_ts = some (pos 5131) })
      ∷ (3, record { send_ts = some (pos 7000); receive_ts = some (pos 6130) })
      ∷ (1, record { send_ts = some (pos 5000); receive_ts = some (pos 4129) })
      ∷ [];
}

measured-server : IsLatest measured.server_to_client (pos 5000) (pos 5000 +ℤ pos 40 +ℤ pos 900)
unfolding lookup ◌+ℤ◌
measured-server = record { seq = 2; found = refl; others = (tt, (inl (refl, refl), tt)) }

measured-client : IsLatest measured.client_to_server (pos 7000) (pos 7000 +ℤ pos 30 -ℤ pos 900)
unfolding lookup ◌+ℤ◌ ◌-ℤ◌
measured-client = record {
  seq = 3;
  found = refl;
  others = (inr refl, (inl (refl, refl), (inr refl, tt)));
}

latest_offset_example :
    (r : MeasurementResult) × (latest measured ≡ ok r)
    × (r.delay ≡ pos ((40 + 30) / 2))
    × (r.offset +ℤ pos ((40 + 30) / 2) ≡ pos 900 +ℤ pos 40)
latest_offset_example =
    latest_offset measured (pos 5000) (pos 7000) (pos 900) 40 30 (omega arith) (omega arith)
      (omega arith) measured-server measured-client

add_follow_up-add_sync_example :
    let a = add_follow_up 3 (pos 20) (add_sync 3 (some (pos 25)) measured) in
    let b = add_sync 3 (some (pos 25)) (add_follow_up 3 (pos 20) measured) in
    (lookup a.server_to_client 3
      ≡ some (record { send_ts = some (pos 20); receive_ts = some (pos 25) }))
    × (lookup b.server_to_client 3
        ≡ some (record { send_ts = some (pos 20); receive_ts = some (pos 25) }))
    × (lookup a.server_to_client 2 ≡ lookup measured.server_to_client 2)
    × (lookup b.server_to_client 2 ≡ lookup measured.server_to_client 2)
add_follow_up-add_sync_example = add_follow_up-add_sync measured 3 2 (pos 20) (pos 25) refl
