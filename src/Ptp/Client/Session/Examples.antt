-- ===== src/Ptp/Client/Session/Examples.antt =====
-- A client that asks for Announce.
use ntp.Prelude.{ℕ, ◌%◌, ◌≡◌, refl, true, none, List, [], ◌∷◌, ok, arith}
use ntp.Prelude.Int.{pos}
use ntp.Ptp.Client.Session.{Client, init, Io, sent_general, stays, steps, asks, ask}
use ntp.Wire.{write_fields, write_at, overwrite, put_be}
use ntp.Ptp.Header.{header_fields}
use ntp.Ptp.Signaling.{
  signaling_bytes, signaling_marshal_binary_to, target_fields, marshal_tlvs, tlv_fields,
}
use ntp.Ptp.Client.Session.Counting.{Numbered, generals, events}
use ntp.Ptp.Client.Session.Invariant.{sent_in_sequence}

abbrev pub io : Io
io = record { written = true; tx_timestamp = none }

abbrev pub client : Client
client = record {
  clock_id = 77;
  duration = 60;
  gen_sequence = 0;
  event_sequence = 0;
  phase = init;
  measurements = record {
    current_utc_offset = pos 0;
    server_to_client = [];
    client_to_server = [];
  };
  outputs = [];
}

-- The request for Announce, two bytes of padding included.
abbrev request : List ℕ
request =
    12 ∷ 18 ∷ 0 ∷ 54 ∷ 0 ∷ 0 ∷ 4 ∷ 0 ∷ 0 ∷ 0 ∷ 0 ∷ 0 ∷ 0 ∷ 0 ∷ 0 ∷ 0 ∷ 0 ∷ 0 ∷ 0 ∷ 0 ∷ 0 ∷ 0 ∷ 0 ∷ 0
    ∷ 0 ∷ 0 ∷ 0 ∷ 77 ∷ 0 ∷ 1 ∷ 0 ∷ 0 ∷ 0 ∷ 127 ∷ 255 ∷ 255 ∷ 255 ∷ 255 ∷ 255 ∷ 255 ∷ 255 ∷ 255 ∷ 255
    ∷ 255 ∷ 0 ∷ 4 ∷ 0 ∷ 6 ∷ 176 ∷ 1 ∷ 0 ∷ 0 ∷ 0 ∷ 60 ∷ 0 ∷ 0 ∷ []

abbrev client_after : Client
client_after = record client { gen_sequence = 1; outputs = sent_general request ∷ [] }

asked : ask io client ≡ ok client_after
unfolding ask signaling_bytes signaling_marshal_binary_to write_fields header_fields write_at
    overwrite put_be target_fields marshal_tlvs tlv_fields
asked = refl

sent_in_sequence_example :
    Numbered 0 0 client_after.outputs
    × (client_after.gen_sequence ≡ generals client_after.outputs % 65536)
    × (client_after.event_sequence ≡ events client_after.outputs % 65536)
sent_in_sequence_example =
    sent_in_sequence {c = client} {c' = client_after} (steps stays (asks io refl asked)) (record {
      clock_fits = omega arith;
      duration_fits = omega arith;
      first_general = refl;
      first_event = refl;
      nothing_sent = refl;
    })
