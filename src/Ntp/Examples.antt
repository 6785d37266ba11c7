-- ===== src/Ntp/Examples.antt =====
-- Concrete packets and clock readings: tests, and the theorems of the NTP modules at these inputs.
use ntp.Prelude.{
  ℕ, ◌+◌, ◌*◌, ◌/◌, ◌%◌, ◌<◌, ◌≤◌, ◌≡◌, refl, ◌↔◌, ◌⊎◌, true, List, [], ◌∷◌, replicate, take, ok,
  length, arith,
}
use ntp.Prelude.Int.{pos, ◌+ℤ◌, ◌-ℤ◌, ◌≤ℤ◌}
use ntp.Ntp.Packet.{Packet, IsPacket, valid_settings_format, bytes, bytes_to_packet, empty_packet}
use ntp.Ntp.Packet.Laws.{bytes_to_packet_long, valid_settings_format_iff}
use ntp.Ntp.Clock.{
  time, unix, nanoseconds_to_unix, calculate_offset, current_real_time, avg_network_delay,
}
use ntp.Ntp.Clock.Laws.{unix-time, calculate_offset_error}
use ntp.Ntp.Responder.{
  Server, Task, State, generate_response, serve, start_worker, fill_static_headers,
}
use ntp.Ntp.Responder.Reply.{generate_response_echo, generate_response_sync, serve_valid}
use ntp.Ntp.Responder.Worker.{replies, start_worker-replies}

abbrev request : Packet
request = record empty_packet {
  settings = 0x1b;
  poll = 6;
  tx_time_sec = 3847000000;
  tx_time_frac = 77;
}

request_is_valid : valid_settings_format request ≡ true
unfolding valid_settings_format
request_is_valid = refl

abbrev wire : List ℕ
wire = replicate 50 7

bytes_to_packet_long_example :
    (p : Packet) × (bytes_to_packet wire ≡ ok p) × IsPacket p × (bytes p ≡ take 48 wire)
bytes_to_packet_long_example = bytes_to_packet_long wire (omega arith) (omega arith)

valid_settings_format_iff_example :
    (valid_settings_format request ≡ true)
    ↔ ((◌≡◌ {A = ℕ} 0 0 ⊎ ◌≡◌ {A = ℕ} 0 3) × (1 ≤ 3) × (3 ≤ 4) × ◌≡◌ {A = ℕ} 3 3)
valid_settings_format_iff_example =
    valid_settings_format_iff request 0 3 3 (omega arith) (omega arith) (omega arith) refl

-- 1.6 billion seconds after the Unix epoch, and half a second.
abbrev reading : ℕ
reading = 1600000000500000000

unix-time_example :
    (unix (time (pos reading)).0 (time (pos reading)).1 ≤ℤ pos reading)
    × (pos reading ≤ℤ unix (time (pos reading)).0 (time (pos reading)).1 +ℤ pos 1)
unfolding ◌+ℤ◌
unix-time_example = unix-time (pos reading) (reading + nanoseconds_to_unix) refl (omega arith)

calculate_offset_error_example :
    calculate_offset
        (current_real_time (pos 5000) (
          avg_network_delay
            (pos 100)
            (pos 100 +ℤ pos 30 +ℤ pos 900)
            (pos 5000)
            (pos 5000 +ℤ pos 40 -ℤ pos 900)))
        (pos 5000 +ℤ pos 40 -ℤ pos 900)
      +ℤ pos 40
    ≡ pos 900 +ℤ pos 35
calculate_offset_error_example =
    calculate_offset_error (pos 100) (pos 5000) (pos 900) 30 40 (omega arith) (omega arith)
      (omega arith)

generate_response_echo_example :
    let r = generate_response (pos reading) (pos 5) request empty_packet in
    (r.settings ≡ 0x1b / 8 % 8 * 8 + 4)
    × (r.poll ≡ 6)
    × (r.orig_time_sec ≡ 3847000000)
    × (r.orig_time_frac ≡ 77)
    × ((r.rx_time_sec, r.rx_time_frac) ≡ time (pos 5))
    × ((r.tx_time_sec, r.tx_time_frac) ≡ time (pos reading))
generate_response_echo_example =
    generate_response_echo (pos reading) (pos 5) request empty_packet (omega arith)

generate_response_sync_example :
    let r = generate_response (pos reading) (pos 5) request empty_packet in
    (r.ref_time_frac ≡ 0)
    × (r.ref_time_sec ≤ r.tx_time_sec)
    × (r.tx_time_sec < r.ref_time_sec + 1000)
generate_response_sync_example =
    generate_response_sync reading (pos 5) request empty_packet (omega arith)

abbrev task : Task
task = record { addr = 9; received = pos 5; request = request }

abbrev idle : State
idle = record { response = empty_packet; sent = []; responses = 0; invalid_format = 0 }

serve_valid_example :
    let s' = serve (pos 0) (pos reading) task idle in
    let reply = generate_response (pos reading +ℤ pos 0) (pos 5 +ℤ pos 0) request empty_packet in
    (s'.sent ≡ (bytes reply, 9) ∷ [])
    × (bytes_to_packet (bytes reply) ≡ ok reply)
    × (s'.responses ≡ 0 + 1)
    × (s'.invalid_format ≡ 0)
serve_valid_example =
    serve_valid (pos 0) (pos reading) task idle (omega arith) (omega arith) request_is_valid

abbrev server : Server
server = record { extra_offset = pos 0; ref_id = b'O' ∷ b'C' ∷ b'P' ∷ []; stratum = pos 1 }

start_worker-replies_example :
    (header : Packet) × (fill_static_headers server empty_packet ≡ ok header)
    × (end : State) × (start_worker server ((pos reading, task) ∷ []) ≡ ok end)
    × (end.sent ≡ replies (pos 0) header ((pos reading, task) ∷ []))
    × (end.responses + end.invalid_format ≡ 1)
    × (length end.sent ≡ end.responses)
start_worker-replies_example = start_worker-replies server ((pos reading, task) ∷ []) (omega arith)
