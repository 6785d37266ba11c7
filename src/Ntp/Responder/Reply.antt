-- ===== src/Ntp/Responder/Reply.antt =====
-- One reply, field by field.
use ntp.Prelude.{
  ℕ, ◌+◌, ◌-◌, ◌*◌, ◌/◌, ◌%◌, ◌^◌, ◌<◌, ◌≤◌, ◌≡◌, refl, ap, ◌∙◌, true, false, List, [], ◌∷◌, ◌++◌,
  ok, length, arith, bit_and, length-append, length-replicate, replicate,
}
use ntp.Prelude.Int.{ℤ, pos, ◌+ℤ◌, ◌*ℤ◌}
use ntp.Prelude.Bits.{bit_and-mask, bit_and-shifted}
use ntp.Prelude.Word.{to_u8, quot, floor_div, mul-pos, add-pos, low_bits_lt}
use ntp.Wire.Struct.{read_enough}
use ntp.Wire.Laws.{read-lt, All-append, All-replicate}
use mathlib.Core.List.{append-nil}
use ntp.Wire.{IsByte, All}
use ntp.Ntp.Packet.{Packet, IsPacket, valid_settings_format, bytes, bytes_to_packet}
use ntp.Ntp.Packet.Laws.{bytes_to_packet-bytes}
use ntp.Ntp.Clock.{time, unix_seconds, time_of_unix, second, nanoseconds_to_unix}
use ntp.Ntp.Clock.Laws.{time_since}
use ntp.Ntp.Responder.{
  Server, Task, State, fill_static_headers, generate_response, serve, pad_right,
}
use ntp.Ntp.Responder.{generate_response}

-- The version bits of the first byte.
version_bits : (s : ℕ) → s < 256 → bit_and s 0x38 ≡ s / 8 % 8 * 8
version_bits s h = bit_and-shifted 3 s 7 ∙ ap (λ (t : ℕ). t * 8) (bit_and-mask 3 (s / 8))

-- A reply carries the version of the request, leap indicator 0 and mode 4, the request's poll, and
-- the request's transmit time as its origin; the stamps are those of the two clock readings.
pub generate_response_echo :
    (now received : ℤ) (request response : Packet)
    → request.settings < 256
    → let r = generate_response now received request response in
      (r.settings ≡ request.settings / 8 % 8 * 8 + 4)
      × (r.poll ≡ request.poll)
      × (r.orig_time_sec ≡ request.tx_time_sec)
      × (r.orig_time_frac ≡ request.tx_time_frac)
      × ((r.rx_time_sec, r.rx_time_frac) ≡ time received)
      × ((r.tx_time_sec, r.tx_time_frac) ≡ time now)
unfolding generate_response
generate_response_echo now received request response h =
    let v = version_bits request.settings h in (omega (arith, v), refl, refl, refl, refl, refl)

time-IsU32 : (t : ℤ) → ((time t).0 < 4294967296) × ((time t).1 < 4294967296)
unfolding time
time-IsU32 t = (low_bits_lt 32 _ (omega arith), low_bits_lt 32 _ (omega arith))

generate_response-IsPacket :
    (now received : ℤ) (request response : Packet)
    → IsPacket request
    → IsPacket response
    → IsPacket (generate_response now received request response)
unfolding generate_response
generate_response-IsPacket now received request response q p =
    let last_sync : ℤ = time_of_unix (quot (unix_seconds now) 1000 *ℤ pos 1000) (pos 0) in
    omega (arith, time-IsU32 now, time-IsU32 received, time-IsU32 last_sync)

-- Between 1970 and 2036 the reference time is a whole second, at most 1000 seconds before the
-- transmit time and never after it.
pub generate_response_sync :
    (n : ℕ) (received : ℤ) (request response : Packet)
    → n + nanoseconds_to_unix < 2 ^ 32 * second
    → let r = generate_response (pos n) received request response in
      (r.ref_time_frac ≡ 0)
      × (r.ref_time_sec ≤ r.tx_time_sec)
      × (r.tx_time_sec < r.ref_time_sec + 1000)
unfolding generate_response floor_div quot
generate_response_sync n received request response h =
    let m : ℕ = n / second / 1000 * 1000 * second in
    let sync : ℤ = time_of_unix (pos (n / second / 1000) *ℤ pos 1000) (pos 0) in
    let e : sync ≡ pos m = rw (mul-pos, mul-pos, add-pos) (ap pos (omega arith)) in
    rw
      (
        time_since (pos n) (n + nanoseconds_to_unix) (add-pos _ _) (omega arith),
        e,
        time_since (pos m) (m + nanoseconds_to_unix) (add-pos _ _) (omega arith),
      )
      (omega arith)

-- The static headers can always be filled in, and give a packet whose fields fit their types.
pub fill_static_headers_total :
    (s : Server) (response : Packet)
    → All IsByte s.ref_id
    → IsPacket response
    → (r : Packet) × (fill_static_headers s response ≡ ok r) × IsPacket r
unfolding fill_static_headers pad_right
fill_static_headers_total s response h p =
    let text : List ℕ = s.ref_id ++ replicate (4 - length s.ref_id) b' ' in
    let long : 4 ≤ length text = omega (
      arith,
      length-append s.ref_id (replicate (4 - length s.ref_id) b' '),
      length-replicate {A = ℕ} (4 - length s.ref_id) b' ',
    ) in
    let (id, e) = read_enough 4 0 text long in
    let small : id < 256 ^ 4 =
      read-lt 4 text id
        (All-append IsByte s.ref_id _ h
          (All-replicate IsByte (4 - length s.ref_id) b' ' (omega arith)))
        e in
    (
      record response {
        stratum = to_u8 s.stratum;
        precision = 224;
        root_delay = 0;
        root_dispersion = 10;
        reference_id = id;
      },
      rw e,
      omega (arith, low_bits_lt 8 s.stratum),
    )

-- A request with a valid first byte is answered to its sender by a packet that decodes to the reply;
-- one response is counted, and none as invalid.
pub serve_valid :
    (extra now : ℤ) (t : Task) (s : State)
    → IsPacket t.request
    → IsPacket s.response
    → valid_settings_format t.request ≡ true
    → let s' = serve extra now t s in
      let reply = generate_response (now +ℤ extra) (t.received +ℤ extra) t.request s.response in
      (s'.sent ≡ s.sent ++ ((bytes reply, t.addr) ∷ []))
      × (bytes_to_packet (bytes reply) ≡ ok reply)
      × (s'.responses ≡ s.responses + 1)
      × (s'.invalid_format ≡ s.invalid_format)
unfolding serve
serve_valid extra now t s q p v =
    let reply : Packet =
      generate_response (now +ℤ extra) (t.received +ℤ extra) t.request s.response in
    let fits : IsPacket reply =
      generate_response-IsPacket (now +ℤ extra) (t.received +ℤ extra) t.request s.response q p in
    rw v (refl, rw append-nil at (bytes_to_packet-bytes reply [] fits), refl, refl)

serve_invalid :
    (extra now : ℤ) (t : Task) (s : State)
    → valid_settings_format t.request ≡ false
    → serve extra now t s ≡ record s { invalid_format = s.invalid_format + 1 }
unfolding serve
serve_invalid extra now t s v = rw v
