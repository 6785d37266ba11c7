-- ===== src/Ntp/Responder.antt =====
-- ntp/responder/server/server.go: how a worker answers requests. The clock reading of each task and
-- the tasks themselves, in the order in which the worker takes them from the channel, are inputs;
-- what is sent and the counters are the state. Log lines are left out.
pub mod Reply
pub mod Worker
use ntp.Prelude.{
  ℕ, ◌+◌, ◌-◌, ◌*◌, ◌/◌, List, [], ◌∷◌, ◌++◌, Result, ok, panic, err, ◌>>=◌, bit_and, ◌%◌, length,
  replicate, if◌then◌else◌,
}
use ntp.Prelude.Int.{ℤ, pos, ◌+ℤ◌, ◌*ℤ◌}
use ntp.Prelude.Word.{to_u8, to_i64, quot}
use ntp.Wire.{get_be}
use ntp.Ntp.Packet.{Packet, empty_packet, valid_settings_format, bytes}
use ntp.Ntp.Clock.{time, unix_seconds, time_of_unix}

-- The fields of `Server` that a worker reads.
pub record Server : Type 0 where
  pub extra_offset : ℤ  -- nanoseconds
  pub ref_id : List ℕ  -- the bytes of RefID
  pub stratum : ℤ

-- The fields of `task` that differ from task to task.
pub record Task : Type 0 where
  pub addr : ℕ
  pub received : ℤ
  pub request : Packet

-- What a worker and the statistics hold: the reused response, the packets written with their
-- addresses, and the two counters.
pub record State : Type 0 where
  pub response : Packet
  pub sent : List (List ℕ × ℕ)
  pub responses : ℕ
  pub invalid_format : ℕ

-- `fmt.Sprintf("%-4s", s)`, for ASCII.
unfoldable pub pad_right : List ℕ → List ℕ
pad_right s = s ++ replicate (4 - length s) b' '

-- `fillStaticHeaders`.
unfoldable pub fill_static_headers : Server → Packet → Result Packet
fill_static_headers s response = do
  id ← get_be 4 0 (pad_right s.ref_id)
  ok (record response {
    stratum = to_u8 s.stratum;
    precision = 224;
    root_delay = 0;
    root_dispersion = 10;
    reference_id = id;
  })

-- `generateResponse`.
unfoldable pub generate_response : ℤ → ℤ → Packet → Packet → Packet
generate_response now received request response =
    let vn = bit_and request.settings 0x38 in
    let last_sync = time_of_unix (quot (unix_seconds now) 1000 *ℤ pos 1000) (pos 0) in
    let sync = time last_sync in
    let rx = time received in
    let tx = time now in
    record response {
      settings = (vn + 4) % 256;
      poll = request.poll;
      ref_time_sec = sync.0;
      ref_time_frac = sync.1;
      orig_time_sec = request.tx_time_sec;
      orig_time_frac = request.tx_time_frac;
      rx_time_sec = rx.0;
      rx_time_frac = rx.1;
      tx_time_sec = tx.0;
      tx_time_frac = tx.1;
    }

-- `serve`. A failed write is only logged, and the response is counted all the same.
unfoldable pub serve : ℤ → ℤ → Task → State → State
serve extra_offset now t s =
    if valid_settings_format t.request
    then (let response =
          generate_response (now +ℤ extra_offset) (t.received +ℤ extra_offset) t.request
            s.response in
        record s {
          response = response;
          sent = s.sent ++ ((bytes response, t.addr) ∷ []);
          responses = s.responses + 1;
        })
    else (record s { invalid_format = s.invalid_format + 1 })

-- The loop of `startWorker`, over the tasks it takes, each with the clock reading of `serve`.
unfoldable pub serve_all : ℤ → List (ℤ × Task) → State → State
serve_all extra_offset [] s = s
serve_all extra_offset ((now, t) ∷ ts) s = serve_all extra_offset ts (serve extra_offset now t s)

-- `startWorker`.
unfoldable pub start_worker : Server → List (ℤ × Task) → Result State
start_worker s ts = do
  response ← fill_static_headers s empty_packet
  ok (
      serve_all s.extra_offset ts
        (record { response = response; sent = []; responses = 0; invalid_format = 0 }))
