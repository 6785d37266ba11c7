-- ===== src/Ntp/Clock.antt =====
-- ntp/protocol/ntp.go: NTP timestamps and the offset formula. A `time.Time` is its distance from the
-- Unix epoch in nanoseconds, an integer; `int64` arithmetic wraps, and `Sub` saturates.
pub mod Laws
use ntp.Prelude.{ℕ, ◌+◌, ◌*◌, ◌/◌, ◌^◌, Bool, if◌then◌else◌}
use ntp.Prelude.Int.{ℤ, pos, negsuc, ◌+ℤ◌, ◌-ℤ◌, ◌*ℤ◌, ltb_ℤ}
use ntp.Prelude.Word.{to_u32, to_i64, quot, floor_div, saturate}

abbrev pub second : ℕ
second = 1000000000

-- The difference between the NTP epoch (1900) and the Unix epoch.
abbrev pub nanoseconds_to_unix : ℕ
nanoseconds_to_unix = 2208988800000000000

-- `time.Time.Unix` and `time.Unix(secs, nanos)`.
abbrev pub unix_seconds : ℤ → ℤ
unix_seconds t = floor_div t second

abbrev pub time_of_unix : ℤ → ℤ → ℤ
time_of_unix secs nanos = secs *ℤ pos second +ℤ nanos

-- `Time`: the seconds and the fraction of an NTP timestamp, each a `uint32`.
unfoldable pub time : ℤ → ℕ × ℕ
time t =
    let nsec = to_i64 (t +ℤ pos nanoseconds_to_unix) in
    let sec = quot nsec second in
    (
      to_u32 sec,
      to_u32 (quot (to_i64 (to_i64 (nsec -ℤ to_i64 (sec *ℤ pos second)) *ℤ pos (2 ^ 32))) second),
    )

-- `Unix`.
unfoldable pub unix : ℕ → ℕ → ℤ
unix seconds fractions =
    let secs = pos seconds -ℤ pos (nanoseconds_to_unix / second) in
    let nanos = pos (fractions * second / 2 ^ 32) in time_of_unix secs nanos

-- `abs`, which leaves the least `int64` as it is.
unfoldable pub abs : ℤ → ℤ
abs x = if ltb_ℤ x (pos 0) then to_i64 (pos 0 -ℤ x) else x

-- `AvgNetworkDelay`.
unfoldable pub avg_network_delay : ℤ → ℤ → ℤ → ℤ → ℤ
avg_network_delay client_transmit server_receive server_transmit client_receive =
    let forward_path = saturate (server_receive -ℤ client_transmit) in
    let return_path = saturate (client_receive -ℤ server_transmit) in
    quot (abs (to_i64 (forward_path +ℤ return_path))) 2

-- `CurrentRealTime`.
unfoldable pub current_real_time : ℤ → ℤ → ℤ
current_real_time server_transmit delay = server_transmit +ℤ delay

-- `CalculateOffset`.
unfoldable pub calculate_offset : ℤ → ℤ → ℤ
calculate_offset real local = to_i64 (real -ℤ local)
