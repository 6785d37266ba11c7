-- ===== src/Ptp/Messages.antt =====
-- The fixed-size messages of ptp/protocol/protocol.go: Sync and Delay_Req, Follow_Up, Delay_Resp and
-- Announce. `MarshalBinaryTo` writes into the caller's buffer; a `copy` of the six bytes of seconds is
-- a write, since the length test above it leaves the room.
pub mod Laws
pub mod Buffer
use ntp.Prelude.{
  ℕ, ◌+◌, ◌^◌, ◌<◌, Bool, List, [], ◌∷◌, ◌++◌, Result, ok, err, panic, out_of_fuel, ◌>>=◌, ◌>>◌,
  guard, Error, not_enough_buffer, not_enough_data, leb, length, replicate, take,
}
use ntp.Wire.{put_be, get_be, write_fields}
use ntp.Wire.Struct.{binary_read}
use ntp.Ptp.Types.{PortIdentity, Timestamp}
use ntp.Ptp.Header.{
  Header, IsHeader, IsPortIdentity, header_size, header_marshal_binary_to, unmarshal_header,
}

pub record IsTimestamp (t : Timestamp) : Type 0 where
  pub seconds_fits : t.seconds < 2 ^ 48
  pub nanoseconds_fits : t.nanoseconds < 2 ^ 32

-- `SyncDelayReq`.
pub record SyncDelayReq : Type 0 where
  pub header : Header
  pub origin_timestamp : Timestamp

pub record IsSyncDelayReq (p : SyncDelayReq) : Type 0 where
  pub header_fits : IsHeader p.header
  pub timestamp_fits : IsTimestamp p.origin_timestamp

-- `FollowUp`.
pub record FollowUp : Type 0 where
  pub header : Header
  pub precise_origin_timestamp : Timestamp

pub record IsFollowUp (p : FollowUp) : Type 0 where
  pub header_fits : IsHeader p.header
  pub timestamp_fits : IsTimestamp p.precise_origin_timestamp

-- `DelayResp`.
pub record DelayResp : Type 0 where
  pub header : Header
  pub receive_timestamp : Timestamp
  pub requesting_port_identity : PortIdentity

pub record IsDelayResp (p : DelayResp) : Type 0 where
  pub header_fits : IsHeader p.header
  pub timestamp_fits : IsTimestamp p.receive_timestamp
  pub identity_fits : IsPortIdentity p.requesting_port_identity

-- The writes of a timestamp at `off`.
unfoldable pub timestamp_fields : ℕ → Timestamp → List (ℕ × List ℕ)
timestamp_fields off t = (off, put_be 6 t.seconds) ∷ (off + 6, put_be 4 t.nanoseconds) ∷ []

unfoldable pub sync_fields : ℕ → SyncDelayReq → List (ℕ × List ℕ)
unfolding timestamp_fields
sync_fields n p = timestamp_fields n p.origin_timestamp

-- `SyncDelayReq.MarshalBinaryTo`: the buffer after it, and the bytes used.
unfoldable pub sync_marshal_binary_to : SyncDelayReq → List ℕ → Result (List ℕ × ℕ)
unfolding header_marshal_binary_to
sync_marshal_binary_to p b = do
  guard (leb (header_size + 10) (length b)) not_enough_buffer
  (b', n) ← header_marshal_binary_to p.header b
  b'' ← write_fields (sync_fields n p) b'
  ok (b'', n + 10)

-- `SyncDelayReq.UnmarshalBinary`.
unfoldable pub sync_unmarshal_binary : List ℕ → Result SyncDelayReq
sync_unmarshal_binary b = do
  guard (leb (header_size + 10) (length b)) not_enough_data
  h ← unmarshal_header b
  s ← get_be 6 header_size b
  ns ← get_be 4 (header_size + 6) b
  ok (record { header = h; origin_timestamp = record { seconds = s; nanoseconds = ns } })

unfoldable pub follow_up_fields : ℕ → FollowUp → List (ℕ × List ℕ)
unfolding timestamp_fields
follow_up_fields n p = timestamp_fields n p.precise_origin_timestamp

-- `FollowUp.MarshalBinaryTo`.
unfoldable pub follow_up_marshal_binary_to : FollowUp → List ℕ → Result (List ℕ × ℕ)
unfolding header_marshal_binary_to
follow_up_marshal_binary_to p b = do
  guard (leb (header_size + 10) (length b)) not_enough_buffer
  (b', n) ← header_marshal_binary_to p.header b
  b'' ← write_fields (follow_up_fields n p) b'
  ok (b'', n + 10)

-- `FollowUp.UnmarshalBinary`.
unfoldable pub follow_up_unmarshal_binary : List ℕ → Result FollowUp
follow_up_unmarshal_binary b = do
  guard (leb (header_size + 10) (length b)) not_enough_data
  h ← unmarshal_header b
  s ← get_be 6 header_size b
  ns ← get_be 4 (header_size + 6) b
  ok (record { header = h; precise_origin_timestamp = record { seconds = s; nanoseconds = ns } })

unfoldable pub delay_resp_fields : ℕ → DelayResp → List (ℕ × List ℕ)
unfolding timestamp_fields
delay_resp_fields n p =
    timestamp_fields n p.receive_timestamp
    ++ (n + 10, put_be 8 p.requesting_port_identity.clock_identity)
      ∷ (n + 18, put_be 2 p.requesting_port_identity.port_number)
      ∷ []

-- `DelayResp.MarshalBinaryTo`.
unfoldable pub delay_resp_marshal_binary_to : DelayResp → List ℕ → Result (List ℕ × ℕ)
unfolding header_marshal_binary_to
delay_resp_marshal_binary_to p b = do
  guard (leb (header_size + 20) (length b)) not_enough_buffer
  (b', n) ← header_marshal_binary_to p.header b
  b'' ← write_fields (delay_resp_fields n p) b'
  ok (b'', n + 20)

-- `DelayResp.UnmarshalBinary`.
unfoldable pub delay_resp_unmarshal_binary : List ℕ → Result DelayResp
delay_resp_unmarshal_binary b = do
  guard (leb (header_size + 20) (length b)) not_enough_data
  h ← unmarshal_header b
  s ← get_be 6 header_size b
  ns ← get_be 4 (header_size + 6) b
  clock ← get_be 8 (header_size + 10) b
  port ← get_be 2 (header_size + 18) b
  ok (record {
    header = h;
    receive_timestamp = record { seconds = s; nanoseconds = ns };
    requesting_port_identity = record { clock_identity = clock; port_number = port };
  })

-- `MarshalBinary`: a fresh buffer of `size` zeros, cut to the bytes used.
unfoldable pub marshal_binary : ℕ → (List ℕ → Result (List ℕ × ℕ)) → Result (List ℕ)
marshal_binary size marshal_to = do (b, n) ← marshal_to (replicate size 0); ok (take n b)

-- `Bytes` of a packet that marshals itself: two zero bytes behind it.
unfoldable pub bytes : Result (List ℕ) → Result (List ℕ)
bytes marshalled = do b ← marshalled; ok (b ++ 0 ∷ 0 ∷ [])

-- `BytesTo`: the same in the caller's buffer.
unfoldable pub bytes_to : (List ℕ → Result (List ℕ × ℕ)) → List ℕ → Result (List ℕ × ℕ)
bytes_to marshal_to buf = do
  (b, n) ← marshal_to buf
  b' ← write_fields ((n, 0 ∷ []) ∷ (n + 1, 0 ∷ []) ∷ []) b
  ok (b', n + 2)

unfoldable pub sync_bytes : SyncDelayReq → Result (List ℕ)
unfolding marshal_binary bytes
sync_bytes p = bytes (marshal_binary 44 (sync_marshal_binary_to p))

unfoldable pub follow_up_bytes : FollowUp → Result (List ℕ)
unfolding marshal_binary bytes
follow_up_bytes p = bytes (marshal_binary 44 (follow_up_marshal_binary_to p))

unfoldable pub delay_resp_bytes : DelayResp → Result (List ℕ)
unfolding marshal_binary bytes
delay_resp_bytes p = bytes (marshal_binary 54 (delay_resp_marshal_binary_to p))
