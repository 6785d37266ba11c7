-- ===== src/Ptp/Signaling.antt =====
-- ptp/protocol/unicast.go: Signaling messages and their unicast TLVs. A TLV keeps its stored head.
pub mod Marshal
pub mod Unmarshal
pub mod RoundTrip
pub mod Ends
use ntp.Ptp.Messages.{marshal_binary, bytes}
use ntp.Prelude.{
  ℕ, zero, suc, ◌+◌, ◌^◌, ◌<◌, ◌≡◌, Bool, true, false, not, List, [], ◌∷◌, ◌++◌, Result, ok, err,
  panic, out_of_fuel, ◌>>=◌, ◌>>◌, guard, Error, not_enough_data, wrong_message, unsupported_type,
  no_tlvs, leb, ltb, ◌==◌, if◌then◌else◌, length, drop,
}
use ntp.Wire.{put_be, get_be, write_fields}
use ntp.Ptp.TlvType
use ntp.Ptp.MessageType
use ntp.Ptp.Types.{PortIdentity, msg_type}
use ntp.Ptp.Header.{Header, header_size, header_marshal_binary_to, unmarshal_header, message_type}

abbrev pub tlv_head_size : ℕ
tlv_head_size = 4

-- `TLVHead`: two uint16.
pub record TlvHead : Type 0 where
  pub tlv_type : ℕ
  pub length_field : ℕ

-- `RequestUnicastTransmissionTLV`: type and reserved bits, the bits of an int8, a uint32.
pub record RequestUnicast : Type 0 where
  pub head : TlvHead
  pub msg_type_and_reserved : ℕ
  pub log_inter_message_period : ℕ
  pub duration_field : ℕ

-- `GrantUnicastTransmissionTLV`.
pub record GrantUnicast : Type 0 where
  pub head : TlvHead
  pub msg_type_and_reserved : ℕ
  pub log_inter_message_period : ℕ
  pub duration_field : ℕ
  pub reserved : ℕ
  pub renewal : ℕ

-- `CancelUnicastTransmissionTLV`.
pub record CancelUnicast : Type 0 where
  pub head : TlvHead
  pub msg_type_and_flags : ℕ
  pub reserved : ℕ

-- `AcknowledgeCancelUnicastTransmissionTLV`.
pub record AcknowledgeCancelUnicast : Type 0 where
  pub head : TlvHead
  pub msg_type_and_flags : ℕ
  pub reserved : ℕ

pub data Tlv : Type 0 where
  request : RequestUnicast → Tlv
  grant : GrantUnicast → Tlv
  cancel : CancelUnicast → Tlv
  acknowledge : AcknowledgeCancelUnicast → Tlv

-- `Type` of the `TLV` interface.
abbrev pub tlv_head : Tlv → TlvHead
tlv_head (request t) = t.head
tlv_head (grant t) = t.head
tlv_head (cancel t) = t.head
tlv_head (acknowledge t) = t.head

pub record Signaling : Type 0 where
  pub header : Header
  pub target_port_identity : PortIdentity
  pub tlvs : List Tlv

-- `tlvHeadMarshalBinaryTo`, at `off`.
unfoldable pub tlv_head_fields : ℕ → TlvHead → List (ℕ × List ℕ)
tlv_head_fields off t = (off, put_be 2 t.tlv_type) ∷ (off + 2, put_be 2 t.length_field) ∷ []

-- The writes of each TLV's `MarshalBinaryTo` into `b[off:]`.
unfoldable pub tlv_fields : ℕ → Tlv → List (ℕ × List ℕ)
unfolding tlv_head_fields
tlv_fields off (request t) =
    tlv_head_fields off t.head
    ++ (off + 4, put_be 1 t.msg_type_and_reserved)
      ∷ (off + 5, put_be 1 t.log_inter_message_period)
      ∷ (off + 6, put_be 4 t.duration_field)
      ∷ []
tlv_fields off (grant t) =
    tlv_head_fields off t.head
    ++ (off + 4, put_be 1 t.msg_type_and_reserved)
      ∷ (off + 5, put_be 1 t.log_inter_message_period)
      ∷ (off + 6, put_be 4 t.duration_field)
      ∷ (off + 10, put_be 1 t.reserved)
      ∷ (off + 11, put_be 1 t.renewal)
      ∷ []
tlv_fields off (cancel t) =
    tlv_head_fields off t.head
    ++ (off + 4, put_be 1 t.msg_type_and_flags) ∷ (off + 5, put_be 1 t.reserved) ∷ []
tlv_fields off (acknowledge t) =
    tlv_head_fields off t.head
    ++ (off + 4, put_be 1 t.msg_type_and_flags) ∷ (off + 5, put_be 1 t.reserved) ∷ []

-- What each `MarshalBinaryTo` returns: the bytes that the TLV takes.
abbrev pub tlv_size : Tlv → ℕ
tlv_size (request t) = tlv_head_size + 6
tlv_size (grant t) = tlv_head_size + 8
tlv_size (cancel t) = tlv_head_size + 2
tlv_size (acknowledge t) = tlv_head_size + 2

-- The loop over the TLVs in `Signaling.MarshalBinaryTo`.
unfoldable pub marshal_tlvs : List Tlv → ℕ → List ℕ → Result (List ℕ × ℕ)
marshal_tlvs [] off b = ok (b, off)
marshal_tlvs (t ∷ ts) off b =
    write_fields (tlv_fields off t) b >>= marshal_tlvs ts (off + tlv_size t)

abbrev pub is_nil : List Tlv → Bool
is_nil [] = true
is_nil (t ∷ ts) = false

unfoldable pub target_fields : ℕ → PortIdentity → List (ℕ × List ℕ)
target_fields n p = (n, put_be 8 p.clock_identity) ∷ (n + 8, put_be 2 p.port_number) ∷ []

-- `Signaling.MarshalBinaryTo`.
unfoldable pub signaling_marshal_binary_to : Signaling → List ℕ → Result (List ℕ × ℕ)
unfolding header_marshal_binary_to
signaling_marshal_binary_to p b = do
  guard (not (is_nil p.tlvs)) no_tlvs
  (b', n) ← header_marshal_binary_to p.header b
  b'' ← write_fields (target_fields n p.target_port_identity) b'
  marshal_tlvs p.tlvs (n + 10) b''

-- `Bytes` of a Signaling message, whose `MarshalBinary` has a buffer of 200 bytes.
unfoldable pub signaling_bytes : Signaling → Result (List ℕ)
unfolding marshal_binary bytes
signaling_bytes p = bytes (marshal_binary 200 (signaling_marshal_binary_to p))

-- `unmarshalTLVHeader`.
unfoldable pub unmarshal_tlv_head : List ℕ → Result TlvHead
unmarshal_tlv_head b = do
  guard (leb tlv_head_size (length b)) not_enough_data
  t ← get_be 2 0 b
  n ← get_be 2 2 b
  ok (record { tlv_type = t; length_field = n })

-- The `UnmarshalBinary` of each TLV.
unfoldable pub unmarshal_request : List ℕ → Result Tlv
unfolding unmarshal_tlv_head
unmarshal_request b = do
  h ← unmarshal_tlv_head b
  m ← get_be 1 4 b
  i ← get_be 1 5 b
  d ← get_be 4 6 b
  ok (
      request (record {
        head = h;
        msg_type_and_reserved = m;
        log_inter_message_period = i;
        duration_field = d;
      }))

unfoldable pub unmarshal_grant : List ℕ → Result Tlv
unfolding unmarshal_tlv_head
unmarshal_grant b = do
  h ← unmarshal_tlv_head b
  m ← get_be 1 4 b
  i ← get_be 1 5 b
  d ← get_be 4 6 b
  r ← get_be 1 10 b
  w ← get_be 1 11 b
  ok (
      grant (record {
        head = h;
        msg_type_and_reserved = m;
        log_inter_message_period = i;
        duration_field = d;
        reserved = r;
        renewal = w;
      }))

unfoldable pub unmarshal_cancel : List ℕ → Result Tlv
unfolding unmarshal_tlv_head
unmarshal_cancel b = do
  h ← unmarshal_tlv_head b
  m ← get_be 1 4 b
  r ← get_be 1 5 b
  ok (cancel (record { head = h; msg_type_and_flags = m; reserved = r }))

unfoldable pub unmarshal_acknowledge : List ℕ → Result Tlv
unfolding unmarshal_tlv_head
unmarshal_acknowledge b = do
  h ← unmarshal_tlv_head b
  m ← get_be 1 4 b
  r ← get_be 1 5 b
  ok (acknowledge (record { head = h; msg_type_and_flags = m; reserved = r }))

-- The `switch` on the type of the next TLV.
unfoldable pub unmarshal_tlv : ℕ → List ℕ → Result Tlv
unmarshal_tlv tlv_type b =
    if tlv_type == TlvType.acknowledge_cancel_unicast_transmission
    then unmarshal_acknowledge b
    else (if tlv_type == TlvType.grant_unicast_transmission
        then unmarshal_grant b
        else (if tlv_type == TlvType.request_unicast_transmission
            then unmarshal_request b
            else (if tlv_type == TlvType.cancel_unicast_transmission
                then unmarshal_cancel b
                else err unsupported_type)))

-- The TLV at `b[off:]`, its type read first.
unfoldable pub next_tlv : ℕ → List ℕ → Result Tlv
next_tlv off b = do t ← get_be 2 off b; unmarshal_tlv t (drop off b)

-- The loop of `Signaling.UnmarshalBinary`. Each round moves on by at least the size of a head, so
-- `message_length` rounds are enough.
unfoldable pub unmarshal_tlvs : ℕ → ℕ → ℕ → List ℕ → List Tlv → Result (List Tlv)
unmarshal_tlvs zero message_length off b tlvs =
    if ltb message_length (off + tlv_head_size) then ok tlvs else out_of_fuel
unmarshal_tlvs (suc fuel) message_length off b tlvs =
    let round = next_tlv off b >>= λ t.
    unmarshal_tlvs fuel message_length (off + tlv_head_size + (tlv_head t).length_field) b
      (tlvs ++ t ∷ []) in
    if ltb message_length (off + tlv_head_size) then ok tlvs else round

-- `Signaling.UnmarshalBinary`, into a packet that has no TLVs yet.
unfoldable pub signaling_unmarshal_binary : List ℕ → Result Signaling
signaling_unmarshal_binary b = do
  guard (leb (header_size + 10 + tlv_head_size) (length b)) not_enough_data
  h ← unmarshal_header b
  guard (message_type h == MessageType.signaling) wrong_message
  clock ← get_be 8 header_size b
  port ← get_be 2 (header_size + 8) b
  tlvs ← unmarshal_tlvs h.message_length h.message_length (header_size + 10) b []
  guard (not (is_nil tlvs)) no_tlvs
  ok (record {
    header = h;
    target_port_identity = record { clock_identity = clock; port_number = port };
    tlvs = tlvs;
  })
