-- ===== src/Ptp/Types.antt =====
-- ptp/protocol/types.go and the first lines of unicast.go: message types, port identities,
-- timestamps, clock identities and intervals. `MessageType`, `TLVType` and the other integer types
-- are numbers of their width; a `LogInterval` (int8) and a `Correction` (int64) are bit patterns.
pub mod Laws
use ntp.Prelude.{
  ℕ, zero, suc, ◌+◌, ◌-◌, ◌*◌, ◌/◌, ◌%◌, ◌^◌, ◌<◌, List, [], ◌∷◌, ◌++◌, Result, ok, err, panic,
  Error, not_enough_data, unsupported_length, eof, unexpected_eof, ◌>>=◌, bit_and, bit_or, ltb, leb,
  ◌==◌, if◌then◌else◌, length, take, drop, Option, none, some,
}
use ntp.Prelude.Int.{ℤ, pos, negsuc, ◌+ℤ◌, ◌*ℤ◌}
use ntp.Prelude.Word.{low_bits, signed64, floor_div}
use ntp.Wire.{get_be, read_full}

-- `SdoIDAndMsgType.MsgType` and `NewSdoIDAndMsgType`.
unfoldable pub msg_type : ℕ → ℕ
msg_type m = bit_and m 0xf

unfoldable pub new_sdo_id_and_msg_type : ℕ → ℕ → ℕ
new_sdo_id_and_msg_type message_type sdo_id = bit_or (sdo_id * 2 ^ 4 % 256) message_type

-- `ProbeMsgType`.
unfoldable pub probe_msg_type : List ℕ → Result ℕ
probe_msg_type [] = err not_enough_data
probe_msg_type (b ∷ bs) = ok (msg_type b)

-- `UnicastMsgTypeAndFlags.MsgType` and `NewUnicastMsgTypeAndFlags`.
unfoldable pub unicast_msg_type : ℕ → ℕ
unicast_msg_type m = m / 2 ^ 4

unfoldable pub new_unicast_msg_type_and_flags : ℕ → ℕ → ℕ
new_unicast_msg_type_and_flags message_type flags =
    bit_or (message_type * 2 ^ 4 % 256) (bit_and flags 0x0f)

-- `PortIdentity`: a uint64 and a uint16.
pub record PortIdentity : Type 0 where
  pub clock_identity : ℕ
  pub port_number : ℕ

-- `Timestamp`: the six bytes of the seconds are the number that they store, highest byte first.
pub record Timestamp : Type 0 where
  pub seconds : ℕ
  pub nanoseconds : ℕ

abbrev second : ℕ
second = 1000000000

-- `Timestamp.Time`, as nanoseconds since the Unix epoch.
unfoldable pub timestamp_time : Timestamp → ℤ
timestamp_time t = pos (t.seconds * second + t.nanoseconds)

-- The nanoseconds within the second, `time.Time.Nanosecond`.
abbrev pub nanosecond : ℤ → ℕ
nanosecond (pos n) = n % second
nanosecond (negsuc n) = second - 1 - n % second

-- `NewTimestamp`: the last six bytes of the `uint64` of the seconds.
unfoldable pub new_timestamp : ℤ → Timestamp
new_timestamp t = record {
  seconds = low_bits 64 (floor_div t second) % 2 ^ 48;
  nanoseconds = nanosecond t % 2 ^ 32;
}

-- `NewClockIdentity`: the EUI-64 of a MAC address.
unfoldable pub new_clock_identity : List ℕ → Result ℕ
new_clock_identity (a ∷ b ∷ c ∷ d ∷ e ∷ f ∷ []) =
    get_be 8 0 (a ∷ b ∷ c ∷ 0xff ∷ 0xfe ∷ d ∷ e ∷ f ∷ [])
new_clock_identity (a ∷ b ∷ c ∷ d ∷ e ∷ f ∷ g ∷ h ∷ []) =
    get_be 8 0 (a ∷ b ∷ c ∷ d ∷ e ∷ f ∷ g ∷ h ∷ [])
new_clock_identity mac = err unsupported_length

-- `PTPText.UnmarshalBinary`: `length + 1` wraps at 256, and a short text is then `binary.Read`'s
-- error. `MarshalBinary` pads to an even length.
unfoldable pub unmarshal_text : List ℕ → Result (List ℕ)
unmarshal_text [] = err eof
unmarshal_text (n ∷ bs) =
    if n == 0
    then ok []
    else (if ltb (length (n ∷ bs)) ((n + 1) % 256)
        then err not_enough_data
        else elim (read_full n bs) [ none ↦ ok (take n bs) | some e ↦ err e ])

unfoldable pub marshal_text : List ℕ → Result (List ℕ)
marshal_text text =
    if ltb 255 (length text)
    then err unsupported_length
    else (let n = length text in ok (n ∷ (text ++ (if n % 2 == 0 then [] else 0 ∷ []))))
