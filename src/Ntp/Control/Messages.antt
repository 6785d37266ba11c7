-- ===== src/Ntp/Control/Messages.antt =====
-- ntp/control/packet.go, the head of a message and the list of peers, and ntp/control/client.go. A
-- connection is what its reads will give, and what was written to it.
use ntp.Prelude.{
  ℕ, zero, suc, ◌+◌, ◌*◌, ◌/◌, ◌%◌, ◌^◌, Bool, not, Option, none, some, List, [], ◌∷◌, ◌++◌, Result,
  ok, err, panic, out_of_fuel, io, unsupported_operation, ◌>>=◌, bit_and, bit_or, ◌==◌, ltb,
  if◌then◌else◌, length, take, drop, replicate,
}
use ntp.Wire.Struct.{encode, binary_read}
use ntp.Ntp.Control.{
  PeerStatusWord, SystemStatusWord, read_system_status_word, read_peer_status_word,
}

-- `NTPControlMsgHead`.
pub record MsgHead : Type 0 where
  pub vn_mode : ℕ
  pub rem_op : ℕ
  pub sequence : ℕ
  pub status : ℕ
  pub association_id : ℕ
  pub offset : ℕ
  pub count : ℕ

abbrev pub head_layout : List ℕ
head_layout = 1 ∷ 1 ∷ 2 ∷ 2 ∷ 2 ∷ 2 ∷ 2 ∷ []

abbrev pub head_values : MsgHead → List ℕ
head_values h =
    h.vn_mode ∷ h.rem_op ∷ h.sequence ∷ h.status ∷ h.association_id ∷ h.offset ∷ h.count ∷ []

unfoldable pub head_of_values : List ℕ → Result MsgHead
head_of_values (v ∷ r ∷ s ∷ t ∷ a ∷ o ∷ c ∷ []) = ok (record {
  vn_mode = v;
  rem_op = r;
  sequence = s;
  status = t;
  association_id = a;
  offset = o;
  count = c;
})
head_of_values _ = panic

-- `NTPControlMsg`.
pub record ControlMsg : Type 0 where
  pub head : MsgHead
  pub content : List ℕ

-- `MakeREMOp`, and the flags and the operation that are read from the byte.
abbrev set_flag : Bool → ℕ → ℕ → ℕ
set_flag set mask out = if set then bit_or out mask else out

unfoldable pub make_rem_op : Bool → Bool → Bool → ℕ → ℕ
make_rem_op response failed more op =
    bit_or (set_flag more 0x20 (set_flag failed 0x40 (set_flag response 0x80 0))) (op % 256)

unfoldable pub is_response : MsgHead → Bool
is_response h = not (bit_and h.rem_op 0x80 == 0)

unfoldable pub has_error : MsgHead → Bool
has_error h = not (bit_and h.rem_op 0x40 == 0)

unfoldable pub has_more : MsgHead → Bool
has_more h = not (bit_and h.rem_op 0x20 == 0)

unfoldable pub get_operation : MsgHead → ℕ
get_operation h = bit_and h.rem_op 0x1f

abbrev pub op_read_status : ℕ
op_read_status = 1

abbrev pub op_read_variables : ℕ
op_read_variables = 2

-- `GetSystemStatus` and `GetPeerStatus`.
unfoldable pub get_system_status : ControlMsg → Result SystemStatusWord
unfolding get_operation read_system_status_word
get_system_status m =
    if get_operation m.head == op_read_status
    then ok (read_system_status_word m.head.status)
    else err unsupported_operation

unfoldable pub get_peer_status : ControlMsg → Result PeerStatusWord
unfolding get_operation read_peer_status_word
get_peer_status m =
    if get_operation m.head == op_read_variables
    then ok (read_peer_status_word m.head.status)
    else err unsupported_operation

-- `map[uint16]*PeerStatusWord`: a list with each key once.
abbrev pub Associations : Type 0
Associations = List (ℕ × PeerStatusWord)

unfoldable pub store : Associations → ℕ → PeerStatusWord → Associations
store [] id w = (id, w) ∷ []
store ((k, v) ∷ m) id w = if k == id then (k, w) ∷ m else (k, v) ∷ store m id w

-- The loop of `GetAssociations`. Its slices may reach beyond the length of the data, into what the
-- runtime has left behind them in the array, but panic beyond its capacity.
unfoldable pub read_associations : ℕ → List ℕ → Associations → Result Associations
unfolding read_peer_status_word store
read_associations zero b m = ok m
read_associations (suc n) (a0 ∷ a1 ∷ a2 ∷ a3 ∷ b) m = read_associations n b (
    store m (bit_or (a0 * 2 ^ 8 % 65536) a1)
      (read_peer_status_word (bit_or (a2 * 2 ^ 8 % 65536) a3)))
read_associations (suc n) b m = panic

-- `GetAssociations`, of data with `spare` behind them in their array.
unfoldable pub get_associations : List ℕ → ControlMsg → Result Associations
unfolding get_operation read_associations
get_associations spare m =
    if get_operation m.head == op_read_status
    then read_associations (m.head.count / 4) (m.content ++ spare) []
    else err unsupported_operation

-- `NTPClient`, with what was written, oldest first.
pub record Client : Type 0 where
  pub sequence : ℕ
  pub written : List (List ℕ)

-- `response`, the buffer behind a read: the rest of it is zeros.
abbrev pub buffer_size : ℕ
buffer_size = 1024

abbrev pub response : List ℕ → List ℕ
response b = take buffer_size (b ++ replicate buffer_size 0)

-- The data of one packet: `response[12:12+head.Count]`, whose end is a uint16.
unfoldable pub packet_data : MsgHead → List ℕ → Result (List ℕ)
packet_data h b =
    let end = (12 + h.count) % 65536 in
    if ltb end 12
    then panic
    else (if ltb buffer_size end then panic else ok (take h.count (drop 12 b)))

-- The loop over the packets: a read that fails is none, and the reads that there are not are waited for.
unfoldable pub read_packets : List (Option (List ℕ)) → List ℕ → Result ControlMsg
unfolding head_of_values has_more packet_data
read_packets [] sofar = out_of_fuel
read_packets (none ∷ reads) sofar = err io
read_packets (some b ∷ reads) sofar =
    (binary_read head_layout (take 12 (response b)) >>= head_of_values) >>= λ h.
    packet_data h (response b) >>= λ d.
    let rest = read_packets reads (sofar ++ d) in
    if has_more h then rest else ok (record { head = h; content = sofar ++ d })

-- What is sent: the head with the client's sequence number, and with the length of the data if there
-- is data.
unfoldable pub prepared_head : Client → MsgHead → List ℕ → MsgHead
prepared_head n packet payload = record packet {
  sequence = n.sequence;
  count = if ltb 0 (length payload) then length payload % 65536 else packet.count;
}

-- `CommunicateWithData`, on a connection that takes what is written to it.
unfoldable pub communicate_with_data :
    Client → MsgHead → List ℕ → List (Option (List ℕ)) → Client × Result ControlMsg
unfolding prepared_head read_packets
communicate_with_data n packet payload reads = (
  record {
    sequence = (n.sequence + 1) % 65536;
    written =
        n.written
        ++ (encode head_layout (head_values (prepared_head n packet payload)) ++ payload) ∷ [];
  },
  read_packets reads [],
)
