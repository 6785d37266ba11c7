-- ===== src/Ntp/Control/Examples.antt =====
-- A status response of two packets, and one that claims more data than fits.
use ntp.Prelude.{
  ℕ, ◌+◌, ◌%◌, ◌≡◌, refl, true, false, List, [], ◌∷◌, ◌++◌, take, drop, some, ok, panic, ◌>>=◌,
  arith, length,
}
use ntp.Wire.Struct.{encode, binary_read}
use ntp.Ntp.Control.Messages.{
  Client, MsgHead, head_layout, head_values, head_of_values, has_more, get_operation,
  op_read_status, communicate_with_data, read_packets, Associations, get_associations,
}
use ntp.Ntp.Control.Fragments.{
  IsPacket, IsSentHead, datagram, answers, contents, communicate_with_data_combines,
  read_packets_panics,
}
use ntp.Ntp.Control.Associations.{
  packet, packets, peers, entry, last_status, get_associations_of_response,
}

abbrev head : ℕ → ℕ → ℕ → MsgHead
head rem_op offset count = record {
  vn_mode = 0x1e;
  rem_op = rem_op;
  sequence = 1;
  status = 0x06f5;
  association_id = 0;
  offset = offset;
  count = count;
}

abbrev first : List (ℕ × ℕ)
first = (1, 0x961a) ∷ (2, 0x941a) ∷ []

abbrev second : List (ℕ × ℕ)
second = (3, 0x931a) ∷ []

abbrev client : Client
client = record { sequence = 65535; written = [] }

first-IsPacket : IsPacket (packet (head 0xa1 0 8) first)
first-IsPacket = record { head_fits = omega arith; stated = refl; small = omega arith }

second-IsPacket : IsPacket (packet (head 0x81 8 4) second)
second-IsPacket = record { head_fits = omega arith; stated = refl; small = omega arith }

first-more : has_more (head 0xa1 0 8) ≡ true
unfolding has_more
first-more = refl

second-last : has_more (head 0x81 8 4) ≡ false
unfolding has_more
second-last = refl

second-status : get_operation (head 0x81 8 4) ≡ op_read_status
unfolding get_operation
second-status = refl

communicate_with_data_combines_example :
    let (n', r) = communicate_with_data client (head 0x01 0 0) [] (
      answers (packet (head 0xa1 0 8) first ∷ [])
      ++ some (datagram (packet (head 0x81 8 4) second)) ∷ []) in
    (b : List ℕ) × (sent : MsgHead) × (n'.written ≡ [] ++ b ∷ [])
    × ((binary_read head_layout b >>= head_of_values) ≡ ok sent)
    × IsSentHead 65535 (head 0x01 0 0) [] sent
    × (drop 12 b ≡ [])
    × (n'.sequence ≡ (65535 + 1) % 65536)
    × (r
        ≡ ok (record {
          head = head 0x81 8 4;
          content =
              contents (packet (head 0xa1 0 8) first ∷ [])
              ++ (packet (head 0x81 8 4) second).content;
        }))
communicate_with_data_combines_example =
    communicate_with_data_combines client (head 0x01 0 0) [] (packet (head 0xa1 0 8) first ∷ [])
      (packet (head 0x81 8 4) second) [] (omega arith) (omega arith) (first-IsPacket, tt)
      (first-more, tt) second-IsPacket second-last

read_packets_panics_example :
    read_packets (some (encode head_layout (head_values (head 0x81 0 1013)) ++ []) ∷ []) [] ≡ panic
read_packets_panics_example =
    read_packets_panics (head 0x81 0 1013) [] [] [] (omega arith) (omega arith)

-- Three peers are sent, and one is found.
get_associations_of_response_example :
    (m : Associations) × ((read_packets
          (answers (packets ((head 0xa1 0 8, first) ∷ []))
            ++ some (datagram (packet (head 0x81 8 4) second)) ∷ [])
          []
        >>= get_associations (0 ∷ 0 ∷ []))
      ≡ ok m)
    × ((id : ℕ)
        → entry m id
          ≡ last_status (take (length second) (peers ((head 0xa1 0 8, first) ∷ []) ++ second)) id)
get_associations_of_response_example =
    get_associations_of_response ((head 0xa1 0 8, first) ∷ []) (head 0x81 8 4) second []
      (0 ∷ 0 ∷ []) (first-IsPacket, tt) (first-more, tt) second-IsPacket second-last second-status
      (omega arith)
