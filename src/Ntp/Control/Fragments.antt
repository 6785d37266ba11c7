-- ===== src/Ntp/Control/Fragments.antt =====
-- Responses of several packets.
use ntp.Prelude.{
  ℕ, ◌+◌, ◌%◌, ◌<◌, ◌≤◌, ◌≡◌, refl, ap, ◌∙◌, Bool, true, false, Option, some, List, [], ◌∷◌, ◌++◌,
  Result, ok, panic, ◌>>=◌, ltb, if◌then◌else◌, length, take, drop, replicate, take-take_append,
  arith,
}
use mathlib.Core.List.{append_assoc}
use ntp.Wire.{All, put_be}
use ntp.Wire.Struct.{encode, binary_read, binary_read-encode, Fits}
use ntp.Ntp.Control.Messages.{
  Client, MsgHead, ControlMsg, head_layout, head_values, head_of_values, has_more, prepared_head,
  communicate_with_data, response, packet_data, read_packets,
}

-- The datagram of one packet of a response.
abbrev pub datagram : ControlMsg → List ℕ
datagram m = encode head_layout (head_values m.head) ++ m.content

-- A head whose fields fit their types.
abbrev pub IsHead : MsgHead → Type 0
IsHead h = Fits head_layout (head_values h)

-- A packet whose head states its data, which fit the buffer behind the twelve bytes of the head.
pub record IsPacket (m : ControlMsg) : Type 0 where
  pub head_fits : IsHead m.head
  pub stated : m.head.count ≡ length m.content
  pub small : m.head.count ≤ 1012

-- The head and the data of a packet that was read.
head_read :
    (h : MsgHead) (content : List ℕ)
    → IsHead h
    → (binary_read head_layout (take 12 (response (encode head_layout (head_values h) ++ content)))
        >>= head_of_values)
      ≡ ok h
unfolding encode put_be head_of_values
head_read h content fits =
    let read : binary_read head_layout (encode head_layout (head_values h) ++ [])
        ≡ ok (head_values h) =
      binary_read-encode head_layout (head_values h) [] fits (omega arith) in
    ap (λ (r : Result (List ℕ)). r >>= head_of_values) read

data_read :
    (m : ControlMsg) → IsPacket m → packet_data m.head (response (datagram m)) ≡ ok m.content
unfolding packet_data encode put_be
data_read m h =
    let low : ltb ((12 + m.head.count) % 65536) 12 ≡ false = ground (arith, h.small) in
    let high : ltb 1024 ((12 + m.head.count) % 65536) ≡ false = ground (arith, h.small) in
    rw (low, high)
      (ap ok (take-take_append m.head.count 1012 m.content (replicate 1024 0) h.stated h.small))

abbrev pub answers : List ControlMsg → List (Option (List ℕ))
answers [] = []
answers (m ∷ ms) = some (datagram m) ∷ answers ms

abbrev pub contents : List ControlMsg → List ℕ
contents [] = []
contents (m ∷ ms) = m.content ++ contents ms

abbrev pub AllMore : List ControlMsg → Type 0
AllMore [] = Unit
AllMore (m ∷ ms) = (has_more m.head ≡ true) × AllMore ms

-- A round of the loop.
combined : List ℕ → List (Option (List ℕ)) → MsgHead → List ℕ → Result ControlMsg
unfolding read_packets
combined sofar reads h d =
    let rest = read_packets reads (sofar ++ d) in
    if has_more h then rest else ok (record { head = h; content = sofar ++ d })

packet_read :
    (m : ControlMsg) (reads : List (Option (List ℕ))) (sofar : List ℕ)
    → IsPacket m
    → read_packets (some (datagram m) ∷ reads) sofar ≡ combined sofar reads m.head m.content
unfolding read_packets combined
packet_read m reads sofar h =
    ap
      (λ (r : Result MsgHead).
        r >>= λ x. packet_data x (response (datagram m)) >>= combined sofar reads x)
      (head_read m.head m.content h.head_fits)
    ∙ ap (λ (r : Result (List ℕ)). r >>= combined sofar reads m.head) (data_read m h)

step_more :
    (m : ControlMsg) (reads : List (Option (List ℕ))) (sofar : List ℕ)
    → IsPacket m
    → has_more m.head ≡ true
    → read_packets (some (datagram m) ∷ reads) sofar ≡ read_packets reads (sofar ++ m.content)
unfolding combined
step_more m reads sofar h more =
    packet_read m reads sofar h
    ∙ ap
        (λ (k : Bool).
          if k
          then read_packets reads (sofar ++ m.content)
          else ok (record { head = m.head; content = sofar ++ m.content }))
        more

step_last :
    (m : ControlMsg) (reads : List (Option (List ℕ))) (sofar : List ℕ)
    → IsPacket m
    → has_more m.head ≡ false
    → read_packets (some (datagram m) ∷ reads) sofar
      ≡ ok (record { head = m.head; content = sofar ++ m.content })
unfolding combined
step_last m reads sofar h last =
    packet_read m reads sofar h
    ∙ ap
        (λ (k : Bool).
          if k
          then read_packets reads (sofar ++ m.content)
          else ok (record { head = m.head; content = sofar ++ m.content }))
        last

-- A response of any number of packets, each with its data behind a head that states their length (at
-- most 1012 bytes), More set on all but the last: the loop ends with the last packet, it combines the
-- data of all in the order in which they arrived, and the head is that of the last.
pub read_packets_combines :
    (ms : List ControlMsg) (last : ControlMsg) (later : List (Option (List ℕ))) (sofar : List ℕ)
    → All IsPacket ms
    → AllMore ms
    → IsPacket last
    → has_more last.head ≡ false
    → read_packets (answers ms ++ some (datagram last) ∷ later) sofar
      ≡ ok (record { head = last.head; content = sofar ++ (contents ms ++ last.content) })
read_packets_combines [] last later sofar h more l end = step_last last later sofar l end
read_packets_combines (m ∷ ms) last later sofar h more l end =
    step_more m (answers ms ++ some (datagram last) ∷ later) sofar h.0 more.0
    ∙ read_packets_combines ms last later (sofar ++ m.content) h.1 more.1 l end
    ∙ ap (λ (c : List ℕ). ok (record { head = last.head; content = c })) (simp append_assoc)

out_of_range :
    (h : MsgHead) (b : List ℕ) → 1012 < h.count → h.count < 65536 → packet_data h b ≡ panic
unfolding packet_data
out_of_range h b large fits = ground arith

-- A packet whose head states more data than the buffer can hold, whatever else is in it and whatever
-- was read before, makes the client panic.
pub read_packets_panics :
    (h : MsgHead) (content : List ℕ) (later : List (Option (List ℕ))) (sofar : List ℕ)
    → IsHead h
    → 1012 < h.count
    → read_packets (some (encode head_layout (head_values h) ++ content) ∷ later) sofar ≡ panic
unfolding read_packets combined
read_packets_panics h content later sofar fits large =
    let b : List ℕ = response (encode head_layout (head_values h) ++ content) in
    let count : h.count < 65536 = fits.1.1.1.1.1.1.0 in
    ap (λ (r : Result MsgHead). r >>= λ x. packet_data x b >>= combined sofar later x)
      (head_read h content fits)
    ∙ ap (λ (r : Result (List ℕ)). r >>= combined sofar later h) (out_of_range h b large count)

prepared_head-IsHead :
    (n : Client) (packet : MsgHead) (payload : List ℕ)
    → IsHead packet
    → n.sequence < 65536
    → IsHead (prepared_head n packet payload)
unfolding prepared_head
prepared_head-IsHead n packet payload h s = ground arith

-- A count: of the data where there is data, and else the one given.
abbrev CountedFor : List ℕ → ℕ → ℕ → Type 0
CountedFor [] given count = count ≡ given
CountedFor (c ∷ payload) given count = count ≡ length (c ∷ payload) % 65536

-- The head that is sent: the one given, but for the number, and for the length of the data where there
-- is data.
pub record IsSentHead (sequence : ℕ) (packet : MsgHead) (payload : List ℕ) (sent : MsgHead)
    : Type 0 where
  pub numbered : sent.sequence ≡ sequence
  pub counted : CountedFor payload packet.count sent.count
  pub version_kept : sent.vn_mode ≡ packet.vn_mode
  pub operation_kept : sent.rem_op ≡ packet.rem_op
  pub status_kept : sent.status ≡ packet.status
  pub association_kept : sent.association_id ≡ packet.association_id
  pub offset_kept : sent.offset ≡ packet.offset

prepared_head-IsSentHead :
    (n : Client) (packet : MsgHead) (payload : List ℕ)
    → IsSentHead n.sequence packet payload (prepared_head n packet payload)
unfolding prepared_head
prepared_head-IsSentHead n packet [] = record {
  numbered = refl;
  counted = refl;
  version_kept = refl;
  operation_kept = refl;
  status_kept = refl;
  association_kept = refl;
  offset_kept = refl;
}
prepared_head-IsSentHead n packet (c ∷ payload) = record {
  numbered = refl;
  counted = ground arith;
  version_kept = refl;
  operation_kept = refl;
  status_kept = refl;
  association_kept = refl;
  offset_kept = refl;
}

behind_head :
    (h : MsgHead) (payload : List ℕ)
    → drop 12 (encode head_layout (head_values h) ++ payload) ≡ payload
unfolding encode put_be
behind_head h payload = refl

-- A request, and a response of any number of packets as above: the client sends one datagram, the data
-- behind a head that is the one given but for the sequence number, which is the client's, and for the
-- count, which is the length of the data modulo 2^16 where there is data; the client's next number is
-- one more, modulo 2^16; and the message returned has the head of the last packet and the data of all.
pub communicate_with_data_combines :
    (n : Client) (packet : MsgHead) (payload : List ℕ) (ms : List ControlMsg) (last : ControlMsg)
    (later : List (Option (List ℕ)))
    → IsHead packet
    → n.sequence < 65536
    → All IsPacket ms
    → AllMore ms
    → IsPacket last
    → has_more last.head ≡ false
    → let (n', r) =
        communicate_with_data n packet payload (answers ms ++ some (datagram last) ∷ later) in
      (b : List ℕ) × (sent : MsgHead) × (n'.written ≡ n.written ++ b ∷ [])
      × ((binary_read head_layout b >>= head_of_values) ≡ ok sent)
      × IsSentHead n.sequence packet payload sent
      × (drop 12 b ≡ payload)
      × (n'.sequence ≡ (n.sequence + 1) % 65536)
      × (r ≡ ok (record { head = last.head; content = contents ms ++ last.content }))
unfolding communicate_with_data head_of_values
communicate_with_data_combines n packet payload ms last later h s fit more l end =
    let head : MsgHead = prepared_head n packet payload in
    (
      encode head_layout (head_values head) ++ payload,
      head,
      refl,
      ap (λ (r : Result (List ℕ)). r >>= head_of_values)
          (binary_read-encode head_layout (head_values head) payload
            (prepared_head-IsHead n packet payload h s) (omega arith)),
      prepared_head-IsSentHead n packet payload,
      behind_head head payload,
      refl,
      read_packets_combines ms last later [] fit more l end,
    )
