-- ===== src/Ntp/Control/Associations.antt =====
-- The peers in a response to a request for the status.
use ntp.Prelude.{
  ℕ, zero, suc, ◌*◌, ◌/◌, ◌%◌, ◌^◌, ◌<◌, ◌≤◌, ◌≡◌, refl, ap, ◌∙◌, Bool, true, false, Option, none,
  some, List, [], ◌∷◌, ◌++◌, Result, ok, err, unsupported_operation, sym, ◌>>=◌, ◌==◌,
  if◌then◌else◌, length, take, length-append, bit_or, arith,
}
use ntp.Prelude.Bits.{bit_or-shifted}
use ntp.Wire.{All}
use ntp.Ntp.Control.{PeerStatusWord, read_peer_status_word}
use ntp.Ntp.Control.Messages.{
  MsgHead, ControlMsg, get_operation, op_read_status, has_more, Associations, store,
  read_associations, get_associations, read_packets,
}
use ntp.Ntp.Control.Fragments.{
  IsPacket, AllMore, answers, contents, datagram, read_packets_combines,
}

-- A peer: its association's id, and its status word.
abbrev pub peers_bytes : List (ℕ × ℕ) → List ℕ
peers_bytes [] = []
peers_bytes ((id, word) ∷ ps) =
    (id / 256) ∷ (id % 256) ∷ (word / 256) ∷ (word % 256) ∷ peers_bytes ps

abbrev pub IsPeer : ℕ × ℕ → Type 0
IsPeer (id, word) = (id < 65536) × (word < 65536)

-- What the map has for an id.
abbrev pub entry : Associations → ℕ → Option PeerStatusWord
entry [] id = none
entry ((k, w) ∷ m) id = if k == id then some w else entry m id

-- The status of an id in a list of peers: that of its last occurrence.
abbrev or_else : Option PeerStatusWord → Option PeerStatusWord → Option PeerStatusWord
or_else none b = b
or_else (some w) b = some w

abbrev pub last_status : List (ℕ × ℕ) → ℕ → Option PeerStatusWord
last_status [] id = none
last_status ((k, word) ∷ ps) id =
    or_else (last_status ps id) (if k == id then some (read_peer_status_word word) else none)

entry-store :
    (m : Associations) (k : ℕ) (w : PeerStatusWord) (id : ℕ)
    → entry (store m k w) id ≡ (if k == id then some w else entry m id)
unfolding store
entry-store [] k w id = refl
entry-store ((j, v) ∷ m) k w id = ground (arith, entry-store m k w id)

or_else_assoc :
    (a : Option PeerStatusWord) (t : Bool) (w : PeerStatusWord) (c : Option PeerStatusWord)
    → or_else a (if t then some w else c) ≡ or_else (or_else a (if t then some w else none)) c
or_else_assoc none true w c = refl
or_else_assoc none false w c = refl
or_else_assoc (some x) t w c = refl

or_else-none : (a : Option PeerStatusWord) → or_else a none ≡ a
or_else-none none = refl
or_else-none (some w) = refl

joined : (n : ℕ) → n < 65536 → bit_or (n / 256 * 2 ^ 8 % 65536) (n % 256) ≡ n
joined n h =
    let fits : n / 256 * 2 ^ 8 % 65536 ≡ n / 256 * 2 ^ 8 = omega arith in
    rw (fits, bit_or-shifted 8 (n / 256) (n % 256) (omega arith)) (omega arith)

read_associations-peers_bytes :
    (k : ℕ) (ps : List (ℕ × ℕ)) (rest : List ℕ) (m : Associations)
    → All IsPeer ps
    → k ≤ length ps
    → (m' : Associations) × (read_associations k (peers_bytes ps ++ rest) m ≡ ok m')
      × ((id : ℕ) → entry m' id ≡ or_else (last_status (take k ps) id) (entry m id))
unfolding read_associations
read_associations-peers_bytes zero ps rest m h l = (m, refl, λ id. refl)
read_associations-peers_bytes (suc k) [] rest m h l = absurd (omega arith)
read_associations-peers_bytes (suc k) ((i, word) ∷ ps) rest m h l =
    let w : PeerStatusWord = read_peer_status_word word in
    let (m', run, has) = read_associations-peers_bytes k ps rest (store m i w) h.1 (omega arith) in
    (
      m',
      rw (joined i h.0.0, joined word h.0.1) run,
      λ id.
          has id
          ∙ ap (or_else (last_status (take k ps) id)) (entry-store m i w id)
          ∙ or_else_assoc (last_status (take k ps) id) (i == id) w (entry m id),
    )

peers_append : (ps qs : List (ℕ × ℕ)) → peers_bytes (ps ++ qs) ≡ peers_bytes ps ++ peers_bytes qs
peers_append [] qs = refl
peers_append ((id, word) ∷ ps) qs =
    ap (λ (t : List ℕ). (id / 256) ∷ (id % 256) ∷ (word / 256) ∷ (word % 256) ∷ t)
      (peers_append ps qs)

length-peers_bytes : (ps : List (ℕ × ℕ)) → length (peers_bytes ps) ≡ length ps * 4
length-peers_bytes [] = refl
length-peers_bytes ((id, word) ∷ ps) = omega (arith, length-peers_bytes ps)

-- Packets with peers in them.
abbrev pub packet : MsgHead → List (ℕ × ℕ) → ControlMsg
packet h ps = record { head = h; content = peers_bytes ps }

abbrev pub packets : List (MsgHead × List (ℕ × ℕ)) → List ControlMsg
packets [] = []
packets ((h, ps) ∷ ms) = packet h ps ∷ packets ms

abbrev pub peers : List (MsgHead × List (ℕ × ℕ)) → List (ℕ × ℕ)
peers [] = []
peers ((h, ps) ∷ ms) = ps ++ peers ms

contents-packets :
    (ms : List (MsgHead × List (ℕ × ℕ))) → contents (packets ms) ≡ peers_bytes (peers ms)
contents-packets [] = refl
contents-packets ((h, ps) ∷ ms) =
    ap (λ (t : List ℕ). peers_bytes ps ++ t) (contents-packets ms)
    ∙ sym (peers_append ps (peers ms))

-- Whatever the number of packets that a status response with the peers in it takes, and whatever is
-- behind its data in their array, `GetAssociations` of the combined message does not fail, and has the
-- status of each id in the first peers, as many as its last packet holds (the last status, where an id
-- occurs twice): of all peers when there is one packet, and of no more than the last packet's number
-- when there are several.
pub get_associations_of_response :
    (ms : List (MsgHead × List (ℕ × ℕ))) (h : MsgHead) (ps : List (ℕ × ℕ))
    (later : List (Option (List ℕ))) (spare : List ℕ)
    → All IsPacket (packets ms)
    → AllMore (packets ms)
    → IsPacket (packet h ps)
    → has_more h ≡ false
    → get_operation h ≡ op_read_status
    → All IsPeer (peers ms ++ ps)
    → (m : Associations) × ((read_packets
            (answers (packets ms) ++ some (datagram (packet h ps)) ∷ later)
            []
          >>= get_associations spare)
        ≡ ok m)
      × ((id : ℕ) → entry m id ≡ last_status (take (length ps) (peers ms ++ ps)) id)
unfolding get_associations
get_associations_of_response ms h ps later spare fit more last end status small =
    let all : List (ℕ × ℕ) = peers ms ++ ps in
    let whole : contents (packets ms) ++ peers_bytes ps ≡ peers_bytes all =
      ap (λ (t : List ℕ). t ++ peers_bytes ps) (contents-packets ms)
      ∙ sym (peers_append (peers ms) ps) in
    let count : h.count / 4 ≡ length ps = omega (arith, last.stated, length-peers_bytes ps) in
    let (m, run, has) =
      read_associations-peers_bytes (length ps) all spare [] small
        (omega (arith, length-append (peers ms) ps)) in
    (
      m,
      ap (λ (r : Result ControlMsg). r >>= get_associations spare)
            (read_packets_combines (packets ms) (packet h ps) later [] fit more last end)
          ∙ ap
              (λ (op : ℕ).
                if op == op_read_status
                then read_associations (h.count / 4)
                    ((contents (packets ms) ++ peers_bytes ps) ++ spare) []
                else err unsupported_operation)
              status
          ∙ ap
              (λ (n : ℕ).
                read_associations n ((contents (packets ms) ++ peers_bytes ps) ++ spare) [])
              count
          ∙ ap (λ (t : List ℕ). read_associations (length ps) (t ++ spare) []) whole
          ∙ run,
      λ id. has id ∙ or_else-none (last_status (take (length ps) all) id),
    )
