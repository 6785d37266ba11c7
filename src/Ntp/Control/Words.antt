-- ===== src/Ntp/Control/Words.antt =====
-- The packed words as sums of their fields.
use ntp.Prelude.{ℕ, ◌+◌, ◌-◌, ◌*◌, ◌/◌, ◌%◌, ◌^◌, ◌<◌, ◌≡◌, ap, ◌∙◌, arith, bit_and, bit_or}
use ntp.Prelude.Bits.{bit_or-zero_left, bit_or-shifted, bit_and-shifted, bit_and-mask}
use ntp.Ntp.Control.{
  SystemStatusWord, system_word, read_system_status_word, PeerStatus, byte, read_peer_status,
  PeerStatusWord, peer_word, read_peer_status_word, make_vn_mode, get_version, get_mode,
}

-- A mask of `m` bits at bit `s`.
field : (s m b : ℕ) → bit_and b ((2 ^ m - 1) * 2 ^ s) ≡ b / 2 ^ s % 2 ^ m * 2 ^ s
field s m b =
    bit_and-shifted s b (2 ^ m - 1) ∙ ap (λ (t : ℕ). t * 2 ^ s) (bit_and-mask m (b / 2 ^ s))

-- The fields or-ed together at bits 14, 8, 4 and 0.
system_word-sum :
    (w : SystemStatusWord)
    → w.li < 4
    → w.clock_source < 64
    → w.system_event_counter < 16
    → w.system_event_code < 16
    → system_word w
      ≡ ((w.li * 64 + w.clock_source) * 16 + w.system_event_counter) * 16 + w.system_event_code
unfolding system_word
system_word-sum w a b c d =
    let l : w.li * 2 ^ 14 % 65536 ≡ w.li * 2 ^ 14 = omega arith in
    let s : w.clock_source * 2 ^ 8 % 65536 ≡ w.clock_source * 2 ^ 8 = omega arith in
    let e : w.system_event_counter * 2 ^ 4 % 65536 ≡ w.system_event_counter * 2 ^ 4 = omega arith in
    let x : ℕ = w.li * 64 + w.clock_source in
    let o1 : bit_or (w.li * 2 ^ 14) (w.clock_source * 2 ^ 8) ≡ x * 2 ^ 8 =
      bit_or-shifted 14 w.li (w.clock_source * 2 ^ 8) (omega arith) ∙ omega arith in
    let o2 : bit_or (x * 2 ^ 8) (w.system_event_counter * 2 ^ 4)
        ≡ (x * 16 + w.system_event_counter) * 2 ^ 4 =
      bit_or-shifted 8 x (w.system_event_counter * 2 ^ 4) (omega arith) ∙ omega arith in
    rw (l, s, e, bit_or-zero_left, o1, o2)
      (bit_or-shifted 4 (x * 16 + w.system_event_counter) w.system_event_code d)

-- The fields of any 16-bit word.
read_fields :
    (b : ℕ)
    → let w = read_system_status_word b in
      (w.li ≡ b / 2 ^ 14 % 4)
      × (w.clock_source ≡ b / 2 ^ 8 % 64)
      × (w.system_event_counter ≡ b / 2 ^ 4 % 16)
      × (w.system_event_code ≡ b % 16)
unfolding read_system_status_word
read_fields b = (
  rw (field 14 2 b) (omega arith),
  rw (field 8 6 b) (omega arith),
  rw (field 4 4 b) (omega arith),
  rw (bit_and-mask 4 b) (omega arith),
)

-- A system status word whose fields fit their bits is read back from its 16 bits, field by field.
read_system_status_word-system_word :
    (w : SystemStatusWord)
    → w.li < 4
    → w.clock_source < 64
    → w.system_event_counter < 16
    → w.system_event_code < 16
    → let r = read_system_status_word (system_word w) in
      (r.li ≡ w.li)
      × (r.clock_source ≡ w.clock_source)
      × (r.system_event_counter ≡ w.system_event_counter)
      × (r.system_event_code ≡ w.system_event_code)
read_system_status_word-system_word w a b c d =
    let e = system_word-sum w a b c d in
    let (l, s, n, k) = read_fields (system_word w) in
    (omega (arith, e, l), omega (arith, e, s), omega (arith, e, n), omega (arith, e, k))

-- Every 16-bit word is the word of what is read from it.
system_word-read_system_status_word :
    (b : ℕ) → b < 65536 → system_word (read_system_status_word b) ≡ b
system_word-read_system_status_word b h =
    let (l, s, n, k) = read_fields b in
    system_word-sum (read_system_status_word b) (omega (arith, l)) (omega (arith, s))
      (omega (arith, n)) (omega (arith, k))
    ∙ omega (arith, l, s, n, k)

-- A version and a mode of three bits are read back from their byte.
make_vn_mode_read :
    (version mode : ℕ)
    → version < 8
    → mode < 8
    → (get_version (make_vn_mode version mode) ≡ version)
      × (get_mode (make_vn_mode version mode) ≡ mode)
unfolding get_version get_mode make_vn_mode
make_vn_mode_read version mode hv hm =
    let v : version % 256 * 2 ^ 3 % 256 ≡ version * 2 ^ 3 = omega arith in
    let m : mode % 256 ≡ mode = omega arith in
    let e : bit_or (version * 2 ^ 3) mode ≡ version * 2 ^ 3 + mode =
      bit_or-shifted 3 version mode hm in
    (
      rw (v, m, bit_or-zero_left, e, field 3 3 (version * 2 ^ 3 + mode)) (omega arith),
      rw (v, m, bit_or-zero_left, e, bit_and-mask 3 (version * 2 ^ 3 + mode)) (omega arith),
    )

-- The five flags of a peer survive their byte.
read_peer_status-byte : (s : PeerStatus) → read_peer_status (byte s) ≡ s
unfolding read_peer_status byte
read_peer_status-byte s = ground arith

peer_byte-lt : (s : PeerStatus) → byte s < 32
unfolding byte
peer_byte-lt s = ground arith

peer_word-sum :
    (w : PeerStatusWord)
    → w.peer_selection < 8
    → w.peer_event_counter < 16
    → w.peer_event_code < 16
    → peer_word w
      ≡ ((byte w.peer_status * 8 + w.peer_selection) * 16 + w.peer_event_counter) * 16
        + w.peer_event_code
unfolding peer_word
peer_word-sum w b c d =
    let flags : ℕ = byte w.peer_status in
    let l : flags * 2 ^ 11 % 65536 ≡ flags * 2 ^ 11 = omega (arith, peer_byte-lt w.peer_status) in
    let s : w.peer_selection * 2 ^ 8 % 65536 ≡ w.peer_selection * 2 ^ 8 = omega arith in
    let e : w.peer_event_counter * 2 ^ 4 % 65536 ≡ w.peer_event_counter * 2 ^ 4 = omega arith in
    let x : ℕ = flags * 8 + w.peer_selection in
    let o1 : bit_or (flags * 2 ^ 11) (w.peer_selection * 2 ^ 8) ≡ x * 2 ^ 8 =
      bit_or-shifted 11 flags (w.peer_selection * 2 ^ 8) (omega arith) ∙ omega arith in
    let o2 : bit_or (x * 2 ^ 8) (w.peer_event_counter * 2 ^ 4)
        ≡ (x * 16 + w.peer_event_counter) * 2 ^ 4 =
      bit_or-shifted 8 x (w.peer_event_counter * 2 ^ 4) (omega arith) ∙ omega arith in
    rw (l, s, e, bit_or-zero_left, o1, o2)
      (bit_or-shifted 4 (x * 16 + w.peer_event_counter) w.peer_event_code d)

-- A peer status word whose numbers fit their bits is read back from its 16 bits, flags included.
read_peer_status_word-peer_word :
    (w : PeerStatusWord)
    → w.peer_selection < 8
    → w.peer_event_counter < 16
    → w.peer_event_code < 16
    → let r = read_peer_status_word (peer_word w) in
      (r.peer_status ≡ w.peer_status)
      × (r.peer_selection ≡ w.peer_selection)
      × (r.peer_event_counter ≡ w.peer_event_counter)
      × (r.peer_event_code ≡ w.peer_event_code)
unfolding read_peer_status_word
read_peer_status_word-peer_word w b c d =
    let e = peer_word-sum w b c d in
    let f = peer_byte-lt w.peer_status in
    let flags : bit_and (peer_word w) 0xf800 / 2 ^ 11 % 256 ≡ byte w.peer_status =
      rw (field 11 5 (peer_word w)) (omega (arith, e, f)) in
    (
      ap read_peer_status flags ∙ read_peer_status-byte w.peer_status,
      rw (field 8 3 (peer_word w)) (omega (arith, e)),
      rw (field 4 4 (peer_word w)) (omega (arith, e)),
      rw (bit_and-mask 4 (peer_word w)) (omega (arith, e)),
    )
