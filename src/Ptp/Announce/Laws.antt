-- ===== src/Ptp/Announce/Laws.antt =====
-- The two ways in which the code treats an Announce, by offsets and by reflection, agree.
use ntp.Prelude.{ℕ, ◌≤◌, ◌≡◌, refl, List, [], ◌∷◌, ◌++◌, ok, length, drop, take, replicate, arith}
use ntp.Wire.{put_be, write_fields}
use ntp.Wire.Laws.{bytes_of, write_fields_fits}
use ntp.Wire.Struct.{Fits, encode, binary_read-encode}
use ntp.Ptp.Header.{header_fields}
use ntp.Ptp.Messages.Laws.{guard_long, two_rows}
use ntp.Prelude.{not_enough_buffer}
use ntp.Ptp.Announce.{
  Announce, announce_fields, announce_marshal_binary_to, announce_bytes, announce_from_bytes,
  layout, values, of_values,
}

-- Every field fits its Go type.
abbrev pub IsAnnounce : Announce → Type 0
IsAnnounce p = Fits layout (values p)

abbrev pub announce_wire : Announce → List ℕ
announce_wire p = bytes_of (header_fields p.header ++ announce_fields 34 p)

-- An Announce fills the first 64 bytes of any buffer that has them, and leaves the rest.
announce_marshal_binary_to_fits :
    (p : Announce) (b : List ℕ)
    → 64 ≤ length b
    → announce_marshal_binary_to p b ≡ ok (announce_wire p ++ drop 64 b, 64)
unfolding announce_marshal_binary_to header_fields announce_fields put_be
announce_marshal_binary_to_fits p b h =
    let fs : List (ℕ × List ℕ) = header_fields p.header ++ announce_fields 34 p in
    let whole : write_fields fs b ≡ ok (bytes_of fs ++ drop 64 b) =
      write_fields_fits fs b (omega arith) (omega arith) in
    let (b', head, body) = two_rows (header_fields p.header) (announce_fields 34 p) b _ whole in
    rw (guard_long 64 b not_enough_buffer h, head, body)

-- The offsets of the marshaller are those of the struct.
wire_layout : (p : Announce) → announce_wire p ≡ encode layout (values p)
unfolding header_fields announce_fields encode put_be
wire_layout p = refl

wire_only :
    (p : Announce)
    → take 64 (announce_wire p ++ drop 64 (replicate 64 0)) ++ 0 ∷ 0 ∷ []
      ≡ announce_wire p ++ 0 ∷ 0 ∷ []
unfolding header_fields announce_fields put_be
wire_only p = refl

-- `FromBytes`, which goes by reflection, reads back what `Bytes`, which goes by offsets, wrote: an
-- Announce whose fields fit their types survives the wire with its two padding bytes.
pub announce_round_trip :
    (p : Announce)
    → IsAnnounce p
    → (b : List ℕ) × (announce_bytes p ≡ ok b) × (announce_from_bytes b ≡ ok p)
unfolding announce_bytes announce_from_bytes of_values
announce_round_trip p h = (
  announce_wire p ++ 0 ∷ 0 ∷ [],
  rw (announce_marshal_binary_to_fits p (replicate 64 0) (omega arith), wire_only p),
  rw (wire_layout p, binary_read-encode layout (values p) (0 ∷ 0 ∷ []) h (omega arith)),
)
