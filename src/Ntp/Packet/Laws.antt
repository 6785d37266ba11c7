-- ===== src/Ntp/Packet/Laws.antt =====
-- The wire form of NTP packets, both ways, and the test on the first byte.
use ntp.Prelude.{
  ℕ, ◌+◌, ◌*◌, ◌<◌, ◌≤◌, ◌≡◌, refl, true, ◌↔◌, ◌⊎◌, List, [], ◌∷◌, ◌++◌, ok, err, Error, length,
  arith, take,
}
use ntp.Wire.{IsByte, All}
use ntp.Wire.Struct.{
  Fits, binary_read-encode, binary_read_short, binary_read_long, encode-decode, decode-Fits,
  length-encode,
}
use ntp.Ntp.Packet.{
  Packet, IsPacket, valid_settings_format, bytes, bytes_to_packet, layout, values, of_values,
}

values-Fits : (p : Packet) → IsPacket p → Fits layout (values p)
values-Fits p h = omega arith

-- An encoded packet takes 48 bytes.
length-bytes : (p : Packet) → IsPacket p → length (bytes p) ≡ 48
unfolding bytes
length-bytes p h = length-encode layout (values p) (values-Fits p h)

-- A packet whose fields fit their types is read back from its 48 bytes, whatever follows them.
pub bytes_to_packet-bytes :
    (p : Packet) (rest : List ℕ) → IsPacket p → bytes_to_packet (bytes p ++ rest) ≡ ok p
unfolding bytes_to_packet bytes of_values
bytes_to_packet-bytes p rest h =
    rw (binary_read-encode layout (values p) rest (values-Fits p h) (omega arith))

of_values-Fits :
    (vs : List ℕ)
    → Fits layout vs
    → (p : Packet) × (of_values vs ≡ ok p) × (values p ≡ vs) × IsPacket p
unfolding of_values
of_values-Fits (a ∷ s ∷ p ∷ q ∷ rd ∷ rs ∷ id ∷ fs ∷ ff ∷ os ∷ of ∷ xs ∷ xf ∷ ts ∷ tf ∷ []) h =
    (_, refl, refl, omega arith)
of_values-Fits _ h = absurd (ground arith)

-- `BytesToPacket` accepts every input of at least 48 bytes; what it returns has fields within their
-- types, and encodes to the first 48 bytes.
pub bytes_to_packet_long :
    (b : List ℕ)
    → All IsByte b
    → 48 ≤ length b
    → (p : Packet) × (bytes_to_packet b ≡ ok p) × IsPacket p × (bytes p ≡ take 48 b)
unfolding bytes_to_packet bytes
bytes_to_packet_long b h n =
    let (vs, r, d) = binary_read_long layout b (omega arith) n in
    let (p, o, v, f) = of_values-Fits vs (decode-Fits layout b vs h d) in
    (p, rw (r, o), f, rw v (encode-decode layout b vs h d))

bytes_to_packet_short : (b : List ℕ) → length b < 48 → (e : Error) × (bytes_to_packet b ≡ err e)
unfolding bytes_to_packet
bytes_to_packet_short b h = let (e, r) = binary_read_short layout b h in (e, rw r)

-- `ValidSettingsFormat` holds exactly when the first byte is leap indicator 0 or 3, version 1 to 4
-- and mode 3, where the byte is li * 64 + version * 8 + mode.
pub valid_settings_format_iff :
    (p : Packet) (li vn mode : ℕ)
    → vn < 8
    → mode < 8
    → li < 4
    → p.settings ≡ li * 64 + vn * 8 + mode
    → (valid_settings_format p ≡ true) ↔ (((li ≡ 0) ⊎ (li ≡ 3)) × (1 ≤ vn) × (vn ≤ 4) × (mode ≡ 3))
unfolding valid_settings_format
valid_settings_format_iff p li vn mode hv hm hl e = ground arith
