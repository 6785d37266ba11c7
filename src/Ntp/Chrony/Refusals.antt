-- ===== src/Ntp/Chrony/Refusals.antt =====
-- The replies that `decodePacket` of ntp/chrony/packet.go refuses.
use ntp.Prelude.{
  ℕ, ◌<◌, ◌≡◌, ◌≢◌, refl, ap, ◌∙◌, false, Bool-cases, ◌⊎◌, inl, inr, List, ◌++◌, Result, err, Error,
  denied, unsupported_type, ◌>>=◌, ◌==◌, if◌then◌else◌, length, drop, arith,
}
use ntp.Wire.Struct.{sum, read_full_short}
use ntp.Wire.Fields.{Fields, FieldsFit, put_fields, read_struct, read_struct-put_fields}
use ntp.Ntp.Chrony.Replies.{
  ReplyHead, head_layout, head_fields, head_of_fields, sources_layout, source_data_layout,
  tracking_layout, source_stats_layout, server_stats_layout, ntp_data_layout, server_stats2_layout,
}
use ntp.Ntp.Chrony.Packets.{decode_content, decode_packet, stt_success}
use ntp.Ntp.Chrony.Decoding.{behind_head}

-- The kinds of content by the type of the reply; `other` is a type that the client does not know.
pub data Kind : Type 0 where
  sources : Kind
  source_data : Kind
  tracking : Kind
  source_stats : Kind
  server_stats : Kind
  ntp_data : Kind
  server_stats2 : Kind
  other : Kind

-- A reply of this kind whose content is short of its layout, or of no known type.
abbrev pub IsShort : Kind → ℕ → List ℕ → Type 0
IsShort sources t b = (t ≡ 2) × (length b < 4)
IsShort source_data t b = (t ≡ 3) × (length b < 48)
IsShort tracking t b = (t ≡ 5) × (length b < 76)
IsShort source_stats t b = (t ≡ 6) × (length b < 56)
IsShort server_stats t b = (t ≡ 14) × (length b < 20)
IsShort ntp_data t b = (t ≡ 16) × (length b < 124)
IsShort server_stats2 t b = (t ≡ 22) × (length b < 32)
IsShort other t b = (t ≢ 2) × (t ≢ 3) × (t ≢ 5) × (t ≢ 6) × (t ≢ 14) × (t ≢ 16) × (t ≢ 22)

struct_short {ℓ} :
    {A : Type ℓ} (ws b : List ℕ) (of : Fields ws → Result A)
    → length b < sum ws
    → (e : Error) × ((read_struct ws b >>= of) ≡ err e)
unfolding read_struct
struct_short ws b of h =
    let (e, r) = read_full_short (sum ws) b h in
    let short : read_struct ws b ≡ err e = rw (r, read_struct) refl in
    (e, ap (λ (x : Result (Fields ws)). x >>= of) short)

differs : (a b : ℕ) → a ≢ b → (a == b) ≡ false
differs a b h = ground (arith, h)

content_refused :
    (k : Kind) (h : ReplyHead) (b : List ℕ)
    → IsShort k h.reply b
    → (e : Error) × (decode_content h b ≡ err e)
unfolding decode_content
content_refused sources h b s = rw (s.0) (struct_short sources_layout b _ s.1)
content_refused source_data h b s = rw (s.0) (struct_short source_data_layout b _ s.1)
content_refused tracking h b s = rw (s.0) (struct_short tracking_layout b _ s.1)
content_refused source_stats h b s = rw (s.0) (struct_short source_stats_layout b _ s.1)
content_refused server_stats h b s = rw (s.0) (struct_short server_stats_layout b _ s.1)
content_refused ntp_data h b s = rw (s.0) (struct_short ntp_data_layout b _ s.1)
content_refused server_stats2 h b s = rw (s.0) (struct_short server_stats2_layout b _ s.1)
content_refused other h b (n2, n3, n5, n6, n14, n16, n22) = (
  unsupported_type,
  rw
      (
        differs h.reply 2 n2,
        differs h.reply 3 n3,
        differs h.reply 5 n5,
        differs h.reply 6 n6,
        differs h.reply 14 n14,
        differs h.reply 16 n16,
        differs h.reply 22 n22,
      )
      refl,
)

-- A reply that is not a success, or is too short for its kind, or is of no known type.
abbrev pub IsRefused : ReplyHead → List ℕ → Type 0
IsRefused h b = (h.status ≢ stt_success) ⊎ ((k : Kind) × IsShort k h.reply b)

behind :
    (h : ReplyHead) (b : List ℕ)
    → IsRefused h b
    → (e : Error) × ((if h.status == stt_success then decode_content h b else err denied) ≡ err e)
behind h b (inl failed) =
    let f : (h.status == stt_success) ≡ false = ground (arith, failed) in (denied, rw f refl)
behind h b (inr (k, s)) = elim (Bool-cases (h.status == stt_success)) [
  | inl success ↦ (let (e, r) = content_refused k h b s in (e, rw success r))
  | inr failed ↦ (denied, rw failed refl)
]

-- A reply with a head whose fields fit is an error when its status is not success, whatever its type
-- and its content, when its type is none of the seven, and when its content is shorter than its type
-- needs; and less than the 28 bytes of a head is an error, too.
pub decode_packet_refuses :
    (h : ReplyHead) (b short : List ℕ)
    → FieldsFit head_layout (head_fields h)
    → IsRefused h b
    → length short < 28
    → ((e : Error) × (decode_packet (put_fields head_layout (head_fields h) ++ b) ≡ err e))
      × ((e : Error) × (decode_packet short ≡ err e))
unfolding decode_packet
decode_packet_refuses h b short fits refused few =
    let whole : List ℕ = put_fields head_layout (head_fields h) ++ b in
    let (e, r) = behind h b refused in
    (
      (
        e,
        ap
              (λ (x : Result (Fields head_layout)). x >>= λ f.
                if (head_of_fields f).status == stt_success
                then decode_content (head_of_fields f) (drop 28 whole)
                else err denied)
              (read_struct-put_fields head_layout (head_fields h) b fits (omega arith))
            ∙ ap
                (λ (c : List ℕ). if h.status == stt_success then decode_content h c else err denied)
                (behind_head h b)
            ∙ r,
      ),
      struct_short head_layout short _ few,
    )
