-- ===== src/Ptp/Messages/Laws.antt =====
-- Messages written into a buffer and read back.
use ntp.Prelude.{
  ℕ, ◌≤◌, ◌≡◌, refl, sym, ◌∙◌, List, [], ◌∷◌, ◌++◌, ok, length, drop, take, replicate, arith,
  >>=-eq-ok, leb, guard, Error,
}
use ntp.Wire.{put_be, write_fields}
use ntp.Wire.Laws.{read-put_be, bytes_of, write_fields_fits, write_fields-append}
use ntp.Ptp.Header.{header_fields, unmarshal_header}
use ntp.Ptp.Header.Laws.{unmarshal_header-bytes}
use ntp.Ptp.Messages.{
  SyncDelayReq, IsSyncDelayReq, FollowUp, IsFollowUp, DelayResp, IsDelayResp, sync_fields,
  sync_marshal_binary_to, sync_unmarshal_binary, follow_up_fields, follow_up_marshal_binary_to,
  follow_up_unmarshal_binary, delay_resp_fields, delay_resp_marshal_binary_to,
  delay_resp_unmarshal_binary, sync_bytes, follow_up_bytes, delay_resp_bytes,
}

pub guard_long :
    (n : ℕ) (b : List ℕ) (e : Error) → n ≤ length b → guard (leb n (length b)) e ≡ ok tt
guard_long n b e h = ground arith

-- Two rows of writes, from one.
pub two_rows :
    (fs gs : List (ℕ × List ℕ)) (b out : List ℕ)
    → write_fields (fs ++ gs) b ≡ ok out
    → (b' : List ℕ) × (write_fields fs b ≡ ok b') × (write_fields gs b' ≡ ok out)
two_rows fs gs b out e =
    >>=-eq-ok (write_fields fs b) (write_fields gs) (sym (write_fields-append fs gs b) ∙ e)

-- The 44 bytes of a Sync or Delay_Req: its header, then its body.
abbrev pub sync_wire : SyncDelayReq → List ℕ
sync_wire p = bytes_of (header_fields p.header ++ sync_fields 34 p)

-- A Sync or Delay_Req fills the first 44 bytes of any buffer that has them, and leaves the rest.
pub sync_marshal_binary_to_fits :
    (p : SyncDelayReq) (b : List ℕ)
    → 44 ≤ length b
    → sync_marshal_binary_to p b ≡ ok (sync_wire p ++ drop 44 b, 44)
unfolding sync_marshal_binary_to header_fields sync_fields put_be
sync_marshal_binary_to_fits p b h =
    let fs : List (ℕ × List ℕ) = header_fields p.header ++ sync_fields 34 p in
    let whole : write_fields fs b ≡ ok (bytes_of fs ++ drop 44 b) =
      write_fields_fits fs b (omega arith) (omega arith) in
    let (b', head, body) = two_rows (header_fields p.header) (sync_fields 34 p) b _ whole in
    rw (guard_long 44 b _ h, head, body)

-- It is read back from those bytes, whatever follows them.
pub sync_unmarshal_binary-wire :
    (p : SyncDelayReq) (rest : List ℕ)
    → IsSyncDelayReq p
    → sync_unmarshal_binary (sync_wire p ++ rest) ≡ ok p
unfolding sync_unmarshal_binary sync_fields header_fields put_be
sync_unmarshal_binary-wire p rest h =
    let head : unmarshal_header (sync_wire p ++ rest) ≡ ok p.header =
      unmarshal_header-bytes p.header (bytes_of (sync_fields 34 p) ++ rest) h.header_fits in
    rw (
      guard_long 44 (sync_wire p ++ rest) _ (omega arith),
      head,
      read-put_be 6 p.origin_timestamp.seconds _ (omega arith),
      read-put_be 4 p.origin_timestamp.nanoseconds _ (omega arith),
    )

-- `FromBytes` reads back what `Bytes` wrote, two padding bytes included: A Sync or Delay_Req whose fields fit
-- their types survives the wire.
pub sync_round_trip :
    (p : SyncDelayReq)
    → IsSyncDelayReq p
    → (b : List ℕ) × (sync_bytes p ≡ ok b) × (length b ≡ 46) × (sync_unmarshal_binary b ≡ ok p)
unfolding sync_bytes
sync_round_trip p h =
    let buffer : List ℕ = replicate 44 0 in
    (
      sync_wire p ++ 0 ∷ 0 ∷ [],
      rw (sync_marshal_binary_to_fits p buffer (omega arith)) (wire_only p),
      sync_length p,
      sync_unmarshal_binary-wire p (0 ∷ 0 ∷ []) h,
    )
  where
    wire_only :
        (p : SyncDelayReq)
        → ok (take 44 (sync_wire p ++ drop 44 (replicate 44 0)) ++ 0 ∷ 0 ∷ [])
          ≡ ok (sync_wire p ++ 0 ∷ 0 ∷ [])
    wire_only p = unfold header_fields sync_fields put_be in refl

    sync_length : (p : SyncDelayReq) → length (sync_wire p ++ 0 ∷ 0 ∷ []) ≡ 46
    sync_length p = unfold header_fields sync_fields put_be in refl

-- The 44 bytes of a Follow_Up: its header, then its body.
abbrev pub follow_up_wire : FollowUp → List ℕ
follow_up_wire p = bytes_of (header_fields p.header ++ follow_up_fields 34 p)

-- A Follow_Up fills the first 44 bytes of any buffer that has them, and leaves the rest.
pub follow_up_marshal_binary_to_fits :
    (p : FollowUp) (b : List ℕ)
    → 44 ≤ length b
    → follow_up_marshal_binary_to p b ≡ ok (follow_up_wire p ++ drop 44 b, 44)
unfolding follow_up_marshal_binary_to header_fields follow_up_fields put_be
follow_up_marshal_binary_to_fits p b h =
    let fs : List (ℕ × List ℕ) = header_fields p.header ++ follow_up_fields 34 p in
    let whole : write_fields fs b ≡ ok (bytes_of fs ++ drop 44 b) =
      write_fields_fits fs b (omega arith) (omega arith) in
    let (b', head, body) = two_rows (header_fields p.header) (follow_up_fields 34 p) b _ whole in
    rw (guard_long 44 b _ h, head, body)

-- It is read back from those bytes, whatever follows them.
pub follow_up_unmarshal_binary-wire :
    (p : FollowUp) (rest : List ℕ)
    → IsFollowUp p
    → follow_up_unmarshal_binary (follow_up_wire p ++ rest) ≡ ok p
unfolding follow_up_unmarshal_binary follow_up_fields header_fields put_be
follow_up_unmarshal_binary-wire p rest h =
    let head : unmarshal_header (follow_up_wire p ++ rest) ≡ ok p.header =
      unmarshal_header-bytes p.header (bytes_of (follow_up_fields 34 p) ++ rest) h.header_fits in
    rw (
      guard_long 44 (follow_up_wire p ++ rest) _ (omega arith),
      head,
      read-put_be 6 p.precise_origin_timestamp.seconds _ (omega arith),
      read-put_be 4 p.precise_origin_timestamp.nanoseconds _ (omega arith),
    )

-- `FromBytes` reads back what `Bytes` wrote, two padding bytes included: A Follow_Up whose fields fit
-- their types survives the wire.
follow_up_round_trip :
    (p : FollowUp)
    → IsFollowUp p
    → (b : List ℕ) × (follow_up_bytes p ≡ ok b)
      × (length b ≡ 46)
      × (follow_up_unmarshal_binary b ≡ ok p)
unfolding follow_up_bytes
follow_up_round_trip p h =
    let buffer : List ℕ = replicate 44 0 in
    (
      follow_up_wire p ++ 0 ∷ 0 ∷ [],
      rw (follow_up_marshal_binary_to_fits p buffer (omega arith)) (wire_only p),
      follow_up_length p,
      follow_up_unmarshal_binary-wire p (0 ∷ 0 ∷ []) h,
    )
  where
    wire_only :
        (p : FollowUp)
        → ok (take 44 (follow_up_wire p ++ drop 44 (replicate 44 0)) ++ 0 ∷ 0 ∷ [])
          ≡ ok (follow_up_wire p ++ 0 ∷ 0 ∷ [])
    wire_only p = unfold header_fields follow_up_fields put_be in refl

    follow_up_length : (p : FollowUp) → length (follow_up_wire p ++ 0 ∷ 0 ∷ []) ≡ 46
    follow_up_length p = unfold header_fields follow_up_fields put_be in refl

-- The 54 bytes of a Delay_Resp: its header, then its body.
abbrev pub delay_resp_wire : DelayResp → List ℕ
delay_resp_wire p = bytes_of (header_fields p.header ++ delay_resp_fields 34 p)

-- A Delay_Resp fills the first 54 bytes of any buffer that has them, and leaves the rest.
delay_resp_marshal_binary_to_fits :
    (p : DelayResp) (b : List ℕ)
    → 54 ≤ length b
    → delay_resp_marshal_binary_to p b ≡ ok (delay_resp_wire p ++ drop 54 b, 54)
unfolding delay_resp_marshal_binary_to header_fields delay_resp_fields put_be
delay_resp_marshal_binary_to_fits p b h =
    let fs : List (ℕ × List ℕ) = header_fields p.header ++ delay_resp_fields 34 p in
    let whole : write_fields fs b ≡ ok (bytes_of fs ++ drop 54 b) =
      write_fields_fits fs b (omega arith) (omega arith) in
    let (b', head, body) = two_rows (header_fields p.header) (delay_resp_fields 34 p) b _ whole in
    rw (guard_long 54 b _ h, head, body)

-- It is read back from those bytes, whatever follows them.
delay_resp_unmarshal_binary-wire :
    (p : DelayResp) (rest : List ℕ)
    → IsDelayResp p
    → delay_resp_unmarshal_binary (delay_resp_wire p ++ rest) ≡ ok p
unfolding delay_resp_unmarshal_binary delay_resp_fields header_fields put_be
delay_resp_unmarshal_binary-wire p rest h =
    let head : unmarshal_header (delay_resp_wire p ++ rest) ≡ ok p.header =
      unmarshal_header-bytes p.header (bytes_of (delay_resp_fields 34 p) ++ rest) h.header_fits in
    rw (
      guard_long 54 (delay_resp_wire p ++ rest) _ (omega arith),
      head,
      read-put_be 6 p.receive_timestamp.seconds _ (omega arith),
      read-put_be 4 p.receive_timestamp.nanoseconds _ (omega arith),
      read-put_be 8 p.requesting_port_identity.clock_identity _ (omega arith),
      read-put_be 2 p.requesting_port_identity.port_number _ (omega arith),
    )

-- `FromBytes` reads back what `Bytes` wrote, two padding bytes included: A Delay_Resp whose fields fit
-- their types survives the wire.
delay_resp_round_trip :
    (p : DelayResp)
    → IsDelayResp p
    → (b : List ℕ) × (delay_resp_bytes p ≡ ok b)
      × (length b ≡ 56)
      × (delay_resp_unmarshal_binary b ≡ ok p)
unfolding delay_resp_bytes
delay_resp_round_trip p h =
    let buffer : List ℕ = replicate 54 0 in
    (
      delay_resp_wire p ++ 0 ∷ 0 ∷ [],
      rw (delay_resp_marshal_binary_to_fits p buffer (omega arith)) (wire_only p),
      delay_resp_length p,
      delay_resp_unmarshal_binary-wire p (0 ∷ 0 ∷ []) h,
    )
  where
    wire_only :
        (p : DelayResp)
        → ok (take 54 (delay_resp_wire p ++ drop 54 (replicate 54 0)) ++ 0 ∷ 0 ∷ [])
          ≡ ok (delay_resp_wire p ++ 0 ∷ 0 ∷ [])
    wire_only p = unfold header_fields delay_resp_fields put_be in refl

    delay_resp_length : (p : DelayResp) → length (delay_resp_wire p ++ 0 ∷ 0 ∷ []) ≡ 56
    delay_resp_length p = unfold header_fields delay_resp_fields put_be in refl
