-- ===== src/Ptp/Signaling/Ends.antt =====
-- The loop over the TLVs always ends, and short inputs make it panic.
use ntp.Prelude.{
  ℕ, zero, suc, ◌+◌, ◌*◌, ◌<◌, ◌≤◌, ◌≡◌, ◌≢◌, List, [], ◌∷◌, ◌++◌, Result, ok, err, panic,
  out_of_fuel, Error, not_enough_data, unsupported_type, ◌>>=◌, guard, length, drop, arith,
  length-drop, Bool, true, false, if◌then◌else◌, ltb, ◌==◌,
}
use ntp.Wire.{read, get_be}
use ntp.Wire.Laws.{read_short, read->>=_panic}
use ntp.Ptp.TlvType
use ntp.Ptp.MessageType
use ntp.Ptp.Header.{Header, unmarshal_header, message_type}
use ntp.Ptp.Messages.Laws.{guard_long}
use ntp.Wire.Struct.{read_enough}
use ntp.Ptp.Signaling.{
  Tlv, TlvHead, tlv_head, next_tlv, unmarshal_tlv, unmarshal_tlvs, unmarshal_tlv_head,
  unmarshal_request, unmarshal_grant, unmarshal_cancel, unmarshal_acknowledge,
  signaling_unmarshal_binary,
}

-- An outcome of Go: a value, an error or a panic.
data Ends {ℓ} {A : Type ℓ} : Result A → Type ℓ where
  by_ok : (a : A) → Ends (ok a)
  by_err : (e : Error) → Ends (err e)
  by_panic : Ends panic

Ends-bind {ℓ κ} :
    {A : Type ℓ} {B : Type κ} {m : Result A} {f : A → Result B}
    → Ends m
    → ((a : A) → Ends (f a))
    → Ends (m >>= f)
Ends-bind (by_ok a) h = h a
Ends-bind (by_err e) h = by_err e
Ends-bind by_panic h = by_panic

Ends-if {ℓ} : {A : Type ℓ} (c : Bool) {x y : Result A} → Ends x → Ends y → Ends (if c then x else y)
Ends-if true p q = p
Ends-if false p q = q

Ends-read : (k acc : ℕ) (b : List ℕ) → Ends (read k acc b)
unfolding read
Ends-read zero acc b = by_ok acc
Ends-read (suc k) acc [] = by_panic
Ends-read (suc k) acc (x ∷ b) = Ends-read k (acc * 256 + x) b

Ends-guard : (c : Bool) (e : Error) → Ends (guard c e)
Ends-guard true e = by_ok tt
Ends-guard false e = by_err e

Ends-ne {ℓ} : {A : Type ℓ} {r : Result A} → Ends r → r ≢ out_of_fuel
Ends-ne (by_ok a) e = cc
Ends-ne (by_err x) e = cc
Ends-ne by_panic e = cc

Ends-head : (b : List ℕ) → Ends (unmarshal_tlv_head b)
unfolding unmarshal_tlv_head
Ends-head b = search (Ends-bind, Ends-read, Ends-guard, by_ok) depth 12

ruleset fields = (Ends-bind, Ends-read, Ends-head, by_ok)

Ends-request : (b : List ℕ) → Ends (unmarshal_request b)
unfolding unmarshal_request
Ends-request b = search fields depth 16

Ends-grant : (b : List ℕ) → Ends (unmarshal_grant b)
unfolding unmarshal_grant
Ends-grant b = search fields depth 20

Ends-cancel : (b : List ℕ) → Ends (unmarshal_cancel b)
unfolding unmarshal_cancel
Ends-cancel b = search fields depth 16

Ends-acknowledge : (b : List ℕ) → Ends (unmarshal_acknowledge b)
unfolding unmarshal_acknowledge
Ends-acknowledge b = search fields depth 16

Ends-tlv : (t : ℕ) (b : List ℕ) → Ends (unmarshal_tlv t b)
unfolding unmarshal_tlv
Ends-tlv t b = Ends-if (t == 7) (Ends-acknowledge b) (
    Ends-if (t == 5) (Ends-grant b) (
      Ends-if (t == 4) (Ends-request b)
        (Ends-if (t == 6) (Ends-cancel b) (by_err unsupported_type))))

Ends-next : (off : ℕ) (b : List ℕ) → Ends (next_tlv off b)
unfolding next_tlv
Ends-next off b = search (Ends-bind, Ends-read, Ends-tlv)

-- Each round moves at least four bytes on.
Ends-tlvs :
    (fuel n off : ℕ) (b : List ℕ) (tlvs : List Tlv)
    → n < off + fuel + 4
    → Ends (unmarshal_tlvs fuel n off b tlvs)
unfolding unmarshal_tlvs
Ends-tlvs zero n off b tlvs h =
    let stops : ltb n (off + 4) ≡ true = ground arith in rw stops (by_ok tlvs)
Ends-tlvs (suc fuel) n off b tlvs h = Ends-if (ltb n (off + 4)) (by_ok tlvs) (
    Ends-bind (Ends-next off b)
      λ t. Ends-tlvs fuel n (off + 4 + (tlv_head t).length_field) b (tlvs ++ t ∷ []) (omega arith))

Ends-header : (b : List ℕ) → Ends (unmarshal_header b)
unfolding unmarshal_header
Ends-header b = search (Ends-bind, Ends-read, by_ok) depth 40

Ends-whole :
    (h : Header) (b : List ℕ) → Ends (unmarshal_tlvs h.message_length h.message_length 44 b [])
Ends-whole h b = Ends-tlvs h.message_length h.message_length 44 b [] (omega arith)

-- On every input at all, `Signaling.UnmarshalBinary` ends: with a packet, an error or a panic. The
-- loop over the TLVs never needs more rounds than the stated length.
pub signaling_unmarshal_binary_ends : (b : List ℕ) → signaling_unmarshal_binary b ≢ out_of_fuel
unfolding signaling_unmarshal_binary
signaling_unmarshal_binary_ends b =
    Ends-ne (search (fields, Ends-guard, Ends-header, Ends-whole) depth 24)

unmarshal_tlv_head_long :
    (b : List ℕ) → 4 ≤ length b → (h : TlvHead) × (unmarshal_tlv_head b ≡ ok h)
unfolding unmarshal_tlv_head
unmarshal_tlv_head_long b h =
    let (t, et) = read_enough 2 0 b (omega arith) in
    let (n, en) = read_enough 2 0 (drop 2 b) (omega (arith, length-drop 2 b)) in
    (record { tlv_type = t; length_field = n }, rw (guard_long 4 b not_enough_data h, et, en))

unmarshal_request_short : (b : List ℕ) → 4 ≤ length b → length b < 10 → unmarshal_request b ≡ panic
unfolding unmarshal_request
unmarshal_request_short b lo hi =
    let (h, e) = unmarshal_tlv_head_long b lo in
    rw e (
      read->>=_panic 1 0 (drop 4 b) _ λ m.
        read->>=_panic 1 0 (drop 5 b) _
          λ i. rw (read_short 4 0 (drop 6 b) (omega (arith, length-drop 6 b))))

unmarshal_tlvs_panic :
    (fuel n off : ℕ) (b : List ℕ) (tlvs : List Tlv)
    → off + 4 ≤ n
    → 0 < fuel
    → next_tlv off b ≡ panic
    → unmarshal_tlvs fuel n off b tlvs ≡ panic
unfolding unmarshal_tlvs
unmarshal_tlvs_panic zero n off b tlvs h f e = absurd (omega arith)
unmarshal_tlvs_panic (suc fuel) n off b tlvs h f e =
    let goes_on : ltb n (off + 4) ≡ false = ground arith in rw (goes_on, e)

next_tlv_panic :
    (b : List ℕ) → 48 ≤ length b → length b < 54 → get_be 2 44 b ≡ ok 4 → next_tlv 44 b ≡ panic
unfolding next_tlv unmarshal_tlv
next_tlv_panic b lo hi e = rw e (
    unmarshal_request_short (drop 44 b) (omega (arith, length-drop 44 b))
      (omega (arith, length-drop 44 b)))

-- The only length test on the TLVs is against the length that the packet states of itself. A
-- Signaling message of 48 to 53 bytes whose first TLV claims to be a request, and whose stated length
-- covers the head of that TLV, makes `Signaling.UnmarshalBinary` panic: it indexes past the end.
pub signaling_unmarshal_binary_panics :
    (b : List ℕ) (h : Header)
    → 48 ≤ length b
    → length b < 54
    → unmarshal_header b ≡ ok h
    → message_type h ≡ MessageType.signaling
    → 48 ≤ h.message_length
    → get_be 2 44 b ≡ ok TlvType.request_unicast_transmission
    → signaling_unmarshal_binary b ≡ panic
unfolding signaling_unmarshal_binary
signaling_unmarshal_binary_panics b h lo hi eh et em ef =
    let (clock, ec) = read_enough 8 0 (drop 34 b) (omega (arith, length-drop 34 b)) in
    let (port, ep) = read_enough 2 0 (drop 42 b) (omega (arith, length-drop 42 b)) in
    let tlvs =
      unmarshal_tlvs_panic h.message_length h.message_length 44 b [] em (omega arith)
        (next_tlv_panic b lo hi ef) in
    rw (guard_long 48 b not_enough_data lo, eh) (simp (et, ec, ep, tlvs))
