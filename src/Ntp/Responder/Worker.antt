-- ===== src/Ntp/Responder/Worker.antt =====
-- A worker over all its tasks: replies do not depend on earlier tasks, and nothing is lost.
use ntp.Prelude.{
  ℕ, ◌+◌, ◌≡◌, refl, sym, ◌∙◌, List, [], ◌∷◌, ◌++◌, ok, length, arith, if◌then◌else◌, length-append,
  Bool-cases, inl, inr,
}
use ntp.Prelude.Int.{ℤ, ◌+ℤ◌}
use ntp.Wire.{IsByte, All}
use ntp.Ntp.Packet.{Packet, valid_settings_format, bytes, empty_packet}
use ntp.Ntp.Responder.{
  Server, Task, State, generate_response, serve, serve_all, start_worker, fill_static_headers,
}
use ntp.Ntp.Responder.Reply.{fill_static_headers_total}
use mathlib.Core.List.{append-nil, append_assoc}

-- The specification: each valid request is answered from the same header packet, in order.
abbrev pub replies : ℤ → Packet → List (ℤ × Task) → List (List ℕ × ℕ)
replies extra header [] = []
replies extra header ((now, t) ∷ ts) =
    let rest = replies extra header ts in
    if valid_settings_format t.request
    then (let reply = generate_response (now +ℤ extra) (t.received +ℤ extra) t.request header in
        (bytes reply, t.addr) ∷ rest)
    else rest

-- The header packet and what earlier replies have left in it give the same reply.
abbrev SameHeader : Packet → Packet → Type 0
SameHeader p q =
    (now received : ℤ) (request : Packet)
    → generate_response now received request p ≡ generate_response now received request q

serve-SameHeader :
    (extra now : ℤ) (t : Task) (s : State) (header : Packet)
    → SameHeader s.response header
    → SameHeader (serve extra now t s).response header
unfolding serve
serve-SameHeader extra now t s header h = elim (Bool-cases (valid_settings_format t.request)) [
  | inl v ↦ rw v (λ n r q. overwrites extra now t s n r q ∙ h n r q)
  | inr v ↦ rw v h
]
  where
    overwrites :
        (extra now : ℤ) (t : Task) (s : State) (n r : ℤ) (q : Packet)
        → generate_response n r q
            (generate_response (now +ℤ extra) (t.received +ℤ extra) t.request s.response)
          ≡ generate_response n r q s.response
    overwrites extra now t s n r q = unfold generate_response in refl

serve_all-replies :
    (extra : ℤ) (ts : List (ℤ × Task)) (s : State) (header : Packet)
    → SameHeader s.response header
    → (serve_all extra ts s).sent ≡ s.sent ++ replies extra header ts
unfolding serve_all serve
serve_all-replies extra [] s header h = sym (append-nil s.sent)
serve_all-replies extra ((now, t) ∷ ts) s header h =
    let ih =
      serve_all-replies extra ts (serve extra now t s) header
        (serve-SameHeader extra now t s header h) in
    elim (Bool-cases (valid_settings_format t.request)) [
      | inl v ↦ ih ∙ rw (v, h, append_assoc) refl
      | inr v ↦ ih ∙ rw v refl
    ]

serve_all_counts :
    (extra : ℤ) (ts : List (ℤ × Task)) (s : State)
    → let s' = serve_all extra ts s in
      (s'.responses + s'.invalid_format ≡ s.responses + s.invalid_format + length ts)
      × (length s'.sent + s.responses ≡ length s.sent + s'.responses)
unfolding serve_all serve
serve_all_counts extra [] s = omega arith
serve_all_counts extra ((now, t) ∷ ts) s =
    let reply : List ℕ × ℕ = (
      bytes (generate_response (now +ℤ extra) (t.received +ℤ extra) t.request s.response),
      t.addr,
    ) in
    ground
      (arith, serve_all_counts extra ts (serve extra now t s), length-append s.sent (reply ∷ []))

-- A worker starts on every server whose RefID is made of bytes. What it has sent after any tasks is
-- the list of the replies made from its static headers alone: the reused response carries nothing
-- from one client's reply to another's. Every task is counted once, as a response or as invalid, and
-- the responses counted are the packets sent.
pub start_worker-replies :
    (s : Server) (ts : List (ℤ × Task))
    → All IsByte s.ref_id
    → (header : Packet) × (fill_static_headers s empty_packet ≡ ok header)
      × (end : State) × (start_worker s ts ≡ ok end)
      × (end.sent ≡ replies s.extra_offset header ts)
      × (end.responses + end.invalid_format ≡ length ts)
      × (length end.sent ≡ end.responses)
unfolding start_worker
start_worker-replies s ts h =
    let (header, e, p) = fill_static_headers_total s empty_packet h (omega arith) in
    let start : State = record {
      response = header;
      sent = [];
      responses = 0;
      invalid_format = 0;
    } in
    let counts = serve_all_counts s.extra_offset ts start in
    (
      header,
      e,
      serve_all s.extra_offset ts start,
      rw e,
      serve_all-replies s.extra_offset ts start header (λ n r q. refl),
      omega (arith, counts),
      omega (arith, counts),
    )
