-- ===== src/Ptp/Handshake/Subscriptions.antt =====
-- The handshake from the client's first request to its three subscriptions.
use ntp.Prelude.{
  ℕ, ◌+◌, ◌%◌, ◌^◌, ◌<◌, ◌≡◌, refl, ◌∙◌, true, false, none, some, List, [], ◌∷◌, ◌++◌, ok, ◌==◌,
  arith,
}
use mathlib.Core.List.{append_assoc}
use ntp.Ptp.MessageType
use ntp.Ptp.Types.{PortIdentity, unicast_msg_type}
use ntp.Ptp.Signaling.{GrantUnicast}
use ntp.Ptp.Server.Subscription.{Address}
use ntp.Ptp.Server.Clients.{find_subscription}
use ntp.Ptp.Server.Handlers.{State, Env, Context, key}
use ntp.Ptp.Server.Handlers.WellFormed.{IsState}
use ntp.Ptp.Server.Handlers.Registered.{handle_general_remembers}
use ntp.Ptp.Client.Requests.{req_unicast}
use ntp.Ptp.Client.Session.{
  Client, init, in_progress, Io, sent_general, handle_grant_unicast, send_general_msg, set_state,
  output, ask,
}
use ntp.Ptp.Handshake.{Turns, no_turn, turns, client_asks, server_reads, client_reads}
use ntp.Ptp.Handshake.Exchange.{Answered, admits, request_answered, one_grant}

-- What the client does with the grant of each type.
announce_granted :
    (i : Io) (t : GrantUnicast) (c : Client)
    → unicast_msg_type t.msg_type_and_reserved ≡ MessageType.announce
    → (t.duration_field == 0) ≡ false
    → handle_grant_unicast i t c
      ≡ send_general_msg i
          (req_unicast c.clock_id c.duration MessageType.sync)
          (set_state in_progress c)
unfolding handle_grant_unicast
announce_granted i t c e d = rw (e, d) refl

sync_granted :
    (i : Io) (t : GrantUnicast) (c : Client)
    → unicast_msg_type t.msg_type_and_reserved ≡ MessageType.sync
    → (t.duration_field == 0) ≡ false
    → handle_grant_unicast i t c
      ≡ send_general_msg i (req_unicast c.clock_id c.duration MessageType.delay_resp) c
unfolding handle_grant_unicast
sync_granted i t c e d = rw (e, d) refl

delay_resp_granted :
    (i : Io) (t : GrantUnicast) (c : Client)
    → unicast_msg_type t.msg_type_and_reserved ≡ MessageType.delay_resp
    → (t.duration_field == 0) ≡ false
    → handle_grant_unicast i t c ≡ ok c
unfolding handle_grant_unicast
delay_resp_granted i t c e d = rw (e, d) refl

abbrev pub port_of : Client → PortIdentity
port_of c = record { clock_identity = c.clock_id; port_number = 1 }

-- A subscription of the client for a message type.
abbrev pub Registered : Context → Client → ℕ → State → Type 0
Registered x c t s = (p : ℕ) × (find_subscription s.clients (key x (port_of c) t) ≡ some p)

-- A client that has sent one more request.
abbrev sent : List ℕ → Client → Client
sent b c = output (sent_general b) (record c { gen_sequence = (c.gen_sequence + 1) % 65536 })

positive : (n d : ℕ) → 0 < n → d ≡ n → (d == 0) ≡ false
positive n d h e = ground arith

-- From a client that has not asked yet and a server whose limits admit two seconds between messages
-- and the client's duration, when every datagram arrives and every write succeeds: the client asks
-- for Announce, its answer to that grant asks for Sync, and its answer to that for Delay_Resp. At the
-- end the client is in progress and has sent those three packets; the server has the three
-- subscriptions, and a well-formed state.
pub handshake_completes :
    (x : Context) (home : Address) (c : Client) (s : State) (env : ℕ → Env) (io : ℕ → Io)
    → ((n : ℕ) → (env n).sent ≡ true)
    → ((n : ℕ) → (io n).written ≡ true)
    → IsState s
    → x.config.clock_identity < 2 ^ 64
    → c.clock_id < 2 ^ 64
    → c.duration < 2 ^ 32
    → c.gen_sequence < 65536
    → 0 < c.duration
    → c.phase ≡ init
    → admits x c.duration ≡ false
    → (c' : Client) × (s' : State) × (a b d : List ℕ) × Turns x home (c, s) (c', s')
      × (c'.phase ≡ in_progress)
      × (c'.outputs ≡ c.outputs ++ sent_general a ∷ sent_general b ∷ sent_general d ∷ [])
      × Registered x c MessageType.announce s'
      × Registered x c MessageType.sync s'
      × Registered x c MessageType.delay_resp s'
      × IsState s'
unfolding ask set_state
handshake_completes x home c s env io es ws h xc cc' cd cn long fresh fits =
    let r1 : Answered x home (λ n. env 0) (io 0) MessageType.announce c s =
      request_answered x home (λ n. env 0) (io 0) MessageType.announce c s (ws 0) (es 0) h xc cc' cd
        cn (omega arith) refl fits in
    let c1 : Client = sent r1.asked c in
    let c1' : Client = set_state in_progress c1 in
    let r2 : Answered x home (λ n. env 1) (io 1) MessageType.sync c1' r1.state =
      request_answered x home (λ n. env 1) (io 1) MessageType.sync c1' r1.state (ws 1) (es 1)
        r1.well_formed xc cc' cd (omega arith) (omega arith) refl fits in
    let c2 : Client = sent r2.asked c1' in
    let r3 : Answered x home (λ n. env 2) (io 2) MessageType.delay_resp c2 r2.state =
      request_answered x home (λ n. env 2) (io 2) MessageType.delay_resp c2 r2.state (ws 2) (es 2)
        r2.well_formed xc cc' cd (omega arith) (omega arith) refl fits in
    let c3 : Client = sent r3.asked c2 in
    let k1 = key x (port_of c) MessageType.announce in
    let k2 = key x (port_of c) MessageType.sync in
    let first : find_subscription r1.state.clients k1 ≡ some r1.subscription =
      r1.subscribed.found in
    let first' : find_subscription r2.state.clients k1 ≡ some r1.subscription =
      handle_general_remembers x _ _ _ _ k1 _ r2.handled first in
    let second : find_subscription r2.state.clients k2 ≡ some r2.subscription =
      r2.subscribed.found in
    let grant1 =
      one_grant (λ n. io 1) r1.granted none r1.packet r1.tlv c1 c2 r1.probed r1.parsed r1.one_tlv
        (announce_granted (io 1) r1.tlv c1 r1.granted_type
            (positive c.duration _ long r1.granted_duration)
          ∙ r2.sent) in
    let grant2 =
      one_grant (λ n. io 2) r2.granted none r2.packet r2.tlv c2 c3 r2.probed r2.parsed r2.one_tlv
        (sync_granted (io 2) r2.tlv c2 r2.granted_type
            (positive c.duration _ long r2.granted_duration)
          ∙ r3.sent) in
    let grant3 =
      one_grant (λ n. io 3) r3.granted none r3.packet r3.tlv c3 c3 r3.probed r3.parsed r3.one_tlv
        (delay_resp_granted (io 3) r3.tlv c3 r3.granted_type
          (positive c.duration _ long r3.granted_duration)) in
    let run1 =
      turns (turns no_turn (client_asks (io 0) fresh r1.sent))
        (server_reads (λ n. env 0) c.outputs r1.asked refl r1.handled) in
    let run2 =
      turns (turns run1 (client_reads (λ n. io 1) none r1.before r1.granted _ _ r1.replied grant1))
        (server_reads (λ n. env 1) c1.outputs r2.asked refl r2.handled) in
    let run3 =
      turns (turns run2 (client_reads (λ n. io 2) none r2.before r2.granted _ _ r2.replied grant2))
        (server_reads (λ n. env 2) c2.outputs r3.asked refl r3.handled) in
    (
      c3,
      r3.state,
      r1.asked,
      r2.asked,
      r3.asked,
      turns run3 (client_reads (λ n. io 3) none r3.before r3.granted _ _ r3.replied grant3),
      refl,
      simp append_assoc,
      (_, handle_general_remembers x _ _ _ _ k1 _ r3.handled first'),
      (_, handle_general_remembers x _ _ _ _ k2 _ r3.handled second),
      (_, r3.subscribed.found),
      r3.well_formed,
    )
