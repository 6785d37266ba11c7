-- ===== src/Ptp/Handshake/Examples.antt =====
-- A client of clock 77 and a server that has no subscriptions, or one of another client.
use ntp.Prelude.{ℕ, ◌≡◌, refl, false, some, List, [], ◌∷◌, ◌++◌, arith}
use ntp.Ptp.MessageType
use ntp.Ptp.Types.{unicast_msg_type}
use ntp.Ptp.Server.Subscription.{log_interval_duration}
use ntp.Ptp.Server.Clients.{find_subscription}
use ntp.Ptp.Server.Handlers.{State}
use ntp.Ptp.Server.Handlers.WellFormed.{IsState}
use ntp.Ptp.Server.Handlers.Registered.{handle_general_remembers}
use ntp.Ptp.Server.Examples.{
  context, address, env, empty, empty-IsState, one, one-IsState, one-found, client_key,
}
use ntp.Ptp.Client.Session.{Client, in_progress, sent_general}
use ntp.Ptp.Client.Session.Examples.{io, client}
use ntp.Ptp.Handshake.{Turns}
use ntp.Ptp.Handshake.Exchange.{Answered, admits, request_answered}
use ntp.Ptp.Handshake.Subscriptions.{Registered, handshake_completes}

admitted : admits context client.duration ≡ false
unfolding log_interval_duration
admitted = refl

handshake_completes_example :
    (c' : Client) × (s' : State) × (a b d : List ℕ) × Turns context address (client, empty) (c', s')
    × (c'.phase ≡ in_progress)
    × (c'.outputs ≡ [] ++ sent_general a ∷ sent_general b ∷ sent_general d ∷ [])
    × Registered context client MessageType.announce s'
    × Registered context client MessageType.sync s'
    × Registered context client MessageType.delay_resp s'
    × IsState s'
handshake_completes_example =
    handshake_completes context address client empty (λ n. env) (λ n. io) (λ n. refl) (λ n. refl)
      empty-IsState (omega arith) (omega arith) (omega arith) (omega arith) (omega arith) refl
      admitted

-- The other client's Sync subscription, after this client's request.
answered : Answered context address (λ n. env) io MessageType.announce client (one 0)
answered =
    request_answered context address (λ n. env) io MessageType.announce client (one 0) refl refl
      (one-IsState 0) (omega arith) (omega arith) (omega arith) (omega arith) (omega arith) refl
      admitted

handle_general_remembers_example :
    find_subscription answered.state.clients (client_key (unicast_msg_type 0)) ≡ some 0
handle_general_remembers_example =
    handle_general_remembers context (λ n. env) (some (answered.asked, address)) (one 0)
      answered.state (client_key (unicast_msg_type 0)) 0 answered.handled one-found
