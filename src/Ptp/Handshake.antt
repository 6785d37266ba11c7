-- ===== src/Ptp/Handshake.antt =====
-- The client of ptp/simpleclient/client.go and the general port of ptp/ptp4u/server/server.go, with
-- the datagrams carried from one to the other.
pub mod Exchange
pub mod Subscriptions
mod Examples
use ntp.Prelude.{ℕ, ◌≡◌, Option, some, List, [], ◌∷◌, ◌++◌, ok}
use ntp.Prelude.Int.{ℤ}
use ntp.Ptp.Server.Subscription.{Address}
use ntp.Ptp.Server.Handlers.{
  State, Env, Action, Context, handle_general, send_grant_to, inc_tx_signaling, inc_rx_signaling,
}
use ntp.Ptp.Client.Session.{Client, Phase, init, Io, Output, sent_general, ask, handle_msg}

-- One side acts on what the other sent last. The server's state ends with the grant and the counters
-- behind it; the client has the address `home`.
module _ (x : Context) (home : Address) where
  pub data Turn : Client × State → Client × State → Type 0 where
    client_asks :
        {c c' : Client} {s : State} (i : Io)
        → c.phase ≡ init
        → ask i c ≡ ok c'
        → Turn (c, s) (c', s)
    server_reads :
        {c : Client} {s s' : State} (env : ℕ → Env) (before : List Output) (b : List ℕ)
        → c.outputs ≡ before ++ sent_general b ∷ []
        → handle_general x env (some (b, home)) s ≡ ok s'
        → Turn (c, s) (c, s')
    client_reads :
        {c c' : Client} {s : State} (env : ℕ → Io) (received : Option ℤ) (before : List Action)
        (b : List ℕ) (t u : ℕ)
        → s.actions ≡ before ++ send_grant_to b home ∷ inc_tx_signaling t ∷ inc_rx_signaling u ∷ []
        → handle_msg env b received c ≡ ok c'
        → Turn (c, s) (c', s)

  pub data Turns (p : Client × State) : Client × State → Type 0 where
    no_turn : Turns p p
    turns : {q r : Client × State} → Turns p q → Turn q r → Turns p r
