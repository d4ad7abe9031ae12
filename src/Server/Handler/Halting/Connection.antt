-- ===== src/Server/Handler/Halting/Connection.antt =====
-- The loop of `HandleConnection` ends once the client sends no more.
use hologram.Prelude.{ℕ, zero, suc, ◌+◌, ◌≤◌, ◌<◌, ◌≢◌, Option, none, some, refl, arith}
use hologram.Prelude.Go.{ok, err, Outcome, ret, panic, out_of_fuel, ◌>>=◌}
use hologram.Protocol.Ping.{Ping}
use hologram.Protocol.ServerRequest.{ServerRequest}
use hologram.Protocol.Message.{Message}
use hologram.Server.Handler.State.{Settings, State, Services, receive, handle_ping, pong}
use hologram.Server.Handler.Requests.{handle_server_request}
use hologram.Server.Handler.Loop.{
  dispatch_message, handle_message, handle_connection, run_connection,
}
use hologram.Server.Handler.Halting.Rules.{
  Halts, EndsAt, EndsAt-bind, EndsAt-weaken, waiting, free, Halts-pure, Halts-bind, Halts-receive,
  Halts-counter, message_cost,
}
use hologram.Server.Handler.Halting.Challenge.{ServicesHalt}
use hologram.Server.Handler.Halting.Requests.{send_plain-Halts, dispatch-Halts}

module _ {Key W : Type 0} (settings : Settings) (services : Services Key W)
    (halt : ServicesHalt services) where
  handle_ping-Halts : (p : Ping) → Halts free (handle_ping {W = W} p)
  unfolding handle_ping
  handle_ping-Halts p =
      Halts-bind (Halts-counter _) λ _. send_plain-Halts settings services halt pong

  dispatch_message-Halts :
      (p : Option Ping) (r : Option ServerRequest)
      → Halts free (dispatch_message settings services p r)
  unfolding handle_server_request
  dispatch_message-Halts (some p) r = handle_ping-Halts p
  dispatch_message-Halts none (some r) = dispatch-Halts settings services halt _ _ _
  dispatch_message-Halts none none = Halts-pure tt refl

  handle_message-Halts : (msg : Message) → Halts free (handle_message settings services msg)
  unfolding handle_message
  handle_message-Halts msg = dispatch_message-Halts _ _

  -- Going on after code that has left `n` messages at most.
  EndsAt-fewer :
      {A : Type 0} (n n' : ℕ) (o : Outcome A) (s : State W)
      → n' ≤ n
      → EndsAt free n' o s
      → EndsAt free n o s
  EndsAt-fewer n n' o s h e = EndsAt-weaken free free 0 n n' o s (λ b. omega arith) (omega arith) e

  -- One message, and the rest of the loop by the hypothesis.
  after_message-ends :
      (fuel : ℕ) (msg : Message) (s : State W)
      → ((t : State W)
          → waiting t ≤ waiting s
          → EndsAt free
              (waiting t)
              (handle_connection settings services fuel t).0
              (handle_connection settings services fuel t).1)
      → let m =
          handle_message settings services msg >>= λ _. handle_connection settings services fuel in
        EndsAt free (waiting s) (m s).0 (m s).1
  after_message-ends fuel msg s rest =
      let step = handle_message settings services msg in
      EndsAt-bind free free (waiting s) step (λ _. handle_connection settings services fuel) s
        ((handle_message-Halts msg).at s)
        λ _ le.
          let q : waiting (step s).1 ≤ waiting s = omega arith in
          EndsAt-fewer (waiting s) (waiting (step s).1) _ _ q (rest (step s).1 q)

  handle_connection-ends :
      (fuel : ℕ) (s : State W)
      → waiting s < fuel
      → EndsAt free
          (waiting s)
          (handle_connection settings services fuel s).0
          (handle_connection settings services fuel s).1
  unfolding handle_connection
  handle_connection-ends zero s h = absurd (omega arith)
  handle_connection-ends (suc fuel) s h =
      EndsAt-bind message_cost free (waiting s) receive _ s (Halts-receive.at s) (elim [
        | err e ↦ λ k. k
        | ok msg ↦ λ k.
            let taken : waiting (receive s).1 + 1 ≤ waiting s = k in
            let fewer : waiting (receive s).1 ≤ waiting s = omega arith in
            EndsAt-fewer (waiting s) (waiting (receive s).1) _ _ fewer (
              after_message-ends fuel msg (receive s).1
                λ t q. handle_connection-ends fuel t (omega arith))
      ])

  EndsAt-ne-fuel :
      {A : Type 0} (n : ℕ) (o : Outcome A) (s : State W) → EndsAt free n o s → o ≢ out_of_fuel
  EndsAt-ne-fuel n (ret a) s h e = cc
  EndsAt-ne-fuel n panic s h e = cc
  EndsAt-ne-fuel n out_of_fuel s h e = absurd h

  -- If the calls to the collaborators return or panic, then a connection on which the client sends
  -- finitely many messages is handled to its end: the loops of `HandleConnection` and of
  -- `SSHChallenge` stop by themselves.
  pub run_connection_ends : (s : State W) → (run_connection settings services s).0 ≢ out_of_fuel
  run_connection_ends s =
      EndsAt-ne-fuel (waiting s) _ (run_connection settings services s).1
        (handle_connection-ends (waiting s + 1) s (omega arith))
