-- ===== src/Agent/CliHandler/Ends.antt =====
-- The loop of agent/cli_handler.go ends.
use hologram.Prelude.{
  ℕ, zero, suc, ◌+◌, ◌<◌, ◌≤◌, ◌≡◌, refl, ◌≢◌, ◌⊎◌, inl, inr, String, Option, none, some, length,
  arith,
}
use hologram.Prelude.Go.{
  Error, Bytes, Result, ok, err, Outcome, ret, panic, out_of_fuel, Go, continue, ◌>>=◌,
}
use hologram.Protocol.Requests.{AssumeRole, GetUserCredentials}
use hologram.Protocol.AgentRequest.{AgentRequest}
use hologram.Protocol.Message.{Message}
use hologram.Protocol.Connection.{write, close}
use hologram.Agent.Session.{Session}
use hologram.Agent.Client.{Client}
use hologram.Agent.Client.Ends.{read-incoming, write-incoming}
use hologram.Agent.CliHandler.{
  response_message, Verdict, go_on, leave, after_reply, reply, serve, handle_agent_request,
  handle_read, handle_next, after_verdict, handle_connection, run_connection,
}

-- The calls to the collaborators return or panic.
pub record CallsHalt {W : Type 0} (set_agent_sock : String → Option Bytes → Go W (Unit {0}))
    (client : Client W) : Type 0 where
  pub set_sock :
      (sock : String) (key : Option Bytes) (w : W) → (set_agent_sock sock key w).0 ≢ out_of_fuel
  pub assume_role : (role : String) (w : W) → (client.assume_role role w).0 ≢ out_of_fuel
  pub get_user_credentials : (w : W) → (client.get_user_credentials w).0 ≢ out_of_fuel

abbrev Shrunk : {W A : Type 0} → ℕ → Outcome A × Session W → Type 0
Shrunk n (o, s) = (o ≢ out_of_fuel) × (length s.conn.incoming < n)

abbrev Turned : {W : Type 0} → ℕ → Outcome Verdict × Session W → Type 0
Turned n x = (x.0 ≡ ret leave) ⊎ Shrunk n x

module _ {W : Type 0} (set_agent_sock : String → Option Bytes → Go W (Unit {0})) (client : Client W)
    (halt : CallsHalt set_agent_sock client) where
  after_reply-Shrunk :
      (n : ℕ) (e : Option Error) (s : Session W)
      → length s.conn.incoming < n
      → Shrunk n (after_reply set_agent_sock client e s)
  after_reply-Shrunk n none s h = ((λ e. cc e), h)
  after_reply-Shrunk n (some _) s h = ((λ e. cc e), h)

  reply-Shrunk :
      (n : ℕ) (o : Outcome (Option Error)) (s : Session W)
      → o ≢ out_of_fuel
      → length s.conn.incoming < n
      → Shrunk n (continue o (reply set_agent_sock client) s)
  unfolding ◌>>=◌
  reply-Shrunk n (ret e) s a h =
      after_reply-Shrunk n (write (response_message e) s.conn).0 _
        (rw (write-incoming (response_message e) s.conn) h)
  reply-Shrunk n panic s a h = ((λ e. cc e), h)
  reply-Shrunk n out_of_fuel s a h = absurd (a refl)

  serve-Shrunk :
      (n : ℕ) (r : Option AssumeRole) (g : Option GetUserCredentials) (s : Session W)
      → length s.conn.incoming < n
      → Shrunk n (serve set_agent_sock client r g s)
  unfolding ◌>>=◌ close
  serve-Shrunk n (some r) g s h = reply-Shrunk n _ _ (halt.assume_role _ s.world) h
  serve-Shrunk n none (some g) s h = reply-Shrunk n _ _ (halt.get_user_credentials s.world) h
  serve-Shrunk n none none s h = ((λ e. cc e), h)

  set-Shrunk :
      (n : ℕ) (o : Outcome (Unit {0})) (r : Option AssumeRole) (g : Option GetUserCredentials)
      (s : Session W)
      → o ≢ out_of_fuel
      → length s.conn.incoming < n
      → Shrunk n (continue o (λ _. serve set_agent_sock client r g) s)
  set-Shrunk n (ret _) r g s a h = serve-Shrunk n r g s h
  set-Shrunk n panic r g s a h = ((λ e. cc e), h)
  set-Shrunk n out_of_fuel r g s a h = absurd (a refl)

  request-Shrunk :
      (n : ℕ) (r : Option AgentRequest) (s : Session W)
      → length s.conn.incoming < n
      → Shrunk n (handle_agent_request set_agent_sock client r s)
  unfolding ◌>>=◌ close
  request-Shrunk n none s h = ((λ e. cc e), h)
  request-Shrunk n (some r) s h = set-Shrunk n _ _ _ _ (halt.set_sock _ _ s.world) h

  read-Turned :
      (n : ℕ) (r : Result Message) (s : Session W)
      → ((m : Message) → r ≡ ok m → length s.conn.incoming < n)
      → Turned n (handle_read set_agent_sock client r s)
  read-Turned n (err e) s h = inl refl
  read-Turned n (ok msg) s h = inr (request-Shrunk n _ s (h msg refl))

  after_verdict_ends :
      (fuel n : ℕ) (o : Outcome Verdict) (s : Session W)
      → ((t : Session W)
          → length t.conn.incoming < fuel
          → (handle_connection set_agent_sock client fuel t).0 ≢ out_of_fuel)
      → n ≤ fuel
      → Turned n (o, s)
      → (continue o
          (after_verdict set_agent_sock client (handle_connection set_agent_sock client fuel))
          s).0
        ≢ out_of_fuel
  after_verdict_ends fuel n (ret leave) s again le d = λ h. cc h
  after_verdict_ends fuel n (ret go_on) s again le (inl d) = cc d
  after_verdict_ends fuel n (ret go_on) s again le (inr d) = again s (omega (arith, d.1))
  after_verdict_ends fuel n panic s again le d = λ h. cc h
  after_verdict_ends fuel n out_of_fuel s again le (inl d) = cc d
  after_verdict_ends fuel n out_of_fuel s again le (inr d) = absurd (d.0 refl)

  loop_ends :
      (fuel : ℕ) (s : Session W)
      → length s.conn.incoming < fuel
      → (handle_connection set_agent_sock client fuel s).0 ≢ out_of_fuel
  unfolding handle_connection handle_next ◌>>=◌
  loop_ends zero s h = absurd (omega arith)
  loop_ends (suc fuel) s h =
      after_verdict_ends fuel (length s.conn.incoming) _ _ (λ t. loop_ends fuel t) (omega arith)
        (read-Turned (length s.conn.incoming) _ _ (λ m e. read-incoming s.conn e))

  -- If the calls to the client and to the signer return or panic, then the handler of a connection from
  -- the command line on which finitely many messages arrive ends.
  pub cli_connection_ends :
      (s : Session W) → (run_connection set_agent_sock client s).0 ≢ out_of_fuel
  cli_connection_ends s = loop_ends (length s.conn.incoming + 1) s (omega arith)
