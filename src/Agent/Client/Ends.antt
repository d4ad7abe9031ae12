-- ===== src/Agent/Client/Ends.antt =====
-- The loop of `requestCredentials` in agent/client.go ends.
use hologram.Prelude.{
  ℕ, zero, suc, ◌+◌, ◌<◌, ◌≤◌, ◌≡◌, refl, ◌≢◌, ◌⊎◌, inl, inr, String, Option, none, some, length,
  arith,
}
use hologram.Prelude.Go.{
  Error, Bytes, Result, ok, err, Outcome, ret, panic, out_of_fuel, Go, pure, continue, ◌>>=◌,
}
use hologram.Protocol.ServerRequest.{ServerRequest}
use hologram.Protocol.ServerResponse.{ServerResponse}
use hologram.Protocol.Responses.{SshChallenge, SshVerificationFailure, StsCredentials}
use hologram.Protocol.Message.{Message}
use hologram.Protocol.Connection.{Conn, read, write}
use hologram.Server.Types.{Signature}
use hologram.Agent.Session.{Session}
use hologram.Agent.Client.{
  CredentialsReceiver, Turn, next, done, after_answer, answer, handle_response, handle_server,
  handle_read, turn, after_turn, request_loop, after_request, converse, with_conn,
  request_credentials,
}

-- A read that gives a message has taken it, and a write takes none.
pub read-incoming :
    (c : Conn) {m : Message} → (read c).0 ≡ ok m → length (read c).1.incoming < length c.incoming
unfolding read
read-incoming c h = ground arith

pub write-incoming : (m : Message) (c : Conn) → (write m c).1.incoming ≡ c.incoming
unfolding write
write-incoming m c = ground arith

-- A step that does not stop for want of fuel, and leaves fewer than `n` messages.
abbrev Shrunk : {W A : Type 0} → ℕ → Outcome A × Session W → Type 0
Shrunk n (o, s) = (o ≢ out_of_fuel) × (length s.conn.incoming < n)

-- A turn has ended the loop, or has taken a message.
abbrev Turned : {W : Type 0} → ℕ → Outcome Turn × Session W → Type 0
Turned n x = ((e : Option Error) × (x.0 ≡ ret (done e))) ⊎ Shrunk n x

module _ {W : Type 0} (sign : Bytes → ℕ → Go W (Result (Option Signature)))
    (show : Message → String) (receiver : CredentialsReceiver W) (dial : Go W (Result Conn))
    (sign_halts : (b : Bytes) (k : ℕ) (w : W) → (sign b k w).0 ≢ out_of_fuel)
    (set_halts : (c : _) (role : String) (w : W)
      → (receiver.set_credentials c role w).0 ≢ out_of_fuel)
    (dial_halts : (w : W) → (dial w).0 ≢ out_of_fuel) where
  after_answer-Shrunk :
      (n skip : ℕ) (e : Option Error) (s : Session W)
      → length s.conn.incoming < n
      → Shrunk n (after_answer sign show receiver dial skip e s)
  after_answer-Shrunk n skip none s h = ((λ e. cc e), h)
  after_answer-Shrunk n skip (some _) s h = ((λ e. cc e), h)

  answer-Shrunk :
      (n skip : ℕ) (o : Outcome (Result (Option Signature))) (s : Session W)
      → o ≢ out_of_fuel
      → length s.conn.incoming < n
      → Shrunk n (continue o (answer sign show receiver dial skip) s)
  unfolding ◌>>=◌
  answer-Shrunk n skip (ret (err _)) s a h = ((λ e. cc e), h)
  answer-Shrunk n skip (ret (ok none)) s a h = ((λ e. cc e), h)
  answer-Shrunk n skip (ret (ok (some signature))) s a h =
      after_answer-Shrunk n skip _ _ (rw (write-incoming _ s.conn) h)
  answer-Shrunk n skip panic s a h = ((λ e. cc e), h)
  answer-Shrunk n skip out_of_fuel s a h = absurd (a refl)

  stored-Shrunk :
      (n : ℕ) (o : Outcome (Unit {0})) (s : Session W)
      → o ≢ out_of_fuel
      → length s.conn.incoming < n
      → Shrunk n (continue o (λ _. pure (done none)) s)
  stored-Shrunk n (ret _) s a h = ((λ e. cc e), h)
  stored-Shrunk n panic s a h = ((λ e. cc e), h)
  stored-Shrunk n out_of_fuel s a h = absurd (a refl)

  handle_response-Shrunk :
      (n skip : ℕ) (role : String) (msg : Message) (c : Option SshChallenge)
      (r : Option StsCredentials) (f : Option SshVerificationFailure) (s : Session W)
      → length s.conn.incoming < n
      → Shrunk n (handle_response sign show receiver dial skip role msg c r f s)
  unfolding ◌>>=◌
  handle_response-Shrunk n skip role msg (some c) r f s h =
      answer-Shrunk n skip _ _ (sign_halts _ skip s.world) h
  handle_response-Shrunk n skip role msg none (some r) f s h =
      stored-Shrunk n _ _ (set_halts _ role s.world) h
  handle_response-Shrunk n skip role msg none none (some f) s h = ((λ e. cc e), h)
  handle_response-Shrunk n skip role msg none none none s h = ((λ e. cc e), h)

  handle_server-Shrunk :
      (n skip : ℕ) (role : String) (msg : Message) (r : Option ServerResponse) (s : Session W)
      → length s.conn.incoming < n
      → Shrunk n (handle_server sign show receiver dial skip role msg r s)
  handle_server-Shrunk n skip role msg none s h = ((λ e. cc e), h)
  handle_server-Shrunk n skip role msg (some r) s h =
      handle_response-Shrunk n skip role msg _ _ _ s h

  handle_read-Turned :
      (n skip : ℕ) (role : String) (r : Result Message) (s : Session W)
      → ((m : Message) → r ≡ ok m → length s.conn.incoming < n)
      → Turned n (handle_read sign show receiver dial skip role r s)
  handle_read-Turned n skip role (err e) s h = inl (some e, refl)
  handle_read-Turned n skip role (ok msg) s h =
      inr (handle_server-Shrunk n skip role msg _ s (h msg refl))

  turn-Turned :
      (skip : ℕ) (role : String) (s : Session W)
      → Turned (length s.conn.incoming) (turn sign show receiver dial skip role s)
  unfolding turn ◌>>=◌
  turn-Turned skip role s =
      handle_read-Turned (length s.conn.incoming) skip role _ _ (λ m e. read-incoming s.conn e)

  after_turn_ends :
      (fuel n : ℕ) (role : String) (o : Outcome Turn) (s : Session W)
      → ((skip : ℕ) (t : Session W)
          → length t.conn.incoming < fuel
          → (request_loop sign show receiver dial fuel role skip t).0 ≢ out_of_fuel)
      → n ≤ fuel
      → Turned n (o, s)
      → (continue o
          (after_turn sign show receiver dial (request_loop sign show receiver dial fuel role))
          s).0
        ≢ out_of_fuel
  after_turn_ends fuel n role (ret (next k)) s again le (inl d) = cc d.1
  after_turn_ends fuel n role (ret (next k)) s again le (inr d) = again k s (omega (arith, d.1))
  after_turn_ends fuel n role (ret (done e)) s again le d = λ h. cc h
  after_turn_ends fuel n role panic s again le d = λ h. cc h
  after_turn_ends fuel n role out_of_fuel s again le (inl d) = cc d.1
  after_turn_ends fuel n role out_of_fuel s again le (inr d) = absurd (d.0 refl)

  request_loop_ends :
      (fuel : ℕ) (role : String) (skip : ℕ) (s : Session W)
      → length s.conn.incoming < fuel
      → (request_loop sign show receiver dial fuel role skip s).0 ≢ out_of_fuel
  unfolding request_loop ◌>>=◌
  request_loop_ends zero role skip s h = absurd (omega arith)
  request_loop_ends (suc fuel) role skip s h =
      after_turn_ends fuel (length s.conn.incoming) role _ _
        (λ k t. request_loop_ends fuel role k t) (omega arith) (turn-Turned skip role s)

  after_request_ends :
      (role : String) (e : Option Error) (s : Session W)
      → (after_request sign show receiver dial role e s).0 ≢ out_of_fuel
  after_request_ends role (some e) s h = cc h
  after_request_ends role none s h =
      request_loop_ends (length s.conn.incoming + 1) role 0 s (omega arith) h

  with_conn_ends :
      (req : ServerRequest) (role : String) (o : Outcome (Result Conn)) (w : W)
      → o ≢ out_of_fuel
      → (continue o (with_conn sign show receiver dial req role) w).0 ≢ out_of_fuel
  unfolding converse ◌>>=◌
  with_conn_ends req role (ret (err e)) w a h = cc h
  with_conn_ends req role (ret (ok conn)) w a h = after_request_ends role _ _ h
  with_conn_ends req role panic w a h = cc h
  with_conn_ends req role out_of_fuel w a h = a refl

  -- If dialling, signing and storing credentials do not loop, then a request for credentials ends,
  -- with an error or without, or by a panic of one of these: whatever the server answers in finitely
  -- many messages, the loop over its responses stops.
  pub request_credentials_ends :
      (req : ServerRequest) (role : String) (w : W)
      → (request_credentials sign show receiver dial req role w).0 ≢ out_of_fuel
  unfolding request_credentials ◌>>=◌
  request_credentials_ends req role w = with_conn_ends req role _ _ (dial_halts w)
