-- ===== src/Handshake/Refusal.antt =====
-- A session of agent/client.go with server/server.go in which the server refuses every key of the client.
use mathlib.Core.List.{append_assoc, append-nil}
use hologram.Prelude.{
  ℕ, zero, suc, ◌+◌, ◌<◌, ◌≡◌, refl, ap, ◌∙◌, Option, none, some, String, List, [], ◌∷◌, ◌++◌, map,
  length, arith, true, false,
}
use hologram.Prelude.Go.{Error, Bytes, Result, ok, err, Outcome, ret, Go, ◌>>=◌}
use hologram.Protocol.Requests
use hologram.Protocol.ServerRequest
use hologram.Protocol.ServerResponse
use hologram.Protocol.Responses
use hologram.Protocol.Message
use hologram.Protocol.Message.{Message}
use hologram.Protocol.Connection.{Conn, read, write, close}
use hologram.Server.Types.{Signature}
use hologram.Server.Handler.State.{Settings, State, Services}
use hologram.Server.Handler.Challenge.{
  challenge_size, new_challenge, answer_verdict, check_answer, check_request, check_response,
  challenge_round, ssh_challenge,
}
use hologram.Server.Handler.Requests.{handle_server_request, handle_assume_role}
use hologram.Server.Handler.Loop.{handle_message, handle_connection, run_connection}
use hologram.Agent.Client.{
  signature_message, CredentialsReceiver, empty_request, converse, turn, request_loop,
  request_credentials, client,
}
use hologram.Handshake.{challenge_at, server_says, sent_by_server, drawn_after}
use hologram.Handshake.Server.{conn_with, at_server}
use hologram.Handshake.Client.{at_client}
use hologram.Handshake.Session.{role_request, fuel_is, sent_by_server-says}

abbrev pub signatures : List Signature → List Message
signatures = map signature_message

-- What the server reads: these messages, and then the error with which the connection ends.
abbrev pub until_end : Error → List Message → List (Result Message)
until_end e [] = err e ∷ []
until_end e (m ∷ ms) = ok m ∷ until_end e ms

-- The server's handler with a peer that says this before the connection ends.
abbrev pub ended_run :
    {Key W : Type 0}
    → Settings
    → Services Key W
    → Error
    → List Message
    → ℕ
    → List String
    → W
    → Outcome (Unit {0}) × State W
ended_run settings services e said drawn counters w =
    run_connection settings services (at_server (until_end e said) [] drawn counters w)

module _ {Key V W : Type 0} (services : Services Key W)
    (sign : Bytes → ℕ → Go V (Result (Option Signature))) (v' : V) (w' : W) where
  -- The client's keys from `skip` on give these signatures, all of which the authenticator refuses, and
  -- then there is no further key.
  abbrev pub Refuses : List Signature → ℕ → ℕ → V → W → Type 0
  Refuses [] skip drawn v w =
      (sign (challenge_at services.rand_int drawn) skip v ≡ (ret (ok none), v')) × (w ≡ w')
  Refuses (sig ∷ sigs) skip drawn v w =
      (v1 : V) × (w1 : W) × (sign (challenge_at services.rand_int drawn) skip v
        ≡ (ret (ok (some sig)), v1))
      × (services.user_cache.authenticate "derp" (challenge_at services.rand_int drawn) sig w
          ≡ (ret (ok none), w1))
      × Refuses sigs (skip + 1) (drawn + challenge_size) v1 w1

  ssh_challenge-Refuses :
      (e : Error) (sigs : List Signature) (skip drawn fuel : ℕ) (v : V) (w : W)
      (sent : List Message) (counters : List String)
      → length sigs < fuel
      → Refuses sigs skip drawn v w
      → ssh_challenge services fuel
          (at_server (until_end e (signatures sigs)) sent drawn counters w)
        ≡ (
          ret (err e),
          at_server []
              (sent_by_server services.rand_int sent sigs drawn)
              (drawn_after services.rand_int sigs drawn)
              counters
              w',
        )
  unfolding ssh_challenge challenge_round new_challenge check_response check_request check_answer
      answer_verdict ◌>>=◌ write read Message.get_server_request
      ServerRequest.get_challenge_response Requests.get_format Requests.get_signature
  ssh_challenge-Refuses e sigs skip drawn zero v w sent counters lt plays = absurd (omega arith)
  ssh_challenge-Refuses e [] skip drawn (suc fuel) v w sent counters lt (s, a) = rw a refl
  ssh_challenge-Refuses e (sig ∷ sigs) skip drawn (suc fuel) v w sent counters lt
        (v1, w1, s, a, plays) =
      rw a (ssh_challenge-Refuses e sigs (skip + 1) _ fuel v1 w1 _ counters (omega arith) plays)

  request_loop-gives_up :
      (show : Message → String) (receiver : CredentialsReceiver V) (dial : Go V (Result Conn))
      (role : String) (sigs : List Signature) (skip drawn fuel : ℕ) (v : V) (w : W)
      (sent : List Message)
      → length sigs + length sigs < fuel
      → Refuses sigs skip drawn v w
      → request_loop sign show receiver dial fuel role skip
          (at_client (map ok (server_says services.rand_int sigs drawn)) sent v)
        ≡ (ret (some "No keys worked"), at_client [] (sent ++ signatures sigs) v')
  unfolding request_loop turn ◌>>=◌ read write Message.get_server_response
      ServerResponse.get_challenge ServerResponse.get_credentials
      ServerResponse.get_verification_failure Responses.get_challenge
  request_loop-gives_up show receiver dial role sigs skip drawn zero v w sent lt plays =
      absurd (omega arith)
  request_loop-gives_up show receiver dial role [] skip drawn (suc fuel) v w sent lt (s, a) =
      rw s (rw (append-nil sent) refl)
  request_loop-gives_up show receiver dial role (sig ∷ sigs) skip drawn (suc zero) v w sent lt
        plays =
      absurd (omega arith)
  request_loop-gives_up show receiver dial role (sig ∷ sigs) skip drawn (suc (suc fuel)) v w sent lt
        (v1, w1, s, a, plays) =
      rw s (
        request_loop-gives_up show receiver dial role sigs (skip + 1) _ fuel v1 w1 _ (omega arith)
          plays
        ∙ rw (append_assoc sent (signature_message sig ∷ []) (signatures sigs)) refl)

-- The server's side once the connection has ended: its loop has failed and it has hung up.
abbrev pub hung_up : {W : Type 0} → (ℕ → ℕ) → List Signature → ℕ → List String → W → State W
hung_up rand_int sigs drawn counters w = record {
  conn = record {
    incoming = [];
    write_results = [];
    sent = server_says rand_int sigs drawn;
    closed = true;
  };
  drawn = drawn_after rand_int sigs drawn;
  counters = counters ++ "messages.assumeRole" ∷ [];
  world = w;
}

length-signatures :
    (e : Error) (sigs : List Signature) → length (until_end e (signatures sigs)) ≡ length sigs + 1
length-signatures e [] = refl
length-signatures e (sig ∷ sigs) = let ih = length-signatures e sigs in omega arith

length-challenges :
    (rand_int : ℕ → ℕ) (sigs : List Signature) (drawn : ℕ)
    → length (map {B = Result Message} ok (server_says rand_int sigs drawn))
      ≡ length sigs + length sigs + 1
length-challenges rand_int [] drawn = refl
length-challenges rand_int (sig ∷ sigs) drawn =
    let ih = length-challenges rand_int sigs (drawn + challenge_size) in omega arith

module _ {Key V W : Type 0} (settings : Settings) (services : Services Key W)
    (sign : Bytes → ℕ → Go V (Result (Option Signature))) (role : String) (e : Error)
    (sigs : List Signature) (drawn : ℕ) (v v' : V) (w w' : W)
    (plays : Refuses services sign v' w' sigs 0 drawn v w) where
  handler_refuses :
      (counters : List String)
      → handle_message settings services
          (role_request role)
          (at_server (until_end e (signatures sigs)) [] drawn counters w)
        ≡ (ret tt, hung_up services.rand_int sigs drawn counters w')
  unfolding handle_message handle_server_request handle_assume_role ◌>>=◌ write close
      Message.get_ping Message.get_server_request ServerRequest.get_assume_role Requests.get_role
  handler_refuses counters =
      rw
        (ssh_challenge-Refuses services sign v' w' e sigs 0 drawn
          (length (until_end e (signatures sigs)) + 1) v w []
          (counters ++ "messages.assumeRole" ∷ []) (rw (length-signatures e sigs) (omega arith))
          plays)
        (rw (sent_by_server-says services.rand_int sigs drawn []) refl)

  connection_refuses :
      (counters : List String) (fuel : ℕ)
      → handle_connection settings services
          (suc (suc fuel))
          (at_server (ok (role_request role) ∷ until_end e (signatures sigs)) [] drawn counters w)
        ≡ (ret tt, hung_up services.rand_int sigs drawn counters w')
  unfolding handle_connection ◌>>=◌ read
  connection_refuses counters fuel = rw (handler_refuses counters) refl

  server_refuses :
      (counters : List String)
      → ended_run settings services e (role_request role ∷ signatures sigs) drawn counters w
        ≡ (ret tt, hung_up services.rand_int sigs drawn counters w')
  server_refuses counters =
      rw (fuel_is (length (until_end e (signatures sigs))))
        (connection_refuses counters (length (until_end e (signatures sigs))))

  module _ (show : Message → String) (receiver : CredentialsReceiver V)
      (dial : Go V (Result Conn)) where
    client_gives_up :
        converse sign show receiver dial
          (record empty_request { assume_role = some (record { user = none; role = some role }) })
          role
          (at_client (map ok (server_says services.rand_int sigs drawn)) [] v)
        ≡ (ret (some "No keys worked"), at_client [] (role_request role ∷ signatures sigs) v')
    unfolding converse ◌>>=◌ write
    client_gives_up =
        request_loop-gives_up services sign v' w' show receiver dial role sigs 0 drawn
          (length (map {B = Result Message} ok (server_says services.rand_int sigs drawn)) + 1) v w
          (role_request role ∷ [])
          (rw (length-challenges services.rand_int sigs drawn) (omega arith)) plays

    -- A session for a role in which each side reads just what the other sends until the connection
    -- ends, with whatever error, and in which the authenticator refuses the signatures of all the
    -- client's keys: the client tries each key once, in the order of the keys, its `AssumeRole` then
    -- returns the error "No keys worked" with nothing stored, and it leaves its connection open. Once the
    -- connection has ended, the server has sent challenges and refusals only, asked STS for nothing, and
    -- closed its side.
    pub session-refused :
        (counters : List String) (v0 : V)
        → dial v0 ≡ (
          ret (
              ok (
                conn_with
                  (map ok
                    (ended_run settings services e
                      (role_request role ∷ signatures sigs)
                      drawn
                      counters
                      w).1.conn.sent)
                  [])),
          v,
        )
        → (ended_run settings services e (role_request role ∷ signatures sigs) drawn counters w
            ≡ (ret tt, hung_up services.rand_int sigs drawn counters w'))
          × ((converse sign show receiver dial
                (record empty_request {
                  assume_role = some (record { user = none; role = some role });
                })
                role
                (at_client
                  (map ok
                    (ended_run settings services e
                      (role_request role ∷ signatures sigs)
                      drawn
                      counters
                      w).1.conn.sent)
                  []
                  v)).1.conn.sent
              ≡ role_request role ∷ signatures sigs)
          × ((converse sign show receiver dial
                (record empty_request {
                  assume_role = some (record { user = none; role = some role });
                })
                role
                (at_client
                  (map ok
                    (ended_run settings services e
                      (role_request role ∷ signatures sigs)
                      drawn
                      counters
                      w).1.conn.sent)
                  []
                  v)).1.conn.closed
              ≡ false)
          × ((client sign show receiver dial).assume_role role v0
              ≡ (ret (some "No keys worked"), v'))
    unfolding request_credentials ◌>>=◌
    session-refused counters v0 d =
        let run = server_refuses counters in
        let sent = ap (λ x. x.1.conn.sent) run in
        let d' = rw sent at d in
        (
          run,
          rw sent (ap (λ x. x.1.conn.sent) client_gives_up),
          rw sent (ap (λ x. x.1.conn.closed) client_gives_up),
          rw d' (rw client_gives_up refl),
        )
