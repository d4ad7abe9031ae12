-- ===== src/Handshake/Session.antt =====
-- Both sides of a session together.
use mathlib.Core.List.{append_assoc}
use hologram.Prelude.{
  ℕ, suc, ◌+◌, ◌≡◌, refl, ap, ◌∙◌, Option, none, some, String, List, [], ◌∷◌, ◌++◌, map, length,
  arith,
}
use hologram.Prelude.Go.{Bytes, Result, ok, Outcome, ret, Go, ◌>>=◌}
use hologram.Protocol.Requests
use hologram.Protocol.ServerRequest
use hologram.Protocol.Message
use hologram.Protocol.Message.{Message}
use hologram.Protocol.Connection.{Conn, read, write}
use hologram.Server.Types.{Signature, User, Credentials, Time}
use hologram.Server.Handler.State.{Settings, State, Services, make_creds_response, creds_message}
use hologram.Server.Handler.Requests.{
  handle_server_request, handle_assume_role, grant_role, send_creds,
}
use hologram.Server.Handler.Loop.{handle_message, handle_connection, run_connection}
use hologram.Agent.Client.{
  signature_message, CredentialsReceiver, empty_request, request_message, converse,
  request_credentials, client,
}
use hologram.Handshake.{client_says, server_says, sent_by_client, sent_by_server, drawn_after}
use hologram.Handshake.Server.{conn_with, at_server, Agrees, ssh_challenge-passes}
use hologram.Handshake.Client.{arrived, at_client, request_loop-stores}

-- `client.AssumeRole`'s request
abbrev pub role_request : String → Message
role_request role =
    request_message
      (record empty_request { assume_role = some (record { user = none; role = some role }) })

length-client_says :
    (sigs : List Signature) (last : Signature)
    → length (map {B = Result Message} ok (client_says sigs last)) ≡ length sigs + 1
length-client_says [] last = refl
length-client_says (sig ∷ sigs) last = let ih = length-client_says sigs last in omega arith

length-server_says :
    (rand_int : ℕ → ℕ) (sigs : List Signature) (drawn : ℕ) (m : Message)
    → length (map {B = Result Message} ok (server_says rand_int sigs drawn ++ m ∷ []))
      ≡ length sigs + length sigs + 2
length-server_says rand_int [] drawn m = refl
length-server_says rand_int (sig ∷ sigs) drawn m =
    let ih = length-server_says rand_int sigs (drawn + 64) m in omega arith

pub fuel_is : (n : ℕ) → suc n + 1 ≡ suc (suc n)
fuel_is n = omega arith

-- What a side has sent is what it says, behind what was sent before.
pub sent_by_server-says :
    (rand_int : ℕ → ℕ) (sigs : List Signature) (drawn : ℕ) (sent : List Message)
    → sent_by_server rand_int sent sigs drawn ≡ sent ++ server_says rand_int sigs drawn
sent_by_server-says rand_int [] drawn sent = refl
sent_by_server-says rand_int (sig ∷ sigs) drawn sent =
    sent_by_server-says rand_int sigs _ _
    ∙ append_assoc (sent ++ _ ∷ []) (_ ∷ []) _
    ∙ append_assoc sent (_ ∷ []) _

sent_by_client-says :
    (sigs : List Signature) (last : Signature) (sent : List Message)
    → sent_by_client sent sigs last ≡ sent ++ client_says sigs last
sent_by_client-says [] last sent = refl
sent_by_client-says (sig ∷ sigs) last sent =
    sent_by_client-says sigs last _ ∙ append_assoc sent (signature_message sig ∷ []) _

-- The server's side, from a connection on which the client's messages arrive.
abbrev pub server_run :
    {Key W : Type 0}
    → Settings
    → Services Key W
    → List Message
    → ℕ
    → List String
    → W
    → Outcome (Unit {0}) × State W
server_run settings services said drawn counters w =
    run_connection settings services (at_server (map ok said) [] drawn counters w)

module _ {Key V W : Type 0} (settings : Settings) (services : Services Key W)
    (sign : Bytes → ℕ → Go V (Result (Option Signature))) (last : Signature) (user : User Key)
    (v' : V) (w' : W) (role : String) (creds : Credentials) (expiration : Time) {w'' : W}
    (granted : services.credentials.assume_role user role settings.enable_ldap_roles w'
      ≡ (ret (ok (some creds)), w''))
    (expires : creds.expiration ≡ some expiration) (sigs : List Signature) (drawn : ℕ) (v : V)
    (w : W) (plays : Agrees services sign last user v' w' sigs 0 drawn v w)
    (counters : List String) where
  handler_grants :
      handle_message settings services
        (role_request role)
        (at_server (map ok (client_says sigs last)) [] drawn counters w)
      ≡ (
        ret tt,
        at_server []
            (sent_by_server services.rand_int [] sigs drawn ++ creds_message creds expiration ∷ [])
            (drawn_after services.rand_int sigs drawn)
            (counters ++ "messages.assumeRole" ∷ [])
            w'',
      )
  unfolding handle_message handle_server_request handle_assume_role grant_role send_creds
      make_creds_response ◌>>=◌ write Message.get_ping Message.get_server_request
      ServerRequest.get_assume_role Requests.get_role
  handler_grants =
      rw
        (ssh_challenge-passes services sign last user v' w' sigs 0 drawn
          (length (map {B = Result Message} ok (client_says sigs last)) + 1) v w []
          (counters ++ "messages.assumeRole" ∷ []) (rw (length-client_says sigs last) (omega arith))
          plays)
        (rw granted (rw expires refl))

  connection_grants :
      (fuel : ℕ)
      → handle_connection settings services
          (suc (suc fuel))
          (at_server (ok (role_request role) ∷ map ok (client_says sigs last)) [] drawn counters w)
        ≡ (
          ret tt,
          at_server []
              (server_says services.rand_int sigs drawn ++ creds_message creds expiration ∷ [])
              (drawn_after services.rand_int sigs drawn)
              (counters ++ "messages.assumeRole" ∷ [])
              w'',
        )
  unfolding handle_connection ◌>>=◌ read
  connection_grants fuel =
      rw handler_grants (rw (sent_by_server-says services.rand_int sigs drawn []) refl)

  server_grants :
      run_connection settings services
        (at_server (ok (role_request role) ∷ map ok (client_says sigs last)) [] drawn counters w)
      ≡ (
        ret tt,
        at_server []
            (server_says services.rand_int sigs drawn ++ creds_message creds expiration ∷ [])
            (drawn_after services.rand_int sigs drawn)
            (counters ++ "messages.assumeRole" ∷ [])
            w'',
      )
  server_grants =
      rw (fuel_is (length (map {B = Result Message} ok (client_says sigs last))))
        (connection_grants (length (map {B = Result Message} ok (client_says sigs last))))

  module _ (show : Message → String) (receiver : CredentialsReceiver V) (dial : Go V (Result Conn))
      {v'' : V}
      (stored : receiver.set_credentials (some (arrived creds expiration)) role v'
        ≡ (ret tt, v'')) where
    client_stores :
        converse sign show receiver dial
          (record empty_request { assume_role = some (record { user = none; role = some role }) })
          role
          (at_client
            (map ok
              (server_says services.rand_int sigs drawn ++ creds_message creds expiration ∷ []))
            []
            v)
        ≡ (ret none, at_client [] (role_request role ∷ client_says sigs last) v'')
    unfolding converse ◌>>=◌ write
    client_stores =
        rw
          (request_loop-stores services.rand_int sign (services.user_cache.authenticate "derp") last
            user v' w' show receiver dial role creds expiration stored sigs 0 drawn
            (length (
                map {B = Result Message} ok
                  (server_says services.rand_int sigs drawn ++ creds_message creds expiration ∷ []))
              + 1)
            v w (role_request role ∷ [])
            (rw (length-server_says services.rand_int sigs drawn (creds_message creds expiration))
              (omega arith))
            plays)
          (rw (sent_by_client-says sigs last (role_request role ∷ [])) refl)

    session_stores :
        (v0 : V)
        → dial v0 ≡ (
          ret (
              ok (
                conn_with
                  (map ok (
                    server_says services.rand_int sigs drawn
                    ++ creds_message creds expiration ∷ []))
                  [])),
          v,
        )
        → (client sign show receiver dial).assume_role role v0 ≡ (ret none, v'')
    unfolding request_credentials ◌>>=◌
    session_stores v0 d = rw d (rw client_stores refl)

module _ {Key V W : Type 0} (settings : Settings) (services : Services Key W)
    (sign : Bytes → ℕ → Go V (Result (Option Signature))) (show : Message → String)
    (receiver : CredentialsReceiver V) (dial : Go V (Result Conn)) where
  -- A session for a role, in which each side reads just what the other sends. If the client's keys in
  -- turn give the signatures `sigs` and `last` of the server's challenges, the authenticator refuses
  -- all but the last and takes it for the user's, and STS then grants the role, then the server's
  -- handler ends, the client has sent just the request and the signatures, and `AssumeRole` of the
  -- client returns no error, after it has stored the credentials that STS gave out.
  pub session-stores :
      (sigs : List Signature) (last : Signature) (user : User Key) (role : String)
      (creds : Credentials) (expiration : Time) (drawn : ℕ) (counters : List String) (v0 v : V)
      (w : W) {v' v'' : V} {w' w'' : W}
      → Agrees services sign last user v' w' sigs 0 drawn v w
      → services.credentials.assume_role user role settings.enable_ldap_roles w'
        ≡ (ret (ok (some creds)), w'')
      → creds.expiration ≡ some expiration
      → receiver.set_credentials (some (arrived creds expiration)) role v' ≡ (ret tt, v'')
      → dial v0 ≡ (
        ret (
            ok (
              conn_with
                (map ok
                  (server_run settings services
                    (role_request role ∷ client_says sigs last)
                    drawn
                    counters
                    w).1.conn.sent)
                [])),
        v,
      )
      → ((server_run settings services
            (role_request role ∷ client_says sigs last)
            drawn
            counters
            w).0
          ≡ ret tt)
        × ((server_run settings services
              (role_request role ∷ client_says sigs last)
              drawn
              counters
              w).1.world
            ≡ w'')
        × ((converse sign show receiver dial
              (record empty_request {
                assume_role = some (record { user = none; role = some role });
              })
              role
              (at_client
                (map ok
                  (server_run settings services
                    (role_request role ∷ client_says sigs last)
                    drawn
                    counters
                    w).1.conn.sent)
                []
                v)).1.conn.sent
            ≡ role_request role ∷ client_says sigs last)
        × ((client sign show receiver dial).assume_role role v0 ≡ (ret none, v''))
  session-stores sigs last user role creds expiration drawn counters v0 v w {v'} {v''} {w'} {w''}
        plays granted expires stored d =
      let run =
        server_grants settings services sign last user v' w' role creds expiration granted expires
          sigs drawn v w plays counters in
      let sent = ap (λ x. x.1.conn.sent) run in
      (
        ap (λ x. x.0) run,
        ap (λ x. x.1.world) run,
        rw sent (
            ap (λ x. x.1.conn.sent)
              (client_stores settings services sign last user v' w' role creds expiration granted
                expires sigs drawn v w plays counters show receiver dial stored)),
        session_stores settings services sign last user v' w' role creds expiration granted expires
            sigs drawn v w plays counters show receiver dial stored v0 (rw sent at d),
      )
