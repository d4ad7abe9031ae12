-- ===== src/Handshake/Client.antt =====
-- The client's side of a session: its loop signs each challenge with the next key, and ends with the
-- credentials.
use hologram.Prelude.{
  ℕ, zero, suc, ◌+◌, ◌<◌, ◌≡◌, refl, Option, none, some, String, List, [], ◌∷◌, ◌++◌, map, length,
  arith,
}
use hologram.Prelude.Go.{Bytes, Result, ok, ret, Go, ◌>>=◌}
use hologram.Protocol.Message
use hologram.Protocol.Message.{Message}
use hologram.Protocol.ServerResponse
use hologram.Protocol.Responses
use hologram.Protocol.Responses.{StsCredentials}
use hologram.Protocol.Connection.{Conn, read, write}
use hologram.Server.Types.{Signature, User, Credentials, Time}
use hologram.Server.Handler.State.{creds_message}
use hologram.Agent.Session.{Session}
use hologram.Agent.Client.{CredentialsReceiver, received_creds, turn, request_loop}
use hologram.Handshake.{server_says, sent_by_client, Plays}
use hologram.Handshake.Server.{conn_with}

-- The credentials as they arrive at the client.
abbrev pub arrived : Credentials → Time → Credentials
arrived creds expiration = received_creds (record {
  access_key_id = creds.access_key_id;
  secret_access_key = creds.secret_access_key;
  access_token = creds.session_token;
  expiration = some expiration.seconds;
})

abbrev pub at_client : {V : Type 0} → List (Result Message) → List Message → V → Session V
at_client incoming sent v = record { conn = conn_with incoming sent; world = v }

module _ {Key V W : Type 0} (rand_int : ℕ → ℕ) (sign : Bytes → ℕ → Go V (Result (Option Signature)))
    (authenticate : Bytes → Signature → Go W (Result (Option (User Key)))) (last : Signature)
    (user : User Key) (v' : V) (w' : W) (show : Message → String) (receiver : CredentialsReceiver V)
    (dial : Go V (Result Conn)) (role : String) (creds : Credentials) (expiration : Time) {v'' : V}
    (stored : receiver.set_credentials (some (arrived creds expiration)) role v'
      ≡ (ret tt, v'')) where
  pub request_loop-stores :
      (sigs : List Signature) (skip drawn fuel : ℕ) (v : V) (w : W) (sent : List Message)
      → length sigs + length sigs + 1 < fuel
      → Plays rand_int sign authenticate last user v' w' sigs skip drawn v w
      → request_loop sign show receiver dial fuel role skip (
          at_client
            (map ok (server_says rand_int sigs drawn ++ creds_message creds expiration ∷ []))
            sent
            v)
        ≡ (ret none, at_client [] (sent_by_client sent sigs last) v'')
  unfolding request_loop turn ◌>>=◌ read write Message.get_server_response
      ServerResponse.get_challenge ServerResponse.get_credentials
      ServerResponse.get_verification_failure Responses.get_challenge
  request_loop-stores sigs skip drawn zero v w sent lt plays = absurd (omega arith)
  request_loop-stores sigs skip drawn (suc zero) v w sent lt plays = absurd (omega arith)
  request_loop-stores [] skip drawn (suc (suc fuel)) v w sent lt (s, a) = rw s (rw stored refl)
  request_loop-stores (sig ∷ sigs) skip drawn (suc (suc fuel)) v w sent lt (v1, w1, s, a, plays) =
      rw s (request_loop-stores sigs (skip + 1) _ fuel v1 w1 _ (omega arith) plays)
