-- ===== src/Tests/Handler.antt =====
-- The theorems on server/server.go at concrete inputs.
use hologram.Prelude.{ℕ, ◌≡◌, refl, ◌≢◌, ◌⊎◌, true, false, none, some, List, [], ◌∷◌, All}
use hologram.Prelude.Go.{Result, ok, ret, out_of_fuel, ◌>>=◌}
use hologram.Protocol.Requests.{AddSshKey}
use hologram.Protocol.Connection
use hologram.Protocol.Connection.{Conn}
use hologram.Protocol.ServerRequest
use hologram.Protocol.Message
use hologram.Protocol.Message.{Message, empty_message}
use hologram.Server.Types.{entries, Entry}
use hologram.Server.Handler.State.{State}
use hologram.Server.Handler.Challenge.{
  ssh_challenge, new_challenge, challenge_round, check_response, check_request, check_answer,
  answer_verdict,
}
use hologram.Server.Handler.Requests.{handle_add_ssh_key, key_addition}
use hologram.Server.Handler.Loop.{handle_connection, run_connection}
use hologram.Server.Handler.Provenance.{IsGranted, IsFaithful}
use hologram.Server.Handler.Provenance.Connection.{handle_connection-grants}
use hologram.Server.Handler.Authenticity.{Verified, ssh_challenge-Verified}
use hologram.Server.Handler.AddKey.{MayAdd, handle_add_ssh_key-guarded}
use hologram.Server.Handler.Halting.Challenge.{ServicesHalt}
use hologram.Server.Handler.Halting.Connection.{run_connection_ends}
use hologram.Tests.Fixtures.{alice, creds, alice_entry, settings, services, ping_message}

-- A client that asks for a role and answers the challenge.
abbrev pub request_message : Message
request_message = record empty_message {
  server_request = some (record {
    assume_role = some (record { user = none; role = some "engineer" });
    challenge_response = none;
    token_response = none;
    user_credentials = none;
    add_ssh_key = none;
  });
}

abbrev pub answer_message : Message
answer_message = record empty_message {
  server_request = some (record {
    assume_role = none;
    challenge_response = some (record { signature = some (5 ∷ []); format = some "ssh-rsa" });
    token_response = none;
    user_credentials = none;
    add_ssh_key = none;
  });
}

abbrev pub connection : List (Result Message) → Conn
connection incoming = record { incoming = incoming; write_results = []; sent = []; closed = false }

abbrev asking : State ℕ
asking = record {
  conn = connection (ok ping_message ∷ ok request_message ∷ ok answer_message ∷ []);
  drawn = 0;
  counters = [];
  world = 0;
}

abbrev answering : State ℕ
answering = record {
  conn = connection (ok answer_message ∷ []);
  drawn = 3;
  counters = [];
  world = 0;
}

services-IsFaithful : IsFaithful services true (λ w. Unit) (λ user. user ≡ alice) (λ c. c ≡ creds)
services-IsFaithful = record {
  authenticated = λ name challenge sig. record { at = λ w h. (tt, refl) };
  granted = λ user role auth. record { at = λ w h. (tt, refl) };
  updated = record { at = λ w h. (tt, tt) };
  searched = λ r. record { at = λ w h. (tt, tt) };
  modified = λ r. record { at = λ w h. (tt, tt) };
}

handle_connection-grants_example :
    All (IsGranted (λ c. c ≡ creds)) (handle_connection settings services 4 asking).1.conn.sent
    × Unit {0}
handle_connection-grants_example =
    handle_connection-grants settings services services-IsFaithful 4 asking tt tt

ssh_challenge_runs : (ssh_challenge services 2 answering).0 ≡ ret (ok alice)
unfolding ssh_challenge challenge_round new_challenge check_response check_request check_answer
    answer_verdict ◌>>=◌ Connection.write Connection.read Message.get_server_request
    ServerRequest.get_challenge_response
ssh_challenge_runs = refl

ssh_challenge-Verified_example :
    Verified services alice answering (ssh_challenge services 2 answering).1
ssh_challenge-Verified_example =
    ssh_challenge-Verified services alice 2 answering ssh_challenge_runs

abbrev addition : AddSshKey
addition = record { username = some "alice"; passwordhash = some "hash"; sshkeybytes = some "AAAA" }

handle_add_ssh_key-guarded_example :
    let after = (handle_add_ssh_key settings services addition answering).1.world in
    (after ≡ 0)
    ⊎ ((entry : Entry) × MayAdd settings services addition (entries (alice_entry ∷ [])) entry
        × (after
            ≡ (services.ldap_server.modify (key_addition settings services entry addition) 0).1))
handle_add_ssh_key-guarded_example =
    handle_add_ssh_key-guarded settings services addition answering refl

services-ServicesHalt : ServicesHalt services
services-ServicesHalt = record {
  authenticate = λ name challenge sig w h. cc h;
  update = λ w h. cc h;
  assume_role = λ user role enable w h. cc h;
  search = λ r w h. cc h;
  modify = λ r w h. cc h;
}

run_connection_ends_example : (run_connection settings services asking).0 ≢ out_of_fuel
run_connection_ends_example = run_connection_ends settings services services-ServicesHalt asking
