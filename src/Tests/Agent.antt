-- ===== src/Tests/Agent.antt =====
-- The theorems on agent/ at concrete inputs.
use hologram.Prelude.{ℕ, ◌+◌, refl, ◌≢◌, false, Option, none, some, [], ◌∷◌}
use hologram.Prelude.Go.{Bytes, Result, ok, ret, Go, out_of_fuel}
use hologram.Prelude.Int.{pos}
use hologram.Protocol.Connection.{Conn}
use hologram.Protocol.Message.{empty_message}
use hologram.Server.Types.{Signature, Time}
use hologram.Server.Handler.State.{challenge_message, failure_message, creds_message}
use hologram.Agent.Session.{Session}
use hologram.Agent.Signing.{Globals, SshAgent, ssh_sign}
use hologram.Agent.Signing.Choice.{Signed, ssh_sign-Signed}
use hologram.Agent.Client.{CredentialsReceiver, Client, empty_request, request_credentials}
use hologram.Agent.Client.Ends.{request_credentials_ends}
use hologram.Agent.Expiration.{Manager, before, beside}
use hologram.Agent.Expiration.Freshness.{Renews}
use hologram.Agent.CliHandler.{run_connection}
use hologram.Agent.Assembly
use hologram.Agent.Assembly.{Machine}
use hologram.Agent.Assembly.Ends.{SshHalts, agent_connection_ends}
use hologram.Agent.Client.Creation.{new_client}
use hologram.Agent.Expiration
use hologram.Tests.Fixtures.{creds, noon, ping_message}

abbrev signature : Signature
signature = record { format = "ssh-rsa"; blob = some (5 ∷ []) }

abbrev ring : SshAgent ℕ ℕ ℕ
ring = record {
  parse_private_key = λ bytes. some 9;
  connect = λ address w. (ret none, w + 1);
  list = λ w. (ret (ok (1 ∷ 2 ∷ [])), w + 1);
  signers = λ w. (ret (ok (1 ∷ 2 ∷ [])), w + 1);
  sign = λ signer challenge w. (ret (ok (some signature)), w + signer);
}

abbrev globals : Globals ℕ
globals = record { socket_address = "/run/agent"; provided_ssh_key = none }

ssh_sign-Signed_example : Signed ring globals (7 ∷ []) 1 (ssh_sign ring globals (7 ∷ []) 1 0)
ssh_sign-Signed_example = ssh_sign-Signed ring globals (7 ∷ []) 1 0

abbrev sign : Bytes → ℕ → Go ℕ (Result (Option Signature))
sign challenge skip w = (ret (ok (some signature)), w + skip)

-- The server refuses the first key and takes the second.
abbrev dial : Go ℕ (Result Conn)
dial w = (
  ret (
      ok (record {
        incoming =
            ok (challenge_message (7 ∷ []))
            ∷ ok failure_message
            ∷ ok (challenge_message (8 ∷ []))
            ∷ ok (creds_message creds noon)
            ∷ [];
        write_results = [];
        sent = [];
        closed = false;
      })),
  w,
)

abbrev receiver : CredentialsReceiver ℕ
receiver = record { set_credentials = λ c role w. (ret tt, w + 100) }

request_credentials_ends_example :
    (request_credentials sign (λ m. "message") receiver dial empty_request "engineer" 0).0
    ≢ out_of_fuel
request_credentials_ends_example =
    request_credentials_ends sign (λ m. "message") receiver dial (λ b k w h. cc h)
      (λ c role w h. cc h) (λ w h. cc h) empty_request "engineer" 0

-- It is one o'clock, and the client stores credentials that last until two.
abbrev pub one_o_clock : ℕ → Time
one_o_clock w = record { seconds = pos 46800; nanoseconds = 0 }

abbrev two_o_clock : Time
two_o_clock = record { seconds = pos 50400; nanoseconds = 0 }

abbrev pub renewing : Client (Manager ℕ)
renewing = record {
  assume_role = λ role s.
      (ret none, record s { creds = some (record creds { expiration = some two_o_clock }) });
  get_user_credentials =
      λ s. (ret none, record s { creds = some (record creds { expiration = some two_o_clock }) });
}

pub renewing-Renews : Renews one_o_clock renewing
unfolding before
renewing-Renews = record {
  assume_role =
      λ role s h. (record creds { expiration = some two_o_clock }, two_o_clock, refl, refl, refl);
  get_user_credentials =
      λ s h. (record creds { expiration = some two_o_clock }, two_o_clock, refl, refl, refl);
}

abbrev pub at_noon : Manager ℕ
at_noon = record { creds = some creds; user = ""; role = "engineer"; world = 0 }

abbrev answering : Client ℕ
answering = record {
  assume_role = λ role w. (ret (some "No keys worked"), w + 1);
  get_user_credentials = λ w. (ret none, w + 1);
}

abbrev pub command_line : Session ℕ
command_line = record {
  conn = record {
    incoming =
        ok (record empty_message {
          agent_request = some (record {
            ssh_agent_sock = some "/run/agent";
            assume_role = some (record { user = none; role = some "engineer" });
            user_credentials = none;
            ssh_key_file = none;
          });
        })
        ∷ ok ping_message
        ∷ [];
    write_results = [];
    sent = [];
    closed = false;
  };
  world = 0;
}

-- A computer with this ssh-agent, on which the server answers as above.
abbrev machine : Machine ℕ ℕ
machine = record { globals = globals; outside = 0 }

abbrev dial_here : Go (Machine ℕ ℕ) (Result Conn)
dial_here m = ((dial 0).0, m)

ring-SshHalts : SshHalts ring
ring-SshHalts = record {
  connect = λ address v h. cc h;
  list = λ v h. cc h;
  signers = λ v h. cc h;
  sign = λ signer challenge v h. cc h;
}

abbrev from_command_line : Session (Manager (Machine ℕ ℕ))
from_command_line = record {
  conn = command_line.conn;
  world = record { creds = none; user = ""; role = ""; world = machine };
}

agent_connection_ends_example :
    (run_connection
      (λ sock key. beside (Assembly.set_agent_sock ring sock key))
      (new_client
        (λ challenge skip. beside (Assembly.sign ring challenge skip))
        (λ m. "message")
        (λ address. beside dial_here)
        "hologram:3100"
        Expiration.receiver)
      from_command_line).0
    ≢ out_of_fuel
agent_connection_ends_example =
    agent_connection_ends ring (λ m. "message") (λ address. dial_here) "hologram:3100" ring-SshHalts
      (λ address m h. cc h) from_command_line
