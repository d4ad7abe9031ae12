-- ===== src/Agent/CliHandler.antt =====
-- agent/cli_handler.go: the requests of the command line to the agent.
pub mod Ends
use hologram.Prelude.{ℕ, zero, suc, String, Option, none, some, ◌+◌, length}
use hologram.Prelude.Go.{Error, Bytes, Result, ok, err, ret, out_of_fuel, Go, pure, ◌>>=◌, ◌>>◌}
use hologram.Protocol.Requests
use hologram.Protocol.Requests.{AssumeRole, GetUserCredentials}
use hologram.Protocol.Responses.{success}
use hologram.Protocol.AgentRequest
use hologram.Protocol.AgentRequest.{AgentRequest}
use hologram.Protocol.AgentResponse.{AgentResponse}
use hologram.Protocol.Message
use hologram.Protocol.Message.{Message, empty_message}
use hologram.Agent.Session.{Session, receive, send, hang_up, outside}
use hologram.Agent.Client.{Client}
use hologram.Transport.{Listener, Server, new_local_server}

abbrev pub agent_response : Option Error → AgentResponse
agent_response none = record { success = some success; failure = none }
agent_response (some e) = record {
  success = none;
  failure = some (record { error_message = some e });
}

abbrev pub response_message : Option Error → Message
response_message e = record empty_message { agent_response = some (agent_response e) }

-- Whether the loop goes on after a message.
pub data Verdict : Type 0 where
  go_on leave : Verdict

-- `set_agent_sock` is ssh.go's `SSHSetAgentSock`.
module _ {W : Type 0} (set_agent_sock : String → Option Bytes → Go W (Unit {0}))
    (client : Client W) where
  abbrev pub after_reply : Option Error → Go (Session W) Verdict
  after_reply (some e) = pure leave
  after_reply none = pure go_on

  abbrev pub reply : Option Error → Go (Session W) Verdict
  reply e = send (response_message e) >>= after_reply

  abbrev pub refuse : Go (Session W) Verdict
  refuse = hang_up >>= λ _. pure leave

  abbrev pub serve : Option AssumeRole → Option GetUserCredentials → Go (Session W) Verdict
  serve (some r) g = outside (client.assume_role (Requests.get_role (some r))) >>= reply
  serve none (some g) = outside client.get_user_credentials >>= reply
  serve none none = refuse

  abbrev pub handle_agent_request : Option AgentRequest → Go (Session W) Verdict
  handle_agent_request none = refuse
  handle_agent_request (some dr) =
      outside (
        set_agent_sock (AgentRequest.get_ssh_agent_sock (some dr))
          (AgentRequest.get_ssh_key_file (some dr)))
      >> serve (AgentRequest.get_assume_role (some dr))
          (AgentRequest.get_user_credentials (some dr))

  abbrev pub handle_read : Result Message → Go (Session W) Verdict
  handle_read (err e) = pure leave
  handle_read (ok msg) = handle_agent_request (Message.get_agent_request (some msg))

  unfoldable pub handle_next : Go (Session W) Verdict
  handle_next = receive >>= handle_read

  abbrev pub after_verdict : Go (Session W) (Unit {0}) → Verdict → Go (Session W) (Unit {0})
  after_verdict again leave = pure tt
  after_verdict again go_on = again

  -- `HandleConnection`
  unfoldable pub handle_connection : ℕ → Go (Session W) (Unit {0})
  handle_connection zero s = (out_of_fuel, s)
  handle_connection (suc fuel) s = (handle_next >>= after_verdict (handle_connection fuel)) s

  abbrev pub run_connection : Go (Session W) (Unit {0})
  run_connection s = handle_connection (length s.conn.incoming + 1) s

-- `cliHandler`
pub record CliHandler (W : Type 0) : Type 0 where
  pub client : Client W
  pub address : String

unfoldable pub new_cli_handler : {W : Type 0} → String → Client W → CliHandler W
new_cli_handler address client = record { client = client; address = address }

-- `Start`, with the server that goes on in a goroutine; the error of `os.Chmod` is dropped.
unfoldable pub start :
    {W C : Type 0} → (String → Result (Listener C)) → CliHandler W → Result (Server C)
start net_listen h = new_local_server net_listen h.address
