-- ===== src/Cmd/Cli/EndToEnd.antt =====
-- The command line of cmd/hologram/main.go against the handler of agent/cli_handler.go.
use hologram.Prelude.{String, ◌≡◌, refl, ap, false, Option, none, some, List, [], ◌∷◌, map}
use hologram.Prelude.Go.{Error, Bytes, Result, ok, ret, Go, ◌>>=◌}
use hologram.Protocol.Requests
use hologram.Protocol.AgentRequest
use hologram.Protocol.AgentRequest.{AgentRequest}
use hologram.Protocol.AgentResponse
use hologram.Protocol.Message
use hologram.Protocol.Message.{Message}
use hologram.Protocol.Responses
use hologram.Protocol.Connection.{Conn, read, write}
use hologram.Agent.Session.{Session}
use hologram.Agent.Client.{Client}
use hologram.Agent.CliHandler
use hologram.Agent.CliHandler.{run_connection, handle_connection, handle_next}
use hologram.Cmd.Cli.{
  Surroundings, Formats, ssh_key_file, complete, request_message, assume_request, converse, request,
  use_role,
}

-- A connection over which nothing has gone yet, with what the peer will send.
abbrev pub fresh : List (Result Message) → Conn
fresh incoming = record { incoming = incoming; write_results = []; sent = []; closed = false }

-- What a command reports for the error of the agent's client.
abbrev pub reported : (Error → Error) → Option Error → Option Error
reported report none = none
reported report (some e) = some (report e)

module _ (env : Surroundings) (formats : Formats) (role : String) where
  -- The message of `hologram use <role>`.
  abbrev pub use_message : Message
  use_message = request_message (complete env (assume_request role))

  abbrev pub agent_session : {W : Type 0} → W → Session W
  agent_session w = record { conn = fresh (ok use_message ∷ []); world = w }

  -- The agent's side, after its handler has been given the message.
  unfoldable pub after_agent :
      {W : Type 0} → (String → Option Bytes → Go W (Unit {0})) → Client W → W → Session W
  after_agent set_agent_sock client w = (run_connection set_agent_sock client (agent_session w)).1

  run_answers :
      {W : Type 0} (set_agent_sock : String → Option Bytes → Go W (Unit {0})) (client : Client W)
      (o : Option Error) {w w' w'' : W}
      → set_agent_sock (env.getenv "SSH_AUTH_SOCK") (ssh_key_file env) w ≡ (ret tt, w')
      → client.assume_role role w' ≡ (ret o, w'')
      → run_connection set_agent_sock client (agent_session w) ≡ (
        ret tt,
        record {
          conn = record (fresh []) { sent = CliHandler.response_message o ∷ [] };
          world = w'';
        },
      )
  unfolding handle_connection handle_next ◌>>=◌ read write complete Message.get_agent_request
      AgentRequest.get_ssh_agent_sock AgentRequest.get_ssh_key_file AgentRequest.get_assume_role
      Requests.get_role
  run_answers set_agent_sock client o a b = rw a (rw b)

  agent_answers :
      {W : Type 0} (set_agent_sock : String → Option Bytes → Go W (Unit {0})) (client : Client W)
      (o : Option Error) {w w' w'' : W}
      → set_agent_sock (env.getenv "SSH_AUTH_SOCK") (ssh_key_file env) w ≡ (ret tt, w')
      → client.assume_role role w' ≡ (ret o, w'')
      → after_agent set_agent_sock client w ≡ record {
        conn = record (fresh []) { sent = CliHandler.response_message o ∷ [] };
        world = w'';
      }
  unfolding after_agent
  agent_answers set_agent_sock client o a b =
      ap (λ x. x.1) (run_answers set_agent_sock client o a b)

  module _ {V : Type 0} (dial : Go V (Result Conn)) where
    -- The command's side, over a connection on which the agent's answer comes.
    command_hears :
        (o : Option Error) (v : V)
        → (converse env formats dial (assume_request role) (record {
          conn = fresh (ok (CliHandler.response_message o) ∷ []);
          world = v;
        })).1.conn.sent
          ≡ use_message ∷ []
    unfolding converse ◌>>=◌ read write
    command_hears o v = refl

    command_reports :
        (o : Option Error) (v v' : V)
        → dial v ≡ (ret (ok (fresh (ok (CliHandler.response_message o) ∷ []))), v')
        → use_role env formats dial role v ≡ (ret (reported formats.errorf o), v')
    unfolding use_role request converse ◌>>=◌ read write Message.get_agent_response
        AgentResponse.get_failure AgentResponse.get_success Responses.get_error_message
    command_reports none v v' d = rw d
    command_reports (some e) v v' d = rw d

    -- `hologram use` against the agent: where the command reads what the agent's handler writes when it
    -- is given the command's message, the command sends just that message, and succeeds exactly if the
    -- agent's client got credentials for the role; otherwise it reports the client's error.
    pub use_role-agent :
        {W : Type 0} (set_agent_sock : String → Option Bytes → Go W (Unit {0})) (client : Client W)
        (o : Option Error) (v v' : V) {w w' w'' : W}
        → set_agent_sock (env.getenv "SSH_AUTH_SOCK") (ssh_key_file env) w ≡ (ret tt, w')
        → client.assume_role role w' ≡ (ret o, w'')
        → dial v ≡ (ret (ok (fresh (map ok (after_agent set_agent_sock client w).conn.sent))), v')
        → ((after_agent set_agent_sock client w).world ≡ w'')
          × ((converse env formats dial (assume_request role) (record {
            conn = fresh (map ok (after_agent set_agent_sock client w).conn.sent);
            world = v;
          })).1.conn.sent
              ≡ use_message ∷ [])
          × (use_role env formats dial role v ≡ (ret (reported formats.errorf o), v'))
    use_role-agent set_agent_sock client o v v' a b d =
        let run = agent_answers set_agent_sock client o a b in
        rw run (refl, command_hears o v, command_reports o v v' (rw run at d))
