-- ===== src/Cmd/Cli.antt =====
-- cmd/hologram/main.go: the command line, which asks the agent for credentials over its socket.
pub mod EndToEnd
use hologram.Prelude.{
  ℕ, String, ◌<>◌, Bool, true, false, Option, none, some, List, [], ◌∷◌, str_eq, if◌then◌else◌,
}
use hologram.Prelude.Go.{Error, Bytes, Result, ok, err, Go, pure, ◌>>=◌}
use hologram.Protocol.Requests.{AssumeRole, GetUserCredentials, get_user_credentials}
use hologram.Protocol.Responses
use hologram.Protocol.Responses.{Success, Failure}
use hologram.Protocol.AgentRequest.{AgentRequest}
use hologram.Protocol.AgentResponse
use hologram.Protocol.AgentResponse.{AgentResponse}
use hologram.Protocol.Message
use hologram.Protocol.Message.{Message, empty_message}
use hologram.Protocol.Connection.{Conn}
use hologram.Agent.Session.{Session, receive, send}

-- What the program reads of its surroundings: the environment, go-homedir's `Expand`, the files, and the
-- message that a read of the socket returns beside its error, if it returns one.
pub record Surroundings : Type 0 where
  pub getenv : String → String
  pub expand : String → Result String
  pub read_file : String → Result Bytes
  pub beside_error : Error → Option Message

-- package fmt: `%v` of a message and of a response, and `Errorf` of a text without arguments.
pub record Formats : Type 0 where
  pub show_message : Option Message → String
  pub show_response : AgentResponse → String
  pub errorf : String → Error

module _ (env : Surroundings) where
  abbrev pub second_key : Result Bytes → Option Bytes
  second_key (ok bytes) = some bytes
  second_key (err _) = none

  abbrev pub first_key : String → Result Bytes → Option Bytes
  first_key dir (ok bytes) = some bytes
  first_key dir (err _) = second_key (env.read_file (dir <> "/id_dsa"))

  abbrev pub key_in : Result String → Option Bytes
  key_in (err _) = none
  key_in (ok dir) = first_key dir (env.read_file (dir <> "/id_rsa"))

  -- The SSH key that goes with a request: the RSA key, or else the DSA key.
  unfoldable pub ssh_key_file : Option Bytes
  ssh_key_file = key_in (env.expand "~/.ssh")

  -- The request with the agent's socket and the key.
  unfoldable pub complete : AgentRequest → AgentRequest
  complete req = record req {
    ssh_agent_sock = some (env.getenv "SSH_AUTH_SOCK");
    ssh_key_file = ssh_key_file;
  }

abbrev pub request_message : AgentRequest → Message
request_message req = record empty_message { agent_request = some req }

abbrev pub assume_request : String → AgentRequest
assume_request role = record {
  ssh_agent_sock = none;
  assume_role = some (record { user = none; role = some role });
  user_credentials = none;
  ssh_key_file = none;
}

abbrev pub me_request : AgentRequest
me_request = record {
  ssh_agent_sock = none;
  assume_role = none;
  user_credentials = some get_user_credentials;
  ssh_key_file = none;
}

-- `dial` is the package local's `NewClient` on the agent's socket.
module _ {W : Type 0} (env : Surroundings) (formats : Formats) (dial : Go W (Result Conn)) where
  -- The message of a read whose error is dropped: `Read` may return one beside the error.
  abbrev pub read_anyway : Result Message → Option Message
  read_anyway (ok msg) = some msg
  read_anyway (err e) = env.beside_error e

  abbrev pub response_of : Option Message → Option AgentResponse → Result AgentResponse
  response_of msg none = err ("Unexpected response type: " <> formats.show_message msg)
  response_of msg (some r) = ok r

  abbrev pub after_read : Result Message → Go (Session W) (Result AgentResponse)
  after_read r = pure (response_of (read_anyway r) (Message.get_agent_response (read_anyway r)))

  abbrev pub after_write : Option Error → Go (Session W) (Result AgentResponse)
  after_write (some e) = pure (err e)
  after_write none = receive >>= after_read

  unfoldable pub converse : AgentRequest → Go (Session W) (Result AgentResponse)
  converse req = send (request_message (complete env req)) >>= after_write

  abbrev pub with_conn : AgentRequest → Result Conn → Go W (Result AgentResponse)
  with_conn req (err e) w =
      (pure
          (err ("Unable to connect to hologram socket.  Is hologram-agent running? Error: " <> e)))
        w
  with_conn req (ok conn) w =
      let (o, s) = converse req (record { conn = conn; world = w }) in (o, s.world)

  unfoldable pub request : AgentRequest → Go W (Result AgentResponse)
  request req = dial >>= with_conn req

  -- What a command makes of the response, with its own way to report a failure.
  abbrev pub verdict :
      (Error → Error) → AgentResponse → Option Failure → Option Success → Option Error
  verdict report r (some f) s = some (report (Responses.get_error_message (some f)))
  verdict report r none (some s) = none
  verdict report r none none = some ("Unexpected response type: " <> formats.show_response r)

  abbrev pub outcome : (Error → Error) → Result AgentResponse → Go W (Option Error)
  outcome report (err e) = pure (some e)
  outcome report (ok r) =
      pure
        (verdict report r (AgentResponse.get_failure (some r)) (AgentResponse.get_success (some r)))

  -- hologram use <role>
  unfoldable pub use_role : String → Go W (Option Error)
  use_role role = request (assume_request role) >>= outcome formats.errorf

  -- hologram me
  unfoldable pub me : Go W (Option Error)
  me = request me_request >>= outcome (λ e. "Error from server: " <> e)

  abbrev pub exit_code : Option Error → Go W ℕ
  exit_code none = pure 0
  exit_code (some e) = pure 1

  abbrev pub use_command : List String → Go W ℕ
  use_command [] = pure 1
  use_command (role ∷ rest) = use_role role >>= exit_code

  abbrev pub command : List String → Go W ℕ
  command [] = pure 1
  command (name ∷ args) =
      if str_eq name "use"
      then use_command args
      else if str_eq name "me"
      then (me >>= exit_code)
      else pure 1

  -- The exit code of the program, by the arguments behind its name.
  unfoldable pub main : List String → Go W ℕ
  main args = command args
