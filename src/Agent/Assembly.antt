-- ===== src/Agent/Assembly.antt =====
-- agent/ put together: the handler of the command line, the client and the metadata service over one
-- expiration manager and the variables of ssh.go.
pub mod Stored
pub mod Answers
pub mod Ends
use hologram.Prelude.{ℕ, String, Option, some, none, List, [], ◌∷◌}
use hologram.Prelude.Go.{Bytes, Result, Outcome, ret, panic, out_of_fuel, Go}
use hologram.Protocol.Connection.{Conn}
use hologram.Server.Types.{Signature, Time}
use hologram.Agent.Session.{Session}
use hologram.Agent.Signing.{Globals, SshAgent, ssh_sign, ssh_set_agent_sock}
use hologram.Agent.Client.{Client}
use hologram.Agent.CliHandler.{run_connection}
use hologram.Agent.Expiration
use hologram.Agent.Expiration.{Manager, beside}
use hologram.Agent.Metadata.{Response, SecurityCredentialsResponse}
use hologram.Agent.Metadata.Routes.{serve_request}

-- The variables of ssh.go, and the world outside the program.
pub record Machine (Signer V : Type 0) : Type 0 where
  pub globals : Globals Signer
  pub outside : V

module _ {Key Signer V : Type 0} (ssh : SshAgent Key Signer V) where
  -- `SSHSign`
  unfoldable pub sign : Bytes → ℕ → Go (Machine Signer V) (Result (Option Signature))
  sign challenge skip m =
      let (o, v) = ssh_sign ssh m.globals challenge skip m.outside in (o, record m { outside = v })

  -- `SSHSetAgentSock`
  unfoldable pub set_agent_sock : String → Option Bytes → Go (Machine Signer V) (Unit {0})
  set_agent_sock address key m =
      (ret tt, record m { globals = ssh_set_agent_sock ssh address key m.globals })

-- The metadata service's parameters: the clock, the forms of a time and of the document, and the
-- cleaning of paths.
pub record Web (U : Type 0) : Type 0 where
  pub now : U → Time
  pub format : Time → String
  pub marshal_json : SecurityCredentialsResponse → Result Bytes
  pub clean : String → String

-- What comes to the agent: a connection of the command line, and a request for a path.
pub data Arrival : Type 0 where
  connection : Conn → Arrival
  request : String → Arrival

-- The answers that the metadata service has given, beside the manager.
pub record Running (U : Type 0) : Type 0 where
  pub manager : Manager U
  pub answers : List (String × Response)

module _ {U : Type 0} (set_sock : String → Option Bytes → Go U (Unit {0}))
    (client : Client (Manager U)) (web : Web U) where
  -- The handler runs in a goroutine of its own, so its panic ends the program.
  abbrev pub after_handler : Outcome (Unit {0}) × Session (Manager U) → Go (Running U) (Unit {0})
  after_handler (o, d) s = (o, record s { manager = d.world })

  -- package net/http recovers a panic of a handler, and then there is no answer.
  abbrev pub after_request : String → Outcome Response × Manager U → Go (Running U) (Unit {0})
  after_request path (ret resp, m) s =
      (ret tt, record { manager = m; answers = (path, resp) ∷ s.answers })
  after_request path (panic, m) s = (ret tt, record s { manager = m })
  after_request path (out_of_fuel, m) s = (out_of_fuel, record s { manager = m })

  unfoldable pub handle : Arrival → Go (Running U) (Unit {0})
  handle (connection conn) s =
      after_handler
        (run_connection (λ sock key. beside (set_sock sock key)) client
          (record { conn = conn; world = s.manager }))
        s
  handle (request path) s =
      after_request path
        (serve_request (Expiration.get_credentials (λ u. web.now u) (some client))
          (λ m. web.now m.world) web.format web.marshal_json web.clean path s.manager)
        s
