-- ===== src/Protocol/AgentRequest.antt =====
-- protocol/hologram.pb.go: the message `AgentRequest`.
use hologram.Prelude.{Option, none, some, String}
use hologram.Prelude.Go.{Bytes}
use hologram.Protocol.Requests.{AssumeRole, GetUserCredentials}

pub record AgentRequest : Type 0 where
  pub ssh_agent_sock : Option String
  pub assume_role : Option AssumeRole
  pub user_credentials : Option GetUserCredentials
  pub ssh_key_file : Option Bytes

unfoldable pub get_ssh_agent_sock : Option AgentRequest → String
get_ssh_agent_sock none = ""
get_ssh_agent_sock (some m) = elim m.ssh_agent_sock [ none ↦ "" | some s ↦ s ]

unfoldable pub get_assume_role : Option AgentRequest → Option AssumeRole
get_assume_role none = none
get_assume_role (some m) = m.assume_role

unfoldable pub get_user_credentials : Option AgentRequest → Option GetUserCredentials
get_user_credentials none = none
get_user_credentials (some m) = m.user_credentials

unfoldable pub get_ssh_key_file : Option AgentRequest → Option Bytes
get_ssh_key_file none = none
get_ssh_key_file (some m) = m.ssh_key_file
