-- ===== src/Agent/Signing.antt =====
-- agent/ssh.go: signing a challenge with a key of the ssh-agent, or with the key that the command line
-- has given.
pub mod Choice
use hologram.Prelude.{
  ℕ, String, Bool, true, false, Option, none, some, List, [], ◌∷◌, length, get_elem?, ltb, leb,
  str_eq, ◌==◌, if◌then◌else◌,
}
use hologram.Prelude.Go.{Error, Bytes, Result, ok, err, Go, pure, panics, ◌>>=◌}
use hologram.Server.Types.{Signature}

-- The package's variables.
pub record Globals (Signer : Type 0) : Type 0 where
  pub socket_address : String
  pub provided_ssh_key : Option Signer

abbrev pub err_no_keys : Error
err_no_keys = "No keys available in ssh-agent"

abbrev pub err_ssh_key : Error
err_ssh_key = "Could not use the provided SSH key."

-- golang.org/x/crypto/ssh and its package agent. `connect` dials the socket; a key of the agent is
-- known by its public part.
pub record SshAgent (Key Signer W : Type 0) : Type 0 where
  pub parse_private_key : Bytes → Option Signer
  pub connect : String → Go W (Option Error)
  pub list : Go W (Result (List Key))
  pub signers : Go W (Result (List Signer))
  pub sign : Signer → Bytes → Go W (Result (Option Signature))

module _ {Key Signer W : Type 0} (ssh : SshAgent Key Signer W) where
  abbrev pub parsed_key : Option Signer → Option Signer → Option Signer
  parsed_key none old = old
  parsed_key (some signer) old = some signer

  abbrev pub new_key : Option Bytes → Option Signer → Option Signer
  new_key none old = old
  new_key (some bytes) old = parsed_key (ssh.parse_private_key bytes) old

  -- `SSHSetAgentSock`: a key that does not parse, or none, leaves the one from before.
  unfoldable pub ssh_set_agent_sock : String → Option Bytes → Globals Signer → Globals Signer
  ssh_set_agent_sock address key g = record {
    socket_address = address;
    provided_ssh_key = new_key key g.provided_ssh_key;
  }

  abbrev pub sign_provided : Option Signer → Bytes → Go W (Result (Option Signature))
  sign_provided none challenge = pure (err err_ssh_key)
  sign_provided (some signer) challenge = ssh.sign signer challenge

  -- signers[skip]
  abbrev pub sign_at : Option Signer → Bytes → Go W (Result (Option Signature))
  sign_at none challenge = panics
  sign_at (some signer) challenge = ssh.sign signer challenge

  abbrev pub after_signers : Bytes → ℕ → Result (List Signer) → Go W (Result (Option Signature))
  after_signers challenge skip (err e) = pure (err e)
  after_signers challenge skip (ok signers) = sign_at (get_elem? signers skip) challenge

  -- When every key has been tried there is no signature, and no error.
  abbrev pub after_list : Bytes → ℕ → Result (List Key) → Go W (Result (Option Signature))
  after_list challenge skip (err e) = pure (err e)
  after_list challenge skip (ok keys) =
      if length keys == 0
      then pure (err err_no_keys)
      else if leb (length keys) skip
      then pure (ok none)
      else (ssh.signers >>= after_signers challenge skip)

  abbrev pub after_connect : Bytes → ℕ → Option Error → Go W (Result (Option Signature))
  after_connect challenge skip (some e) = pure (err e)
  after_connect challenge skip none = ssh.list >>= after_list challenge skip

  -- `SSHSign`
  unfoldable pub ssh_sign : Globals Signer → Bytes → ℕ → Go W (Result (Option Signature))
  ssh_sign g challenge skip =
      if str_eq g.socket_address ""
      then (if ltb 0 skip
          then pure (err err_ssh_key)
          else sign_provided g.provided_ssh_key challenge)
      else (ssh.connect g.socket_address >>= after_connect challenge skip)
