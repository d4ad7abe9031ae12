-- ===== src/Agent/Assembly/Ends.antt =====
-- The agent's handler of a connection from the command line, over the client and the signer of agent/, ends.
use hologram.Prelude.{
  ℕ, ◌≢◌, refl, inl, inr, String, Option, none, some, List, ◌==◌, ltb, leb, str_eq, length,
  get_elem?, Bool-cases,
}
use hologram.Prelude.Go.{
  Error, Bytes, Result, ok, err, Outcome, ret, panic, out_of_fuel, Go, continue, ◌>>=◌,
}
use hologram.Protocol.Message.{Message}
use hologram.Protocol.Connection.{Conn}
use hologram.Server.Types.{Credentials}
use hologram.Agent.Session.{Session}
use hologram.Agent.Signing.{
  Globals, SshAgent, sign_provided, sign_at, after_signers, after_list, after_connect, ssh_sign,
}
use hologram.Agent.Client.Creation.{new_client}
use hologram.Agent.Client.Ends.{request_credentials_ends}
use hologram.Agent.Expiration.{Manager, beside, receiver, set_credentials}
use hologram.Agent.CliHandler.{run_connection}
use hologram.Agent.CliHandler.Ends.{CallsHalt, cli_connection_ends}
use hologram.Agent.Assembly.{Machine, sign, set_agent_sock}

-- The calls of packages ssh and agent return or panic.
pub record SshHalts {Key Signer V : Type 0} (ssh : SshAgent Key Signer V) : Type 0 where
  pub connect : (address : String) (v : V) → (ssh.connect address v).0 ≢ out_of_fuel
  pub list : (v : V) → (ssh.list v).0 ≢ out_of_fuel
  pub signers : (v : V) → (ssh.signers v).0 ≢ out_of_fuel
  pub sign :
      (signer : Signer) (challenge : Bytes) (v : V) → (ssh.sign signer challenge v).0 ≢ out_of_fuel

continue_halts :
    {S A B : Type 0} (o : Outcome A) (f : A → Go S B) (s : S)
    → o ≢ out_of_fuel
    → ((a : A) (t : S) → (f a t).0 ≢ out_of_fuel)
    → (continue o f s).0 ≢ out_of_fuel
continue_halts (ret a) f s h k = k a s
continue_halts panic f s h k = λ e. cc e
continue_halts out_of_fuel f s h k = absurd (h refl)

module _ {Key Signer V : Type 0} (ssh : SshAgent Key Signer V) (halts : SshHalts ssh)
    (challenge : Bytes) where
  sign_provided_halts :
      (key : Option Signer) (v : V) → (sign_provided ssh key challenge v).0 ≢ out_of_fuel
  sign_provided_halts none v = λ e. cc e
  sign_provided_halts (some signer) v = halts.sign signer challenge v

  sign_at_halts : (key : Option Signer) (v : V) → (sign_at ssh key challenge v).0 ≢ out_of_fuel
  sign_at_halts none v = λ e. cc e
  sign_at_halts (some signer) v = halts.sign signer challenge v

  after_signers_halts :
      (skip : ℕ) (r : Result (List Signer)) (v : V)
      → (after_signers ssh challenge skip r v).0 ≢ out_of_fuel
  after_signers_halts skip (err e) v = λ h. cc h
  after_signers_halts skip (ok signers) v = sign_at_halts (get_elem? signers skip) v

  after_list_halts :
      (skip : ℕ) (r : Result (List Key)) (v : V)
      → (after_list ssh challenge skip r v).0 ≢ out_of_fuel
  unfolding ◌>>=◌
  after_list_halts skip (err e) v = λ h. cc h
  after_list_halts skip (ok keys) v = elim (Bool-cases (length keys == 0)) [
    | inl a ↦ rw a (λ h. cc h)
    | inr a ↦ elim (Bool-cases (leb (length keys) skip)) [
      | inl b ↦ rw a (rw b (λ h. cc h))
      | inr b ↦ rw a (
          rw b (
            continue_halts _ (after_signers ssh challenge skip) _ (halts.signers v)
              (after_signers_halts skip)))
    ]
  ]

  after_connect_halts :
      (skip : ℕ) (e : Option Error) (v : V) → (after_connect ssh challenge skip e v).0 ≢ out_of_fuel
  unfolding ◌>>=◌
  after_connect_halts skip (some e) v = λ h. cc h
  after_connect_halts skip none v =
      continue_halts _ (after_list ssh challenge skip) _ (halts.list v) (after_list_halts skip)

  ssh_sign_halts :
      (g : Globals Signer) (skip : ℕ) (v : V) → (ssh_sign ssh g challenge skip v).0 ≢ out_of_fuel
  unfolding ssh_sign ◌>>=◌
  ssh_sign_halts g skip v = elim (Bool-cases (str_eq g.socket_address "")) [
    | inr a ↦ rw a (
        continue_halts _ (after_connect ssh challenge skip) _ (halts.connect g.socket_address v)
          (after_connect_halts skip))
    | inl a ↦ elim (Bool-cases (ltb 0 skip)) [
      | inl b ↦ rw a (rw b (λ h. cc h))
      | inr b ↦ rw a (rw b (sign_provided_halts g.provided_ssh_key v))
    ]
  ]

  sign_halts : (skip : ℕ) (m : Machine Signer V) → (sign ssh challenge skip m).0 ≢ out_of_fuel
  unfolding sign
  sign_halts skip m = ssh_sign_halts m.globals skip m.outside

module _ {Key Signer V : Type 0} (ssh : SshAgent Key Signer V) (show : Message → String)
    (dial : String → Go (Machine Signer V) (Result Conn)) (host : String) (halts : SshHalts ssh)
    (dial_halts : (address : String) (m : Machine Signer V)
      → (dial address m).0 ≢ out_of_fuel) where
  set_credentials_halts :
      (creds : Option Credentials) (role : String) (m : Manager (Machine Signer V))
      → (receiver.set_credentials creds role m).0 ≢ out_of_fuel
  unfolding set_credentials
  set_credentials_halts creds role m h = cc h

  client-CallsHalt :
      CallsHalt
        (λ sock key. beside (set_agent_sock ssh sock key))
        (new_client
          (λ challenge skip. beside (sign ssh challenge skip))
          show
          (λ address. beside (dial address))
          host
          receiver)
  unfolding new_client set_agent_sock
  client-CallsHalt = record {
    set_sock = λ sock key m h. cc h;
    assume_role = λ role m.
        request_credentials_ends (λ challenge skip. beside (sign ssh challenge skip)) show receiver
          (beside (dial host)) (λ challenge skip m. sign_halts ssh halts challenge skip m.world)
          set_credentials_halts (λ m. dial_halts host m.world) _ role m;
    get_user_credentials = λ m.
        request_credentials_ends (λ challenge skip. beside (sign ssh challenge skip)) show receiver
          (beside (dial host)) (λ challenge skip m. sign_halts ssh halts challenge skip m.world)
          set_credentials_halts (λ m. dial_halts host m.world) _ "" m;
  }

  -- The agent's handler of a connection from the command line, over its own client of the server, its
  -- own signer and its expiration manager: if dialling and the calls of package ssh and of the ssh-agent
  -- return or panic, and finitely many messages come from the command line and from each connection that
  -- is dialled, then the handler returns or panics, although both it and the client loop.
  pub agent_connection_ends :
      (s : Session (Manager (Machine Signer V)))
      → (run_connection
          (λ sock key. beside (set_agent_sock ssh sock key))
          (new_client
            (λ challenge skip. beside (sign ssh challenge skip))
            show
            (λ address. beside (dial address))
            host
            receiver)
          s).0
        ≢ out_of_fuel
  agent_connection_ends s =
      cli_connection_ends (λ sock key. beside (set_agent_sock ssh sock key)) _ client-CallsHalt s
