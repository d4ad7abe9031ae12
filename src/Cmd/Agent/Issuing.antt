-- ===== src/Cmd/Agent/Issuing.antt =====
-- What the agent of cmd/hologram-agent gives out where it runs with an access key.
use hologram.Prelude.{◌≡◌, refl, ◌∙◌, inl, inr, String, Option, none, some, List, [], ◌∷◌, All}
use hologram.Prelude.Go.{Bytes, ok, ret, Go}
use hologram.Prelude.Keeps.{Keeps, Any, Keeps-pure, Keeps-bind}
use hologram.Log
use hologram.Server.Types.{Credentials}
use hologram.Server.Credentials.{Aliases}
use hologram.Agent.Client.{Client}
use hologram.Agent.Client.Creation.{new_access_key_client}
use hologram.Agent.Expiration.{Manager, receiver, new_manager}
use hologram.Agent.Assembly.{Web}
use hologram.Agent.Assembly.Stored.{Holds, StoresGood}
use hologram.Agent.Assembly.Answers.{Answered, Sound, handle-Sound}
use hologram.Cmd.Agent.{Config, Flags, Environment, Online, Booting, booting, aws, start}
use hologram.Cmd.Agent.Choice.{IsChosen, start-IsChosen}
use hologram.Cmd.Agent.Events.{
  Event, arrives, debug_enable, debug_disable, terminate, Program, take_event, serve,
}
use hologram.Cmd.Exit.{online}
use hologram.Cmd.Agent.Keyed.{
  IsIssued, IsUser, MadeWithKey, key_client-StoresGood, new_access_key_client-MadeWithKey,
}

module _ {U L : Type 0} (Good : String → Credentials → Type 0) (web : Web U)
    (client : Client (Manager U)) (good : StoresGood Good client)
    (set_sock : String → Option Bytes → Go U (Unit {0})) where
  abbrev SoundProgram : Program U L → Type 0
  SoundProgram p = Sound Good web client good p.running

  take_event-Keeps : (e : Event) → Keeps SoundProgram Any (take_event {L = L} set_sock client web e)
  unfolding take_event
  take_event-Keeps (arrives a) = record {
    at = λ p h. ((handle-Sound Good web client good set_sock a).at p.running h);
  }
  take_event-Keeps debug_enable = record { at = λ p h. (h, tt) }
  take_event-Keeps debug_disable = record { at = λ p h. (h, tt) }
  take_event-Keeps terminate = Keeps-pure tt tt

  -- Whatever arrives, in whatever order, the agent keeps and gives out good credentials only.
  pub serve-Sound :
      (events : List Event) → Keeps SoundProgram Any (serve {L = L} set_sock client web events)
  unfolding serve
  serve-Sound [] = Keeps-pure tt tt
  serve-Sound (terminate ∷ events) = record { at = λ p h. (h, tt) }
  serve-Sound (arrives a ∷ events) =
      Keeps-bind (take_event-Keeps (arrives a)) (λ x q. serve-Sound events)
  serve-Sound (debug_enable ∷ events) =
      Keeps-bind (take_event-Keeps debug_enable) (λ x q. serve-Sound events)
  serve-Sound (debug_disable ∷ events) =
      Keeps-bind (take_event-Keeps debug_disable) (λ x q. serve-Sound events)

-- The program once it is online.
abbrev pub program : {U L : Type 0} → Log.Package L → Manager U → Program U L
program log m = record { running = record { manager = m; answers = [] }; log = log; removed = [] }

module _ {U : Type 0} (env : Environment U) (flags : Flags) where
  chosen_key :
      (m m' : Manager U) (file : Config) (client : Client (Manager U))
      → IsChosen env flags m file client m'
      → flags.dial_address ≡ ""
      → file.host ≡ ""
      → new_access_key_client (aws env) receiver (some file.account_aliases) m ≡ (ret client, m')
  chosen_key m m' file client (inl (flag, made, same)) no_flag no_host = absurd (flag no_flag)
  chosen_key m m' file client (inr (flag, inl (host, made, same))) no_flag no_host =
      absurd (host no_host)
  chosen_key m m' file client (inr (flag, inr (host, made))) no_flag no_host = made

module _ {U L : Type 0} (env : Environment U) (web : Web U)
    (set_sock : String → Option Bytes → Go U (Unit {0})) where
  serve-issues :
      (log : Log.Package L) (aliases : Option Aliases) (m m' : Manager U)
      (client : Client (Manager U)) (events : List Event)
      → m.creds ≡ none
      → MadeWithKey env aliases client m m'
      → (account : String) × (name : String) × IsUser env account name
        × All
            (Answered (IsIssued env.aws.sts account name aliases) web)
            (serve set_sock client web events (program log m')).1.running.answers
  serve-issues log aliases m m' client events empty (account, name, user, is_key, creds, role) =
      let Good = IsIssued env.aws.sts account name aliases in
      let good : StoresGood Good client =
        rw is_key (key_client-StoresGood env account name aliases) in
      let held : Holds Good m' = rw (creds ∙ empty) tt in
      (
        account,
        name,
        user,
        (((serve-Sound Good web client good set_sock events).at (program log m') (held, tt)).0).1,
      )

module _ {U L : Type 0} (env : Environment U) (flags : Flags) (web : Web U)
    (set_sock : String → Option Bytes → Go U (Unit {0})) where
  -- `hologram-agent` with neither an address on the command line nor one in its file, once online:
  -- whatever comes from the command line, to the metadata service and as signals, the answers to requests
  -- for credentials are errors, or documents of credentials that STS gave out: either in the account and
  -- under the name of the access key's user, for the ARN that `BuildARN` makes of the role, or, for no
  -- role, as a session token (`GetSessionToken`) of the access key itself.
  pub start-issues :
      (log : Log.Package L) (u : U) (s : Online (Manager U) L) (b : Booting U) (contents : Bytes)
      (file : Config) (events : List Event)
      → start env flags log (booting (new_manager u)) ≡ (ret (online s), b)
      → flags.dial_address ≡ ""
      → env.read_file flags.config_file ≡ ok contents
      → env.unmarshal contents ≡ ok file
      → file.host ≡ ""
      → (account : String) × (name : String) × IsUser env account name
        × All
            (Answered (IsIssued env.aws.sts account name (some file.account_aliases)) web)
            (serve set_sock s.client web events (program s.log b.manager)).1.running.answers
  start-issues log u s b contents file events running no_flag read parsed no_host =
      let (contents', file', read', parsed', tied, started, chosen) =
        start-IsChosen env flags (new_manager u) log s b running in
      let same : file' ≡ file = cc (read, read', parsed, parsed') in
      serve-issues env web set_sock s.log (some file.account_aliases) (new_manager u) b.manager
        s.client events refl
        (new_access_key_client-MadeWithKey env (some file.account_aliases) (new_manager u) b.manager
          s.client
          (chosen_key env flags (new_manager u) b.manager file s.client (rw same at chosen) no_flag
            no_host))
