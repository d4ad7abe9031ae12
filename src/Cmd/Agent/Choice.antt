-- ===== src/Cmd/Agent/Choice.antt =====
-- Which client the agent of cmd/hologram-agent runs with.
use hologram.Prelude.{
  ◌≡◌, ◌≢◌, refl, sym, ◌∙◌, ◌⊎◌, inl, inr, String, true, false, Option, none, some, str_eq,
  str_eq_iff, Bool-cases,
}
use hologram.Prelude.Go.{
  Error, Bytes, Result, ok, err, Outcome, ret, panic, out_of_fuel, pure, continue, ◌>>=◌,
}
use hologram.Log
use hologram.Protocol.Connection.{Conn}
use hologram.Transport.{Server}
use hologram.Agent.Client.{Client}
use hologram.Agent.Client.Creation.{new_access_key_client}
use hologram.Agent.Expiration.{Manager, receiver, set_client}
use hologram.Agent.Metadata.Routes.{new_metadata_service}
use hologram.Cmd.Exit.{Started, exited, online}
use hologram.Cmd.Agent.{
  Config, Flags, Environment, Online, Booting, booting, aws, resolve, server_client, client_for,
  with_handler, with_client, with_listener, with_config, with_file, with_debug, start,
}

module _ {U : Type 0} (env : Environment U) (flags : Flags) (m : Manager U) where
  -- The client by the address of the flag, or else by that of the file; without either, the one that
  -- `AccessKeyClient` makes.
  abbrev pub IsChosen : Config → Client (Manager U) → Manager U → Type 0
  IsChosen file client m' =
      ((flags.dial_address ≢ "") × (client ≡ server_client env flags.dial_address) × (m' ≡ m))
      ⊎ ((flags.dial_address ≡ "")
          × (((file.host ≢ "") × (client ≡ server_client env file.host) × (m' ≡ m))
              ⊎ ((file.host ≡ "")
                  × (new_access_key_client (aws env) receiver (some file.account_aliases) m
                      ≡ (ret client, m')))))

  not_empty : (t : String) → str_eq t "" ≡ false → t ≢ ""
  not_empty t h e = absurd (cc (h, (str_eq_iff t "").1 e))

  pub client_for_host :
      (config : Config)
      → str_eq config.host "" ≡ false
      → client_for env config m ≡ (ret (server_client env config.host), m)
  unfolding client_for
  client_for_host config e = rw e refl

  pub client_for_key :
      (config : Config)
      → str_eq config.host "" ≡ true
      → client_for env config m
        ≡ new_access_key_client (aws env) receiver (some config.account_aliases) m
  unfolding client_for
  client_for_key config e = rw e refl

  made :
      (config : Config) (client : Client (Manager U)) (m' : Manager U)
      → str_eq config.host "" ≡ false
      → client_for env config m ≡ (ret client, m')
      → (client ≡ server_client env config.host) × (m' ≡ m)
  made config client m' e h = let same = sym (client_for_host config e) ∙ h in (cc same, cc same)

  by_file_host :
      (file : Config) (client : Client (Manager U)) (m' : Manager U)
      → str_eq flags.dial_address "" ≡ true
      → client_for env file m ≡ (ret client, m')
      → IsChosen file client m'
  by_file_host file client m' e h = inr (
    (str_eq_iff _ _).0 e,
    elim (Bool-cases (str_eq file.host "")) [
      | inr f ↦ let c = made file client m' f h in inl (not_empty _ f, c.0, c.1)
      | inl f ↦ inr ((str_eq_iff _ _).0 f, sym (client_for_key file f) ∙ h)
    ],
  )

  client_for-IsChosen :
      (file : Config) (client : Client (Manager U)) (m' : Manager U)
      → client_for env (resolve flags file) m ≡ (ret client, m')
      → IsChosen file client m'
  unfolding resolve
  client_for-IsChosen file client m' h = elim (Bool-cases (str_eq flags.dial_address "")) [
    | inr e ↦
        let c = made (record file { host = flags.dial_address }) client m' e (rw e at h) in
        inl (not_empty _ e, c.0, c.1)
    | inl e ↦ by_file_host file client m' e (rw e at h)
  ]

module _ {U : Type 0} (env : Environment U) (flags : Flags) (m : Manager U) where
  -- Making the client has panicked, with the metadata service started.
  abbrev pub Panicked : Booting U → Type 0
  Panicked b =
      (contents : Bytes) × (file : Config) × (env.read_file flags.config_file ≡ ok contents)
      × (env.unmarshal contents ≡ ok file)
      × (b.serving ≡ some (new_metadata_service flags.http_port))
      × (client_for env (resolve flags file) m ≡ (panic, b.manager))

  -- The state of the program with this manager, once the metadata service has been started.
  abbrev served_by : Manager U → Booting U
  served_by m' = record { manager = m'; serving = some (new_metadata_service flags.http_port) }

module _ {U L : Type 0} (env : Environment U) (flags : Flags) (m : Manager U) where
  Launched : Outcome (Started (Online (Manager U) L)) × Booting U → Type 0
  Launched (ret (exited code), b) = code ≡ 1
  Launched (ret (online s), b) =
      (contents : Bytes) × (file : Config) × (env.read_file flags.config_file ≡ ok contents)
      × (env.unmarshal contents ≡ ok file)
      × (s.credentials_client ≡ some s.client)
      × (b.serving ≡ some s.mds)
      × IsChosen env flags m file s.client b.manager
  Launched (panic, b) = Panicked env flags m b
  Launched (out_of_fuel, b) = Unit

  by_handler :
      (log : Log.Package L) (contents : Bytes) (file : Config) (client : Client (Manager U))
      (m' : Manager U) (r : Result (Server Conn))
      → env.read_file flags.config_file ≡ ok contents
      → env.unmarshal contents ≡ ok file
      → IsChosen env flags m file client m'
      → Launched (ret (with_handler env flags log client r), served_by env flags m m')
  unfolding Launched set_client
  by_handler log contents file client m' (ok server) a b c = (contents, file, a, b, refl, refl, c)
  by_handler log contents file client m' (err e) a b c = refl

  by_client :
      (log : Log.Package L) (contents : Bytes) (file : Config)
      (run : Outcome (Client (Manager U)) × Manager U)
      → env.read_file flags.config_file ≡ ok contents
      → env.unmarshal contents ≡ ok file
      → client_for env (resolve flags file) m ≡ run
      → Launched (
          continue run.0
            (λ client. pure (with_client env flags log client))
            (served_by env flags m run.1))
  unfolding Launched
  by_client log contents file (ret client, m') a b c =
      by_handler log contents file client m' _ a b
        (client_for-IsChosen env flags m file client m' c)
  by_client log contents file (panic, m') a b c = (contents, file, a, b, refl, c)
  by_client log contents file (out_of_fuel, m') a b c = tt

  by_listener :
      (log : Log.Package L) (contents : Bytes) (file : Config) (r : Option Error)
      → env.read_file flags.config_file ≡ ok contents
      → env.unmarshal contents ≡ ok file
      → Launched (with_listener env flags log (resolve flags file) r (booting m))
  unfolding Launched ◌>>=◌
  by_listener log contents file none a b = by_client log contents file _ a b refl
  by_listener log contents file (some e) a b = refl

  by_config :
      (log : Log.Package L) (contents : Bytes) (r : Result Config)
      → env.read_file flags.config_file ≡ ok contents
      → env.unmarshal contents ≡ r
      → Launched (with_config env flags log r (booting m))
  unfolding Launched
  by_config log contents (ok file) a b = by_listener log contents file _ a b
  by_config log contents (err e) a b = refl

  by_file :
      (log : Log.Package L) (r : Result Bytes)
      → env.read_file flags.config_file ≡ r
      → Launched (with_file env flags log r (booting m))
  unfolding Launched
  by_file log (ok contents) a = by_config log contents _ a refl
  by_file log (err e) a = refl

  start-Launched : (log : Log.Package L) → Launched (start env flags log (booting m))
  unfolding start
  start-Launched log = by_file (with_debug env flags.debug_mode log) _ refl

  -- If the agent gets online, its metadata service has been started, and its client, which is also the
  -- expiration manager's, is the one for the address of the flag where there is one, or else for that of
  -- the file, and the one that `AccessKeyClient` makes only where both are empty.
  pub start-IsChosen :
      (log : Log.Package L) (s : Online (Manager U) L) (b : Booting U)
      → start env flags log (booting m) ≡ (ret (online s), b)
      → (contents : Bytes) × (file : Config) × (env.read_file flags.config_file ≡ ok contents)
        × (env.unmarshal contents ≡ ok file)
        × (s.credentials_client ≡ some s.client)
        × (b.serving ≡ some s.mds)
        × IsChosen env flags m file s.client b.manager
  unfolding Launched
  start-IsChosen log s b h = rw h at (start-Launched log)

  -- If the start panics, it does so where the client is made.
  pub start-Panicked :
      (log : Log.Package L) (b : Booting U)
      → start env flags log (booting m) ≡ (panic, b)
      → Panicked env flags m b
  unfolding Launched
  start-Panicked log b h = rw h at (start-Launched log)
