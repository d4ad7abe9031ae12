-- ===== src/Tests/Workstation.antt =====
-- The theorem on the whole way of credentials at a concrete input.
use hologram.Prelude.{ℕ, ◌≡◌, refl, suc, some, none, List, [], ◌∷◌, false, map, String, Option}
use hologram.Prelude.Go.{Bytes, Result, ok, ret, Go}
use hologram.Prelude.Int.{pos}
use hologram.Protocol.Connection.{Conn}
use hologram.Protocol.Message.{Message}
use hologram.Agent.Client.{Client, client}
use hologram.Agent.Session.{Session}
use hologram.Server.Types.{Signature, Time}
use hologram.Agent.Expiration.{Manager, receiver, new_manager, before}
use hologram.Agent.Metadata.{SecurityCredentialsResponse}
use hologram.Agent.Metadata.Routes.{credentials_path}
use hologram.Cmd.Cli.{use_role}
use hologram.Cmd.Cli.EndToEnd.{fresh, after_agent}
use hologram.Handshake.{client_says}
use hologram.Handshake.Client.{arrived}
use hologram.Handshake.Server.{conn_with, Agrees}
use hologram.Handshake.Session.{role_request, server_run}
use hologram.Handshake.Workstation.{issued, storing, metadata, metadata-use_role}
use hologram.Tests.Fixtures.{alice, noon, settings}
use hologram.Tests.Commands.{surroundings, formats}
use hologram.Tests.Handshake.{signature, two_keys, show}

-- The agent's keys sign with their number.
abbrev sign : Bytes → ℕ → Go (Manager ℕ) (Result (Option Signature))
sign challenge skip m = (ret (ok (some (signature skip))), record m { world = suc m.world })

abbrev set_sock : String → Option Bytes → Go (Manager ℕ) (Unit {0})
set_sock sock key m = (ret tt, m)

abbrev run_server : List Message
run_server =
    (server_run settings two_keys
      (role_request "engineer" ∷ client_says (signature 0 ∷ []) (signature 1)) 0 [] 0).1.conn.sent

abbrev dial_server : Go (Manager ℕ) (Result Conn)
dial_server m = (ret (ok (conn_with (map ok run_server) [])), m)

abbrev morning : ℕ → Time
morning u = record { seconds = pos 36000; nanoseconds = 0 }

abbrev in_utc : Time → String
in_utc t = "2014-10-24T12:00:00Z"

abbrev empty_manager : Manager ℕ
empty_manager = new_manager 0

abbrev signed_twice : Manager ℕ
signed_twice = new_manager 2

abbrev role_client : Client (Manager ℕ)
role_client = client sign show receiver dial_server

abbrev asked : Session (Manager ℕ)
asked = after_agent surroundings formats "engineer" set_sock role_client empty_manager

abbrev dial_agent : Go ℕ (Result Conn)
dial_agent c = (ret (ok (fresh (map ok asked.conn.sent))), c)

abbrev json : SecurityCredentialsResponse → Result Bytes
json r = ok (123 ∷ 125 ∷ [])

plays :
    Agrees two_keys sign (signature 1) alice signed_twice 2 (signature 0 ∷ []) 0 0 empty_manager 0
plays = (new_manager 1, 1, refl, refl, (refl, refl))

unexpired : before noon (morning 3) ≡ false
unfolding before
unexpired = refl

metadata-use_role_example :
    (use_role surroundings formats dial_agent "engineer" 5 ≡ (ret none, 5))
    × (asked.world
        ≡ storing signed_twice (arrived (issued "id" "secret" "token" noon) noon) "engineer")
    × ((metadata morning role_client
          (λ path. path)
          in_utc
          json
          credentials_path
          (record asked.world { world = 3 })).0
        ≡ ret (record { status = 200; headers = []; body = 123 ∷ 125 ∷ [] }))
metadata-use_role_example =
    metadata-use_role settings two_keys sign show dial_server morning (λ path. path) in_utc json
      surroundings formats dial_agent set_sock (signature 0 ∷ []) (signature 1) alice "engineer"
      "id" "secret" "token" noon 0 [] empty_manager empty_manager empty_manager signed_twice 0 5 5 3
      (123 ∷ 125 ∷ []) refl plays refl refl refl refl unexpired refl
