-- ===== src/Tests/Handshake.antt =====
-- The theorem on a whole session at a concrete input.
use hologram.Prelude.{
  ℕ, ◌≡◌, refl, suc, ◌==◌, some, none, [], ◌∷◌, map, String, Option, if◌then◌else◌,
}
use hologram.Prelude.Go.{Bytes, Result, ok, ret, Go}
use hologram.Protocol.Message.{Message}
use hologram.Protocol.Connection.{Conn}
use hologram.Server.Types.{Signature, User}
use hologram.Server.Handler.State.{Services}
use hologram.Agent.Client.{CredentialsReceiver, client, converse, empty_request}
use hologram.Handshake.{client_says}
use hologram.Handshake.Server.{conn_with, Agrees}
use hologram.Handshake.Client.{at_client}
use hologram.Handshake.Session.{role_request, server_run, session-stores}
use hologram.Tests.Fixtures.{alice, creds, noon, services, settings}

-- The n-th key signs everything with n, and alice's key is the second one.
abbrev pub signature : ℕ → Signature
signature n = record { format = "ssh-rsa"; blob = some (n ∷ []) }

abbrev sign : Bytes → ℕ → Go ℕ (Result (Option Signature))
sign challenge skip v = (ret (ok (some (signature skip))), suc v)

abbrev knows : Option Bytes → Option (User ℕ)
knows (some (n ∷ rest)) = if n == 1 then some alice else none
knows _ = none

abbrev pub two_keys : Services ℕ ℕ
two_keys = record services {
  user_cache = record {
    authenticate = λ name challenge sig w. (ret (ok (knows sig.blob)), suc w);
    update = λ w. (ret none, w);
  };
}

abbrev pub receiver : CredentialsReceiver ℕ
receiver = record { set_credentials = λ c role v. (ret tt, 100) }

abbrev dial : Go ℕ (Result Conn)
dial v = (
  ret (
      ok (
        conn_with
          (map ok
            (server_run settings two_keys
              (role_request "engineer" ∷ client_says (signature 0 ∷ []) (signature 1)) 0 []
              0).1.conn.sent)
          [])),
  v,
)

plays : Agrees two_keys sign (signature 1) alice 2 2 (signature 0 ∷ []) 0 0 0 0
plays = (1, 1, refl, refl, (refl, refl))

abbrev pub show : Message → String
show m = "message"

session-stores_example :
    ((server_run settings two_keys
        (role_request "engineer" ∷ client_says (signature 0 ∷ []) (signature 1))
        0
        []
        0).0
      ≡ ret tt)
    × ((server_run settings two_keys
          (role_request "engineer" ∷ client_says (signature 0 ∷ []) (signature 1))
          0
          []
          0).1.world
        ≡ 2)
    × ((converse sign show receiver dial
          (record empty_request {
            assume_role = some (record { user = none; role = some "engineer" });
          })
          "engineer"
          (at_client
            (map ok
              (server_run settings two_keys
                (role_request "engineer" ∷ client_says (signature 0 ∷ []) (signature 1))
                0
                []
                0).1.conn.sent)
            []
            0)).1.conn.sent
        ≡ role_request "engineer" ∷ client_says (signature 0 ∷ []) (signature 1))
    × ((client sign show receiver dial).assume_role "engineer" 0 ≡ (ret none, 100))
session-stores_example =
    session-stores settings two_keys sign show receiver dial (signature 0 ∷ []) (signature 1) alice
      "engineer" creds noon 0 [] 0 0 0 plays refl refl refl refl
