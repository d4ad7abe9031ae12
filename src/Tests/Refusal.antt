-- ===== src/Tests/Refusal.antt =====
-- The theorem on a session in which all keys are refused, at a concrete input.
use hologram.Prelude.{ℕ, zero, ◌≡◌, refl, false, suc, some, none, [], ◌∷◌, map, Option, List}
use hologram.Prelude.Go.{Bytes, Result, ok, ret, Go}
use hologram.Protocol.Connection.{Conn}
use hologram.Server.Types.{Signature}
use hologram.Agent.Client.{client, converse, empty_request}
use hologram.Handshake.Server.{conn_with}
use hologram.Handshake.Client.{at_client}
use hologram.Handshake.Session.{role_request}
use hologram.Handshake.Refusal.{ended_run, signatures, Refuses, hung_up, session-refused}
use hologram.Tests.Fixtures.{settings}
use hologram.Tests.Handshake.{signature, two_keys, receiver, show}

-- There are two keys, and neither is the one that the server knows.
abbrev unknown : List Signature
unknown = signature 0 ∷ signature 2 ∷ []

abbrev nth_key : ℕ → Option Signature
nth_key zero = some (signature 0)
nth_key (suc zero) = some (signature 2)
nth_key (suc (suc n)) = none

abbrev sign : Bytes → ℕ → Go ℕ (Result (Option Signature))
sign challenge skip v = (ret (ok (nth_key skip)), suc v)

refused : Refuses two_keys sign 3 2 unknown 0 0 0 0
refused = (1, 1, refl, refl, (2, 2, refl, refl, (refl, refl)))

abbrev dial : Go ℕ (Result Conn)
dial v = (
  ret (
      ok (
        conn_with
          (map ok
            (ended_run settings two_keys "EOF" (role_request "engineer" ∷ signatures unknown) 0 []
              0).1.conn.sent)
          [])),
  v,
)

session-refused_example :
    (ended_run settings two_keys "EOF" (role_request "engineer" ∷ signatures unknown) 0 [] 0
      ≡ (ret tt, hung_up two_keys.rand_int unknown 0 [] 2))
    × ((converse sign show receiver dial
          (record empty_request {
            assume_role = some (record { user = none; role = some "engineer" });
          })
          "engineer"
          (at_client
            (map ok
              (ended_run settings two_keys "EOF"
                (role_request "engineer" ∷ signatures unknown)
                0
                []
                0).1.conn.sent)
            []
            0)).1.conn.sent
        ≡ role_request "engineer" ∷ signatures unknown)
    × ((converse sign show receiver dial
          (record empty_request {
            assume_role = some (record { user = none; role = some "engineer" });
          })
          "engineer"
          (at_client
            (map ok
              (ended_run settings two_keys "EOF"
                (role_request "engineer" ∷ signatures unknown)
                0
                []
                0).1.conn.sent)
            []
            0)).1.conn.closed
        ≡ false)
    × ((client sign show receiver dial).assume_role "engineer" 0 ≡ (ret (some "No keys worked"), 3))
session-refused_example =
    session-refused settings two_keys sign "engineer" "EOF" unknown 0 0 3 0 2 refused show receiver
      dial [] 0 refl
