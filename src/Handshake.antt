-- ===== src/Handshake.antt =====
-- A whole session of agent/client.go with server/server.go: the client asks for a role, the server
-- refuses some of the client's keys and accepts the next one. Each side reads what the other sends.
pub mod Server
pub mod Client
pub mod Session
pub mod Workstation
pub mod Refusal
use hologram.Prelude.{ℕ, ◌+◌, ◌≡◌, Option, none, some, List, [], ◌∷◌, ◌++◌}
use hologram.Prelude.Go.{Bytes, Result, ok, Outcome, ret, Go}
use hologram.Protocol.Message.{Message}
use hologram.Server.Types.{Signature, User}
use hologram.Server.Handler.State.{challenge_message, failure_message}
use hologram.Server.Handler.Challenge.{random_bytes, challenge_size}
use hologram.Agent.Client.{signature_message}

-- What the client sends in answer to the challenges: the signatures that are refused, and the last.
abbrev pub client_says : List Signature → Signature → List Message
client_says [] last = signature_message last ∷ []
client_says (sig ∷ sigs) last = signature_message sig ∷ client_says sigs last

-- What has been sent, message after message, when the client has answered.
abbrev pub sent_by_client : List Message → List Signature → Signature → List Message
sent_by_client sent [] last = sent ++ signature_message last ∷ []
sent_by_client sent (sig ∷ sigs) last =
    sent_by_client (sent ++ signature_message sig ∷ []) sigs last

module _ (rand_int : ℕ → ℕ) where
  -- The challenge that is made of the next numbers.
  abbrev pub challenge_at : ℕ → Bytes
  challenge_at drawn = random_bytes rand_int challenge_size drawn

  -- What the server sends: a challenge for each signature, and a failure for each that is refused.
  abbrev pub server_says : List Signature → ℕ → List Message
  server_says [] drawn = challenge_message (challenge_at drawn) ∷ []
  server_says (sig ∷ sigs) drawn =
      challenge_message (challenge_at drawn)
      ∷ failure_message
      ∷ server_says sigs (drawn + challenge_size)

  abbrev pub sent_by_server : List Message → List Signature → ℕ → List Message
  sent_by_server sent [] drawn = sent ++ challenge_message (challenge_at drawn) ∷ []
  sent_by_server sent (sig ∷ sigs) drawn =
      sent_by_server ((sent ++ challenge_message (challenge_at drawn) ∷ []) ++ failure_message ∷ [])
        sigs (drawn + challenge_size)

  abbrev pub drawn_after : List Signature → ℕ → ℕ
  drawn_after [] drawn = drawn + challenge_size
  drawn_after (sig ∷ sigs) drawn = drawn_after sigs (drawn + challenge_size)

  -- The client's keys from `skip` on give these signatures of the challenges, and the server's
  -- authenticator refuses all of them but the last, which it takes for the user's.
  module _ {Key V W : Type 0} (sign : Bytes → ℕ → Go V (Result (Option Signature)))
      (authenticate : Bytes → Signature → Go W (Result (Option (User Key)))) (last : Signature)
      (user : User Key) (v' : V) (w' : W) where
    abbrev pub Plays : List Signature → ℕ → ℕ → V → W → Type 0
    Plays [] skip drawn v w =
        (sign (challenge_at drawn) skip v ≡ (ret (ok (some last)), v'))
        × (authenticate (challenge_at drawn) last w ≡ (ret (ok (some user)), w'))
    Plays (sig ∷ sigs) skip drawn v w =
        (v1 : V) × (w1 : W) × (sign (challenge_at drawn) skip v ≡ (ret (ok (some sig)), v1))
        × (authenticate (challenge_at drawn) sig w ≡ (ret (ok none), w1))
        × Plays sigs (skip + 1) (drawn + challenge_size) v1 w1
