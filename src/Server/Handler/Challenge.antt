-- ===== src/Server/Handler/Challenge.antt =====
-- server/server.go: `SSHChallenge`.
use hologram.Prelude.{ℕ, zero, suc, ◌+◌, ◌%◌, Option, none, some, [], ◌∷◌}
use hologram.Prelude.Go.{Error, Bytes, Result, ok, err, ret, out_of_fuel, Go, pure, ◌>>=◌}
use hologram.Protocol.Requests
use hologram.Protocol.Requests.{SshChallengeResponse}
use hologram.Protocol.ServerRequest
use hologram.Protocol.ServerRequest.{ServerRequest}
use hologram.Protocol.Message
use hologram.Protocol.Message.{Message}
use hologram.Server.Types.{Signature, User}
use hologram.Server.Handler.State.{
  State, Services, fuel_for, receive, send, outside, challenge_message, failure_message,
}

-- challenge[i] = byte(rand.Int() % 256), for the next `n` numbers drawn
unfoldable pub random_bytes : (ℕ → ℕ) → ℕ → ℕ → Bytes
random_bytes rand_int zero i = []
random_bytes rand_int (suc n) i = rand_int i % 256 ∷ random_bytes rand_int n (i + 1)

abbrev pub challenge_size : ℕ
challenge_size = 64

abbrev pub err_not_server_request : Error
err_not_server_request = "not a server request"

-- Compose a challenge response into the form that `Authenticate` takes.
abbrev pub signature_of : SshChallengeResponse → Signature
signature_of cr = record {
  format = Requests.get_format (some cr);
  blob = Requests.get_signature (some cr);
}

module _ {Key W : Type 0} (services : Services Key W) where
  unfoldable pub new_challenge : Go (State W) Bytes
  new_challenge s = (
    ret (random_bytes services.rand_int challenge_size s.drawn),
    record s { drawn = s.drawn + challenge_size },
  )

  abbrev pub after_failure : Option Error → Go (State W) (Result (Option (User Key)))
  after_failure (some e) = pure (err e)
  after_failure none = pure (ok none)

  -- What follows the check of a signature: a user ends the loop, and otherwise the client may try
  -- another key.
  unfoldable pub answer_verdict :
      Result (Option (User Key)) → Go (State W) (Result (Option (User Key)))
  answer_verdict (err e) = pure (err e)
  answer_verdict (ok (some user)) = pure (ok (some user))
  answer_verdict (ok none) = send failure_message >>= after_failure

  unfoldable pub check_answer :
      Bytes → Option SshChallengeResponse → Go (State W) (Result (Option (User Key)))
  check_answer challenge none = pure (err err_not_server_request)
  check_answer challenge (some cr) = do
    verdict ← outside (services.user_cache.authenticate "derp" challenge (signature_of cr))
    answer_verdict verdict

  unfoldable pub check_request :
      Bytes → Option ServerRequest → Go (State W) (Result (Option (User Key)))
  check_request challenge none = pure (err err_not_server_request)
  check_request challenge (some r) =
      check_answer challenge (ServerRequest.get_challenge_response (some r))

  unfoldable pub check_response : Bytes → Result Message → Go (State W) (Result (Option (User Key)))
  check_response challenge (err e) = pure (err e)
  check_response challenge (ok msg) =
      check_request challenge (Message.get_server_request (some msg))

  abbrev pub after_challenge : Bytes → Option Error → Go (State W) (Result (Option (User Key)))
  after_challenge challenge (some e) = pure (err e)
  after_challenge challenge none = receive >>= check_response challenge

  -- The body of the loop: `ok none` goes round again.
  unfoldable pub challenge_round : Go (State W) (Result (Option (User Key)))
  challenge_round = do
    challenge ← new_challenge
    e ← send (challenge_message challenge)
    after_challenge challenge e

  abbrev pub after_round :
      Go (State W) (Result (User Key))
      → Result (Option (User Key))
      → Go (State W) (Result (User Key))
  after_round again (err e) = pure (err e)
  after_round again (ok (some user)) = pure (ok user)
  after_round again (ok none) = again

  unfoldable pub ssh_challenge : ℕ → Go (State W) (Result (User Key))
  ssh_challenge zero = λ s. (out_of_fuel, s)
  ssh_challenge (suc fuel) = challenge_round >>= after_round (ssh_challenge fuel)

  abbrev pub run_challenge : Go (State W) (Result (User Key))
  run_challenge s = ssh_challenge (fuel_for s) s
