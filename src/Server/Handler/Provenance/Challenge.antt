-- ===== src/Server/Handler/Provenance/Challenge.antt =====
-- The challenge of server/server.go sends no credentials, and ends with an authenticated user.
use hologram.Prelude.{ℕ, zero, suc, Bool, Option, none, some}
use hologram.Prelude.Go.{Bytes, Result, ok, err}
use hologram.Prelude.Keeps.{Keeps, Any, Keeps-pure, Keeps-fuel, Keeps-bind}
use hologram.Protocol.Requests.{SshChallengeResponse}
use hologram.Protocol.ServerRequest.{ServerRequest}
use hologram.Protocol.Message.{Message}
use hologram.Server.Types.{Credentials, User}
use hologram.Server.Handler.State.{Services, fuel_for, challenge_message, failure_message}
use hologram.Server.Handler.Challenge.{
  new_challenge, answer_verdict, check_answer, check_request, check_response, challenge_round,
  ssh_challenge, run_challenge, signature_of,
}
use hologram.Server.Handler.Sending.{Keeps-receive, Keeps-send, Keeps-outside}
use hologram.Server.Handler.Provenance.{IsGranted, OkUser, OkOnly, IsFaithful, Safe}

module _ {Key W : Type 0} (services : Services Key W) {Inv : W → Type 0} {Auth : User Key → Type 0}
    {Good : Credentials → Type 0} {roles_on : Bool}
    (faithful : IsFaithful services roles_on Inv Auth Good) where
  pub answer_verdict-Safe :
      (r : Result (Option (User Key)))
      → OkUser Auth r
      → Keeps (Safe Good Inv) (OkUser Auth) (answer_verdict services r)
  unfolding answer_verdict
  answer_verdict-Safe (err e) q = Keeps-pure (err e) tt
  answer_verdict-Safe (ok (some u)) q = Keeps-pure (ok (some u)) q
  answer_verdict-Safe (ok none) q =
      Keeps-bind (Keeps-send (IsGranted Good) Inv failure_message tt)
        (elim [ some e ↦ λ _. Keeps-pure (err e) tt | none ↦ λ _. Keeps-pure (ok none) tt ])

  pub check_answer-Safe :
      (challenge : Bytes) (o : Option SshChallengeResponse)
      → Keeps (Safe Good Inv) (OkUser Auth) (check_answer services challenge o)
  unfolding check_answer
  check_answer-Safe challenge none = Keeps-pure _ tt
  check_answer-Safe challenge (some cr) =
      Keeps-bind
        (Keeps-outside (IsGranted Good) Inv
          (faithful.authenticated "derp" challenge (signature_of cr)))
        answer_verdict-Safe

  pub check_request-Safe :
      (challenge : Bytes) (o : Option ServerRequest)
      → Keeps (Safe Good Inv) (OkUser Auth) (check_request services challenge o)
  unfolding check_request
  check_request-Safe challenge none = Keeps-pure _ tt
  check_request-Safe challenge (some r) = check_answer-Safe challenge _

  pub check_response-Safe :
      (challenge : Bytes) (r : Result Message)
      → Keeps (Safe Good Inv) (OkUser Auth) (check_response services challenge r)
  unfolding check_response
  check_response-Safe challenge (err e) = Keeps-pure _ tt
  check_response-Safe challenge (ok msg) = check_request-Safe challenge _

  pub new_challenge-Safe : Keeps (Safe Good Inv) Any (new_challenge services)
  unfolding new_challenge
  new_challenge-Safe = record { at = λ s h. (h, tt) }

  pub challenge_round-Safe : Keeps (Safe Good Inv) (OkUser Auth) (challenge_round services)
  unfolding challenge_round
  challenge_round-Safe = Keeps-bind new_challenge-Safe λ challenge _.
      Keeps-bind (Keeps-send (IsGranted Good) Inv (challenge_message challenge) tt) (elim [
        | some e ↦ λ _. Keeps-pure _ tt
        | none ↦ λ _.
            Keeps-bind (Keeps-receive (IsGranted Good) Inv {Q = Any} (λ _. tt))
              λ r _. check_response-Safe challenge r
      ])

  pub ssh_challenge-Safe :
      (fuel : ℕ) → Keeps (Safe Good Inv) (OkOnly Auth) (ssh_challenge services fuel)
  unfolding ssh_challenge
  ssh_challenge-Safe zero = Keeps-fuel
  ssh_challenge-Safe (suc fuel) = Keeps-bind challenge_round-Safe (elim [
    | err e ↦ λ _. Keeps-pure _ tt
    | ok none ↦ λ _. ssh_challenge-Safe fuel
    | ok (some user) ↦ λ q. Keeps-pure _ q
  ])

  pub run_challenge-Safe : Keeps (Safe Good Inv) (OkOnly Auth) (run_challenge services)
  run_challenge-Safe = record { at = λ s h. (ssh_challenge-Safe (fuel_for s)).at s h }
