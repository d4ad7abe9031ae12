-- ===== src/Server/Handler/Halting/Challenge.antt =====
-- The challenge loop of server/server.go ends: a client has one try for each message it sends.
use hologram.Prelude.{
  ℕ, zero, suc, ◌+◌, ◌≤◌, ◌<◌, ◌≢◌, refl, String, Bool, Option, none, some, arith,
}
use hologram.Prelude.Go.{Bytes, Result, ok, err, out_of_fuel, ◌>>=◌}
use hologram.Protocol.Requests.{SshChallengeResponse}
use hologram.Protocol.ServerRequest.{ServerRequest}
use hologram.Protocol.Message.{Message}
use hologram.Server.Types.{Signature, User, SearchRequest, ModifyRequest}
use hologram.Server.Handler.State.{State, Services, fuel_for, challenge_message, failure_message}
use hologram.Server.Handler.Challenge.{
  new_challenge, answer_verdict, check_answer, check_request, check_response, challenge_round,
  ssh_challenge, run_challenge, signature_of,
}
use hologram.Server.Handler.Halting.Rules.{
  Halts, EndsAt, EndsAt-continue, EndsAt-weaken, waiting, free, Halts-pure, Halts-bind,
  Halts-bind_cost, Halts-receive, Halts-send, Halts-outside, message_cost,
}

-- The calls to the collaborators return or panic.
pub record ServicesHalt {Key W : Type 0} (services : Services Key W) : Type 0 where
  pub authenticate :
      (name : String) (challenge : Bytes) (sig : Signature) (w : W)
      → (services.user_cache.authenticate name challenge sig w).0 ≢ out_of_fuel
  pub update : (w : W) → (services.user_cache.update w).0 ≢ out_of_fuel
  pub assume_role :
      (user : User Key) (role : String) (enable : Bool) (w : W)
      → (services.credentials.assume_role user role enable w).0 ≢ out_of_fuel
  pub search : (r : SearchRequest) (w : W) → (services.ldap_server.search r w).0 ≢ out_of_fuel
  pub modify : (r : ModifyRequest) (w : W) → (services.ldap_server.modify r w).0 ≢ out_of_fuel

-- A round that is to be repeated has taken a message.
abbrev pub round_cost : {Key : Type 0} → Result (Option (User Key)) → ℕ
round_cost (ok none) = 1
round_cost (ok (some u)) = 0
round_cost (err e) = 0

module _ {Key W : Type 0} (services : Services Key W) (halt : ServicesHalt services) where
  answer_verdict-Halts : (r : Result (Option (User Key))) → Halts free (answer_verdict services r)
  unfolding answer_verdict
  answer_verdict-Halts (err e) = Halts-pure _ refl
  answer_verdict-Halts (ok (some u)) = Halts-pure _ refl
  answer_verdict-Halts (ok none) =
      Halts-bind (Halts-send failure_message)
        (elim [ some e ↦ Halts-pure _ refl | none ↦ Halts-pure _ refl ])

  check_answer-Halts :
      (challenge : Bytes) (o : Option SshChallengeResponse)
      → Halts free (check_answer services challenge o)
  unfolding check_answer
  check_answer-Halts challenge none = Halts-pure _ refl
  check_answer-Halts challenge (some cr) =
      Halts-bind (Halts-outside _ (halt.authenticate "derp" challenge (signature_of cr)))
        answer_verdict-Halts

  check_request-Halts :
      (challenge : Bytes) (o : Option ServerRequest)
      → Halts free (check_request services challenge o)
  unfolding check_request
  check_request-Halts challenge none = Halts-pure _ refl
  check_request-Halts challenge (some r) = check_answer-Halts challenge _

  -- What is left to pay for a round once `r` has been received.
  abbrev rest_cost : Result Message → Result (Option (User Key)) → ℕ
  rest_cost (ok m) = free
  rest_cost (err e) = round_cost

  check_response-Halts :
      (challenge : Bytes) (r : Result Message)
      → Halts (rest_cost r) (check_response services challenge r)
  unfolding check_response
  check_response-Halts challenge (err e) = Halts-pure _ refl
  check_response-Halts challenge (ok msg) = check_request-Halts challenge _

  round_cost-le :
      (r : Result Message) (v : Result (Option (User Key)))
      → round_cost v ≤ rest_cost r v + message_cost r
  round_cost-le (ok m) v = ground arith
  round_cost-le (err e) v = omega arith

  new_challenge-Halts : Halts free (new_challenge services)
  unfolding new_challenge
  new_challenge-Halts = record { at = λ s. omega arith }

  challenge_round-Halts : Halts round_cost (challenge_round services)
  unfolding challenge_round
  challenge_round-Halts =
      Halts-bind_cost (λ _. round_cost) (λ _ _. omega arith) new_challenge-Halts
        λ challenge.
          Halts-bind_cost (λ _. round_cost) (λ _ _. omega arith)
            (Halts-send (challenge_message challenge))
            (elim [
              | some e ↦ Halts-pure _ refl
              | none ↦
                  Halts-bind_cost rest_cost round_cost-le Halts-receive
                    (check_response-Halts challenge)
            ])

  -- With more fuel than messages to come the loop does not run out of it.
  ssh_challenge-ends :
      (fuel : ℕ) (s : State W)
      → waiting s < fuel
      → EndsAt free (waiting s) (ssh_challenge services fuel s).0 (ssh_challenge services fuel s).1
  unfolding ssh_challenge ◌>>=◌
  ssh_challenge-ends zero s h = absurd (omega arith)
  ssh_challenge-ends (suc fuel) s h =
      EndsAt-continue round_cost free (waiting s) (challenge_round services s).0 _
        (challenge_round services s).1 (challenge_round-Halts.at s)
        (elim [
          | err e ↦ λ k. omega arith
          | ok (some u) ↦ λ k. omega arith
          | ok none ↦ λ k.
              let s' = (challenge_round services s).1 in
              EndsAt-weaken free free 1 (waiting s) (waiting s') (ssh_challenge services fuel s').0
                (ssh_challenge services fuel s').1 (λ b. omega arith) k
                (ssh_challenge-ends fuel s' (omega arith))
        ])

  pub run_challenge-Halts : Halts free (run_challenge services)
  run_challenge-Halts = record { at = λ s. ssh_challenge-ends (fuel_for s) s (omega arith) }
