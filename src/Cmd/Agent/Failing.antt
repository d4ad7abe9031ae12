-- ===== src/Cmd/Agent/Failing.antt =====
-- How the start of cmd/hologram-agent with an access key fails.
use hologram.Prelude.{◌≡◌, ◌⊎◌, true, false, Option, none, some}
use hologram.Prelude.Go.{Error, Outcome, ret, panic, out_of_fuel}
use hologram.Log
use hologram.Agent.Client.Creation.{IamUser, iam_account}

-- `GetUser` gave no user of whom an account and a name can be read, or panicked itself.
abbrev pub GivesNoUser : Outcome (Option IamUser × Option Error) → Type 0
GivesNoUser (ret (none, e)) = Unit
GivesNoUser (ret (some user, e)) = (iam_account user.arn ≡ none) ⊎ (user.user_name ≡ none)
GivesNoUser panic = Unit
GivesNoUser out_of_fuel = true ≡ false
