-- ===== src/Server/Credentials/Access.antt =====
-- Which roles the credential service of server/credentials.go asks STS for.
use hologram.Prelude.{
  ◌≡◌, refl, ◌⊎◌, inl, inr, String, true, false, List, [], ◌∷◌, str_eq, str_eq_iff, Bool-cases,
  arith, Some,
}
use hologram.Prelude.Go.{err, ret}
use hologram.Server.Types.{User}
use hologram.Server.Credentials.{
  DirectSessionTokenService, arn_of, find_arn, not_authorized, role_input, assume_role,
}

module _ {W : Type 0} (service : DirectSessionTokenService W) where
  -- The user has a role, if one of the user's ARNs stands for it.
  abbrev pub Has : List String → String → Type 0
  Has arns role = Some (λ a. arn_of service role ≡ arn_of service a) arns

  find_arn-Has :
      (role : String) (arns : List String)
      → find_arn service (arn_of service role) arns ≡ true
      → Has arns role
  unfolding find_arn
  find_arn-Has role [] h = cc
  find_arn-Has role (a ∷ arns) h =
      elim (Bool-cases (str_eq (arn_of service role) (arn_of service a))) [
        | inl e ↦ inl ((str_eq_iff _ _).0 e)
        | inr n ↦ inr (find_arn-Has role arns (rw n at h))
      ]

  Has-find_arn :
      (role : String) (arns : List String)
      → Has arns role
      → find_arn service (arn_of service role) arns ≡ true
  unfolding find_arn
  Has-find_arn role [] h = absurd h
  Has-find_arn role (a ∷ arns) (inl e) =
      rw ((str_eq_iff (arn_of service role) (arn_of service a)).1 e)
  Has-find_arn role (a ∷ arns) (inr h) = ground (arith, Has-find_arn role arns h)

module _ {Key W : Type 0} (service : DirectSessionTokenService W) (user : User Key) (role : String)
    (w : W) where
  -- With LDAP roles on, STS is asked for exactly the roles that the user has, by the role's ARN and
  -- in the user's name; for any other role the request is refused and STS is not called.
  pub assume_role_authorized :
      (Has service user.arns role
        × (assume_role service user role true w
            ≡ service.sts.assume_role (role_input user (arn_of service role)) w))
      ⊎ (¬ Has service user.arns role
          × (assume_role service user role true w
              ≡ (ret (err (not_authorized user (arn_of service role))), w)))
  unfolding assume_role
  assume_role_authorized = elim (Bool-cases (find_arn service (arn_of service role) user.arns)) [
    | inl found ↦ inl (find_arn-Has service role user.arns found, rw found)
    | inr missing ↦ inr (λ h. cc (Has-find_arn service role user.arns h), rw missing)
  ]

  -- With LDAP roles off every role is asked for.
  pub assume_role_open :
      assume_role service user role false w
      ≡ service.sts.assume_role (role_input user (arn_of service role)) w
  unfolding assume_role
  assume_role_open = refl
