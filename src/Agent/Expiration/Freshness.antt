-- ===== src/Agent/Expiration/Freshness.antt =====
-- Which credentials agent/credentials_expiration_manager.go gives out.
use hologram.Prelude.{
  ◌≡◌, refl, inl, inr, String, Bool, true, false, Option, none, some, str_eq, Bool-cases,
}
use hologram.Prelude.Go.{Error, Result, ok, err, Outcome, ret, panic, out_of_fuel, continue, ◌>>=◌}
use hologram.Server.Types.{Time, Credentials}
use hologram.Agent.Client.{Client}
use hologram.Agent.Expiration.{
  before, Manager, renew, renew_if, check_expiration, refresh_with, after_refresh, get_set,
  maybe_refresh_credentials, get_credentials,
}

module _ {W : Type 0} (now : W → Time) where
  -- There are credentials, and they have not expired.
  abbrev pub IsFresh : Manager W → Type 0
  IsFresh s =
      (c : Credentials) × (t : Time) × (s.creds ≡ some c)
      × (c.expiration ≡ some t)
      × (before t (now s.world) ≡ false)

  -- What a call that returned a value has given out: the stored credentials, which are fresh.
  abbrev pub Given : Outcome (Result (Option Credentials)) × Manager W → Type 0
  Given (ret (ok given), s) = (given ≡ s.creds) × IsFresh s
  Given (ret (err e), s) = Unit
  Given (panic, s) = Unit
  Given (out_of_fuel, s) = Unit

  -- A client whose calls, when they report no error, have stored fresh credentials.
  pub record Renews (c : Client (Manager W)) : Type 0 where
    pub assume_role :
        (role : String) (s : Manager W)
        → (c.assume_role role s).0 ≡ ret none
        → IsFresh (c.assume_role role s).1
    pub get_user_credentials :
        (s : Manager W)
        → (c.get_user_credentials s).0 ≡ ret none
        → IsFresh (c.get_user_credentials s).1

  abbrev pub RenewsIfAny : Option (Client (Manager W)) → Type 0
  RenewsIfAny none = Unit
  RenewsIfAny (some c) = Renews c

module _ {W : Type 0} (now : W → Time) (client : Option (Client (Manager W)))
    (renews : RenewsIfAny now client) where
  renew-IsFresh :
      (c : Client (Manager W)) (role : String) (s : Manager W)
      → Renews now c
      → (renew now client c role s).0 ≡ ret none
      → IsFresh now (renew now client c role s).1
  renew-IsFresh c role s r = elim (Bool-cases (str_eq role "")) [
    | inl e ↦ rw e (r.get_user_credentials s)
    | inr e ↦ rw e (r.assume_role role s)
  ]

  renew_if-IsFresh :
      (c : Client (Manager W)) (creds : Credentials) (t : Time) (s : Manager W) (expired : Bool)
      → Renews now c
      → s.creds ≡ some creds
      → creds.expiration ≡ some t
      → before t (now s.world) ≡ expired
      → (renew_if now client expired c s).0 ≡ ret none
      → IsFresh now (renew_if now client expired c s).1
  renew_if-IsFresh c creds t s true r a b e h = renew-IsFresh c s.role s r h
  renew_if-IsFresh c creds t s false r a b e h = (creds, t, a, b, e)

  check_expiration-IsFresh :
      (c : Client (Manager W)) (creds : Credentials) (t : Option Time) (s : Manager W)
      → Renews now c
      → s.creds ≡ some creds
      → creds.expiration ≡ t
      → (check_expiration now client c t s).0 ≡ ret none
      → IsFresh now (check_expiration now client c t s).1
  check_expiration-IsFresh c creds none s r a b h = cc h
  check_expiration-IsFresh c creds (some t) s r a b h = renew_if-IsFresh c creds t s _ r a b refl h

  refresh_with-IsFresh :
      (o : Option (Client (Manager W))) (creds : Credentials) (s : Manager W)
      → RenewsIfAny now o
      → s.creds ≡ some creds
      → (refresh_with now client o creds s).0 ≡ ret none
      → IsFresh now (refresh_with now client o creds s).1
  refresh_with-IsFresh none creds s r a h = cc h
  refresh_with-IsFresh (some c) creds s r a h =
      check_expiration-IsFresh c creds creds.expiration s r a refl h

  after_refresh-Given :
      (o : Outcome (Option Error)) (s : Manager W)
      → (o ≡ ret none → IsFresh now s)
      → Given now (continue o (after_refresh now client) s)
  after_refresh-Given (ret (some e)) s h = tt
  after_refresh-Given (ret none) s h = (refl, h refl)
  after_refresh-Given panic s h = tt
  after_refresh-Given out_of_fuel s h = tt

  get_set-Given :
      (creds : Option Credentials) (s : Manager W)
      → s.creds ≡ creds
      → Given now (get_set now client creds s)
  unfolding maybe_refresh_credentials ◌>>=◌
  get_set-Given none s a = tt
  get_set-Given (some creds) s a =
      after_refresh-Given _ _ (refresh_with-IsFresh client creds s renews a)

  -- If the client stores fresh credentials whenever it reports no error, then the credentials that
  -- `GetCredentials` returns without an error are those stored, and they have not expired.
  pub get_credentials-Given : (s : Manager W) → Given now (get_credentials now client s)
  unfolding get_credentials
  get_credentials-Given s = get_set-Given s.creds s refl
