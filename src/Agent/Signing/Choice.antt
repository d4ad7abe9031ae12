-- ===== src/Agent/Signing/Choice.antt =====
-- Which key `SSHSign` of agent/ssh.go signs with.
use hologram.Prelude.{
  ℕ, ◌<◌, ◌≤◌, ◌≡◌, ◌≢◌, refl, ◌⊎◌, inl, inr, Option, none, some, List, length, get_elem?, ltb, leb,
  ltb-false→le, leb-false→lt, Bool-cases, str_eq, str_eq_iff, ◌==◌, arith,
}
use hologram.Prelude.Go.{
  Error, Bytes, Result, ok, err, Outcome, ret, panic, out_of_fuel, continue, ◌>>=◌,
}
use hologram.Server.Types.{Signature}
use hologram.Agent.Signing.{
  Globals, SshAgent, sign_provided, sign_at, after_signers, after_list, after_connect, ssh_sign,
}

module _ {Key Signer W : Type 0} (ssh : SshAgent Key Signer W) (g : Globals Signer)
    (challenge : Bytes) (skip : ℕ) where
  -- What the agent answers when its keys are listed, and when its signers are.
  abbrev pub IsRing : List Key → List Signer → Type 0
  IsRing keys signers =
      ((w : W) × ((ssh.list w).0 ≡ ret (ok keys)))
      × ((w : W) × ((ssh.signers w).0 ≡ ret (ok signers)))

  -- The key with which the n-th try signs: the one that was given, in the first try only and where
  -- there is no socket, or else the one at that place of the agent's ring.
  abbrev pub IsChosen : Signer → Type 0
  IsChosen signer =
      ((g.socket_address ≡ "") × (skip ≡ 0) × (g.provided_ssh_key ≡ some signer))
      ⊎ ((keys : List Key) × (signers : List Signer) × (g.socket_address ≢ "")
          × IsRing keys signers
          × (skip < length keys)
          × (get_elem? signers skip ≡ some signer))

  -- A signature comes from one call that signs the challenge with a key that was chosen so.
  abbrev pub Signed : Outcome (Result (Option Signature)) × W → Type 0
  Signed (ret (ok (some signature)), w) =
      (signer : Signer) × (before : W) × IsChosen signer
      × (ssh.sign signer challenge before ≡ (ret (ok (some signature)), w))
  Signed _ = Unit

  signed_by :
      (signer : Signer) (w : W) (run : Outcome (Result (Option Signature)) × W)
      → IsChosen signer
      → ssh.sign signer challenge w ≡ run
      → Signed run
  signed_by signer w (ret (ok (some signature)), _) chosen e = (signer, w, chosen, e)
  signed_by signer w (ret (ok none), _) chosen e = tt
  signed_by signer w (ret (err x), _) chosen e = tt
  signed_by signer w (panic, _) chosen e = tt
  signed_by signer w (out_of_fuel, _) chosen e = tt

  sign_provided-Signed :
      (key : Option Signer) (w : W)
      → g.socket_address ≡ ""
      → skip ≡ 0
      → g.provided_ssh_key ≡ key
      → Signed (sign_provided ssh key challenge w)
  sign_provided-Signed none w a b e = tt
  sign_provided-Signed (some signer) w a b e = signed_by signer w _ (inl (a, b, e)) refl

  sign_at-Signed :
      (keys : List Key) (signers : List Signer) (found : Option Signer) (w : W)
      → g.socket_address ≢ ""
      → IsRing keys signers
      → skip < length keys
      → get_elem? signers skip ≡ found
      → Signed (sign_at ssh found challenge w)
  sign_at-Signed keys signers none w a ring lt e = tt
  sign_at-Signed keys signers (some signer) w a ring lt e =
      signed_by signer w _ (inr (keys, signers, a, ring, lt, e)) refl

  after_signers-Signed :
      (keys : List Key) (o : Outcome (Result (List Signer))) (w before : W)
      → g.socket_address ≢ ""
      → (v : W) × ((ssh.list v).0 ≡ ret (ok keys))
      → (ssh.signers before).0 ≡ o
      → skip < length keys
      → Signed (continue o (after_signers ssh challenge skip) w)
  after_signers-Signed keys (ret (err e)) w before a listed h lt = tt
  after_signers-Signed keys (ret (ok signers)) w before a listed h lt =
      sign_at-Signed keys signers _ w a (listed, (before, h)) lt refl
  after_signers-Signed keys panic w before a listed h lt = tt
  after_signers-Signed keys out_of_fuel w before a listed h lt = tt

  after_list-Signed :
      (o : Outcome (Result (List Key))) (w before : W)
      → g.socket_address ≢ ""
      → (ssh.list before).0 ≡ o
      → Signed (continue o (after_list ssh challenge skip) w)
  unfolding ◌>>=◌
  after_list-Signed (ret (err e)) w before a h = tt
  after_list-Signed (ret (ok keys)) w before a h = elim (Bool-cases (length keys == 0)) [
    | inl empty ↦ rw empty tt
    | inr some_keys ↦ elim (Bool-cases (leb (length keys) skip)) [
      | inl tried ↦ rw some_keys (rw tried tt)
      | inr left ↦ rw some_keys (
          rw left (
            after_signers-Signed keys (ssh.signers w).0 (ssh.signers w).1 w a (before, h) refl
              (leb-false→lt (length keys) skip left)))
    ]
  ]
  after_list-Signed panic w before a h = tt
  after_list-Signed out_of_fuel w before a h = tt

  after_connect-Signed :
      (o : Outcome (Option Error)) (w : W)
      → g.socket_address ≢ ""
      → Signed (continue o (after_connect ssh challenge skip) w)
  unfolding ◌>>=◌
  after_connect-Signed (ret (some e)) w a = tt
  after_connect-Signed (ret none) w a = after_list-Signed (ssh.list w).0 (ssh.list w).1 w a refl
  after_connect-Signed panic w a = tt
  after_connect-Signed out_of_fuel w a = tt

  -- A signature that the n-th try returns was made of the challenge in one call, with the n-th key of
  -- the agent's ring, or where no socket is known with the key that was given, in the first try only.
  pub ssh_sign-Signed : (w : W) → Signed (ssh_sign ssh g challenge skip w)
  unfolding ssh_sign ◌>>=◌
  ssh_sign-Signed w = elim (Bool-cases (str_eq g.socket_address "")) [
    | inl unset ↦ elim (Bool-cases (ltb 0 skip)) [
      | inl later ↦ rw unset (rw later tt)
      | inr first ↦ rw unset (
          rw first (
            sign_provided-Signed g.provided_ssh_key w ((str_eq_iff g.socket_address "").0 unset)
              (let h : skip ≤ 0 = ltb-false→le 0 skip first in omega (arith, h)) refl))
    ]
    | inr set ↦ rw set (
        after_connect-Signed (ssh.connect g.socket_address w).0 (ssh.connect g.socket_address w).1
          (λ e. cc ((str_eq_iff g.socket_address "").1 e, set)))
  ]
