-- ===== src/Cmd/Authorize/Saving.antt =====
-- The key that cmd/hologram-authorize sends, as server/usercache.go reads it.
use hologram.Prelude.{
  ◌<>◌, ◌⊎◌, inl, inr, ◌≡◌, refl, ap, ◌∙◌, ◌<◌, String, Option, none, some, List, [], ◌∷◌, All,
  str_eq, Bool-cases,
}
use hologram.Prelude.Go.{Bytes, Result, ok, err}
use hologram.Prelude.Base64.{base64_decode}
use hologram.Prelude.Base64.Encode.{base64_encode, base64_decode-base64_encode}
use hologram.Server.UserCache.{Ssh, parse_key}
use hologram.Cmd.Authorize.{
  Surroundings, ssh_key, get_agent_ssh_key, load_pub_key, get_user_home_dir_ssh_key, first_file_key,
  first_agent_key, key_in, parse_read, encode_parsed, or_later,
}

module _ (authorized_key : Bytes → Result Bytes) (env : Surroundings) where
  -- The file gives the key.
  abbrev pub FileGives : String → Bytes → Type 0
  FileGives path blob =
      (bytes : Bytes) × (env.read_file path ≡ ok bytes) × (authorized_key bytes ≡ ok blob)

  -- Where the key that is sent may come from: the first place of the ssh-agent's ring, or one of the
  -- two files.
  abbrev pub IsOffered : Bytes → Type 0
  IsOffered blob =
      ((blobs : List Bytes) × (env.agent_keys (env.getenv "SSH_AUTH_SOCK") ≡ some (blob ∷ blobs)))
      ⊎ ((dir : String) × (env.expand "~/.ssh" ≡ ok dir)
          × (FileGives (dir <> "/id_rsa.pub") blob ⊎ FileGives (dir <> "/id_dsa.pub") blob))

  -- A key that is sent: none, or an offered one in base64.
  IsEncoded : String → Type 0
  IsEncoded key = (key ≡ "") ⊎ ((blob : Bytes) × IsOffered blob × (key ≡ base64_encode blob))

  IsFrom : String → Result String → Type 0
  IsFrom path (ok key) = (blob : Bytes) × FileGives path blob × (key ≡ base64_encode blob)
  IsFrom path (err e) = Unit

  IsFrom-parse :
      (path : String) (bytes : Bytes) (r : Result Bytes)
      → env.read_file path ≡ ok bytes
      → authorized_key bytes ≡ r
      → IsFrom path (encode_parsed authorized_key env r)
  unfolding IsFrom
  IsFrom-parse path bytes (ok blob) a b = (blob, (bytes, a, b), refl)
  IsFrom-parse path bytes (err e) a b = tt

  IsFrom-read :
      (path : String) (r : Result Bytes)
      → env.read_file path ≡ r
      → IsFrom path (parse_read authorized_key env r)
  unfolding IsFrom
  IsFrom-read path (ok bytes) a = IsFrom-parse path bytes (authorized_key bytes) a refl
  IsFrom-read path (err e) a = tt

  load_pub_key-IsFrom :
      (file path : String)
      → IsFrom (path <> "/" <> file) (load_pub_key authorized_key env file path)
  unfolding load_pub_key
  load_pub_key-IsFrom file path = IsFrom-read (path <> "/" <> file) _ refl

  module _ (dir : String) (known : env.expand "~/.ssh" ≡ ok dir) where
    of_dsa :
        (r : Result String)
        → IsFrom (dir <> "/id_dsa.pub") r
        → IsEncoded (or_later authorized_key env r "")
    unfolding IsEncoded IsFrom
    of_dsa (ok key) (blob, gives, e) = inr (blob, inr (dir, known, inr gives), e)
    of_dsa (err e) h = inl refl

    of_rsa :
        (r : Result String) (later : String)
        → IsFrom (dir <> "/id_rsa.pub") r
        → IsEncoded later
        → IsEncoded (or_later authorized_key env r later)
    unfolding IsEncoded IsFrom
    of_rsa (ok key) later (blob, gives, e) h = inr (blob, inr (dir, known, inl gives), e)
    of_rsa (err e) later x h = h

  home-IsEncoded :
      (r : Result String) → env.expand "~/.ssh" ≡ r → IsEncoded (key_in authorized_key env r)
  unfolding IsEncoded first_file_key
  home-IsEncoded (ok dir) h =
      of_rsa dir h _ _ (load_pub_key-IsFrom "id_rsa.pub" dir)
        (of_dsa dir h _ (load_pub_key-IsFrom "id_dsa.pub" dir))
  home-IsEncoded (err e) h = inl refl

  agent-IsEncoded :
      (r : Option (List Bytes))
      → env.agent_keys (env.getenv "SSH_AUTH_SOCK") ≡ r
      → IsEncoded (first_agent_key authorized_key env r)
  unfolding IsEncoded
  agent-IsEncoded none h = inl refl
  agent-IsEncoded (some []) h = inl refl
  agent-IsEncoded (some (blob ∷ blobs)) h = inr (blob, inl (blobs, h), refl)

  ssh_key-IsEncoded : IsEncoded (ssh_key authorized_key env)
  unfolding ssh_key get_agent_ssh_key get_user_home_dir_ssh_key
  ssh_key-IsEncoded = elim (Bool-cases (str_eq (get_agent_ssh_key authorized_key env) "")) [
    | inl none_there ↦ rw none_there (home-IsEncoded _ refl)
    | inr there ↦ rw there (agent-IsEncoded _ refl)
  ]

  module _ {Key : Type 0} (ssh : Ssh Key) where
    parsed :
        (text : String) (blob : Bytes) (key : Key)
        → base64_decode text ≡ blob
        → ssh.parse_public_key blob ≡ some key
        → parse_key ssh text ≡ some key
    unfolding parse_key
    parsed text blob key a b = rw (a, b) refl

    -- The text is none, or the cache parses it to an offered key.
    abbrev pub IsParsed : String → Type 0
    IsParsed text =
        (text ≡ "")
        ⊎ ((blob : Bytes) × (key : Key) × IsOffered blob
            × (ssh.parse_public_key blob ≡ some key)
            × (parse_key ssh text ≡ some key))

    encoded-IsParsed :
        (text : String)
        → ((blob : Bytes) → IsOffered blob → All (λ b. b < 256) blob)
        → ((blob : Bytes) → IsOffered blob → (key : Key) × (ssh.parse_public_key blob ≡ some key))
        → IsEncoded text
        → IsParsed text
    unfolding IsEncoded
    encoded-IsParsed text bytes valid (inl nothing) = inl nothing
    encoded-IsParsed text bytes valid (inr (blob, from, e)) =
        let known = valid blob from in
        let back = ap base64_decode e ∙ base64_decode-base64_encode blob (bytes blob from) in
        inr (blob, known.0, from, known.1, parsed text blob known.0 back known.1)

    -- If the keys of the ssh-agent and of the two files are bytes, and package ssh parses their wire
    -- form, then the text that the program sends is empty, where it has found no key, or the server's
    -- user cache parses it to one of those keys.
    pub ssh_key-parses :
        ((blob : Bytes) → IsOffered blob → All (λ b. b < 256) blob)
        → ((blob : Bytes) → IsOffered blob → (key : Key) × (ssh.parse_public_key blob ≡ some key))
        → IsParsed (ssh_key authorized_key env)
    ssh_key-parses bytes valid =
        encoded-IsParsed (ssh_key authorized_key env) bytes valid ssh_key-IsEncoded
