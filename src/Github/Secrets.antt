-- ===== src/Github/Secrets.antt =====
-- What leaves the program of a secret.
use ghsecretman.Github.{PublicKey}
use ghsecretman.Github.Operations.{set_secret, client, check_key, seal_anonymous}
use ghsecretman.Github.Client.{EncryptedSecret, GoGithub}
use ghsecretman.System.{System}
use ghsecretman.Base.{
  wrap, same_number, ℕ, String, ◌<>◌, true, Option, none, some, List, [], ◌≡◌, refl, ap, arith,
  Result, ok, err, ◌∙◌,
}
use ghsecretman.Base.Calls.{
  wrap_call_ok, lift, call_ok, wrap_call, Call, next, ◌>>=◌, Keeps, Keeps-bind, Keeps-wrap,
}

module _ (sys : System) (gh : GoGithub) (P : gh.State → Type 0) where
  -- A text that sealing a value for a key of 32 bytes has yielded.
  abbrev pub IsSealed : String → String → String → Type 0
  IsSealed plaintext key enc =
      (bytes : String) × (size : ℕ) × (s : gh.State) × (s' : gh.State) × (gh.decode_key key
        ≡ ok (bytes, size))
      × (same_number size 32 ≡ true)
      × (gh.seal plaintext bytes s ≡ (ok enc, s'))

  -- The calls that send a sealed secret.
  abbrev pub KeptBySend :
      (EncryptedSecret → Call gh.State (Unit {0})) → PublicKey → String → String → Type 0
  KeptBySend send key name plaintext =
      (es : EncryptedSecret)
      → es.name ≡ name
      → es.key_id ≡ key.key_id
      → IsSealed plaintext key.key es.encrypted_value
      → Keeps P (send es)

  wrap_ok : {A : Type 0} (prefix : String) (r : Result A) (a : A) → wrap prefix r ≡ ok a → r ≡ ok a
  wrap_ok prefix (ok x) a h = h
  wrap_ok prefix (err e) a h = absurd (ground arith)

  check_key_ok :
      (d : String × ℕ) (bytes : String)
      → check_key gh sys d ≡ ok bytes
      → (same_number d.1 32 ≡ true) × (d.0 ≡ bytes)
  check_key_ok (text, size) bytes h = ground arith

  -- The 32 bytes of a key.
  abbrev pub IsUnlocked : String → String → Type 0
  IsUnlocked key bytes =
      (size : ℕ) × (gh.decode_key key ≡ ok (bytes, size)) × (same_number size 32 ≡ true)

  checked-Keeps :
      (plaintext : String) (r : Result String) (s : gh.State)
      → ((bytes : String) → r ≡ ok bytes → Keeps P (gh.seal plaintext bytes))
      → P s
      → P (next (λ bytes. wrap_call "seal anonymous" (gh.seal plaintext bytes)) (lift r s)).1
  checked-Keeps plaintext (ok bytes) s k p =
      Keeps-wrap P "seal anonymous" (gh.seal plaintext bytes) (k bytes refl) s p
  checked-Keeps plaintext (err e) s k p = p

  unlocked :
      (key bytes : String) (d : String × ℕ)
      → gh.decode_key key ≡ ok d
      → check_key gh sys d ≡ ok bytes
      → IsUnlocked key bytes
  unlocked key bytes (text, size) decoded checked =
      let (fits, same) = check_key_ok (text, size) bytes checked in
      (size, decoded ∙ ap (λ x. ok (x, size)) same, fits)

  decoded-Keeps :
      (plaintext key : String) (r : Result (String × ℕ)) (s : gh.State)
      → gh.decode_key key ≡ r
      → ((bytes : String) → IsUnlocked key bytes → Keeps P (gh.seal plaintext bytes))
      → P s
      → P
          (next
            (λ decoded. lift (check_key gh sys decoded) >>= λ bytes.
              wrap_call "seal anonymous" (gh.seal plaintext bytes))
            (lift (wrap "decode public key" r) s)).1
  decoded-Keeps plaintext key (ok d) s e k p =
      checked-Keeps plaintext (check_key gh sys d) s
        (λ bytes checked. k bytes (unlocked key bytes d e checked)) p
  decoded-Keeps plaintext key (err e) s h k p = p

  seal_anonymous-Keeps :
      (plaintext key : String)
      → ((bytes : String) → IsUnlocked key bytes → Keeps P (gh.seal plaintext bytes))
      → Keeps P (seal_anonymous gh sys plaintext key)
  unfolding seal_anonymous
  seal_anonymous-Keeps plaintext key k s p =
      decoded-Keeps plaintext key (gh.decode_key key) s refl k p

  seal_anonymous-IsSealed :
      (plaintext key enc : String) (s s' : gh.State)
      → seal_anonymous gh sys plaintext key s ≡ (ok enc, s')
      → IsSealed plaintext key enc
  unfolding seal_anonymous
  seal_anonymous-IsSealed plaintext key enc s s' h =
      let (d, s1, e1, h1) =
        call_ok (lift (wrap "decode public key" (gh.decode_key key))) _ s s' enc h in
      let (bytes, s2, e2, h2) = call_ok (lift (check_key gh sys d)) _ s1 s' enc h1 in
      let decoded =
        wrap_ok "decode public key" (gh.decode_key key) d
          (ap (λ (x : Result (String × ℕ) × gh.State). x.0) e1) in
      let (fits, same) = check_key_ok d bytes (ap (λ (x : Result String × gh.State). x.0) e2) in
      (
        d.0,
        d.1,
        s2,
        s',
        decoded,
        fits,
        rw same (wrap_call_ok "seal anonymous" (gh.seal plaintext bytes s2) enc s' h2),
      )

  set_secret-Keeps :
      (what : String) (send : EncryptedSecret → Call gh.State (Unit {0})) (name plaintext : String)
      (key : Option PublicKey) (visibility : String) (ids : List ℕ)
      → ((k : PublicKey)
          → key ≡ some k
          → (bytes : String) → IsUnlocked k.key bytes
          → Keeps P (gh.seal plaintext bytes))
      → ((k : PublicKey) → key ≡ some k → KeptBySend send k name plaintext)
      → Keeps P (set_secret gh sys what send name key plaintext visibility ids)
  set_secret-Keeps what send name plaintext none visibility ids seals sends s p = p
  set_secret-Keeps what send name plaintext (some k) visibility ids seals sends s p =
      let e = "encrypt " <> (what <> (" " <> name)) in
      Keeps-bind P (wrap_call e (seal_anonymous gh sys plaintext k.key)) _
        (Keeps-wrap P e (seal_anonymous gh sys plaintext k.key)
          (seal_anonymous-Keeps plaintext k.key (seals k refl)))
        (λ enc s1 s' sealed.
          let made =
            seal_anonymous-IsSealed plaintext k.key enc s1 s'
              (wrap_call_ok e (seal_anonymous gh sys plaintext k.key s1) enc s' sealed) in
          Keeps-wrap P ("set " <> (what <> (" " <> name))) (send _) (sends k refl _ refl refl made))
        s p

  -- The four methods of the client that set a secret make no call without a key, and with one no calls but
  -- those that seal its value for the 32 bytes of the given key and those that send it, the latter only
  -- with what such a sealing has yielded, under the secret's name and the key's id. What these calls
  -- keep, the methods keep.
  pub client-secrets-Keeps :
      (fuel : ℕ) (o r name plaintext : String) (key : Option PublicKey) (visibility : String)
      (ids : List ℕ)
      → ((k : PublicKey)
          → key ≡ some k
          → (bytes : String) → IsUnlocked k.key bytes
          → Keeps P (gh.seal plaintext bytes))
      → ((k : PublicKey)
          → key ≡ some k
          → KeptBySend (gh.set_repo_secret o r) k name plaintext
            × KeptBySend (gh.set_repo_dependabot_secret o r) k name plaintext
            × KeptBySend (gh.set_org_secret o) k name plaintext
            × KeptBySend (gh.set_org_dependabot_secret o) k name plaintext)
      → Keeps P ((client gh sys fuel).set_repo_secret o r name key plaintext)
        × Keeps P ((client gh sys fuel).set_repo_dependabot_secret o r name key plaintext)
        × Keeps P ((client gh sys fuel).set_org_secret o name key plaintext visibility ids)
        × Keeps P
            ((client gh sys fuel).set_org_dependabot_secret o name key plaintext visibility ids)
  client-secrets-Keeps fuel o r name plaintext key visibility ids seals sends = (
    set_secret-Keeps "repo secret" (gh.set_repo_secret o r) name plaintext key "" [] seals
        (λ k e. (sends k e).0),
    set_secret-Keeps "repo dependabot secret" (gh.set_repo_dependabot_secret o r) name plaintext key
        "" [] seals (λ k e. (sends k e).1),
    set_secret-Keeps "org secret" (gh.set_org_secret o) name plaintext key visibility ids seals
        (λ k e. (sends k e).2),
    set_secret-Keeps "org dependabot secret" (gh.set_org_dependabot_secret o) name plaintext key
        visibility ids seals (λ k e. (sends k e).3),
  )
