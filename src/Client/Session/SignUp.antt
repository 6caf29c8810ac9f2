-- ===== src/Client/Session/SignUp.antt =====
-- Client and server together: a registration, a sign-in and the unlocking of the keyring.
use safe_pass.Base.{
  ℕ, ◌≡◌, refl, sym, ap, ◌∙◌, Bool, false, Option, none, some, ◌==◌, not, any, Bool-cases, inl, inr,
  if◌then◌else◌,
}
use mathlib.Core.Path.{subst}
use safe_pass.Errors.{ok, err, malformed_envelope, ok-injective, on_bind, ◌>>=◌}
use safe_pass.Envelope.{str, bytes, assert_key_wrap, is_well_formed_key_wrap}
use safe_pass.Envelope.Base64.{Text, Bytes, bytes_to_base64_url}
use safe_pass.Json.{normalize}
use safe_pass.Tables.{text_eq}
use safe_pass.Auth.Store.{AuthDb, UserKeyring}
use safe_pass.Auth.Totp.{confirmed_enrolment}
use safe_pass.Auth.Login.{signed_in, login}
use safe_pass.Auth.Registration.{System, Registration, Drawn, register}
use safe_pass.Auth.Registration.Laws.{register-login}
use safe_pass.Client.Keyring.{Keyring}
use safe_pass.Client.Keyring.Refinement.{empty}
use safe_pass.Client.Crypto.{
  WebCrypto, default_kdf_params, generate_keypair, wrap_user_key, derive_master_key,
  derive_auth_hash,
}
use safe_pass.Client.Crypto.Laws.{bytes-encrypt_bytes}
use safe_pass.Client.Session.{
  Draws, RegisterRequest, WrappedKeyring, build_login_request, build_registration_request,
  unlock_from_keyring,
}
use safe_pass.Client.Session.Laws.{
  IsPlatform, AreDrawn, derive_master_key-is_ok, build_registration_request-opens,
}

-- The body that the client posts.
abbrev pub body_of : RegisterRequest → Registration
body_of r = record {
  recovery_acknowledged = r.recovery_acknowledged;
  email = r.email;
  auth_hash = r.auth_hash;
  wrapped_user_key = str r.wrapped_user_key;
  wrapped_private_key = str r.wrapped_private_key;
  wrapped_vault_key = str r.wrapped_vault_key;
  personal_vault_name = str r.personal_vault_name;
  public_key = r.public_key;
  kdf_params = some r.kdf_params;
}

-- The keyring of the reply to a sign-in: the columns as text.
abbrev pub sent : UserKeyring → WrappedKeyring
sent k = record {
  wrapped_user_key = bytes_to_base64_url k.wrapped_user_key;
  wrapped_private_key = bytes_to_base64_url k.wrapped_private_key;
  public_key = bytes_to_base64_url k.public_key;
}

assert_key_wrap-str : (x t : Text) → assert_key_wrap (str x) ≡ ok t → t ≡ x
unfolding assert_key_wrap
assert_key_wrap-str x t e =
    let tested : Bool → Type 0 = λ b. (if not b then err malformed_envelope else ok x) ≡ ok t in
    elim (Bool-cases (is_well_formed_key_wrap (str x))) [
      | inl good ↦ sym (ok-injective (subst tested good e))
      | inr bad ↦ let never = subst tested bad e in cc
    ]

module _ {PublicKey PrivateKey : Type 0} (c : WebCrypto PublicKey PrivateKey) where
  -- What a request of a registration is made of.
  build_registration_request-parts :
      (d : Draws) (password email : Text) (r : RegisterRequest)
      → IsPlatform c
      → AreDrawn d
      → build_registration_request c d email password default_kdf_params ≡ ok r
      → (k h : Bytes) × (derive_master_key c password email default_kdf_params ≡ ok k)
        × (derive_auth_hash c k password ≡ ok h)
        × (r.email ≡ normalize email)
        × (r.auth_hash ≡ bytes_to_base64_url h)
        × (bytes_to_base64_url (bytes r.wrapped_user_key) ≡ r.wrapped_user_key)
        × (bytes_to_base64_url (bytes r.wrapped_private_key) ≡ r.wrapped_private_key)
  unfolding build_registration_request generate_keypair wrap_user_key
  build_registration_request-parts d password email r p w e = on_bind _ _ e λ k derived e1.
      on_bind _ _ e1 λ h hashed e2. on_bind _ _ e2 λ pair made e3. on_bind _ _ made λ wp sealed m1.
        on_bind _ _ e3 λ user wrapped e4. on_bind _ _ e4 λ _ _ e5. on_bind _ _ e5 λ _ _ e6.
          let wp_text =
            bytes-encrypt_bytes c d.pair_nonce d.user_key d.pkcs8 wp p.cipher w.pair_nonce.1 w.pkcs8
              sealed in
          let pair_text : bytes_to_base64_url (bytes pair.1) ≡ pair.1 =
            subst (λ (x : Text × Text). bytes_to_base64_url (bytes x.1) ≡ x.1) (ok-injective m1)
              wp_text in
          let user_text =
            bytes-encrypt_bytes c d.user_nonce _ d.user_key user p.cipher w.user_nonce.1
              w.user_key.1 wrapped in
          let same = ok-injective e6 in
          (
            k,
            h,
            derived,
            hashed,
            ap (λ x. x.email) (sym same),
            ap (λ x. x.auth_hash) (sym same),
            subst (λ x. bytes_to_base64_url (bytes x.wrapped_user_key) ≡ x.wrapped_user_key) same
                user_text,
            subst (λ x. bytes_to_base64_url (bytes x.wrapped_private_key) ≡ x.wrapped_private_key)
                same pair_text,
          )

  unlock_from_keyring-same :
      (password email : Text) (a b : WrappedKeyring) (ring : Keyring PrivateKey)
      → a.wrapped_user_key ≡ b.wrapped_user_key
      → a.wrapped_private_key ≡ b.wrapped_private_key
      → unlock_from_keyring c password email a ring ≡ unlock_from_keyring c password email b ring
  unfolding unlock_from_keyring
  unlock_from_keyring-same password email a b ring p q = rw (p, q) refl

  -- The request of a sign-in on a device where the address is spelt in another way.
  login_request :
      (d : Draws) (password email email' : Text) (r : RegisterRequest)
      → IsPlatform c
      → AreDrawn d
      → normalize email' ≡ normalize email
      → build_registration_request c d email password default_kdf_params ≡ ok r
      → build_login_request c email' password default_kdf_params
        ≡ ok (record { email = r.email; auth_hash = r.auth_hash })
  unfolding build_login_request ◌>>=◌
  login_request d password email email' r p w same built =
      let (k, h, derived, hashed, mail, hash, _, _) =
        build_registration_request-parts d password email r p w built in
      let (k', here, there) = derive_master_key-is_ok c p password email email' same in
      let agree : k' ≡ k = ok-injective (sym here ∙ derived) in
      let known : derive_master_key c password email' default_kdf_params ≡ ok k =
        there ∙ ap ok agree in
      rw (known, hashed, mail, hash, same) refl

  -- What a sign-in after a registration comes to: the client's request is built, the server answers
  -- it with a keyring, and that keyring unlocks.
  abbrev pub SignsIn :
      (Text → Bytes)
      → (Text → Bytes)
      → AuthDb
      → ℕ
      → ℕ
      → Text
      → Option Text
      → Text
      → Text
      → RegisterRequest
      → Type 0
  SignsIn auth_digest digest auth later id token device password email' r =
      (db : AuthDb) × (k : UserKeyring) × (ring : Keyring PrivateKey) × (build_login_request c
          email' password default_kdf_params
        ≡ ok (record { email = r.email; auth_hash = r.auth_hash }))
      × (login auth_digest digest auth later id token device r.email r.auth_hash
          ≡ ok (db, signed_in k))
      × (unlock_from_keyring c password email' (sent k) empty ≡ inr ring)

  -- If the server accepts the registration that the client has built, then a sign-in with the same
  -- password and any spelling of the address succeeds: the client builds the request that the server
  -- answers with the keyring, and the keyring as it is sent unlocks in the client. This is for a user
  -- without a second factor, and an id and a token of the session that are new.
  pub register-SignsIn :
      (d : Draws) (password email email' : Text) (r : RegisterRequest)
      (auth_digest digest : Text → Bytes) (s : System) (now : ℕ) (drawn : Drawn)
      (device : Option Text) (s1 : System) (later id : ℕ) (token : Text) {private_key : PrivateKey}
      → IsPlatform c
      → AreDrawn d
      → c.import_pkcs8 d.pkcs8 ≡ some private_key
      → normalize email' ≡ normalize email
      → build_registration_request c d email password default_kdf_params ≡ ok r
      → register auth_digest digest s now drawn device (body_of r) ≡ ok s1
      → confirmed_enrolment s1.auth drawn.user_id ≡ none
      → any (λ x. x.id == id) s1.auth.sessions ≡ false
      → any (λ x. text_eq x.token_digest (digest token)) s1.auth.sessions ≡ false
      → SignsIn auth_digest digest s1.auth later id token device password email' r
  register-SignsIn d password email email' r auth_digest digest s now drawn device s1 later id token
        p w imported same built accepted free fresh unused =
      let (k, h, _, _, _, _, user_text, pair_text) =
        build_registration_request-parts d password email r p w built in
      let (db, keyring, answered, held) =
        register-login auth_digest digest s now drawn device (body_of r) s1 later id token accepted
          free fresh unused in
      let (t, u, wraps, seals, ks, ps) = held in
      let (r0, ring1, _, built0, unlocks, _, _, _) =
        build_registration_request-opens c d password email email' 0 p w imported same in
      let agree : r0 ≡ r = ok-injective (sym built0 ∙ built) in
      let kept_user : bytes_to_base64_url keyring.wrapped_user_key ≡ r.wrapped_user_key =
        ap bytes_to_base64_url (ks ∙ ap bytes (assert_key_wrap-str r.wrapped_user_key t wraps))
        ∙ user_text in
      let kept_pair : bytes_to_base64_url keyring.wrapped_private_key ≡ r.wrapped_private_key =
        ap bytes_to_base64_url (ps ∙ ap bytes (assert_key_wrap-str r.wrapped_private_key u seals))
        ∙ pair_text in
      (
        db,
        keyring,
        ring1,
        login_request d password email email' r p w same built,
        answered,
        unlock_from_keyring-same password email' (sent keyring)
              (record {
                wrapped_user_key = r0.wrapped_user_key;
                wrapped_private_key = r0.wrapped_private_key;
                public_key = r0.public_key;
              })
              empty (kept_user ∙ ap (λ x. x.wrapped_user_key) (sym agree))
              (kept_pair ∙ ap (λ x. x.wrapped_private_key) (sym agree))
            ∙ unlocks,
      )
