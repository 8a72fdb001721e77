-- ===== src/Pkcs11/SignLaws.antt =====
-- The calls of the module that make a signature.
use rolesanywhere_credential.Prelude.{
  ℕ, zero, suc, ◌/◌, ◌≤◌, ◌≡◌, ◌≢◌, refl, sym, ap, ◌∙◌, arith, eqb_iff, ◌++◌, [], length, inl, inr,
  Bool, String, List, ◌∷◌, Option, none, some, Bool-cases, if◌then◌else◌, eqb, ◌==◌,
}
use rolesanywhere_credential.Results.{Result, ok, err, ok-injective}
use rolesanywhere_credential.FileSigner.{Hash, sha256, sha384, sha512, other_hash}
use rolesanywhere_credential.Pkcs11.{
  Device, Event, KeyObjInfo, Mechanism, ckm_ecdsa, ckm_sha256_rsa_pkcs, ckm_sha384_rsa_pkcs,
  ckm_sha512_rsa_pkcs, ckk_ec, cku_context_specific, logged_in, initiated, signed,
}
use rolesanywhere_credential.Pkcs11.Calls.{
  World, Run, done, panics, waits, M, continue, ◌>>=◌, login, login_result,
}
use rolesanywhere_credential.Pkcs11.Encoding.{set_bytes, split_at, encode_ecdsa_sig_value}
use rolesanywhere_credential.Pkcs11.Pin.{pkcs11_password_prompt}
use rolesanywhere_credential.Pkcs11.SignHelper.{
  Signed, ec_plan, rsa_plan, plan, encoded, sign_digest, after_prompt, after_context_login,
  authenticate, after_init, sign_planned, sign_helper, context_pin_of,
}
use rolesanywhere_credential.Pkcs11.PinLaws.{IsPinned, pkcs11_password_prompt-IsPinned}

-- The login of the operation that a key with CKA_ALWAYS_AUTHENTICATE asks for.
abbrev pub logins : ℕ → ℕ → List Event → List Event
logins session always_auth before =
    if eqb always_auth 0 then before else logged_in session cku_context_specific ∷ before

module _ {Uri : Type 0} (d : Device Uri) (session : ℕ) where
  -- What the program returns for what the module made: the encoding of the two halves of an ECDSA
  -- signature as big-endian integers, and an RSA signature as it is.
  pub data IsEncoded (raw sig : List ℕ) : Mechanism → Type 0 where
    ecdsa :
        (first second : List ℕ)
        → raw ≡ first ++ second
        → length first ≡ length raw / 2
        → d.marshal_r_s (set_bytes 0 first) (set_bytes 0 second) ≡ ok sig
        → IsEncoded raw sig ckm_ecdsa
    rsa_256 : raw ≡ sig → IsEncoded raw sig ckm_sha256_rsa_pkcs
    rsa_384 : raw ≡ sig → IsEncoded raw sig ckm_sha384_rsa_pkcs
    rsa_512 : raw ≡ sig → IsEncoded raw sig ckm_sha512_rsa_pkcs

  -- A signature is made by the last call of a run, after the calls given, and is the encoding of what
  -- that call made; a run may end with an error instead.
  abbrev pub IsSignedAfter : Mechanism → List ℕ → List Event → Run Signed → Type 0
  IsSignedAfter mechanism digest before (done (pin, ok sig) w) =
      (w.events ≡ signed session digest ∷ before)
      × (raw : List ℕ) × (d.sign before session digest ≡ ok raw)
      × IsEncoded raw sig mechanism
  IsSignedAfter mechanism digest before (done (pin, err e) w) = Unit
  IsSignedAfter mechanism digest before (panics w) = Unit
  IsSignedAfter mechanism digest before (waits w) = Unit

  split_at-append :
      (n : ℕ) (bytes : List ℕ)
      → n ≤ length bytes
      → (bytes ≡ (split_at n bytes).0 ++ (split_at n bytes).1) × (length (split_at n bytes).0 ≡ n)
  split_at-append zero bytes h = (refl, refl)
  split_at-append (suc n) [] h = absurd (omega arith)
  split_at-append (suc n) (b ∷ bytes) h =
      let (joined, size) = split_at-append n bytes (omega arith) in
      (ap (λ l. b ∷ l) joined, omega arith)

  encoded-IsEncoded :
      (mechanism : Mechanism) (raw sig : List ℕ)
      → encoded d mechanism (ok raw) ≡ ok sig
      → IsEncoded raw sig mechanism
  unfolding encode_ecdsa_sig_value
  encoded-IsEncoded ckm_ecdsa raw sig h =
      let (joined, size) = split_at-append (length raw / 2) raw (omega arith) in
      ecdsa _ _ joined size h
  encoded-IsEncoded ckm_sha256_rsa_pkcs raw sig h = rsa_256 (ok-injective h)
  encoded-IsEncoded ckm_sha384_rsa_pkcs raw sig h = rsa_384 (ok-injective h)
  encoded-IsEncoded ckm_sha512_rsa_pkcs raw sig h = rsa_512 (ok-injective h)

  -- What the module is asked for: for a key on a curve an ECDSA signature of the hashed text, for any
  -- other key an RSA signature of the text itself by the mechanism of the hash; nothing for a hash
  -- that the program does not know.
  pub data IsPlan (key_type : ℕ) (digest : List ℕ)
      : Hash → Option (Mechanism × List ℕ) → Type 0 where
    ec_256 : key_type ≡ ckk_ec → IsPlan key_type digest sha256 (some (ckm_ecdsa, d.sum256 digest))
    ec_384 : key_type ≡ ckk_ec → IsPlan key_type digest sha384 (some (ckm_ecdsa, d.sum384 digest))
    ec_512 : key_type ≡ ckk_ec → IsPlan key_type digest sha512 (some (ckm_ecdsa, d.sum512 digest))
    pkcs_256 :
        key_type ≢ ckk_ec → IsPlan key_type digest sha256 (some (ckm_sha256_rsa_pkcs, digest))
    pkcs_384 :
        key_type ≢ ckk_ec → IsPlan key_type digest sha384 (some (ckm_sha384_rsa_pkcs, digest))
    pkcs_512 :
        key_type ≢ ckk_ec → IsPlan key_type digest sha512 (some (ckm_sha512_rsa_pkcs, digest))
    unknown : IsPlan key_type digest other_hash none

  ec_plan-IsPlan :
      (key_type : ℕ) (digest : List ℕ) (hash : Hash)
      → key_type ≡ ckk_ec
      → IsPlan key_type digest hash (ec_plan d hash digest)
  ec_plan-IsPlan key_type digest sha256 h = ec_256 h
  ec_plan-IsPlan key_type digest sha384 h = ec_384 h
  ec_plan-IsPlan key_type digest sha512 h = ec_512 h
  ec_plan-IsPlan key_type digest other_hash h = unknown

  rsa_plan-IsPlan :
      (key_type : ℕ) (digest : List ℕ) (hash : Hash)
      → key_type ≢ ckk_ec
      → IsPlan key_type digest hash (rsa_plan d hash digest)
  rsa_plan-IsPlan key_type digest sha256 h = pkcs_256 h
  rsa_plan-IsPlan key_type digest sha384 h = pkcs_384 h
  rsa_plan-IsPlan key_type digest sha512 h = pkcs_512 h
  rsa_plan-IsPlan key_type digest other_hash h = unknown

  plan-IsPlan :
      (key_type : ℕ) (digest : List ℕ) (hash : Hash)
      → IsPlan key_type digest hash (plan d key_type hash digest)
  unfolding plan
  plan-IsPlan key_type digest hash = elim (Bool-cases (eqb key_type ckk_ec)) [
    | inl e ↦ rw e (ec_plan-IsPlan key_type digest hash ((eqb_iff _ _).0 e))
    | inr e ↦ rw e (rsa_plan-IsPlan key_type digest hash (ground (arith, eqb_iff key_type ckk_ec)))
  ]

  signed_last :
      (mechanism : Mechanism) (digest : List ℕ) (before : List Event) (pin : String)
      (made : Result (List ℕ)) (r : Result (List ℕ)) (w : World)
      → w.events ≡ signed session digest ∷ before
      → d.sign before session digest ≡ made
      → encoded d mechanism made ≡ r
      → IsSignedAfter mechanism digest before (done (pin, r) w)
  signed_last mechanism digest before pin made (err e) w h by same = tt
  signed_last mechanism digest before pin (err m) (ok sig) w h by same = absurd (cc same)
  signed_last mechanism digest before pin (ok raw) (ok sig) w h by same =
      (h, raw, by, encoded-IsEncoded mechanism raw sig same)

  sign_digest-IsSignedAfter :
      (mechanism : Mechanism) (digest : List ℕ) (before : List Event) (pin : String) (w : World)
      → w.events ≡ before
      → IsSignedAfter mechanism digest before (sign_digest d session mechanism digest pin w)
  unfolding sign_digest
  sign_digest-IsSignedAfter mechanism digest before pin w h =
      signed_last mechanism digest before pin (d.sign w.events session digest)
        (encoded d mechanism (d.sign w.events session digest)) _
        (ap (λ t. signed session digest ∷ t) h) (ap (λ t. d.sign t session digest) (sym h)) refl

  module _ (mechanism : Mechanism) (digest : List ℕ) (next : String → M Signed) (w : World)
      (h : (pin : String) (w' : World)
        → w'.events ≡ logged_in session cku_context_specific ∷ w.events
        → IsSignedAfter mechanism digest
            (logged_in session cku_context_specific ∷ w.events)
            (next pin w')) where
    abbrev authorised : List Event
    authorised = logged_in session cku_context_specific ∷ w.events

    prompted :
        (w0 : World) (final : String → String) (r : Run (Result String))
        → w0.events ≡ w.events
        → IsPinned d session cku_context_specific final w0 r
        → IsSignedAfter mechanism digest authorised (continue r (after_prompt d next))
    unfolding after_prompt
    prompted w0 final (done (ok pin) w') same p =
        h pin w' (p ∙ ap (λ t. logged_in session cku_context_specific ∷ t) same)
    prompted w0 final (done (err e) w') same p = tt
    prompted w0 final (panics w') same p = tt
    prompted w0 final (waits w') same p = tt

    prompt-IsSignedAfter :
        (w0 : World) (final : String → String)
        → w0.events ≡ w.events
        → IsSignedAfter mechanism digest authorised (
            (pkcs11_password_prompt d session cku_context_specific final >>= after_prompt d next)
              w0)
    prompt-IsSignedAfter w0 final same =
        prompted w0 final (pkcs11_password_prompt d session cku_context_specific final w0) same
          (pkcs11_password_prompt-IsPinned d session cku_context_specific final w0)

    logged-IsSignedAfter :
        (pin : String) (e : Option String)
        → IsSignedAfter mechanism digest authorised (
            continue
              (login_result d session cku_context_specific e w)
              (after_context_login d session pin next))
    unfolding login_result after_context_login
    logged-IsSignedAfter pin none = h pin _ refl
    logged-IsSignedAfter pin (some e) = prompt-IsSignedAfter w _ refl

    authenticate-IsSignedAfter :
        (pin : String)
        → IsSignedAfter mechanism digest authorised (authenticate d session pin next w)
    unfolding authenticate login
    authenticate-IsSignedAfter pin = elim (Bool-cases (pin == "")) [
      | inl e ↦ rw e (prompt-IsSignedAfter w _ refl)
      | inr e ↦ rw e (logged-IsSignedAfter pin (d.login w.events session cku_context_specific pin))
    ]

  after_init-IsSignedAfter :
      (mechanism : Mechanism) (digest : List ℕ) (user_pin : String) (always_auth : ℕ) (pin : String)
      (reuse_pin : Bool) (e : Option String) (w : World)
      → IsSignedAfter mechanism digest
          (logins session always_auth w.events)
          (after_init d session mechanism digest user_pin always_auth pin reuse_pin e w)
  unfolding after_init
  after_init-IsSignedAfter mechanism digest user_pin always_auth pin reuse_pin (some e) w = tt
  after_init-IsSignedAfter mechanism digest user_pin always_auth pin reuse_pin none w =
      elim (Bool-cases (eqb always_auth 0)) [
        | inl e ↦ rw e (sign_digest-IsSignedAfter mechanism digest w.events pin w refl)
        | inr e ↦ rw e (
            authenticate-IsSignedAfter mechanism digest (sign_digest d session mechanism digest) w
              (λ p w' h. sign_digest-IsSignedAfter mechanism digest _ p w' h)
              (context_pin_of d pin user_pin reuse_pin))
      ]

  -- What a run that follows a plan does.
  abbrev pub IsPlanned : KeyObjInfo → ℕ → World → Option (Mechanism × List ℕ) → Run Signed → Type 0
  IsPlanned key always_auth w none r = r ≡ done ("", err "unsupported hash algorithm") w
  IsPlanned key always_auth w (some (mechanism, digest)) r =
      IsSignedAfter mechanism digest
        (logins session always_auth (initiated session mechanism key.key_object ∷ w.events)) r

  sign_planned-IsPlanned :
      (key : KeyObjInfo) (user_pin : String) (always_auth : ℕ) (pin : String) (reuse_pin : Bool)
      (p : Option (Mechanism × List ℕ)) (w : World)
      → IsPlanned key always_auth w p
          (sign_planned d session key user_pin always_auth pin reuse_pin p w)
  unfolding sign_planned
  sign_planned-IsPlanned key user_pin always_auth pin reuse_pin none w = refl
  sign_planned-IsPlanned key user_pin always_auth pin reuse_pin (some (mechanism, digest)) w =
      after_init-IsSignedAfter mechanism digest user_pin always_auth pin reuse_pin
        (d.sign_init w.events session mechanism key.key_object)
        (record w { events = initiated session mechanism key.key_object ∷ w.events })

  -- signHelper refuses a hash it does not know without a call. With any other, a signature that it
  -- returns was made by the last of these calls: the initiation of the mechanism with the key, a
  -- login of the operation if the key asks for one with each operation, and the module's signature.
  -- For a key on a curve the mechanism is ECDSA on the text hashed with the hash asked for, and the
  -- signature is the encoding of the two halves of what the module made; for any other key the
  -- mechanism is RSA with that hash on the text itself, and the signature is what the module made.
  pub sign_helper-IsPlanned :
      (key : KeyObjInfo) (user_pin : String) (always_auth : ℕ) (pin : String) (reuse_pin : Bool)
      (key_type : ℕ) (digest : List ℕ) (hash : Hash) (w : World)
      → (p : Option (Mechanism × List ℕ)) × IsPlan key_type digest hash p
        × IsPlanned key always_auth w p
            (sign_helper d session key user_pin always_auth pin reuse_pin key_type digest hash w)
  unfolding sign_helper
  sign_helper-IsPlanned key user_pin always_auth pin reuse_pin key_type digest hash w =
      let p = plan d key_type hash digest in
      (
        p,
        plan-IsPlan key_type digest hash,
        sign_planned-IsPlanned key user_pin always_auth pin reuse_pin p w,
      )
