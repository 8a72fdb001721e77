-- ===== src/Pkcs11/SignHelper.antt =====
-- Signing with a key handle, and the test of a key against a certificate: signHelper and
-- checkPrivateKeyMatchesCert of aws_signing_helper/pkcs11_signer.go.
use rolesanywhere_credential.Prelude.{
  ℕ, Bool, true, false, not, String, List, ◌++◌, Option, none, some, eqb, if◌then◌else◌, ◌==◌, ◌&&◌,
  ◌+++◌,
}
use rolesanywhere_credential.Results.{Result, ok, err}
use rolesanywhere_credential.Certificate.{Certificate}
use rolesanywhere_credential.FileSigner.{Hash, sha256, sha384, sha512, other_hash}
use rolesanywhere_credential.Pkcs11.{
  Mechanism, ckm_ecdsa, ckm_sha256_rsa_pkcs, ckm_sha384_rsa_pkcs, ckm_sha512_rsa_pkcs, ckk_ec,
  ckk_rsa, cku_context_specific, KeyObjInfo, PublicKey, ec_public, rsa_public, other_public,
  initiated, signed, Device,
}
use rolesanywhere_credential.Pkcs11.Calls.{M, ◌>>=◌, ◌>>◌, pure, emit, history, login}
use rolesanywhere_credential.Pkcs11.Encoding.{encode_ecdsa_sig_value}
use rolesanywhere_credential.Pkcs11.Pin.{pkcs11_password_prompt}

-- A context-specific PIN, and a signature or an error.
abbrev pub Signed : Type 0
Signed = String × Result (List ℕ)

module _ {Uri : Type 0} (d : Device Uri) where
  -- The mechanism, and what is given to the module to be signed.
  abbrev pub ec_plan : Hash → List ℕ → Option (Mechanism × List ℕ)
  ec_plan sha256 digest = some (ckm_ecdsa, d.sum256 digest)
  ec_plan sha384 digest = some (ckm_ecdsa, d.sum384 digest)
  ec_plan sha512 digest = some (ckm_ecdsa, d.sum512 digest)
  ec_plan other_hash digest = none

  abbrev pub rsa_plan : Hash → List ℕ → Option (Mechanism × List ℕ)
  rsa_plan sha256 digest = some (ckm_sha256_rsa_pkcs, digest)
  rsa_plan sha384 digest = some (ckm_sha384_rsa_pkcs, digest)
  rsa_plan sha512 digest = some (ckm_sha512_rsa_pkcs, digest)
  rsa_plan other_hash digest = none

  unfoldable pub plan : ℕ → Hash → List ℕ → Option (Mechanism × List ℕ)
  plan key_type hash digest =
      if eqb key_type ckk_ec then ec_plan hash digest else rsa_plan hash digest

  -- The ASN.1 encoding of an ECDSA signature.
  abbrev pub encoded : Mechanism → Result (List ℕ) → Result (List ℕ)
  encoded mechanism (err e) = err ("signing failed (" +++ e +++ ")")
  encoded ckm_ecdsa (ok sig) = encode_ecdsa_sig_value d.marshal_r_s sig
  encoded ckm_sha256_rsa_pkcs (ok sig) = ok sig
  encoded ckm_sha384_rsa_pkcs (ok sig) = ok sig
  encoded ckm_sha512_rsa_pkcs (ok sig) = ok sig

  -- The label afterContextSpecificLogin.
  unfoldable pub sign_digest : ℕ → Mechanism → List ℕ → String → M Signed
  sign_digest session mechanism digest pin = do
    h ← history
    let sig = d.sign h session digest
    emit (signed session digest)
    pure (pin, encoded mechanism sig)

  unfoldable pub after_prompt : (String → M Signed) → Result String → M Signed
  after_prompt next (err e) = pure ("", err e)
  after_prompt next (ok pin) = next pin

  abbrev pub prompt_for_pin : ℕ → (String → M Signed) → M Signed
  unfolding after_prompt
  prompt_for_pin session next =
      pkcs11_password_prompt d session cku_context_specific
        (λ e. "user re-authentication failed (" +++ e +++ ")")
      >>= after_prompt next

  unfoldable pub after_context_login : ℕ → String → (String → M Signed) → Option String → M Signed
  unfolding prompt_for_pin
  after_context_login session pin next none = next pin
  after_context_login session pin next (some e) = prompt_for_pin session next

  -- The PIN that is tried for the key: the user's, if it may be reused.
  abbrev pub context_pin_of : String → String → Bool → String
  context_pin_of pin user_pin reuse_pin =
      if pin == "" && not (user_pin == "") && reuse_pin then user_pin else pin

  -- With CKA_ALWAYS_AUTHENTICATE a login for this operation comes first.
  unfoldable pub authenticate : ℕ → String → (String → M Signed) → M Signed
  unfolding after_context_login prompt_for_pin
  authenticate session pin next =
      if pin == ""
      then prompt_for_pin session next
      else (login d session cku_context_specific pin >>= after_context_login session pin next)

  unfoldable pub after_init :
      ℕ → Mechanism → List ℕ → String → ℕ → String → Bool → Option String → M Signed
  unfolding authenticate sign_digest
  after_init session mechanism digest user_pin always_auth pin reuse_pin (some e) =
      pure ("", err ("signing initiation failed (" +++ e +++ ")"))
  after_init session mechanism digest user_pin always_auth pin reuse_pin none =
      if eqb always_auth 0
      then sign_digest session mechanism digest pin
      else authenticate session (context_pin_of pin user_pin reuse_pin)
          (sign_digest session mechanism digest)

  unfoldable pub sign_planned :
      ℕ → KeyObjInfo → String → ℕ → String → Bool → Option (Mechanism × List ℕ) → M Signed
  unfolding after_init
  sign_planned session key user_pin always_auth pin reuse_pin none =
      pure ("", err "unsupported hash algorithm")
  sign_planned session key user_pin always_auth pin reuse_pin (some (mechanism, digest)) = do
    h ← history
    let e = d.sign_init h session mechanism key.key_object
    emit (initiated session mechanism key.key_object)
    after_init session mechanism digest user_pin always_auth pin reuse_pin e

  unfoldable pub sign_helper :
      ℕ → KeyObjInfo → String → ℕ → String → Bool → ℕ → List ℕ → Hash → M Signed
  sign_helper session key user_pin always_auth pin reuse_pin key_type digest hash =
      sign_planned session key user_pin always_auth pin reuse_pin (plan key_type hash digest)

  -- "IAM RA" and the public key, hashed; nothing for a key of another kind.
  abbrev pub digest_suffix : PublicKey → List ℕ
  digest_suffix (ec_public bytes) = d.sum256 (d.bytes "IAM RA" ++ bytes)
  digest_suffix (rsa_public bytes) = d.sum256 (d.bytes "IAM RA" ++ bytes)
  digest_suffix other_public = d.bytes ""

  abbrev pub challenge : PublicKey → String → List ℕ
  challenge key manufacturer =
      d.bytes ("AWS Roles Anywhere Credential Helper PKCS11 Test" +++ "1" +++ manufacturer)
      ++ digest_suffix key

  -- Whether the key's type is that of the certificate's key.
  abbrev pub fits : PublicKey → ℕ → Bool
  fits (ec_public bytes) key_type = eqb key_type ckk_ec
  fits (rsa_public bytes) key_type = eqb key_type ckk_rsa
  fits other_public key_type = true

  abbrev pub verified : PublicKey → List ℕ → Signed → String × Bool
  verified key hash (pin, err e) = ("", false)
  verified (ec_public bytes) hash (pin, ok sig) = (pin, d.verify_ecdsa bytes hash sig)
  verified (rsa_public bytes) hash (pin, ok sig) = (pin, d.verify_rsa bytes hash sig)
  verified other_public hash (pin, ok sig) = ("", false)

  unfoldable pub check_private_key_matches_cert :
      ℕ → ℕ → String → ℕ → Bool → KeyObjInfo → Certificate → String → M (String × Bool)
  check_private_key_matches_cert session key_type user_pin always_auth reuse_pin key cert
        manufacturer =
      let public = d.public_key cert in
      let digest = challenge public manufacturer in
      if fits public key_type
      then (sign_helper session key user_pin always_auth "" reuse_pin key_type digest sha256
          >>= λ s. pure (verified public (d.sum256 digest) s))
      else pure ("", false)
