-- ===== src/Pkcs11/Sign.antt =====
-- The signer itself: GetPKCS11Signer and the methods of PKCS11Signer in
-- aws_signing_helper/pkcs11_signer.go.
use rolesanywhere_credential.Prelude.{
  ℕ, Bool, true, false, String, List, Option, none, some, is_some, eqb, if◌then◌else◌, ◌==◌,
}
use rolesanywhere_credential.Results.{Result, ok, err}
use rolesanywhere_credential.Certificate.{Certificate}
use rolesanywhere_credential.FileSigner.{Hash, aws4_x509_rsa_sha256, aws4_x509_ecdsa_sha256}
use rolesanywhere_credential.Pkcs11.{
  SlotIdInfo, empty_cert, Event, PublicKey, Device, ckk_rsa, ckk_ec,
}
use rolesanywhere_credential.Pkcs11.Calls.{
  M, ◌>>=◌, ◌>>◌, pure, history, end_session, finalize, initialize_pkcs11_module,
}
use rolesanywhere_credential.Pkcs11.Slots.{enumerate_slots}
use rolesanywhere_credential.Pkcs11.Certs.{CertFound, get_certificate}
use rolesanywhere_credential.Pkcs11.SignHelper.{Signed, sign_helper}
use rolesanywhere_credential.Pkcs11.Key.{get_pkcs11_key}
use rolesanywhere_credential.Pkcs11.KeyScan.{KeyFound}
use rolesanywhere_credential.Pkcs11.Locate.{
  CertAt, Located, Pkcs11Signer, close_all, key_uri_for, locate, no_cert_at, saved_certificate,
}

module _ {Uri : Type 0} (d : Device Uri) where
  abbrev pub with_pin : Option String → String → String
  with_pin none user_pin = user_pin
  with_pin (some pin) user_pin = pin

  abbrev pub slots_for : String → Located Uri → List Event → Result (List SlotIdInfo)
  slots_for certificate_id l h = if certificate_id == "" then enumerate_slots d h else ok l.at.slots

  abbrev pub algorithm_for : ℕ → Option String
  algorithm_for key_type =
      if eqb key_type ckk_ec
      then some aws4_x509_ecdsa_sha256
      else if eqb key_type ckk_rsa
      then some aws4_x509_rsa_sha256
      else none

  abbrev pub signer_of : Located Uri → Bool → KeyFound Uri → Pkcs11Signer Uri
  signer_of l reuse_pin found = record {
    cert = l.cert;
    cert_chain = l.chain;
    user_pin = found.user_pin;
    always_auth = found.always_auth;
    context_specific_pin = found.context_pin;
    cert_uri = l.cert_uri;
    key_uri = found.key_uri;
    reuse_pin = reuse_pin;
    has_module = true;
  }

  -- A key of another type is refused without a clean-up.
  unfoldable pub with_signing_algorithm :
      Located Uri → Bool → KeyFound Uri → Option String → M (Result (Pkcs11Signer Uri × String))
  with_signing_algorithm l reuse_pin found none = pure (err "unsupported algorithm")
  with_signing_algorithm l reuse_pin found (some algorithm) =
      end_session d l.at.is_logged_in found.session
      >> pure (ok (signer_of l reuse_pin found, algorithm))

  unfoldable pub finish_signer :
      Located Uri → Bool → KeyFound Uri → Option String → M (Result (Pkcs11Signer Uri × String))
  unfolding with_signing_algorithm
  finish_signer l reuse_pin found (some e) = close_all d l.at.is_logged_in found.session e
  finish_signer l reuse_pin found none =
      with_signing_algorithm l reuse_pin found (algorithm_for found.key_type)

  unfoldable pub find_key :
      Located Uri
      → Bool
      → Uri × Bool
      → Result (List SlotIdInfo)
      → M (Result (Pkcs11Signer Uri × String))
  unfolding finish_signer
  find_key l reuse_pin (uri, no_key_uri) (err e) = close_all d l.at.is_logged_in l.at.session e
  find_key l reuse_pin (uri, no_key_uri) (ok slots) =
      get_pkcs11_key d l.at.session l.at.is_logged_in l.cert_uri (some uri) no_key_uri l.at.slot_nr
        l.at.cert_obj (with_pin (d.query_attribute uri "pin-value") l.user_pin) "" reuse_pin slots
      >>= λ found. finish_signer l reuse_pin found found.error

  pub on_key_uri :
      Located Uri → String → Bool → Result (Uri × Bool) → M (Result (Pkcs11Signer Uri × String))
  unfolding find_key
  on_key_uri l certificate_id reuse_pin (err e) = pure (err e)
  on_key_uri l certificate_id reuse_pin (ok key) =
      history >>= λ h. find_key l reuse_pin key (slots_for certificate_id l h)

  pub on_located :
      String → String → Bool → Result (Located Uri) → M (Result (Pkcs11Signer Uri × String))
  unfolding on_key_uri key_uri_for
  on_located private_key_id certificate_id reuse_pin (err e) = pure (err e)
  on_located private_key_id certificate_id reuse_pin (ok l) =
      key_uri_for d l private_key_id >>= on_key_uri l certificate_id reuse_pin

  pub on_module :
      Option Certificate
      → Option (List Certificate)
      → String
      → String
      → Bool
      → Option String
      → M (Result (Pkcs11Signer Uri × String))
  unfolding on_located locate
  on_module cert chain private_key_id certificate_id reuse_pin (some e) = pure (err e)
  on_module cert chain private_key_id certificate_id reuse_pin none =
      locate d cert chain certificate_id >>= on_located private_key_id certificate_id reuse_pin

  unfoldable pub get_pkcs11_signer :
      String
      → Option Certificate
      → Option (List Certificate)
      → String
      → String
      → Bool
      → M (Result (Pkcs11Signer Uri × String))
  unfolding on_module
  get_pkcs11_signer lib cert chain private_key_id certificate_id reuse_pin =
      initialize_pkcs11_module d lib
      >>= on_module cert chain private_key_id certificate_id reuse_pin

  -- The URI in which the key's attributes were set is the signer's own object: that of the key, or
  -- that of the certificate where the key has none. (What a search that failed changed in it is
  -- left out.)
  abbrev pub with_uri : Pkcs11Signer Uri → Uri → Option Uri → Pkcs11Signer Uri
  with_uri signer found none = record signer { cert_uri = some found }
  with_uri signer found (some uri) = record signer { key_uri = some found }

  abbrev pub with_key : Pkcs11Signer Uri → Option Uri → Pkcs11Signer Uri
  with_key signer none = signer
  with_key signer (some found) = with_uri signer found signer.key_uri

  abbrev pub Outcome : Type 0
  Outcome = Pkcs11Signer Uri × Result (List ℕ)

  -- The label cleanUp of Sign.
  pub end_sign : Bool → ℕ → Pkcs11Signer Uri → Signed → M Outcome
  end_sign is_logged_in session signer (pin, err e) =
      end_session d is_logged_in session >> pure (signer, err e)
  end_sign is_logged_in session signer (pin, ok signature) =
      end_session d is_logged_in session
      >> pure (record signer { context_specific_pin = pin }, ok signature)

  pub sign_with :
      Pkcs11Signer Uri → CertAt → Hash → List ℕ → KeyFound Uri → Option String → M Outcome
  unfolding end_sign
  sign_with signer at hash digest found (some e) =
      end_session d at.is_logged_in found.session >> pure (signer, err e)
  sign_with signer at hash digest found none =
      sign_helper d found.session found.key found.user_pin found.always_auth found.context_pin
        signer.reuse_pin found.key_type digest hash
      >>= end_sign at.is_logged_in found.session (with_key signer found.key_uri)

  pub sign_at : Pkcs11Signer Uri → Hash → List ℕ → Result CertAt → M Outcome
  unfolding sign_with
  sign_at signer hash digest (err e) = pure (signer, err e)
  sign_at signer hash digest (ok at) =
      get_pkcs11_key d at.session at.is_logged_in signer.cert_uri signer.key_uri false at.slot_nr
        at.cert_obj signer.user_pin signer.context_specific_pin signer.reuse_pin at.slots
      >>= λ found. sign_with signer at hash digest found found.error

  abbrev pub cert_at_of : Result CertFound → Result CertAt
  cert_at_of (err e) = err e
  cert_at_of (ok found) = ok record {
    slot_nr = found.slot.id;
    slots = found.slots;
    session = found.session;
    is_logged_in = found.is_logged_in;
    cert_obj = found.cert_obj;
  }

  abbrev pub slots_at : Result (List SlotIdInfo) → Result CertAt
  slots_at (err e) = err e
  slots_at (ok slots) = ok (no_cert_at slots empty_cert)

  pub cert_at : Option Uri → String → M (Result CertAt)
  cert_at none user_pin = history >>= λ h. pure (slots_at (enumerate_slots d h))
  cert_at (some uri) user_pin =
      get_certificate d (some uri) user_pin >>= λ found. pure (cert_at_of found)

  -- Sign of PKCS11Signer, with the signer that it leaves.
  unfoldable pub sign_pkcs11 : Pkcs11Signer Uri → Hash → List ℕ → M Outcome
  unfolding sign_at cert_at
  sign_pkcs11 signer hash digest =
      cert_at signer.cert_uri signer.user_pin >>= sign_at signer hash digest

  abbrev pub public_of : Result Certificate → Option PublicKey
  public_of (err e) = none
  public_of (ok cert) = some (d.public_key cert)

  -- Public, only for a certificate of a module, and Close.
  abbrev pub public : Pkcs11Signer Uri → Option PublicKey
  public signer = if is_some signer.cert_uri then public_of (saved_certificate signer) else none

  abbrev pub close_signer : Pkcs11Signer Uri → M (Pkcs11Signer Uri)
  close_signer signer =
      (if signer.has_module then finalize d else pure tt)
      >> pure (record signer { has_module = false })
