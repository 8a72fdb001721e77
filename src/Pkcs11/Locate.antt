-- ===== src/Pkcs11/Locate.antt =====
-- The certificate and the URI of the key with which GetPKCS11Signer in
-- aws_signing_helper/pkcs11_signer.go starts its search.
use rolesanywhere_credential.Prelude.{
  ℕ, Bool, true, false, String, List, [], Option, none, some, if◌then◌else◌, ◌==◌,
}
use rolesanywhere_credential.Results.{Result, ok, err}
use rolesanywhere_credential.Certificate.{Certificate}
use rolesanywhere_credential.Pkcs11.{
  SlotIdInfo, CertObjInfo, empty_cert, Event, Device, cka_id, cka_label,
}
use rolesanywhere_credential.Pkcs11.Calls.{
  M, ◌>>=◌, ◌>>◌, pure, history, panic, end_session, finalize,
}
use rolesanywhere_credential.Pkcs11.Encoding.{escape_all}
use rolesanywhere_credential.Pkcs11.Certs.{CertFound, get_certificate}
use rolesanywhere_credential.Pkcs11.Chain.{get_certificate_chain, pin_value}

pub record Pkcs11Signer (Uri : Type 0) : Type 0 where
  pub cert : Option Certificate
  pub cert_chain : Option (List Certificate)
  pub user_pin : String
  pub always_auth : ℕ
  pub context_specific_pin : String
  pub cert_uri : Option Uri
  pub key_uri : Option Uri
  pub reuse_pin : Bool
  pub has_module : Bool

-- What is at hand of the certificate when the key is looked for.
pub record CertAt : Type 0 where
  pub slot_nr : ℕ
  pub slots : List SlotIdInfo
  pub session : ℕ
  pub is_logged_in : Bool
  pub cert_obj : CertObjInfo

abbrev pub no_cert_at : List SlotIdInfo → CertObjInfo → CertAt
no_cert_at slots cert_obj = record {
  slot_nr = 0;
  slots = slots;
  session = 0;
  is_logged_in = false;
  cert_obj = cert_obj;
}

-- Certificate and CertificateChain.
abbrev pub saved_certificate : {Uri : Type 0} → Pkcs11Signer Uri → Result Certificate
saved_certificate signer = elim signer.cert [
  | none ↦ err "no certificate associated with signer"
  | some cert ↦ ok cert
]

abbrev pub saved_certificate_chain : {Uri : Type 0} → Pkcs11Signer Uri → Result (List Certificate)
saved_certificate_chain signer = elim signer.cert_chain [
  | none ↦ err "no certificate chain associated with signer"
  | some chain ↦ ok chain
]

-- The certificate that GetPKCS11Signer was given or found, its chain and its URI.
pub record Located (Uri : Type 0) : Type 0 where
  pub cert : Option Certificate
  pub chain : Option (List Certificate)
  pub cert_uri : Option Uri
  pub at : CertAt
  pub user_pin : String

module _ {Uri : Type 0} (d : Device Uri) where
  -- The label fail of GetPKCS11Signer, with a module.
  abbrev pub close_all : {A : Type 0} → Bool → ℕ → String → M (Result A)
  close_all is_logged_in session e =
      end_session d is_logged_in session >> finalize d >> pure (err e)

  abbrev pub set_attribute : String → Result (List ℕ) → Uri → Uri
  set_attribute name (err e) uri = uri
  set_attribute name (ok value) uri = d.set_path_attribute name (d.text (escape_all value)) uri

  abbrev pub narrowed_uri : List Event → CertFound → Uri → Uri
  narrowed_uri h found uri =
      set_attribute "object" (d.attribute h found.session found.cert_obj.cert_object cka_label)
        (set_attribute "id" (d.attribute h found.session found.cert_obj.cert_object cka_id) uri)

  abbrev pub located : CertFound → Uri → String → Option (List Certificate) → Located Uri
  located found uri user_pin chain = record {
    cert = found.cert_obj.cert;
    chain = chain;
    cert_uri = some uri;
    at = record {
      slot_nr = found.slot.id;
      slots = found.slots;
      session = found.session;
      is_logged_in = found.is_logged_in;
      cert_obj = found.cert_obj;
    };
    user_pin = user_pin;
  }

  unfoldable pub with_chain :
      CertFound → Uri → String → Result (List Certificate) → M (Result (Located Uri))
  with_chain found uri user_pin (err e) = close_all found.is_logged_in found.session e
  with_chain found uri user_pin (ok chain) = pure (ok (located found uri user_pin (some chain)))

  unfoldable pub locate_chain :
      CertFound
      → Uri
      → String
      → Option (List Certificate)
      → Option Certificate
      → M (Result (Located Uri))
  unfolding with_chain
  locate_chain found uri user_pin (some chain) cert =
      pure (ok (located found uri user_pin (some chain)))
  locate_chain found uri user_pin none (some cert) =
      get_certificate_chain d found.session cert >>= with_chain found uri user_pin
  locate_chain found uri user_pin none none = panic

  unfoldable pub cert_located :
      Uri → String → Option (List Certificate) → Result CertFound → M (Result (Located Uri))
  unfolding locate_chain
  cert_located uri user_pin chain (err e) = close_all false 0 e
  cert_located uri user_pin chain (ok found) = history >>= λ h.
      locate_chain found (narrowed_uri h found uri) user_pin chain found.cert_obj.cert

  unfoldable pub locate_uri : Option (List Certificate) → Result Uri → M (Result (Located Uri))
  unfolding cert_located
  locate_uri chain (err e) = close_all false 0 e
  locate_uri chain (ok uri) =
      get_certificate d (some uri) (pin_value d uri) >>= cert_located uri (pin_value d uri) chain

  abbrev pub given : Option Certificate → Option (List Certificate) → CertObjInfo → Located Uri
  given cert chain cert_obj = record {
    cert = cert;
    chain = chain;
    cert_uri = none;
    at = no_cert_at [] cert_obj;
    user_pin = "";
  }

  unfoldable pub locate :
      Option Certificate → Option (List Certificate) → String → M (Result (Located Uri))
  unfolding locate_uri
  locate (some cert) chain certificate_id =
      pure (ok (given (some cert) chain (record empty_cert { cert = some cert })))
  locate none chain certificate_id =
      if certificate_id == ""
      then pure (ok (given none chain empty_cert))
      else locate_uri chain (d.parse_uri certificate_id)

  -- A URI that was formatted is parsed again; the new URI stands for one that cannot be.
  abbrev pub or_new : Result Uri → Uri
  or_new (ok uri) = uri
  or_new (err e) = d.new_uri

  abbrev pub text_or_empty : Result String → String
  text_or_empty (ok text) = text
  text_or_empty (err e) = ""

  -- The key's URI, and whether there is none but the certificate's, whose URI must not be nil.
  unfoldable pub parsed_key_uri : Located Uri → Result Uri → M (Result (Uri × Bool))
  parsed_key_uri l (err e) = close_all l.at.is_logged_in l.at.session e
  parsed_key_uri l (ok uri) = pure (ok (uri, false))

  unfoldable pub copied_key_uri : Option Uri → M (Result (Uri × Bool))
  copied_key_uri none = panic
  copied_key_uri (some uri) =
      pure (ok (or_new (d.parse_uri (text_or_empty (d.format_uri uri))), true))

  unfoldable pub key_uri_for : Located Uri → String → M (Result (Uri × Bool))
  unfolding parsed_key_uri copied_key_uri
  key_uri_for l private_key_id =
      if private_key_id == ""
      then copied_key_uri l.cert_uri
      else parsed_key_uri l (d.parse_uri private_key_id)
