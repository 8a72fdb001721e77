-- ===== src/Pkcs11/Samples.antt =====
-- A module for tests: one slot with a certificate and an RSA key, whose URIs are records.
use rolesanywhere_credential.Prelude.{
  ℕ, true, false, String, List, [], ◌∷◌, Option, none, some, if◌then◌else◌, ◌==◌, length,
}
use rolesanywhere_credential.Results.{Result, ok, err}
use rolesanywhere_credential.Samples.{sample_certificate}
use rolesanywhere_credential.Pkcs11.{
  SlotInfo, TokenInfo, SlotIdInfo, Attribute, cka_value, cka_id, cka_label, cka_key_type,
  cka_always_authenticate, Class, cko_certificate, cko_private_key, rsa_public, Device, CertObjInfo,
  KeyObjInfo,
}
use rolesanywhere_credential.Pkcs11.Calls.{World}
use rolesanywhere_credential.Pkcs11.KeyScan.{Chosen}

pub record SampleUri : Type 0 where
  pub object : Option String
  pub object_id : Option String
  pub pin : Option String

abbrev pub sample_uri : SampleUri
sample_uri = record { object = some "leaf"; object_id = none; pin = none }

abbrev pub sample_info : SlotInfo
sample_info = record { slot_description = "slot"; manufacturer_id = "maker"; others_zero = false }

abbrev pub sample_token : TokenInfo
sample_token = record {
  label = "token";
  model = "model";
  token_manufacturer_id = "maker";
  serial_number = "1";
  token_others_zero = false;
}

abbrev pub sample_slot : SlotIdInfo
sample_slot = record { id = 7; info = sample_info; tok_info = sample_token }

abbrev pub sample_objects : Class → List ℕ
sample_objects cko_certificate = 11 ∷ []
sample_objects cko_private_key = 21 ∷ []

-- The key asks for a login with each operation.
abbrev pub sample_attribute : Attribute → Result (List ℕ)
sample_attribute cka_value = ok (48 ∷ 3 ∷ [])
sample_attribute cka_id = ok (1 ∷ [])
sample_attribute cka_label = ok (65 ∷ [])
sample_attribute cka_key_type = ok (0 ∷ 0 ∷ 0 ∷ 0 ∷ [])
sample_attribute cka_always_authenticate = ok (1 ∷ [])

abbrev pub sample_device : Device SampleUri
sample_device = record {
  load = λ lib. true;
  initialize = none;
  slot_list = λ h. ok (7 ∷ []);
  slot_info = λ slot. ok sample_info;
  token_info = λ slot. ok sample_token;
  open_session = λ h slot. ok 5;
  login = λ h session user pin. if pin == "1234" then none else some "CKR_PIN_INCORRECT";
  search = λ h session t. record {
    init = none;
    batches = ok (sample_objects t.class) ∷ [];
    final = none;
  };
  attribute = λ h session object a. sample_attribute a;
  sign_init = λ h session mechanism key. none;
  sign = λ h session digest. ok (9 ∷ digest);
  new_uri = record { object = none; object_id = none; pin = none };
  parse_uri = λ text. ok sample_uri;
  format_uri = λ uri. ok "pkcs11:object=leaf";
  path_attribute = λ uri name.
      if name == "object" then uri.object else if name == "id" then uri.object_id else none;
  query_attribute = λ uri name. if name == "pin-value" then uri.pin else none;
  set_path_attribute = λ name text uri.
      if name == "object"
      then record uri { object = some text }
      else if name == "id"
      then record uri { object_id = some text }
      else uri;
  add_path_attribute = λ name text uri. uri;
  remove_path_attribute =
      λ name uri. if name == "object" then record uri { object = none } else uri;
  parse_uint = λ text. 0;
  os = "linux";
  tty_read = none;
  tty_write = none;
  contains = λ text part. text == part;
  bytes = λ text. if text == "" then [] else 1 ∷ [];
  text = λ bytes. "";
  parse_certificate = λ bytes. ok sample_certificate;
  public_key = λ cert. rsa_public (3 ∷ []);
  sum256 = λ bytes. length bytes ∷ [];
  sum384 = λ bytes. length bytes ∷ [];
  sum512 = λ bytes. length bytes ∷ [];
  marshal_r_s = λ r s. ok (r ∷ s ∷ []);
  verify_ecdsa = λ key hash sig. false;
  verify_rsa = λ key hash sig. true;
  verifies = λ cert root. false;
}

-- The same module without a certificate that is public.
abbrev pub private_device : Device SampleUri
private_device = record sample_device {
  search = λ h session t. record { init = none; batches = ok [] ∷ []; final = none };
}

-- And with a search that fails.
abbrev pub failing_device : Device SampleUri
failing_device = record sample_device {
  search =
      λ h session t. record { init = none; batches = err "CKR_DEVICE_ERROR" ∷ []; final = none };
}

abbrev pub fresh : World
fresh = record { events = []; entries = ok "1234" ∷ [] }

abbrev pub sample_key : KeyObjInfo
sample_key = record { id = none; label = none; key_object = 21 }

abbrev pub sample_cert_obj : CertObjInfo
sample_cert_obj = record {
  id = some (1 ∷ []);
  label = none;
  cert = some sample_certificate;
  cert_object = 11;
}

abbrev pub sample_chosen : Chosen
sample_chosen = record {
  session = 5;
  is_logged_in = true;
  slot = sample_slot;
  manufacturer = "maker";
}
