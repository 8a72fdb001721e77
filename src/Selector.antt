-- ===== src/Selector.antt =====
-- The certificate selector of the command line, and the options it goes into: cmd/credentials.go.
-- Functions of strings, encoding/json and the file system are a record of functions.
pub mod Laws
mod Tests
use rolesanywhere_credential.Prelude.{
  ℕ, Bool, true, false, String, List, [], ◌∷◌, Option, none, some, lookup, insert, if◌then◌else◌,
  ◌==◌, ◌||◌, starts_with,
}
use rolesanywhere_credential.Prelude.Int.{ℤ, pos}
use rolesanywhere_credential.Results.{Result, ok, err, or_message, Outcome, returned, panicked}
use rolesanywhere_credential.Certificate.{Certificate, CertIdentifier}
use rolesanywhere_credential.Session.{CredentialsOpts}
use rolesanywhere_credential.Signing.{join}

-- strings.Split gives at least one part, here the first and the others; `cut` is SplitN(s, sep, 2).
-- `set_string` is the number that SetString(s, 16) leaves, whether or not s is one.
pub record Reading : Type 0 where
  pub split : String → String → String × List String
  pub cut : String → String → String × Option String
  pub trim_space : String → String
  pub trim_prefix : String → String → String
  pub equal_fold : String → String → Bool
  pub set_string : String → ℤ
  pub unmarshal : String → Result (List (String × String))
  pub read_file : String → Result String

abbrev pub x509_subject_key : String
x509_subject_key = "x509Subject"

abbrev pub x509_issuer_key : String
x509_issuer_key = "x509Issuer"

abbrev pub x509_serial_key : String
x509_serial_key = "x509Serial"

-- The loop over validCertSelectorKeys.
unfoldable pub is_valid_key : String → Bool
is_valid_key key = x509_subject_key == key || x509_issuer_key == key || x509_serial_key == key

-- The loop of getMapFromJsonEntries.
pub add_entries : List (String × String) → List (String × String) → Result (List (String × String))
add_entries m [] = ok m
add_entries m ((key, value) ∷ rest) =
    let later = add_entries (insert key value m) rest in
    if is_valid_key key then later else err "cert selector contained invalid key"

abbrev pub empty_identifier : CertIdentifier
empty_identifier = record {
  subject = "";
  issuer = "";
  serial_number = none;
  system_store_name = "";
}

-- helper.SystemStoreNames
abbrev pub system_store_names : List String
system_store_names = "MY" ∷ "Root" ∷ "Trust" ∷ "CA" ∷ []

-- The variables of the command line's flags.
pub record Flags : Type 0 where
  pub role_arn_str : String
  pub profile_arn_str : String
  pub trust_anchor_arn_str : String
  pub session_duration : ℤ
  pub region : String
  pub endpoint : String
  pub no_verify_ssl : Bool
  pub with_proxy : Bool
  pub debug : Bool
  pub reuse_pin : Bool
  pub role_session_name : String
  pub certificate_id : String
  pub private_key_id : String
  pub certificate_bundle_id : String
  pub cert_selector : String
  pub system_store_name : String
  pub lib_pkcs11 : String
  pub tpm_key_password : String
  pub no_tpm_key_password : Bool

module _ (g : Reading) where
  -- "Key=..." or "Value=...": what stands behind the first "=".
  abbrev pub named : String → String → String × List String → Result String
  named name message (first, rest) =
      if first == name then ok (g.trim_space (join "=" rest)) else err message

  abbrev pub Loop : Type 0
  Loop = List (String × String) → Outcome (Result (List (String × String)))

  pub insert_value :
      String
      → List (String × String)
      → Loop
      → Result String
      → Outcome (Result (List (String × String)))
  insert_value key m loop (err e) = returned (err e)
  insert_value key m loop (ok value) = loop (insert key value m)

  -- tokens[1] is out of range where the entry has no comma.
  pub add_value :
      String
      → List (String × String)
      → Loop
      → Option String
      → Outcome (Result (List (String × String)))
  unfolding insert_value
  add_value key m loop none = panicked
  add_value key m loop (some token) =
      insert_value key m loop (named "Value" "invalid cert selector map value" (g.split token "="))

  pub add_key :
      List (String × String)
      → Loop
      → Option String
      → Result String
      → Outcome (Result (List (String × String)))
  unfolding add_value
  add_key m loop token (err e) = returned (err e)
  add_key m loop token (ok key) =
      if is_valid_key key
      then add_value key m loop token
      else returned (err "cert selector contained invalid key")

  -- The loop of getStringMap over the entries.
  pub add_strings : List String → List (String × String) → Outcome (Result (List (String × String)))
  unfolding add_key
  add_strings [] m = returned (ok m)
  add_strings (e ∷ rest) m =
      add_key m (add_strings rest) (g.cut e ",").1
        (named "Key" "invalid cert selector map key" (g.split (g.cut e ",").0 "="))

  unfoldable pub get_string_map : String → Outcome (Result (List (String × String)))
  unfolding add_strings
  get_string_map s = add_strings ((g.split s " ").0 ∷ (g.split s " ").1) []

  unfoldable pub get_map_from_json_entries : String → Result (List (String × String))
  unfolding add_entries
  get_map_from_json_entries json_str = elim (g.unmarshal json_str) [
    | err e ↦ err "unable to parse JSON map entries"
    | ok entries ↦ add_entries [] entries
  ]

  abbrev pub set_field : String → String → CertIdentifier → CertIdentifier
  set_field key value i =
      if key == x509_subject_key
      then record i { subject = value }
      else if key == x509_issuer_key
      then record i { issuer = value }
      else if key == x509_serial_key
      then record i { serial_number = some (g.set_string value) }
      else i

  -- The loop of createCertSelectorFromMap.
  unfoldable pub set_fields : List (String × String) → CertIdentifier → CertIdentifier
  set_fields [] i = i
  set_fields ((key, value) ∷ rest) i = set_fields rest (set_field key value i)

  abbrev pub create_cert_selector_from_map : List (String × String) → CertIdentifier
  create_cert_selector_from_map m = set_fields m empty_identifier

  pub selector_of : Result (List (String × String)) → Result CertIdentifier
  selector_of (err e) = err e
  selector_of (ok m) = ok (create_cert_selector_from_map m)

  pub selector_outcome :
      String → Outcome (Result (List (String × String))) → Outcome (Result CertIdentifier)
  unfolding selector_of
  selector_outcome message panicked = panicked
  selector_outcome message (returned m) = returned (or_message message (selector_of m))

  abbrev pub from_json_file : Result String → Outcome (Result CertIdentifier)
  unfolding selector_outcome
  from_json_file (err e) = returned (err "unable to read cert selector file")
  from_json_file (ok text) =
      selector_outcome "unable to parse JSON cert selector"
        (returned (get_map_from_json_entries text))

  -- The loop over the predefined names.
  pub store_name : String → List String → String
  store_name name [] = name
  store_name name (predefined ∷ rest) =
      let later = store_name name rest in if g.equal_fold name predefined then predefined else later

  pub with_store : String → Outcome (Result CertIdentifier) → Outcome (Result CertIdentifier)
  unfolding store_name
  with_store name panicked = panicked
  with_store name (returned (err e)) = returned (err e)
  with_store name (returned (ok i)) =
      returned (ok (record i { system_store_name = store_name name system_store_names }))

  unfoldable pub populate_cert_identifier : String → String → Outcome (Result CertIdentifier)
  unfolding with_store from_json_file selector_outcome
  populate_cert_identifier cert_selector system_store_name = with_store system_store_name (
      if cert_selector == ""
      then returned (ok empty_identifier)
      else if starts_with cert_selector "file://"
      then from_json_file (g.read_file (g.trim_prefix cert_selector "file://"))
      else selector_outcome "unable to parse cert selector string" (get_string_map cert_selector))

  abbrev pub options_from : Flags → String → CertIdentifier → CredentialsOpts
  options_from f version i = record {
    private_key_id = f.private_key_id;
    certificate_id = f.certificate_id;
    certificate_bundle_id = f.certificate_bundle_id;
    cert_identifier = i;
    role_arn = f.role_arn_str;
    profile_arn_str = f.profile_arn_str;
    trust_anchor_arn_str = f.trust_anchor_arn_str;
    session_duration = f.session_duration;
    region = f.region;
    endpoint = f.endpoint;
    no_verify_ssl = f.no_verify_ssl;
    with_proxy = f.with_proxy;
    debug = f.debug;
    version = version;
    lib_pkcs11 = f.lib_pkcs11;
    reuse_pin = f.reuse_pin;
    tpm_key_password = f.tpm_key_password;
    no_tpm_key_password = f.no_tpm_key_password;
    server_ttl = pos 0;
    role_session_name = f.role_session_name;
  }

  pub options_outcome :
      Flags → String → Outcome (Result CertIdentifier) → Outcome (Result CredentialsOpts)
  options_outcome f version panicked = panicked
  options_outcome f version (returned (err e)) = returned (err e)
  options_outcome f version (returned (ok i)) = returned (ok (options_from f version i))

  unfoldable pub populate_credentials_options : Flags → String → Outcome (Result CredentialsOpts)
  unfolding options_outcome
  populate_credentials_options f version =
      options_outcome f version (populate_cert_identifier f.cert_selector f.system_store_name)
