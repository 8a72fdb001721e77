-- ===== src/Samples.antt =====
-- Concrete stand-ins for the interfaces, for tests: a clock of
-- integers, a signer, a service and options.
use rolesanywhere_credential.Prelude.{
  ℕ, refl, false, String, eqb, List, [], ◌∷◌, Option, none, some, ◌==◌, if◌then◌else◌,
}
use rolesanywhere_credential.Prelude.Int.{ℤ, pos, negsuc, ◌+ℤ◌, ◌-ℤ◌, ltb_ℤ}
use rolesanywhere_credential.Clock.{Clock, saturate}
use rolesanywhere_credential.Results.{Result, ok, err}
use rolesanywhere_credential.Certificate.{Certificate, Signer}
use rolesanywhere_credential.Keys.{Block, Parsers, rsa_key, rsa}
use rolesanywhere_credential.Session.{CredentialsOpts, ClientConfig, Credentials, Environment}

-- A clock whose times are their instants, with a given time for time.Unix(1<<63-1, 0).
abbrev pub counting : ℤ → Clock
counting last = record {
  Time = ℤ;
  instant = λ t. t;
  add = λ t d. t +ℤ d;
  sub = λ t u. saturate (t -ℤ u);
  after = λ t u. ltb_ℤ u t;
  zero_time = pos 0;
  unix_max = last;
  instant-add = λ t d. refl;
  sub_lem = λ t u. refl;
  after_lem = λ t u. refl;
}

-- A far time, as the code expects of time.Unix(1<<63-1, 0), and one that wraps round.
abbrev pub far_clock : Clock
far_clock = counting (pos 1_000_000_000_000_000_000_000_000)

abbrev pub wrapping_clock : Clock
wrapping_clock = counting (negsuc 1_000_000_000_000_000_000_000_000)

abbrev pub sample_certificate : Certificate
sample_certificate = record {
  raw = 48 ∷ 3 ∷ [];
  subject = "CN=leaf";
  issuer = "CN=ca";
  serial_number = pos 77;
}

abbrev pub sample_signer : Signer
sample_signer = record {
  sign = λ text. ok (1 ∷ 2 ∷ []);
  certificate = ok sample_certificate;
  certificate_chain = (none, none);
}

abbrev pub sample_config : ClientConfig
sample_config = record {
  region = "eu-west-1";
  transport = record { insecure_skip_verify = false; proxy_from_environment = false };
  log_requests = false;
  base_endpoint = none;
  user_agent = none;
  signing = none;
}

abbrev pub sample_credentials : Credentials
sample_credentials = record {
  access_key_id = some "AKIA";
  secret_access_key = some "secret";
  session_token = some "session";
  expiration = some "2030";
}

-- A service that answers every well-formed call, or none.
abbrev pub environment : Result (List (Option Credentials)) → Environment
environment answer = record {
  parse_arn = λ text.
      if text == ""
      then err "arn: invalid prefix"
      else ok (record { region = "eu-west-1"; resource = text });
  load_default_config = λ region transport debugging. ok sample_config;
  create_session = λ config signer input. answer;
  encode_base64 = λ bytes. "MAM=";
  go_version = "go1.23";
  os = "linux";
  arch = "amd64";
  debugging = false;
}

abbrev pub sample_opts : CredentialsOpts
sample_opts = record {
  private_key_id = "key.pem";
  certificate_id = "cert.pem";
  certificate_bundle_id = "";
  cert_identifier = record {
    subject = "";
    issuer = "";
    serial_number = none;
    system_store_name = "MY";
  };
  role_arn = "role/path/admin";
  profile_arn_str = "profile/1";
  trust_anchor_arn_str = "trust-anchor/1";
  session_duration = pos 3600;
  region = "";
  endpoint = "";
  no_verify_ssl = false;
  with_proxy = false;
  debug = false;
  version = "1.4.0";
  lib_pkcs11 = "";
  reuse_pin = false;
  tpm_key_password = "";
  no_tpm_key_password = false;
  server_ttl = pos 64;
  role_session_name = "";
}

-- Keys are numbers.
abbrev pub Key : Type 0
Key = ℕ

abbrev pub leaf : Certificate
leaf = record { raw = 1 ∷ []; subject = "CN=leaf"; issuer = "CN=ca"; serial_number = pos 1 }

abbrev pub middle : Certificate
middle = record { raw = 2 ∷ []; subject = "CN=ca"; issuer = "CN=root"; serial_number = pos 2 }

-- Each byte is a PEM block: 1 a private key, 2 a certificate.
abbrev pub decode_all : List ℕ → Option Block × List ℕ
decode_all [] = (none, [])
decode_all (b ∷ bytes) = (
  some record { block_type = if eqb b 1 then "PRIVATE KEY" else "CERTIFICATE"; bytes = b ∷ [] },
  bytes,
)

abbrev pub sample_file : String → Result (List ℕ)
sample_file path =
    if path == "key.pem"
    then ok (1 ∷ [])
    else if path == "cert.pem"
    then ok (1 ∷ 2 ∷ [])
    else if path == "empty.p12"
    then ok []
    else err "no such file"

abbrev pub sample_parsers : Parsers Key Key
sample_parsers = record {
  read_file = sample_file;
  decode = decode_all;
  parse_certificate = λ bytes. elim bytes [ [] ↦ err "no certificate" | _ ↦ ok leaf ];
  parse_certificates = λ bytes. ok (leaf ∷ middle ∷ []);
  parse_ec_private_key = λ bytes. err "no EC key";
  parse_pkcs1_private_key = λ bytes. err "no RSA key";
  parse_pkcs8_private_key = λ bytes. ok (rsa_key 5);
  to_pem = λ bytes. ok [];
  public_key_algorithm = λ cert. rsa;
  encode_base64 = λ bytes. "MAM=";
  show_serial = λ n. "77";
}
