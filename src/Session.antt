-- ===== src/Session.antt =====
-- Obtaining temporary credentials: aws_signing_helper/credentials.go.
-- GenerateCredentials reads the options, may set their region, builds a client and calls
-- CreateSession. The ARN parser, the SDK's configuration and the call itself are parameters.
pub mod Laws
mod Tests
use rolesanywhere_credential.Prelude.{
  ℕ, ◌-◌, ◌+◌, ◌%◌, Bool, true, false, String, List, [], ◌∷◌, Option, none, some, ◌==◌, ◌+++◌, ltb,
  if◌then◌else◌,
}
use rolesanywhere_credential.Prelude.Int.{ℤ, pos, negsuc}
use rolesanywhere_credential.Results.{
  Result, ok, err, ◌>>=◌, or_message, Outcome, returned, panicked,
}
use rolesanywhere_credential.Certificate.{Certificate, CertIdentifier, Signer}

pub record CredentialsOpts : Type 0 where
  pub private_key_id : String
  pub certificate_id : String
  pub certificate_bundle_id : String
  pub cert_identifier : CertIdentifier
  pub role_arn : String
  pub profile_arn_str : String
  pub trust_anchor_arn_str : String
  pub session_duration : ℤ
  pub region : String
  pub endpoint : String
  pub no_verify_ssl : Bool
  pub with_proxy : Bool
  pub debug : Bool
  pub version : String
  pub lib_pkcs11 : String
  pub reuse_pin : Bool
  pub tpm_key_password : String
  pub no_tpm_key_password : Bool
  pub server_ttl : ℤ
  pub role_session_name : String

-- The output of the credential process; `version` is the field that is hard-coded to 1.
pub record CredentialProcessOutput : Type 0 where
  pub version : ℕ
  pub access_key_id : String
  pub secret_access_key : String
  pub session_token : String
  pub expiration : String

abbrev pub empty_output : CredentialProcessOutput
empty_output = record {
  version = 0;
  access_key_id = "";
  secret_access_key = "";
  session_token = "";
  expiration = "";
}

-- int32(n) of a Go int.
unfoldable pub to_int32 : ℤ → ℤ
to_int32 n =
    let r : ℕ = elim n [
      | pos k ↦ k % 4_294_967_296
      | negsuc k ↦ 4_294_967_295 - k % 4_294_967_296
    ] in
    if ltb r 2_147_483_648 then pos r else negsuc (4_294_967_295 - r)

-- The fields of an ARN that the program reads.
pub record Arn : Type 0 where
  pub region : String
  pub resource : String

-- The custom HTTP transport: TLS 1.2 or later in either case.
pub record Transport : Type 0 where
  pub insecure_skip_verify : Bool
  pub proxy_from_environment : Bool

-- The arguments of CreateRequestSignFinalizeFunction but the signer itself.
pub record RequestSigning : Type 0 where
  pub region : String
  pub algorithm : String
  pub certificate : Certificate
  pub chain : Option (List Certificate)

-- The client's configuration, with the middleware that the program adds.
pub record ClientConfig : Type 0 where
  pub region : String
  pub transport : Transport
  pub log_requests : Bool
  pub base_endpoint : Option String
  pub user_agent : Option String
  pub signing : Option RequestSigning

pub record CreateSessionInput : Type 0 where
  pub cert : Option String
  pub profile_arn : Option String
  pub trust_anchor_arn : Option String
  pub duration_seconds : Option ℤ
  pub role_arn : Option String
  pub role_session_name : Option String

-- Every member of the service's answer is a pointer that may be nil.
pub record Credentials : Type 0 where
  pub access_key_id : Option String
  pub secret_access_key : Option String
  pub session_token : Option String
  pub expiration : Option String

-- What lies outside the repository: the SDK, the service and the platform.
pub record Environment : Type 0 where
  pub parse_arn : String → Result Arn
  pub load_default_config : String → Transport → Bool → Result ClientConfig
  pub create_session :
      ClientConfig → Signer → CreateSessionInput → Result (List (Option Credentials))
  pub encode_base64 : List ℕ → String
  pub go_version : String
  pub os : String
  pub arch : String
  -- The flag `Debug` of the package.
  pub debugging : Bool

-- The region of the options, or that of the trust anchor if it is not given.
abbrev pub with_region : CredentialsOpts → String → CredentialsOpts
with_region opts region = record opts { region = if opts.region == "" then region else opts.region }

abbrev pub nonempty : String → Option String
nonempty s = if s == "" then none else some s

-- Dereferences the four pointers; `none` stands for the panic on a nil one.
unfoldable pub to_output : Credentials → Option CredentialProcessOutput
to_output c = elim c.access_key_id [
  | none ↦ none
  | some id ↦ elim c.secret_access_key [
    | none ↦ none
    | some secret ↦ elim c.session_token [
      | none ↦ none
      | some token ↦ elim c.expiration [
        | none ↦ none
        | some expiration ↦ some (record {
          version = 1;
          access_key_id = id;
          secret_access_key = secret;
          session_token = token;
          expiration = expiration;
        })
      ]
    ]
  ]
]

abbrev pub Generated : Type 0
Generated = Outcome (CredentialProcessOutput × Option String)

abbrev pub failed : String → Generated
failed e = returned (empty_output, some e)

unfoldable pub from_pointers : Option CredentialProcessOutput → Generated
from_pointers none = panicked
from_pointers (some out) = returned (out, none)

-- The end of GenerateCredentials, from the answer of CreateSession.
unfoldable pub read_answer : Result (List (Option Credentials)) → Generated
unfolding to_output from_pointers
read_answer (err e) = failed e
read_answer (ok []) = failed "unable to obtain temporary security credentials from CreateSession"
read_answer (ok (none ∷ _)) = panicked
read_answer (ok (some credentials ∷ _)) = from_pointers (to_output credentials)

unfoldable pub create_session_request :
    (List ℕ → String) → CredentialsOpts → Certificate → CreateSessionInput
create_session_request encode opts certificate = record {
  cert = some (encode certificate.raw);
  profile_arn = some opts.profile_arn_str;
  trust_anchor_arn = some opts.trust_anchor_arn_str;
  duration_seconds = some (to_int32 opts.session_duration);
  role_arn = some opts.role_arn;
  role_session_name = nonempty opts.role_session_name;
}

module _ (env : Environment) where
  open env use {
    parse_arn, load_default_config, create_session, encode_base64, go_version, os, arch, debugging,
  }

  -- The header that createCredHelperUserAgentMiddleware sets.
  unfoldable pub user_agent_of : CredentialsOpts → String
  user_agent_of opts =
      "CredHelper/" +++ opts.version +++ " (" +++ go_version +++ "; " +++ os +++ "; " +++ arch
      +++ ")"

  unfoldable pub configure : CredentialsOpts → Signer → String → Result (ClientConfig × Certificate)
  unfolding user_agent_of
  configure opts signer algorithm = do
    cfg ←
        load_default_config opts.region
          (record {
            insecure_skip_verify = opts.no_verify_ssl;
            proxy_from_environment = opts.with_proxy;
          })
          debugging
    certificate ← or_message "unable to find certificate" signer.certificate
    ok (
      record cfg {
        base_endpoint = if opts.endpoint == "" then cfg.base_endpoint else some opts.endpoint;
        user_agent = some (user_agent_of opts);
        signing = some (record {
          region = opts.region;
          algorithm = algorithm;
          certificate = certificate;
          chain = signer.certificate_chain.0;
        });
      },
      certificate,
    )

  unfoldable pub call_service : CredentialsOpts → Signer → String → Generated
  unfolding read_answer
  call_service opts signer algorithm = elim (configure opts signer algorithm) [
    | err e ↦ failed e
    | ok (cfg, certificate) ↦
        read_answer
          (create_session cfg signer (create_session_request encode_base64 opts certificate))
  ]

  -- GenerateCredentials once both ARNs are parsed.
  unfoldable pub start_session :
      CredentialsOpts → Signer → String → Arn → Arn → CredentialsOpts × Generated
  start_session opts signer algorithm trust_anchor_arn profile_arn =
      if trust_anchor_arn.region == profile_arn.region
      then (
        with_region opts trust_anchor_arn.region,
        call_service (with_region opts trust_anchor_arn.region) signer algorithm,
      )
      else (opts, failed "trust anchor and profile regions don't match")

  -- Returns the options, whose region it may have set, and what GenerateCredentials returns.
  unfoldable pub generate_credentials :
      CredentialsOpts → Signer → String → CredentialsOpts × Generated
  generate_credentials opts signer algorithm = elim (parse_arn opts.trust_anchor_arn_str) [
    | err e ↦ (opts, failed e)
    | ok trust_anchor_arn ↦ elim (parse_arn opts.profile_arn_str) [
      | err e ↦ (opts, failed e)
      | ok profile_arn ↦ start_session opts signer algorithm trust_anchor_arn profile_arn
    ]
  ]
