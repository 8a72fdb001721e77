-- ===== src/Session/Laws.antt =====
-- What GenerateCredentials returns: the credentials of the service's first answer, or an error
-- with an empty output.
use mathlib.Core.Path.{subst}
use rolesanywhere_credential.Prelude.{
  ◌≡◌, refl, sym, ap, String, List, [], ◌∷◌, Option, none, some, ◌==◌, arith, eq_iff, Bool-cases,
  inl, inr,
}
use rolesanywhere_credential.Prelude.Int.{ℤ, pos, negsuc, ◌≤ℤ◌, ◌<ℤ◌}
use rolesanywhere_credential.Results.{Result, Result-cases, ok, err, returned}
use rolesanywhere_credential.Certificate.{Certificate, Signer}
use rolesanywhere_credential.Session.{
  CredentialsOpts, CredentialProcessOutput, empty_output, to_int32, Arn, ClientConfig, Credentials,
  Environment, Generated, with_region, to_output, from_pointers, read_answer,
  create_session_request, configure, call_service, start_session, generate_credentials,
}

-- int32 of a Go int leaves the numbers of 32 bits as they are.
pub to_int32_of_range :
    (n : ℤ) → negsuc 2_147_483_647 ≤ℤ n → n <ℤ pos 2_147_483_648 → to_int32 n ≡ n
unfolding to_int32
to_int32_of_range (pos k) lo hi = ground arith
to_int32_of_range (negsuc k) lo hi = ground arith

-- An answer of the service whose first entry has all four members.
pub record Answers (c : Credentials) (out : CredentialProcessOutput) : Type 0 where
  pub access_key_id : c.access_key_id ≡ some out.access_key_id
  pub secret_access_key : c.secret_access_key ≡ some out.secret_access_key
  pub session_token : c.session_token ≡ some out.session_token
  pub expiration : c.expiration ≡ some out.expiration
  pub version : out.version ≡ 1

to_output-Answers :
    (c : Credentials) (out : CredentialProcessOutput) → to_output c ≡ some out → Answers c out
unfolding to_output
to_output-Answers c out h = ground arith

read_answer_ok :
    (answer : Result (List (Option Credentials))) (out : CredentialProcessOutput)
    → read_answer answer ≡ returned (out, none)
    → (c : Credentials) × (rest : List (Option Credentials)) × (answer ≡ ok (some c ∷ rest))
      × Answers c out
unfolding read_answer from_pointers
read_answer_ok (err e) out h = cc
read_answer_ok (ok []) out h = cc
read_answer_ok (ok (none ∷ rest)) out h = cc
read_answer_ok (ok (some c ∷ rest)) out h = (c, rest, refl, to_output-Answers c out (ground arith))

read_answer_error :
    (answer : Result (List (Option Credentials))) (out : CredentialProcessOutput) (e : String)
    → read_answer answer ≡ returned (out, some e)
    → out ≡ empty_output
unfolding read_answer from_pointers
read_answer_error (err e') out e h = cc
read_answer_error (ok []) out e h = cc
read_answer_error (ok (none ∷ rest)) out e h = cc
read_answer_error (ok (some c ∷ rest)) out e h = ground arith

module _ (env : Environment) where
  open env use {parse_arn, create_session, encode_base64}

  -- How a successful run came about.
  pub record IsVended (opts : CredentialsOpts) (signer : Signer) (algorithm : String)
      (opts' : CredentialsOpts) (out : CredentialProcessOutput) : Type 0 where
    pub trust_anchor_arn : Arn
    pub profile_arn : Arn
    pub trust_anchor_parsed : parse_arn opts.trust_anchor_arn_str ≡ ok trust_anchor_arn
    pub profile_parsed : parse_arn opts.profile_arn_str ≡ ok profile_arn
    pub same_region : trust_anchor_arn.region ≡ profile_arn.region
    pub region_set : opts' ≡ with_region opts trust_anchor_arn.region
    pub config : ClientConfig
    pub certificate : Certificate
    pub configured : configure env opts' signer algorithm ≡ ok (config, certificate)
    pub credentials : Credentials
    pub others : List (Option Credentials)
    pub called :
        create_session config signer (create_session_request encode_base64 opts' certificate)
        ≡ ok (some credentials ∷ others)
    pub answers : Answers credentials out

  call_service_ok :
      (opts : CredentialsOpts) (signer : Signer) (algorithm : String)
      (out : CredentialProcessOutput)
      → call_service env opts signer algorithm ≡ returned (out, none)
      → (config : ClientConfig) × (certificate : Certificate) × (configure env opts signer algorithm
          ≡ ok (config, certificate))
        × (c : Credentials) × (rest : List (Option Credentials)) × (create_session config signer
              (create_session_request encode_base64 opts certificate)
            ≡ ok (some c ∷ rest))
        × Answers c out
  unfolding call_service
  call_service_ok opts signer algorithm out h =
      elim (Result-cases (configure env opts signer algorithm)) [
        | inl ((config, certificate), e) ↦
            let (c, rest, called, answers) = read_answer_ok _ out (rw (e, call_service) at h) in
            (config, certificate, e, c, rest, called, answers)
        | inr (m, e) ↦ let h' = rw (e, call_service) at h in cc h'
      ]

  start_session_ok :
      (opts opts' : CredentialsOpts) (signer : Signer) (algorithm : String)
      (out : CredentialProcessOutput) (ta pa : Arn)
      → parse_arn opts.trust_anchor_arn_str ≡ ok ta
      → parse_arn opts.profile_arn_str ≡ ok pa
      → start_session env opts signer algorithm ta pa ≡ (opts', returned (out, none))
      → IsVended opts signer algorithm opts' out
  unfolding start_session
  start_session_ok opts opts' signer algorithm out ta pa parsed parsed' h =
      elim (Bool-cases (ta.region == pa.region)) [
        | inr e ↦
            let h' = rw (e, start_session) at h in
            cc (ap (λ (r : CredentialsOpts × Generated). r.1) h')
        | inl e ↦
            let h' = rw (e, start_session) at h in
            let set = ap (λ (r : CredentialsOpts × Generated). r.0) h' in
            let (config, certificate, configured, c, rest, called, answers) =
              call_service_ok (with_region opts ta.region) signer algorithm out
                (ap (λ (r : CredentialsOpts × Generated). r.1) h') in
            record {
              trust_anchor_arn = ta;
              profile_arn = pa;
              trust_anchor_parsed = parsed;
              profile_parsed = parsed';
              same_region = (eq_iff _ _).0 e;
              region_set = sym set;
              config = config;
              certificate = certificate;
              configured =
                  subst (λ o. configure env o signer algorithm ≡ ok (config, certificate)) set
                    configured;
              credentials = c;
              others = rest;
              called =
                  subst
                    (λ o.
                      create_session config signer
                        (create_session_request encode_base64 o certificate)
                      ≡ ok (some c ∷ rest))
                    set called;
              answers = answers;
            }
      ]

  -- GenerateCredentials returns no error only if both ARNs parse and name one region, the client
  -- can be configured for the options with their region set, and CreateSession answers; the
  -- output then holds the first credentials of the answer, and version 1.
  pub generate_credentials_ok :
      (opts opts' : CredentialsOpts) (signer : Signer) (algorithm : String)
      (out : CredentialProcessOutput)
      → generate_credentials env opts signer algorithm ≡ (opts', returned (out, none))
      → IsVended opts signer algorithm opts' out
  unfolding generate_credentials
  generate_credentials_ok opts opts' signer algorithm out h =
      elim (Result-cases (parse_arn opts.trust_anchor_arn_str)) [
        | inr (m, e) ↦ let h' = rw (e, generate_credentials) at h in cc h'
        | inl (ta, parsed) ↦
            let h1 = rw (parsed, generate_credentials) at h in
            elim (Result-cases (parse_arn opts.profile_arn_str)) [
              | inr (m, e) ↦ let h2 = rw (e, generate_credentials) at h1 in cc h2
              | inl (pa, parsed') ↦
                  start_session_ok opts opts' signer algorithm out ta pa parsed parsed'
                    (rw (parsed', generate_credentials) at h1)
            ]
      ]

  -- Whenever GenerateCredentials returns an error, its output is empty.
  pub generate_credentials_error :
      (opts : CredentialsOpts) (signer : Signer) (algorithm e : String)
      (out : CredentialProcessOutput)
      → (generate_credentials env opts signer algorithm).1 ≡ returned (out, some e)
      → out ≡ empty_output
  unfolding generate_credentials start_session call_service
  generate_credentials_error opts signer algorithm e out h =
      ground (arith, read_answer_error _ out e)
