-- ===== src/Session/Tests.antt =====
-- Runs of GenerateCredentials, and its theorems at concrete options.
use rolesanywhere_credential.Prelude.{◌≡◌, refl, [], ◌∷◌, none, some}
use rolesanywhere_credential.Prelude.Int.{pos, negsuc}
use rolesanywhere_credential.Results.{ok, err, returned, panicked}
use rolesanywhere_credential.Samples.{sample_signer, sample_credentials, environment, sample_opts}
use rolesanywhere_credential.Session.{
  CredentialProcessOutput, empty_output, to_int32, to_output, from_pointers, read_answer, configure,
  call_service, start_session, generate_credentials, with_region,
}
use rolesanywhere_credential.Session.Laws.{IsVended, generate_credentials_ok}

session : Unit {0}
unfolding generate_credentials start_session call_service configure read_answer to_output
    from_pointers
session = tt

abbrev vended : CredentialProcessOutput
vended = record {
  version = 1;
  access_key_id = "AKIA";
  secret_access_key = "secret";
  session_token = "session";
  expiration = "2030";
}

vended_test :
    generate_credentials
      (environment (ok (some sample_credentials ∷ [])))
      sample_opts
      sample_signer
      "RSA"
    ≡ (with_region sample_opts "eu-west-1", returned (vended, none))
unfolding session
vended_test = refl

panic_test :
    (generate_credentials (environment (ok (none ∷ []))) sample_opts sample_signer "RSA").1
    ≡ panicked
unfolding session
panic_test = refl

refused_test :
    (generate_credentials (environment (err "denied")) sample_opts sample_signer "RSA").1
    ≡ returned (empty_output, some "denied")
unfolding session
refused_test = refl

to_int32_test :
    (to_int32 (pos 2_147_483_648) ≡ negsuc 2_147_483_647)
    × (to_int32 (negsuc 4_294_967_295) ≡ pos 0)
unfolding to_int32
to_int32_test = (refl, refl)

generate_credentials_ok_example :
    IsVended
      (environment (ok (some sample_credentials ∷ [])))
      sample_opts
      sample_signer
      "RSA"
      (with_region sample_opts "eu-west-1")
      vended
generate_credentials_ok_example =
    generate_credentials_ok (environment (ok (some sample_credentials ∷ []))) sample_opts
      (with_region sample_opts "eu-west-1") sample_signer "RSA" vended vended_test
