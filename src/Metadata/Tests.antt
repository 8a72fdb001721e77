-- ===== src/Metadata/Tests.antt =====
-- Runs of the handlers, and their theorems at concrete requests.
use rolesanywhere_credential.Prelude.{
  ◌*◌, ◌≡◌, refl, ◌↔◌, ◌⊎◌, true, String, List, [], ◌∷◌, none, some, ◌==◌, if◌then◌else◌, lookup,
  insert, arith, eq_iff,
}
use rolesanywhere_credential.Prelude.Int.{ℤ, pos, ◌+ℤ◌, ◌-ℤ◌, ◌<ℤ◌}
use rolesanywhere_credential.Results.{ok, err}
use rolesanywhere_credential.Session.{
  empty_output, to_output, from_pointers, read_answer, configure, call_service, start_session,
  generate_credentials, with_region, Environment,
}
use rolesanywhere_credential.Clock.{second}
use rolesanywhere_credential.Samples.{far_clock, sample_signer, environment, sample_opts}
use rolesanywhere_credential.Tokens.{
  generate_token, make_room, insert_token, is_valid_token, find_token_ttl_seconds,
}
use rolesanywhere_credential.Metadata.{
  token_header, token_ttl_header, RefreshableCred, Request, write_header, write_string, set_header,
  Library, Moment, check_valid_token, parse_ttl, store_token, grant_token, put_token, get_role_name,
  needs_refresh, stored_cred, Shared, Timing, encode, refresh, get_credentials, role_name_of,
}
use rolesanywhere_credential.Metadata.Access.{
  IsGranted, IsRefused, put_token-cases, put_token_grants, HasValidToken, IsTurnedAway, IsNamed,
  get_role_name_guarded, get_credentials_guarded,
}
use rolesanywhere_credential.Metadata.Refresh.{
  needs_refresh_iff, get_credentials_stored, get_credentials_failed,
}
use rolesanywhere_credential.Metadata.System.{
  System, IsOutput, Reach, put, call, write, here, next, refresh_writes, assign, set_access_key_id,
  set_secret_access_key, set_token, set_expiration, set_code, set_last_updated, set_type,
}
use rolesanywhere_credential.Metadata.Soundness.{IsSound}
use rolesanywhere_credential.Metadata.Start.{
  serving, serve, with_signer, with_credentials, with_handlers, are_distinct, is_registered,
}
use rolesanywhere_credential.Metadata.Launch.{serve_reaches}

handlers : Unit {0}
unfolding put_token grant_token store_token get_role_name check_valid_token get_credentials refresh
    encode needs_refresh parse_ttl make_room is_valid_token find_token_ttl_seconds insert_token
    generate_token lookup insert generate_credentials start_session call_service configure
    read_answer to_output from_pointers ◌+ℤ◌ ◌-ℤ◌
handlers = tt

abbrev library : Library ℤ
library = record {
  atoi = λ text.
      if text == "60" then some (pos 60) else if text == "21600" then some (pos 21600) else none;
  format_seconds = λ d. "59";
  encode_base64 = λ bytes. "VG9rZW4=";
  parse_rfc3339 = λ text. if text == "2030" then pos 5_000_000_000_000 else pos 0;
  encodes = λ cred. true;
}

abbrev request : String → List (String × String) → Request
request method headers = record {
  method = method;
  get_header = λ name. elim (lookup name headers) [ none ↦ "" | some value ↦ value ];
}

abbrev empty_moment : Moment far_clock library
empty_moment = record { now = pos 1000; tokens = [] }

abbrev moment : Moment far_clock library
moment = record { now = pos 2000; tokens = ("abc", pos 60_000_001_000) ∷ [] }

abbrev put_request : Request
put_request = request "PUT" ((token_ttl_header, "60") ∷ [])

abbrev get_request : Request
get_request = request "GET" ((token_header, "abc") ∷ [])

put_test : put_token far_clock library put_request (some []) empty_moment ≡ (
  ("VG9rZW4=", pos 60_000_001_000) ∷ [],
  set_header token_ttl_header "60" ∷ write_string "VG9rZW4=" ∷ [],
)
unfolding handlers
put_test = refl

role_name_test :
    (get_role_name far_clock library "admin" get_request moment moment
      ≡ set_header token_ttl_header "59" ∷ write_string "admin" ∷ [])
    × (get_role_name far_clock library "admin" get_request empty_moment empty_moment
        ≡ write_header 401 ∷ write_string "invalid token provided" ∷ [])
    × (role_name_of "role/path/admin" ≡ "admin")
unfolding handlers role_name_of
role_name_test = (refl, refl, refl)

abbrev old_cred : RefreshableCred ℤ
old_cred = stored_cred far_clock library empty_output (pos 0)

abbrev fresh_cred : RefreshableCred ℤ
fresh_cred = record old_cred { access_key_id = "AKIA"; expiration = pos 9_000_000_000_000 }

abbrev timing : Timing far_clock library
timing = record { checked = moment; asked = pos 2000; updated = pos 3000; found = moment }

abbrev shared : RefreshableCred ℤ → Shared far_clock library
shared cred = record { cred = cred; opts = sample_opts }

abbrev denied : Environment
denied = environment (err "denied")

valid : HasValidToken far_clock library get_request moment
unfolding handlers
valid = (ground (arith, eq_iff "abc" ""), refl)

put_token-cases_example :
    IsGranted far_clock library put_request
      (some [])
      empty_moment
      (put_token far_clock library put_request (some []) empty_moment)
    ⊎ IsRefused far_clock library empty_moment
        (put_token far_clock library put_request (some []) empty_moment)
put_token-cases_example = put_token-cases far_clock library put_request (some []) empty_moment

put_token_grants_example : put_token far_clock library put_request (some []) empty_moment ≡ (
  insert_token far_clock "VG9rZW4=" (pos 1000 +ℤ pos (second * 60)) [],
  set_header token_ttl_header "60" ∷ write_string "VG9rZW4=" ∷ [],
)
unfolding generate_token lookup
put_token_grants_example =
    put_token_grants far_clock library put_request (some []) empty_moment (pos 60) "VG9rZW4=" refl
      refl refl (omega arith) (omega arith) refl

get_role_name_guarded_example :
    ((get_request.method ≡ "GET")
      × HasValidToken far_clock library get_request moment
      × IsNamed far_clock library "admin" get_request moment
          (get_role_name far_clock library "admin" get_request moment moment))
    ⊎ IsTurnedAway far_clock library get_request moment
        (get_role_name far_clock library "admin" get_request moment moment)
get_role_name_guarded_example =
    get_role_name_guarded far_clock library "admin" get_request moment moment

get_credentials_guarded_example :
    ((get_request.method ≡ "GET") × HasValidToken far_clock library get_request moment)
    ⊎ (((get_credentials far_clock library denied sample_signer "RSA" get_request timing
            (shared fresh_cred)).0
          ≡ shared fresh_cred)
        × IsTurnedAway far_clock library get_request moment
            (get_credentials far_clock library denied sample_signer "RSA" get_request timing
              (shared fresh_cred)).1)
get_credentials_guarded_example =
    get_credentials_guarded far_clock library denied sample_signer "RSA" get_request timing
      (shared fresh_cred)

needs_refresh_iff_example :
    (needs_refresh far_clock library old_cred (pos 2000) ≡ true)
    ↔ (old_cred.expiration <ℤ pos 2000 +ℤ pos 600_000_000_000)
needs_refresh_iff_example = needs_refresh_iff far_clock library old_cred (pos 2000)

get_credentials_stored_example :
    get_credentials far_clock library
      (environment (err "denied"))
      sample_signer
      "RSA"
      get_request
      timing
      (shared fresh_cred)
    ≡ (shared fresh_cred, encode far_clock library get_request fresh_cred moment)
unfolding ◌+ℤ◌
get_credentials_stored_example =
    get_credentials_stored far_clock library (environment (err "denied")) sample_signer "RSA"
      get_request timing (shared fresh_cred) refl valid (λ h. omega arith)

get_credentials_failed_example :
    get_credentials far_clock library
      (environment (err "denied"))
      sample_signer
      "RSA"
      get_request
      timing
      (shared old_cred)
    ≡ (
      record {
        cred = stored_cred far_clock library empty_output (pos 3000);
        opts = with_region sample_opts "eu-west-1";
      },
      encode far_clock library get_request
          (stored_cred far_clock library empty_output (pos 3000))
          moment,
    )
unfolding handlers
get_credentials_failed_example =
    get_credentials_failed far_clock library (environment (err "denied")) sample_signer "RSA"
      get_request timing (shared old_cred) (with_region sample_opts "eu-west-1") empty_output
      "denied" refl valid refl refl

abbrev first_shared : Shared far_clock library
first_shared = record {
  cred = stored_cred far_clock library empty_output (pos 900);
  opts = with_region sample_opts "eu-west-1";
}

-- The worlds of a test in which the service denies every request.
abbrev Denies : Environment → Type 0
Denies e = e ≡ denied

abbrev start : System far_clock library Denies sample_signer "RSA"
start = record { now = pos 1000; tokens = []; cred = first_shared.cred; threads = [] }

abbrev after_put : System far_clock library Denies sample_signer "RSA"
after_put = record start {
  tokens = (put_token far_clock library put_request (some []) empty_moment).0;
}

abbrev after_call : System far_clock library Denies sample_signer "RSA"
after_call = record after_put {
  threads =
      refresh_writes far_clock library Denies sample_signer "RSA" empty_output (pos 3000) ∷ [];
}

abbrev after_write : System far_clock library Denies sample_signer "RSA"
after_write = record after_call {
  cred = assign (set_access_key_id "") first_shared.cred;
  threads =
      (set_secret_access_key ""
        ∷ set_token ""
        ∷ set_expiration (pos 0)
        ∷ set_code "Success"
        ∷ set_last_updated (pos 3000)
        ∷ set_type "AWS-HMAC"
        ∷ [])
      ∷ [];
}

denied_output : IsOutput far_clock library Denies sample_signer "RSA" empty_output
unfolding handlers
denied_output = record {
  world = denied;
  met = refl;
  asked = sample_opts;
  left = with_region sample_opts "eu-west-1";
  error = some "denied";
  generated = refl;
}

one_write : Reach far_clock library Denies sample_signer "RSA" start after_write
unfolding handlers
one_write =
    next
      (next (next here (put put_request (some []) (pos 1000) (omega arith))) (
        call get_request moment first_shared.cred (pos 2000) (pos 3000) empty_output refl valid refl
          denied_output))
      (write [] [] (set_access_key_id "") _ refl)

-- The first call of GenerateCredentials is denied, and the server starts all the same.
started :
    serve far_clock library denied
      (λ opts. (opts, ok (sample_signer, "RSA")))
      none
      (pos 900)
      sample_opts
    ≡ serving first_shared "admin" sample_signer "RSA"
unfolding handlers serve with_signer with_credentials with_handlers are_distinct is_registered
    role_name_of
started = refl

serve_reaches_example : IsSound far_clock library Denies sample_signer "RSA" after_write
serve_reaches_example =
    serve_reaches far_clock library Denies denied refl (λ opts. (opts, ok (sample_signer, "RSA")))
      none (pos 900) sample_opts first_shared "admin" sample_signer "RSA" started (pos 1000)
      after_write one_write
