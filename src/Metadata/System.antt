-- ===== src/Metadata/System.antt =====
-- The endpoint with its goroutines interleaved. The map of tokens is used under the mutex, one
-- operation at a time, but each goroutine has read its clock before. The stored credential is used
-- without a lock: a handler that refreshes it reads what it finds, calls GenerateCredentials, and
-- writes the fields one by one, while other handlers do the same. A field is written at once.
use rolesanywhere_credential.Prelude.{ℕ, ◌≡◌, true, String, List, [], ◌∷◌, ◌++◌, Option}
use rolesanywhere_credential.Prelude.Int.{◌≤ℤ◌}
use rolesanywhere_credential.Results.{returned}
use rolesanywhere_credential.Certificate.{Signer}
use rolesanywhere_credential.Clock.{Clock}
use rolesanywhere_credential.Tokens.{TokenMap, remove_expired}
use rolesanywhere_credential.Session.{
  CredentialsOpts, CredentialProcessOutput, Environment, generate_credentials,
}
use rolesanywhere_credential.Metadata.{
  refreshable_cred_code, refreshable_cred_type, RefreshableCred, Request, Library, Moment,
  put_token, needs_refresh,
}
use rolesanywhere_credential.Metadata.Access.{HasValidToken}

-- One assignment to a field of the stored credential.
pub data Write (Time : Type 0) : Type 0 where
  set_access_key_id : String → Write Time
  set_secret_access_key : String → Write Time
  set_token : String → Write Time
  set_expiration : Time → Write Time
  set_code : String → Write Time
  set_last_updated : Time → Write Time
  set_type : String → Write Time

abbrev pub assign : {Time : Type 0} → Write Time → RefreshableCred Time → RefreshableCred Time
assign (set_access_key_id v) cred = record cred { access_key_id = v }
assign (set_secret_access_key v) cred = record cred { secret_access_key = v }
assign (set_token v) cred = record cred { token = v }
assign (set_expiration v) cred = record cred { expiration = v }
assign (set_code v) cred = record cred { code = v }
assign (set_last_updated v) cred = record cred { last_updated = v }
assign (set_type v) cred = record cred { type = v }

-- `Meets` holds of the worlds that GenerateCredentials may meet: what the service answers, and when.
module _ (c : Clock) (lib : Library c.Time) (Meets : Environment → Type 0) (signer : Signer)
    (algorithm : String) where
  open c use {Time, instant, add, after, instant-add}
  open lib use {parse_rfc3339}

  -- What a handler still has to write after GenerateCredentials, in the order of the source.
  abbrev pub refresh_writes : CredentialProcessOutput → Time → List (Write Time)
  refresh_writes out updated =
      set_access_key_id out.access_key_id
      ∷ set_secret_access_key out.secret_access_key
      ∷ set_token out.session_token
      ∷ set_expiration (parse_rfc3339 out.expiration)
      ∷ set_code refreshable_cred_code
      ∷ set_last_updated updated
      ∷ set_type refreshable_cred_type
      ∷ []

  -- What one call of GenerateCredentials with the signer returned.
  pub record IsOutput (out : CredentialProcessOutput) : Type 0 where
    pub world : Environment
    pub met : Meets world
    pub asked : CredentialsOpts
    pub left : CredentialsOpts
    pub error : Option String
    pub generated :
        generate_credentials world asked signer algorithm ≡ (left, returned (out, error))

  -- The time, the map of tokens, the stored credential, and what each handler that is refreshing it
  -- has yet to write.
  pub record System : Type 0 where
    pub now : Time
    pub tokens : TokenMap c
    pub cred : RefreshableCred Time
    pub threads : List (List (Write Time))

  pub data Step (s : System) : System → Type 0 where
    wait : (later : Time) → instant s.now ≤ℤ instant later → Step s (record s { now = later })
    -- The insertion of a PUT request, whose expiration was computed from an earlier clock.
    put :
        (r : Request) (bytes : Option (List ℕ)) (issued : Time)
        → instant issued ≤ℤ instant s.now
        → Step s (record s {
          tokens = (put_token c lib r bytes (record { now = issued; tokens = s.tokens })).0;
        })
    -- A tick of the clean-up, with the clock that it read.
    clean :
        (read : Time)
        → instant read ≤ℤ instant s.now
        → Step s (record s { tokens = remove_expired c read s.tokens })
    -- The return of GenerateCredentials in a handler: its request was a GET request with a token that
    -- was valid when it was checked, and the credential that it saw was to be refreshed. What it saw
    -- and the options that it read may be a mixture.
    call :
        (r : Request) (checked : Moment c lib) (seen : RefreshableCred Time) (asked updated : Time)
        (out : CredentialProcessOutput)
        → r.method ≡ "GET"
        → HasValidToken c lib r checked
        → needs_refresh c lib seen asked ≡ true
        → IsOutput out
        → Step s (record s { threads = refresh_writes out updated ∷ s.threads })
    -- The next write of any handler.
    write :
        (before after : List (List (Write Time))) (w : Write Time) (rest : List (Write Time))
        → s.threads ≡ before ++ (w ∷ rest) ∷ after
        → Step s (record s { cred = assign w s.cred; threads = before ++ rest ∷ after })

  pub data Reach (s : System) : System → Type 0 where
    here : Reach s s
    next : {t u : System} → Reach s t → Step t u → Reach s u
