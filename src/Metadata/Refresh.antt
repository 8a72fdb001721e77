-- ===== src/Metadata/Refresh.antt =====
-- When the stored credential is refreshed, and what a request then sees.
use rolesanywhere_credential.Prelude.{
  ◌≡◌, refl, ap, ◌∙◌, sym, ◌↔◌, Bool, true, false, String, List, [], ◌∷◌, some, if◌then◌else◌, ◌==◌,
  arith, eq_iff, Bool-cases, inl, inr,
}
use rolesanywhere_credential.Prelude.Int.{ℤ, pos, ◌+ℤ◌, ◌-ℤ◌, ◌<ℤ◌, ltb_ℤ, +ℤ_parts, -ℤ_parts}
use rolesanywhere_credential.Results.{returned, panicked}
use rolesanywhere_credential.Certificate.{Signer}
use rolesanywhere_credential.Clock.{Clock, saturate}
use rolesanywhere_credential.Session.{
  Environment, CredentialsOpts, CredentialProcessOutput, empty_output, Generated,
  generate_credentials,
}
use rolesanywhere_credential.Session.Laws.{generate_credentials_error}
use rolesanywhere_credential.Metadata.{
  refresh_time, minus_refresh_time, RefreshableCred, Request, Call, set_header, Library, Moment,
  stored_cred, needs_refresh, Shared, Timing, encode, refresh, get_credentials,
}
use rolesanywhere_credential.Metadata.Access.{
  HasValidToken, IsTurnedAway, wrong_method, no_token, bad_token, check_valid_token-cases,
  check_valid_token_ok,
}

saturate-lt_iff : (d : ℤ) → (ltb_ℤ (saturate d) refresh_time ≡ true) ↔ (d <ℤ refresh_time)
saturate-lt_iff d = ground arith

module _ (c : Clock) (lib : Library c.Time) where
  open c use {Time, instant, add, sub, instant-add, sub_lem}
  open lib use {encodes, parse_rfc3339}

  -- The handler refreshes exactly when the stored credential expires less than ten minutes from
  -- now: five minutes before the moment that is five minutes before the expiration.
  pub needs_refresh_iff :
      (cred : RefreshableCred Time) (now : Time)
      → (needs_refresh c lib cred now ≡ true)
        ↔ (instant cred.expiration <ℤ instant now +ℤ pos 600_000_000_000)
  unfolding needs_refresh
  needs_refresh_iff cred now =
      let d = instant cred.expiration +ℤ minus_refresh_time -ℤ instant now in
      let wait : sub (add cred.expiration minus_refresh_time) now ≡ saturate d =
        sub_lem _ now
        ∙ ap (λ t. saturate (t -ℤ instant now)) (instant-add cred.expiration minus_refresh_time) in
      let test : needs_refresh c lib cred now ≡ ltb_ℤ (saturate d) refresh_time =
        ap (λ w. ltb_ℤ w refresh_time) wait in
      (
        λ h. ten_minutes.0 ((saturate-lt_iff d).0 (sym test ∙ h)),
        λ h. test ∙ (saturate-lt_iff d).1 (ten_minutes.1 h),
      )
    where
      ten_minutes :
          (instant cred.expiration +ℤ minus_refresh_time -ℤ instant now <ℤ refresh_time)
          ↔ (instant cred.expiration <ℤ instant now +ℤ pos 600_000_000_000)
      ten_minutes = (λ h. omega (arith, +ℤ_parts, -ℤ_parts), λ h. omega (arith, +ℤ_parts, -ℤ_parts))

  -- The headers that reach the client: net/http sends them with the first WriteHeader or Write, and
  -- changes to them afterwards have no effect.
  abbrev pub sent_headers : List (Call Time) → List (String × String)
  sent_headers [] = []
  sent_headers (set_header k v ∷ calls) = (k, v) ∷ sent_headers calls
  sent_headers (_ ∷ _) = []

  turned_away_headers :
      (r : Request) (at : Moment c lib) (calls : List (Call Time))
      → IsTurnedAway c lib r at calls
      → sent_headers calls ≡ []
  turned_away_headers r at _ (wrong_method other) = refl
  turned_away_headers r at _ (no_token method absent) = refl
  turned_away_headers r at _ (bad_token method e) = refl

  encode_headers :
      (r : Request) (cred : RefreshableCred Time) (found : Moment c lib)
      → sent_headers (encode c lib r cred found) ≡ []
  unfolding encode
  encode_headers r cred found = elim (Bool-cases (encodes cred)) [ inl e ↦ rw e | inr e ↦ rw e ]

  refresh_headers :
      (r : Request) (at : Timing c lib) (s : Shared c lib) (g : CredentialsOpts × Generated)
      → sent_headers (refresh c lib r at s g).1 ≡ []
  unfolding refresh
  refresh_headers r at s (opts, panicked) = refl
  refresh_headers r at s (opts, returned (out, e)) =
      encode_headers r (stored_cred c lib out at.updated) at.found

  module _ (env : Environment) (signer : Signer) (algorithm : String) where
    -- A GET request with a valid token, while the stored credential has ten minutes or more to
    -- live, changes nothing and is answered from the stored credential.
    pub get_credentials_stored :
        (r : Request) (at : Timing c lib) (s : Shared c lib)
        → r.method ≡ "GET"
        → HasValidToken c lib r at.checked
        → ¬ (instant s.cred.expiration <ℤ instant at.asked +ℤ pos 600_000_000_000)
        → get_credentials c lib env signer algorithm r at s ≡ (s, encode c lib r s.cred at.found)
    unfolding get_credentials
    get_credentials_stored r at s method valid fresh =
        rw ((eq_iff _ _).1 method, check_valid_token_ok c lib r at.checked valid)
          (by_test (needs_refresh c lib s.cred at.asked) refl)
      where
        by_test :
            (b : Bool)
            → needs_refresh c lib s.cred at.asked ≡ b
            → (if b
                then refresh c lib r at s (generate_credentials env s.opts signer algorithm)
                else (s, encode c lib r s.cred at.found))
              ≡ (s, encode c lib r s.cred at.found)
        by_test true e = absurd (fresh ((needs_refresh_iff s.cred at.asked).0 e))
        by_test false e = refl

    -- If GenerateCredentials fails in the refresh, then the stored credential is overwritten by one
    -- without key, secret and token, which still has the code "Success".
    pub get_credentials_failed :
        (r : Request) (at : Timing c lib) (s : Shared c lib) (opts : CredentialsOpts)
        (out : CredentialProcessOutput) (e : String)
        → r.method ≡ "GET"
        → HasValidToken c lib r at.checked
        → needs_refresh c lib s.cred at.asked ≡ true
        → generate_credentials env s.opts signer algorithm ≡ (opts, returned (out, some e))
        → get_credentials c lib env signer algorithm r at s ≡ (
          record { cred = stored_cred c lib empty_output at.updated; opts = opts },
          encode c lib r (stored_cred c lib empty_output at.updated) at.found,
        )
    unfolding get_credentials refresh
    get_credentials_failed r at s opts out e method valid stale failed =
        let blank =
          generate_credentials_error env s.opts signer algorithm e out
            (ap (λ (g : CredentialsOpts × Generated). g.1) failed) in
        rw (
          (eq_iff _ _).1 method,
          check_valid_token_ok c lib r at.checked valid,
          stale,
          failed,
          blank,
        )

    -- No header that the handler for the credentials sets reaches the client: the TTL header is
    -- set after the credential has been written.
    pub get_credentials_headers :
        (r : Request) (at : Timing c lib) (s : Shared c lib)
        → sent_headers (get_credentials c lib env signer algorithm r at s).1 ≡ []
    unfolding get_credentials
    get_credentials_headers r at s = elim (Bool-cases (r.method == "GET")) [
      | inr e ↦ rw e
      | inl method ↦ elim (check_valid_token-cases c lib r at.checked) [
        | inr (calls, message, e, away) ↦
            rw (method, e) (turned_away_headers r at.checked calls (away ((eq_iff _ _).0 method)))
        | inl (valid, e) ↦
            rw (method, e)
              (answer (needs_refresh c lib s.cred at.asked)
                (generate_credentials env s.opts signer algorithm))
      ]
    ]
      where
        answer :
            (b : Bool) (g : CredentialsOpts × Generated)
            → sent_headers
                (if b then refresh c lib r at s g else (s, encode c lib r s.cred at.found)).1
              ≡ []
        answer true g = refresh_headers r at s g
        answer false g = encode_headers r s.cred at.found
