-- ===== src/Metadata.antt =====
-- The local metadata endpoint of aws_signing_helper/serve.go: CheckValidToken, the three handlers
-- of AllIssuesHandlers, and the start of Serve.
-- A handler answers with its calls of the http.ResponseWriter in order. Other goroutines may use
-- the token map between two reads of a handler, so each read has a moment of its own: the time and
-- the map that it sees.
pub mod Access
pub mod Refresh
pub mod System
pub mod Soundness
pub mod Start
pub mod Launch
pub mod Handler
mod Tests
use Prim.Native.Char.{code}
use Prim.Native.String
use rolesanywhere_credential.Prelude.{
  ℕ, ◌*◌, Bool, true, false, String, List, [], ◌∷◌, Option, none, some, if◌then◌else◌, ◌==◌, ◌+++◌,
  ◌||◌, ltb, not, eqb,
}
use rolesanywhere_credential.Prelude.Int.{ℤ, pos, negsuc, pos_part, ltb_ℤ}
use rolesanywhere_credential.Results.{Result, ok, err, Outcome, returned, panicked}
use rolesanywhere_credential.Certificate.{Signer}
use rolesanywhere_credential.Clock.{Clock, second}
use rolesanywhere_credential.Tokens.{
  TokenMap, generate_token, insert_token, is_valid_token, find_token_ttl_seconds,
}
use rolesanywhere_credential.Session.{
  CredentialsOpts, CredentialProcessOutput, Environment, Generated, Arn, generate_credentials,
}

abbrev pub token_resource_path : String
token_resource_path = "/latest/api/token"

abbrev pub security_credentials_resource_path : String
security_credentials_resource_path = "/latest/meta-data/iam/security-credentials/"

abbrev pub token_header : String
token_header = "x-aws-ec2-metadata-token"

abbrev pub token_ttl_header : String
token_ttl_header = "x-aws-ec2-metadata-token-ttl-seconds"

abbrev pub default_token_ttl_seconds : String
default_token_ttl_seconds = "21600"

abbrev pub x_forwarded_for_header : String
x_forwarded_for_header = "X-Forwarded-For"

abbrev pub refreshable_cred_type : String
refreshable_cred_type = "AWS-HMAC"

abbrev pub refreshable_cred_code : String
refreshable_cred_code = "Success"

-- RefreshTime, five minutes, and its negation.
abbrev pub refresh_time : ℤ
refresh_time = pos 300_000_000_000

abbrev pub minus_refresh_time : ℤ
minus_refresh_time = negsuc 299_999_999_999

pub record RefreshableCred (Time : Type 0) : Type 0 where
  pub access_key_id : String
  pub secret_access_key : String
  pub token : String
  pub code : String
  pub type : String
  pub expiration : Time
  pub last_updated : Time

-- `get_header` is r.Header.Get: "" for a header that is not there.
pub record Request : Type 0 where
  pub method : String
  pub get_header : String → String

-- What a handler does with its http.ResponseWriter; `abort` is a panic, at which the server
-- closes the connection.
pub data Call (Time : Type 0) : Type 0 where
  write_header : ℕ → Call Time
  write_string : String → Call Time
  set_header : String → String → Call Time
  encode_json : RefreshableCred Time → Call Time
  abort : Call Time

-- The name of the role without its path: the last part of strings.Split(resource, "/").
last_part : String → String → String
last_part cur String.[] = cur
last_part cur (String.◌∷◌ ch rest) =
    last_part (if eqb (code ch) b'/' then "" else cur +++ (String.◌∷◌ ch String.[])) rest

unfoldable pub role_name_of : String → String
unfolding last_part
role_name_of resource = last_part "" resource

-- Go's standard library, as far as the handlers use it.
pub record Library (Time : Type 0) : Type 0 where
  pub atoi : String → Option ℤ
  -- strconv.FormatInt of the whole seconds of a duration.
  pub format_seconds : ℤ → String
  pub encode_base64 : List ℕ → String
  -- time.Parse at RFC 3339, whose error the program drops: the zero time on an error.
  pub parse_rfc3339 : String → Time
  -- Whether a credential can be encoded as JSON and written.
  pub encodes : RefreshableCred Time → Bool

module _ (c : Clock) (lib : Library c.Time) where
  open c use {Time, add, sub}
  open lib use {atoi, format_seconds, encode_base64, parse_rfc3339, encodes}

  pub record Moment : Type 0 where
    pub now : Time
    pub tokens : TokenMap c

  -- CheckValidToken: its calls, and the text of its error.
  unfoldable pub check_valid_token : Request → Moment → List (Call Time) × Option String
  check_valid_token r at =
      let token : String = r.get_header token_header in
      if token == ""
      then (write_header 401 ∷ write_string "no token provided" ∷ [], some "no token provided")
      else if is_valid_token c token at.now at.tokens
      then ([], none)
      else (
        write_header 401 ∷ write_string "invalid token provided" ∷ [],
        some "invalid token provided",
      )

  -- The TTL header of a PUT request, or the default.
  abbrev pub token_ttl_str : Request → String
  token_ttl_str r =
      if r.get_header token_ttl_header == ""
      then default_token_ttl_seconds
      else r.get_header token_ttl_header

  -- strconv.Atoi and the check of the range.
  unfoldable pub parse_ttl : String → Option ℤ
  parse_ttl text = elim (atoi text) [
    | none ↦ none
    | some ttl ↦ if ltb_ℤ ttl (pos 1) || ltb_ℤ (pos 21600) ttl then none else some ttl
  ]

  -- The end of the PUT handler, from the generated token.
  pub store_token : Request → Moment → ℤ → Option String → TokenMap c × List (Call Time)
  store_token r at ttl none =
      (at.tokens, write_header 500 ∷ write_string "unable to generate token" ∷ [])
  store_token r at ttl (some token) = (
    insert_token c token (add at.now (pos (second * pos_part ttl))) at.tokens,
    set_header token_ttl_header (token_ttl_str r) ∷ write_string token ∷ [],
  )

  -- The PUT handler from the TTL on.
  pub grant_token : Request → Option (List ℕ) → Moment → Option ℤ → TokenMap c × List (Call Time)
  unfolding store_token
  grant_token r random_bytes at none =
      (at.tokens, write_header 400 ∷ write_string "invalid token TTL" ∷ [])
  grant_token r random_bytes at (some ttl) =
      store_token r at ttl (generate_token encode_base64 (pos 100) random_bytes)

  -- Handles PUT requests for a token. The moment has the clock as it was read for the expiration,
  -- and the map as it is at the insertion.
  unfoldable pub put_token : Request → Option (List ℕ) → Moment → TokenMap c × List (Call Time)
  unfolding grant_token
  put_token r random_bytes at =
      if not (r.method == "PUT")
      then (at.tokens, write_header 405 ∷ [])
      else if not (r.get_header x_forwarded_for_header == "")
      then (
        at.tokens,
        write_header 400
            ∷ write_string "unable to process requests with X-Forwarded-For header"
            ∷ [],
      )
      else grant_token r random_bytes at (parse_ttl (token_ttl_str r))

  -- FindTokenTTLSeconds for the token of a request.
  abbrev pub ttl_seconds : Request → Moment → Option String
  ttl_seconds r at =
      find_token_ttl_seconds c format_seconds (r.get_header token_header) at.now at.tokens

  -- The end of the handler for the role's name, from the token's TTL.
  abbrev pub name_role : String → Option String → List (Call Time)
  name_role role_name none = write_header 401 ∷ []
  name_role role_name (some ttl) = set_header token_ttl_header ttl ∷ write_string role_name ∷ []

  -- What a handler does after CheckValidToken: it ends there on an error.
  abbrev pub unless_error {ℓ} :
      {A : Type ℓ} → (List (Call Time) → A) → A → List (Call Time) × Option String → A
  unless_error stop go (calls, none) = go
  unless_error stop go (calls, some _) = stop calls

  -- Handles requests for the role's name; the token map is read twice.
  unfoldable pub get_role_name : String → Request → Moment → Moment → List (Call Time)
  get_role_name role_name r checked found =
      if not (r.method == "GET")
      then write_header 405 ∷ []
      else unless_error (λ calls. calls) (name_role role_name (ttl_seconds r found))
          (check_valid_token r checked)

  -- The credential that Serve and the handler store, from what GenerateCredentials returned.
  abbrev pub stored_cred : CredentialProcessOutput → Time → RefreshableCred Time
  stored_cred out updated = record {
    access_key_id = out.access_key_id;
    secret_access_key = out.secret_access_key;
    token = out.session_token;
    code = refreshable_cred_code;
    type = refreshable_cred_type;
    expiration = parse_rfc3339 out.expiration;
    last_updated = updated;
  }

  -- time.Until(cred.Expiration.Add(-RefreshTime)) < RefreshTime
  unfoldable pub needs_refresh : RefreshableCred Time → Time → Bool
  needs_refresh cred now = ltb_ℤ (sub (add cred.expiration minus_refresh_time) now) refresh_time

  -- What the handlers share through pointers.
  pub record Shared : Type 0 where
    pub cred : RefreshableCred Time
    pub opts : CredentialsOpts

  -- The moments at which the handler reads the clock and the token map.
  pub record Timing : Type 0 where
    pub checked : Moment
    pub asked : Time
    pub updated : Time
    pub found : Moment

  -- The end of the handler for the credentials, from the token's TTL.
  abbrev pub finish : Option String → List (Call Time)
  finish none = write_header 401 ∷ []
  finish (some ttl) = set_header token_ttl_header ttl ∷ []

  -- Encodes the credential; an error ends the handler.
  pub encode : Request → RefreshableCred Time → Moment → List (Call Time)
  encode r cred found =
      if encodes cred
      then encode_json cred ∷ finish (ttl_seconds r found)
      else write_header 500 ∷ write_string "failed to encode credentials" ∷ []

  -- The branch that refreshes: an error of GenerateCredentials is logged, and its output used.
  pub refresh : Request → Timing → Shared → CredentialsOpts × Generated → Shared × List (Call Time)
  unfolding encode
  refresh r at s (opts, panicked) = (record s { opts = opts }, abort ∷ [])
  refresh r at s (opts, returned (out, _)) = (
    record { cred = stored_cred out at.updated; opts = opts },
    encode r (stored_cred out at.updated) at.found,
  )

  module _ (env : Environment) (signer : Signer) (algorithm : String) where
    -- Handles requests for the credentials.
    unfoldable pub get_credentials : Request → Timing → Shared → Shared × List (Call Time)
    get_credentials r at s =
        if not (r.method == "GET")
        then (s, write_header 405 ∷ [])
        else unless_error (λ calls. (s, calls))
            (if needs_refresh s.cred at.asked
              then refresh r at s (generate_credentials env s.opts signer algorithm)
              else (s, encode r s.cred at.found))
            (check_valid_token r at.checked)
