-- ===== src/Metadata/Start.antt =====
-- The start of Serve in aws_signing_helper/serve.go, up to the loop of the server. GetSigner comes
-- with the options that it leaves, and net.Listen and http.HandleFunc are the library's.
use rolesanywhere_credential.Prelude.{
  Bool, true, false, String, List, [], ◌∷◌, Option, none, some, if◌then◌else◌, ◌==◌, ◌||◌, ◌+++◌,
}
use rolesanywhere_credential.Results.{Result, ok, err, returned, panicked}
use rolesanywhere_credential.Certificate.{Signer}
use rolesanywhere_credential.Clock.{Clock}
use rolesanywhere_credential.Session.{
  CredentialsOpts, Environment, Generated, Arn, generate_credentials,
}
use rolesanywhere_credential.Metadata.{
  Library, Shared, stored_cred, role_name_of, token_resource_path,
  security_credentials_resource_path,
}

-- http.HandleFunc panics for a path that has a handler.
unfoldable pub is_registered : String → List String → Bool
is_registered path [] = false
is_registered path (other ∷ rest) = let later = is_registered path rest in path == other || later

unfoldable pub are_distinct : List String → Bool
unfolding is_registered
are_distinct [] = true
are_distinct (path ∷ rest) =
    let later = are_distinct rest in if is_registered path rest then false else later

abbrev pub handler_paths : String → List String
handler_paths role_name =
    token_resource_path
    ∷ security_credentials_resource_path
    ∷ (security_credentials_resource_path +++ role_name)
    ∷ []

module _ (c : Clock) (lib : Library c.Time) where
  open c use {Time}

  -- The server with what its handlers share, an exit with a message, or a panic.
  pub data Started : Type 0 where
    serving : Shared c lib → String → Signer → String → Started
    exited : String → Started
    aborted : Started

  module _ (env : Environment)
      (get_signer_of : CredentialsOpts → CredentialsOpts × Result (Signer × String))
      (listen : Option String) (now : Time) where
    abbrev pub listening : Shared c lib → String → Signer → String → Option String → Started
    listening shared role_name signer algorithm none = serving shared role_name signer algorithm
    listening shared role_name signer algorithm (some e) = exited "failed to create listener"

    unfoldable pub with_handlers : Shared c lib → String → Signer → String → Started
    unfolding are_distinct
    with_handlers shared role_name signer algorithm =
        if are_distinct (handler_paths role_name)
        then listening shared role_name signer algorithm listen
        else aborted

    -- An error of GenerateCredentials is dropped, and its output used.
    unfoldable pub with_credentials :
        String → Signer → String → CredentialsOpts × Generated → Started
    with_credentials role_name signer algorithm (opts, panicked) = aborted
    with_credentials role_name signer algorithm (opts, returned (out, e)) =
        with_handlers (record { cred = stored_cred c lib out now; opts = opts }) role_name signer
          algorithm

    unfoldable pub with_signer : String → CredentialsOpts × Result (Signer × String) → Started
    with_signer role_name (opts, err e) = exited e
    with_signer role_name (opts, ok (signer, algorithm)) =
        with_credentials role_name signer algorithm (generate_credentials env opts signer algorithm)

    abbrev pub with_role : CredentialsOpts → Result Arn → Started
    with_role opts (err e) = exited "invalid role ARN"
    with_role opts (ok role_arn) = with_signer (role_name_of role_arn.resource) (get_signer_of opts)

    unfoldable pub serve : CredentialsOpts → Started
    serve opts = with_role opts (env.parse_arn opts.role_arn)
