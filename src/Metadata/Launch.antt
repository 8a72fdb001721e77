-- ===== src/Metadata/Launch.antt =====
-- What the endpoint can be brought to after the start of Serve.
use mathlib.Core.Path.{subst}
use rolesanywhere_credential.Prelude.{
  ◌≡◌, refl, inl, inr, String, [], Option, none, some, Bool-cases,
}
use rolesanywhere_credential.Results.{Result, ok, err, returned, panicked}
use rolesanywhere_credential.Certificate.{Signer}
use rolesanywhere_credential.Clock.{Clock}
use rolesanywhere_credential.Session.{
  CredentialsOpts, CredentialProcessOutput, Environment, Generated, Arn, generate_credentials,
}
use rolesanywhere_credential.Metadata.{Library, RefreshableCred, Shared, stored_cred, role_name_of}
use rolesanywhere_credential.Metadata.System.{System, Reach, IsOutput}
use rolesanywhere_credential.Metadata.Soundness.{IsAssembled, IsSound, Reach-IsSound}
use rolesanywhere_credential.Metadata.Start.{
  are_distinct, handler_paths, Started, serving, exited, aborted, listening, with_handlers,
  with_credentials, with_signer, with_role, serve,
}

module _ (c : Clock) (lib : Library c.Time) (Meets : Environment → Type 0) (env : Environment)
    (met : Meets env) where
  open c use {Time}

  -- The endpoint when its server starts: no tokens, and no handler at work.
  abbrev pub started_at :
      Time
      → RefreshableCred Time
      → (signer : Signer) → (algorithm : String) → System c lib Meets signer algorithm
  started_at at cred signer algorithm = record { now = at; tokens = []; cred = cred; threads = [] }

  started_at-IsSound :
      (at : Time) (cred : RefreshableCred Time) (signer : Signer) (algorithm : String)
      → IsAssembled c lib Meets signer algorithm cred
      → IsSound c lib Meets signer algorithm (started_at at cred signer algorithm)
  started_at-IsSound at cred signer algorithm h = record {
    assembled = h;
    pending = tt;
    distinct = tt;
    lifetimes = tt;
  }

  stored-IsAssembled :
      (out : CredentialProcessOutput) {updated : Time} (signer : Signer) (algorithm : String)
      → IsOutput c lib Meets signer algorithm out
      → IsAssembled c lib Meets signer algorithm (stored_cred c lib out updated)
  stored-IsAssembled out signer algorithm o = record {
    key = (out, o, refl);
    secret = (out, o, refl);
    session = (out, o, refl);
    expires = (out, o, refl);
    code = refl;
    type = refl;
  }

  module _ (get_signer_of : CredentialsOpts → CredentialsOpts × Result (Signer × String))
      (listen : Option String) (now : Time) where
    -- What holds of a server that was started, in every state that it can be brought to.
    abbrev IsServed : Started c lib → Type 0
    IsServed (serving shared role_name signer algorithm) =
        (at : Time) (t : System c lib Meets signer algorithm)
        → Reach c lib Meets signer algorithm (started_at at shared.cred signer algorithm) t
        → IsSound c lib Meets signer algorithm t
    IsServed (exited e) = Unit
    IsServed aborted = Unit

    listening-IsServed :
        (shared : Shared c lib) (role_name : String) (signer : Signer) (algorithm : String)
        (e : Option String)
        → IsAssembled c lib Meets signer algorithm shared.cred
        → IsServed
            (listening c lib env get_signer_of listen now shared role_name signer algorithm e)
    listening-IsServed shared role_name signer algorithm (some e) h = tt
    listening-IsServed shared role_name signer algorithm none h = λ at t r.
        Reach-IsSound c lib Meets signer algorithm
          (started_at-IsSound at shared.cred signer algorithm h) r

    with_handlers-IsServed :
        (shared : Shared c lib) (role_name : String) (signer : Signer) (algorithm : String)
        → IsAssembled c lib Meets signer algorithm shared.cred
        → IsServed
            (with_handlers c lib env get_signer_of listen now shared role_name signer algorithm)
    unfolding with_handlers
    with_handlers-IsServed shared role_name signer algorithm h =
        elim (Bool-cases (are_distinct (handler_paths role_name))) [
          | inl e ↦ rw e (listening-IsServed shared role_name signer algorithm listen h)
          | inr e ↦ rw e tt
        ]

    with_credentials-IsServed :
        (opts : CredentialsOpts) (role_name : String) (signer : Signer) (algorithm : String)
        (g : CredentialsOpts × Generated)
        → generate_credentials env opts signer algorithm ≡ g
        → IsServed
            (with_credentials c lib env get_signer_of listen now role_name signer algorithm g)
    unfolding with_credentials
    with_credentials-IsServed opts role_name signer algorithm (left, panicked) e = tt
    with_credentials-IsServed opts role_name signer algorithm (left, returned (out, problem)) e =
        with_handlers-IsServed (record { cred = stored_cred c lib out now; opts = left }) role_name
          signer algorithm
          (stored-IsAssembled out signer algorithm (record {
            world = env;
            met = met;
            asked = opts;
            left = left;
            error = problem;
            generated = e;
          }))

    with_signer-IsServed :
        (role_name : String) (s : CredentialsOpts × Result (Signer × String))
        → IsServed (with_signer c lib env get_signer_of listen now role_name s)
    unfolding with_signer
    with_signer-IsServed role_name (opts, err e) = tt
    with_signer-IsServed role_name (opts, ok (signer, algorithm)) =
        with_credentials-IsServed opts role_name signer algorithm
          (generate_credentials env opts signer algorithm) refl

    with_role-IsServed :
        (opts : CredentialsOpts) (r : Result Arn)
        → IsServed (with_role c lib env get_signer_of listen now opts r)
    with_role-IsServed opts (err e) = tt
    with_role-IsServed opts (ok role_arn) =
        with_signer-IsServed (role_name_of role_arn.resource) (get_signer_of opts)

    serve-IsServed :
        (opts : CredentialsOpts) → IsServed (serve c lib env get_signer_of listen now opts)
    unfolding serve
    serve-IsServed opts = with_role-IsServed opts (env.parse_arn opts.role_arn)

    -- When Serve has started its server, with no tokens, then in every state that the steps of its
    -- goroutines lead to, in any order, each field of the stored credential comes from what a call of
    -- GenerateCredentials with the signer returned, be it an error's empty output, but not all need
    -- come from the same call; and every token stands in the map once and expires within six hours.
    -- It is assumed that a field is written at once, and that GenerateCredentials meets the worlds
    -- that are given, of which the one at the start is one.
    pub serve_reaches :
        (opts : CredentialsOpts) (shared : Shared c lib) (role_name : String) (signer : Signer)
        (algorithm : String)
        → serve c lib env get_signer_of listen now opts ≡ serving shared role_name signer algorithm
        → (at : Time) (t : System c lib Meets signer algorithm)
        → Reach c lib Meets signer algorithm (started_at at shared.cred signer algorithm) t
        → IsSound c lib Meets signer algorithm t
    serve_reaches opts shared role_name signer algorithm h = subst IsServed h (serve-IsServed opts)
