-- ===== src/Metadata/Handler.antt =====
-- The handler for the credentials, undisturbed, as steps of the endpoint.
use rolesanywhere_credential.Prelude.{◌≡◌, ◌⊎◌, String, List, [], ◌∷◌}
use rolesanywhere_credential.Certificate.{Signer}
use rolesanywhere_credential.Clock.{Clock}
use rolesanywhere_credential.Session.{Environment}
use rolesanywhere_credential.Metadata.{Library, RefreshableCred}
use rolesanywhere_credential.Metadata.System.{System, Write, assign, Reach}

module _ (c : Clock) (lib : Library c.Time) (Meets : Environment → Type 0) (signer : Signer)
    (algorithm : String) where
  open c use {Time}

  abbrev pub assign_all : List (Write Time) → RefreshableCred Time → RefreshableCred Time
  assign_all [] cred = cred
  assign_all (w ∷ writes) cred = assign_all writes (assign w cred)

  -- A state that a handler without interruption leads to: a credential is stored, and nothing else
  -- has changed but that the handler may have been at work.
  pub record IsLedTo (s : System c lib Meets signer algorithm) (cred : RefreshableCred Time)
      (t : System c lib Meets signer algorithm) : Type 0 where
    pub reached : Reach c lib Meets signer algorithm s t
    pub stores : t.cred ≡ cred
    pub same_tokens : t.tokens ≡ s.tokens
    pub same_now : t.now ≡ s.now
    pub at_rest : (t.threads ≡ s.threads) ⊎ (t.threads ≡ [] ∷ s.threads)
