-- ===== src/Pkcs11/Calls.antt =====
-- Calls of a PKCS#11 module as a monad: each passes on the world, and may panic or wait for the
-- terminal without end.
use rolesanywhere_credential.Prelude.{
  ℕ, Bool, String, List, [], ◌∷◌, ◌++◌, Option, none, some, length, ltb, if◌then◌else◌, ◌==◌, ◌+++◌,
  eqb,
}
use rolesanywhere_credential.Results.{Result, ok, err}
use rolesanywhere_credential.Pkcs11.{
  Template, Event, opened, closed, logged_in, logged_out, searched, finalized, Device, UserType,
}

-- The calls made so far, and what the user will enter.
pub record World : Type 0 where
  pub events : List Event
  pub entries : List (Result String)

pub data Run (A : Type 0) : Type 0 where
  done : A → World → Run A
  panics : World → Run A
  waits : World → Run A

abbrev pub M : Type 0 → Type 0
M A = World → Run A

abbrev pub continue : {A B : Type 0} → Run A → (A → M B) → Run B
continue (done a w) f = f a w
continue (panics w) f = panics w
continue (waits w) f = waits w

infixl 5 ◌>>=◌ ◌>>◌
abbrev pub ◌>>=◌ : {A B : Type 0} → M A → (A → M B) → M B
◌>>=◌ m f w = continue (m w) f

abbrev pub ◌>>◌ : {B : Type 0} → M (Unit {0}) → M B → M B
m >> k = m >>= λ _. k

abbrev pub pure : {A : Type 0} → A → M A
pure a w = done a w

-- A call is recorded.
abbrev pub emit : Event → M (Unit {0})
emit e w = done tt (record w { events = e ∷ w.events })

-- The calls before this one.
abbrev pub history : M (List Event)
history w = done w.events w

abbrev pub panic : {A : Type 0} → M A
panic w = panics w

abbrev pub max_object_limit : ℕ
max_object_limit = 1000

-- The loop over FindObjects.
unfoldable pub collect : List (Result (List ℕ)) → Result (List ℕ)
collect [] = ok []
collect (err e ∷ rest) = err e
collect (ok [] ∷ rest) = ok []
collect (ok (o ∷ objects) ∷ rest) = elim (collect rest) [
  | err e ↦ if ltb (length (o ∷ objects)) max_object_limit then ok (o ∷ objects) else err e
  | ok later ↦
      if ltb (length (o ∷ objects)) max_object_limit
      then ok (o ∷ objects)
      else ok (o ∷ objects ++ later)
]

-- How a search ends.
pub data Found : Type 0 where
  init_failed : String → Found
  find_failed : String → Found
  final_failed : String → Found
  objects : List ℕ → Found

unfoldable pub found_of : Option String → Result (List ℕ) → Option String → Found
found_of (some e) batches final = init_failed e
found_of none (err e) final = find_failed e
found_of none (ok os) (some e) = final_failed e
found_of none (ok os) none = objects os

module _ {Uri : Type 0} (d : Device Uri) where
  unfoldable pub find_objects : ℕ → Template → M Found
  unfolding collect found_of
  find_objects session template = do
    h ← history
    let s = d.search h session template
    emit (searched session template)
    pure (found_of s.init (collect s.batches) s.final)

  unfoldable pub opened_session : ℕ → Result ℕ → M (Result ℕ)
  opened_session slot (err e) = pure (err e)
  opened_session slot (ok session) = emit (opened slot session) >> pure (ok session)

  unfoldable pub open_session : ℕ → M (Result ℕ)
  unfolding opened_session
  open_session slot = history >>= λ h. opened_session slot (d.open_session h slot)

  abbrev pub close_session : ℕ → M (Unit {0})
  close_session session = emit (closed session)

  unfoldable pub login_result : ℕ → UserType → Option String → M (Option String)
  login_result session user (some e) = pure (some e)
  login_result session user none = emit (logged_in session user) >> pure none

  unfoldable pub login : ℕ → UserType → String → M (Option String)
  unfolding login_result
  login session user pin = history >>= λ h. login_result session user (d.login h session user pin)

  -- `if session != 0 { if loggedIn { Logout }; CloseSession }`
  abbrev pub log_out_if : Bool → ℕ → M (Unit {0})
  log_out_if b session = if b then emit (logged_out session) else pure tt

  abbrev pub end_session : Bool → ℕ → M (Unit {0})
  end_session is_logged_in session =
      if eqb session 0 then pure tt else (log_out_if is_logged_in session >> close_session session)

  -- Finalize and Destroy.
  abbrev pub finalize : M (Unit {0})
  finalize = emit finalized

  abbrev pub library_name : String → String
  library_name lib =
      if lib == ""
      then (if d.os == "darwin"
          then "p11-kit-proxy.dylib"
          else if d.os == "windows"
          then "p11-kit-proxy.dll"
          else "p11-kit-proxy.so")
      else lib

  abbrev pub initialized : Option String → M (Option String)
  initialized none = pure none
  initialized (some e) = finalize >> pure (some e)

  -- The error, if the module cannot be loaded or initialized.
  unfoldable pub initialize_pkcs11_module : String → M (Option String)
  initialize_pkcs11_module lib =
      if d.load (library_name lib)
      then initialized d.initialize
      else pure (some ("Failed to load provider library " +++ library_name lib))
