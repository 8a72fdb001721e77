-- ===== src/Pkcs11/PinLaws.antt =====
-- The loop that asks for a PIN.
use rolesanywhere_credential.Prelude.{
  ℕ, ◌≡◌, refl, ap, inl, inr, String, List, [], ◌∷◌, Option, none, some, map, Bool-cases,
}
use rolesanywhere_credential.Results.{Result, ok, err}
use rolesanywhere_credential.Pkcs11.{Event, UserType, logged_in, Device}
use rolesanywhere_credential.Pkcs11.Calls.{
  World, Run, done, panics, waits, M, continue, login, login_result,
}
use rolesanywhere_credential.Pkcs11.Pin.{tried, pin_loop, prompt_on, pkcs11_password_prompt}

module _ {Uri : Type 0} (d : Device Uri) (session : ℕ) (user : UserType)
    (final : String → String) where
  -- However often the terminal cannot be read, the loop asks again: it waits as long as every
  -- reading fails, and logs in to nothing.
  pub pin_loop_waits :
      (errors : List String) (w : World)
      → pin_loop d session user final (map err errors) w ≡ waits (record w { entries = [] })
  unfolding pin_loop
  pin_loop_waits [] w = refl
  pin_loop_waits (e ∷ errors) w = pin_loop_waits errors w

  -- The calls before a PIN was returned: a login was the last of them.
  abbrev pub LoggedInLast : List Event → List Event → Type 0
  LoggedInLast before after = after ≡ logged_in session user ∷ before

  -- A PIN is returned by a login that succeeded, the only call that is recorded; an error leaves
  -- the calls as they were.
  abbrev pub IsPinned : World → Run (Result String) → Type 0
  IsPinned w (done (ok pin) w') = w'.events ≡ logged_in session user ∷ w.events
  IsPinned w (done (err e) w') = w'.events ≡ w.events
  IsPinned w (panics w') = ⊥
  IsPinned w (waits w') = w'.events ≡ w.events

  tried-IsPinned :
      (w w' : World) (pin : String) (again : M (Result String)) (e : Option String)
      → w'.events ≡ w.events
      → IsPinned w (again w')
      → IsPinned w
          (continue (login_result d session user e w') (tried d session user final pin again))
  unfolding login_result tried
  tried-IsPinned w w' pin again none same h = ap (λ t. logged_in session user ∷ t) same
  tried-IsPinned w w' pin again (some e) same h =
      elim (Bool-cases (d.contains e "CKR_PIN_INCORRECT")) [ inl t ↦ rw t h | inr t ↦ rw t same ]

  pin_loop-IsPinned :
      (entries : List (Result String)) (w w' : World)
      → w'.events ≡ w.events
      → IsPinned w (pin_loop d session user final entries w')
  unfolding pin_loop login
  pin_loop-IsPinned [] w w' same = same
  pin_loop-IsPinned (err e ∷ rest) w w' same = pin_loop-IsPinned rest w w' same
  pin_loop-IsPinned (ok pin ∷ rest) w w' same =
      tried-IsPinned w (record w' { entries = rest }) pin (pin_loop d session user final rest)
        (d.login w'.events session user pin) same
        (pin_loop-IsPinned rest w (record w' { entries = rest }) same)

  prompt_on-IsPinned :
      (r s : Option String) (w : World) → IsPinned w (prompt_on d session user final r s w)
  unfolding prompt_on
  prompt_on-IsPinned (some e) s w = refl
  prompt_on-IsPinned none (some e) w = refl
  prompt_on-IsPinned none none w = pin_loop-IsPinned w.entries w w refl

  pub pkcs11_password_prompt-IsPinned :
      (w : World) → IsPinned w (pkcs11_password_prompt d session user final w)
  unfolding pkcs11_password_prompt
  pkcs11_password_prompt-IsPinned w = prompt_on-IsPinned d.tty_read d.tty_write w
