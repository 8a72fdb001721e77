-- ===== src/Pkcs11/Pin.antt =====
-- Asking for a PIN until the module accepts it: pkcs11PasswordPrompt of
-- aws_signing_helper/pkcs11_signer.go. What is printed is left out.
use rolesanywhere_credential.Prelude.{ℕ, String, List, [], ◌∷◌, Option, none, some, if◌then◌else◌}
use rolesanywhere_credential.Results.{Result, ok, err}
use rolesanywhere_credential.Pkcs11.{UserType, Device}
use rolesanywhere_credential.Pkcs11.Calls.{waits, M, ◌>>=◌, pure, login}

module _ {Uri : Type 0} (d : Device Uri) (session : ℕ) (user : UserType)
    (final_auth_err_msg : String → String) where
  -- What follows a login with a PIN.
  unfoldable pub tried : String → M (Result String) → Option String → M (Result String)
  tried pin again none = pure (ok pin)
  tried pin again (some e) =
      if d.contains e "CKR_PIN_INCORRECT" then again else pure (err (final_auth_err_msg e))

  -- The loop. GetPassword fails with its message only, and then the loop goes on.
  unfoldable pub pin_loop : List (Result String) → M (Result String)
  unfolding tried
  pin_loop [] w = waits (record w { entries = [] })
  pin_loop (err e ∷ rest) w = pin_loop rest w
  pin_loop (ok pin ∷ rest) w =
      (login d session user pin >>= tried pin (pin_loop rest)) (record w { entries = rest })

  unfoldable pub prompt_on : Option String → Option String → M (Result String)
  unfolding pin_loop
  prompt_on (some e) tty_write w = pure (err "unable to read PKCS#11 PIN") w
  prompt_on none (some e) w = pure (err "unable to read PKCS#11 PIN") w
  prompt_on none none w = pin_loop w.entries w

  unfoldable pub pkcs11_password_prompt : M (Result String)
  unfolding prompt_on
  pkcs11_password_prompt = prompt_on d.tty_read d.tty_write
