-- ===== src/Password/Tests.antt =====
-- A prompt for a password that is "secret".
use rolesanywhere_credential.Prelude.{false, String, [], ◌∷◌, none, if◌then◌else◌, ◌==◌}
use rolesanywhere_credential.Results.{ok, err}
use rolesanywhere_credential.Password.{PasswordPromptProps, password_prompt}
use rolesanywhere_credential.Password.Laws.{IsChecked, password_prompt-IsChecked}

abbrev props : PasswordPromptProps String
props = record {
  initial_password = "";
  no_password = false;
  check_password = λ s. if s == "secret" then ok "session" else err "auth";
  incorrect_password_msg = "incorrect password";
  prompt = "Please enter your password:";
  reprompt = "Incorrect password. Please try again:";
  parse_err_msg = "unable to read your password";
  check_password_authorization_error_msg = "auth";
}

password_prompt-IsChecked_example :
    IsChecked
      (λ s t. s == t)
      props
      (password_prompt (λ s t. s == t) props none none (ok "secret" ∷ []))
password_prompt-IsChecked_example =
    password_prompt-IsChecked (λ s t. s == t) props none none (ok "secret" ∷ [])
