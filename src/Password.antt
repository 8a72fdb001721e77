-- ===== src/Password.antt =====
-- Asking for a password on the terminal: GetPassword and PasswordPrompt of
-- aws_signing_helper/signer.go. What the user enters is a list, an entry for each reading of the
-- terminal, which may fail; the prompt still waits where the list ends.
pub mod Laws
mod Tests
use rolesanywhere_credential.Prelude.{
  Bool, String, List, [], ◌∷◌, Option, none, some, if◌then◌else◌, ◌==◌,
}
use rolesanywhere_credential.Results.{Result, ok, err}

pub record PasswordPromptProps (A : Type 0) : Type 0 where
  pub initial_password : String
  pub no_password : Bool
  pub check_password : String → Result A
  pub incorrect_password_msg : String
  pub prompt : String
  pub reprompt : String
  pub parse_err_msg : String
  pub check_password_authorization_error_msg : String

pub data Prompted (A : Type 0) : Type 0 where
  answered : String → A → Prompted A
  failed : String → Prompted A
  waiting : Prompted A

-- GetPassword, without what it prints. The password is what was entered: the text without carriage
-- returns is computed, and dropped.
pub get_password : String → Result String → Result String
get_password parse_err_msg (ok password) = ok password
get_password parse_err_msg (err e) = err parse_err_msg

-- `contains` is strings.Contains.
module _ (contains : String → String → Bool) {A : Type 0} (props : PasswordPromptProps A) where
  -- What follows a check of a password in the loop.
  pub judge : String → Prompted A → Result A → Prompted A
  judge password again (ok a) = answered password a
  judge password again (err e) =
      if contains e props.check_password_authorization_error_msg then again else failed e

  pub enter : (String → Prompted A) → Result String → Prompted A
  enter next (err e) = failed e
  enter next (ok password) = next password

  -- The first prompt, and the loop of prompts again.
  pub password_loop : List (Result String) → Prompted A
  unfolding judge enter get_password
  password_loop [] = waiting
  password_loop (entry ∷ rest) =
      let again = password_loop rest in
      enter (λ password. judge password again (props.check_password password))
        (get_password props.parse_err_msg entry)

  -- A check whose error is returned as it is, or as a message.
  pub check_once : Option String → String → Result A → Prompted A
  check_once message password (ok a) = answered password a
  check_once none password (err e) = failed e
  check_once (some message) password (err e) = failed message

  pub ask : List (Result String) → Prompted A
  unfolding check_once password_loop
  ask entries =
      if props.no_password
      then check_once none "" (props.check_password "")
      else if props.initial_password == ""
      then password_loop entries
      else check_once (some props.incorrect_password_msg) props.initial_password
          (props.check_password props.initial_password)

  -- PasswordPrompt, from the errors of opening the terminal for reading and for writing.
  unfoldable pub password_prompt : Option String → Option String → List (Result String) → Prompted A
  unfolding ask
  password_prompt (some e) tty_write entries = failed props.parse_err_msg
  password_prompt none (some e) entries = failed props.parse_err_msg
  password_prompt none none entries = ask entries
