-- ===== src/Password/Laws.antt =====
-- The password that PasswordPrompt returns, and its loop.
use rolesanywhere_credential.Prelude.{
  ◌≡◌, refl, ap, ◌∙◌, inl, inr, Bool, true, String, List, [], ◌∷◌, ◌++◌, Option, none, some, All,
  map, Bool-cases, if◌then◌else◌, ◌==◌,
}
use rolesanywhere_credential.Results.{Result, ok, err}
use rolesanywhere_credential.Password.{
  PasswordPromptProps, Prompted, answered, failed, waiting, get_password, judge, enter,
  password_loop, check_once, ask, password_prompt,
}

module _ (contains : String → String → Bool) {A : Type 0} (props : PasswordPromptProps A) where
  -- An answer carries a password that was checked, and what the check gave.
  abbrev pub IsChecked : Prompted A → Type 0
  IsChecked (answered password a) = props.check_password password ≡ ok a
  IsChecked (failed e) = Unit
  IsChecked waiting = Unit

  judge-IsChecked :
      (password : String) (again : Prompted A) (o : Result A)
      → props.check_password password ≡ o
      → IsChecked again
      → IsChecked (judge contains props password again o)
  unfolding judge
  judge-IsChecked password again (ok a) e h = e
  judge-IsChecked password again (err message) e h =
      elim (Bool-cases (contains message props.check_password_authorization_error_msg)) [
        | inl t ↦ rw t h
        | inr t ↦ rw t tt
      ]

  check_once-IsChecked :
      (message : Option String) (password : String) (o : Result A)
      → props.check_password password ≡ o
      → IsChecked (check_once contains props message password o)
  unfolding check_once
  check_once-IsChecked message password (ok a) e = e
  check_once-IsChecked none password (err _) e = tt
  check_once-IsChecked (some message) password (err _) e = tt

  password_loop-IsChecked :
      (entries : List (Result String)) → IsChecked (password_loop contains props entries)
  unfolding password_loop enter get_password
  password_loop-IsChecked [] = tt
  password_loop-IsChecked (err e ∷ rest) = tt
  password_loop-IsChecked (ok password ∷ rest) =
      judge-IsChecked password (password_loop contains props rest) (props.check_password password)
        refl (password_loop-IsChecked rest)

  ask-IsChecked : (entries : List (Result String)) → IsChecked (ask contains props entries)
  unfolding ask
  ask-IsChecked entries = elim (Bool-cases props.no_password) [
    | inl n ↦ rw n (check_once-IsChecked none "" (props.check_password "") refl)
    | inr n ↦ elim (Bool-cases (props.initial_password == "")) [
      | inl i ↦ rw (n, i) (password_loop-IsChecked entries)
      | inr i ↦
          rw (n, i)
            (check_once-IsChecked (some props.incorrect_password_msg) props.initial_password
              (props.check_password props.initial_password) refl)
    ]
  ]

  -- A password that PasswordPrompt returns has passed the check, and what it returns beside it is
  -- what the check gave, whether there was no password, one given beforehand or one entered.
  pub password_prompt-IsChecked :
      (tty_read tty_write : Option String) (entries : List (Result String))
      → IsChecked (password_prompt contains props tty_read tty_write entries)
  unfolding password_prompt
  password_prompt-IsChecked (some e) tty_write entries = tt
  password_prompt-IsChecked none (some e) entries = tt
  password_prompt-IsChecked none none entries = ask-IsChecked entries

  -- A password that the check refuses for its authorization.
  abbrev pub IsRefused : String → Type 0
  IsRefused password =
      (e : String) × (props.check_password password ≡ err e)
      × (contains e props.check_password_authorization_error_msg ≡ true)

  -- However many passwords are refused, the loop prompts again, and ends at the first one that is
  -- accepted.
  pub password_loop_ends :
      (refused : List String) (password : String) (rest : List (Result String)) {a : A}
      → All IsRefused refused
      → props.check_password password ≡ ok a
      → password_loop contains props (map ok refused ++ (ok password ∷ rest)) ≡ answered password a
  unfolding password_loop judge enter get_password
  password_loop_ends [] password rest h accepted = rw accepted refl
  password_loop_ends (w ∷ refused) password rest (r, h) accepted =
      ap
        (judge contains props w
          (password_loop contains props (map ok refused ++ (ok password ∷ rest))))
        r.1
      ∙ ap
          (λ t.
            if t
            then password_loop contains props (map ok refused ++ (ok password ∷ rest))
            else failed r.0)
          r.2
      ∙ password_loop_ends refused password rest h accepted
