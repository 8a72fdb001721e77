-- ===== src/CredentialsFile/Sections.antt =====
-- What the new contents are, section by section.
use rolesanywhere_credential.Prelude.{
  ◌≡◌, refl, ap, ◌∙◌, Bool, true, false, String, List, [], ◌∷◌, ◌++◌, All, if◌then◌else◌, ◌==◌,
  starts_with, Bool-cases, inl, inr, eq_refl, map,
}
use rolesanywhere_credential.CredentialsFile.{
  TemporaryCredential, Visits, unvisited, end_line, copy_lines, profile_section, access_key,
  secret_key, session_token, missing_lines, write_section, write_lines, new_profile, add_profile,
  get_new_credentials_file_contents,
}

-- A line that does not begin another section.
abbrev pub IsInSection : String → Type 0
IsInSection line = starts_with line "[" ≡ false

pub copy_lines_lem : (lines : List String) → copy_lines lines ≡ map end_line lines
unfolding copy_lines
copy_lines_lem [] = refl
copy_lines_lem (line ∷ rest) = ap (λ l. end_line line ∷ l) (copy_lines_lem rest)

module _ {Time : Type 0} (profile_name : String) (cred : TemporaryCredential Time) where
  -- A line of the section after the update: the three lines of the credential are replaced.
  abbrev pub replaced : String → String
  replaced line =
      if starts_with line "aws_access_key_id"
      then access_key profile_name cred
      else if starts_with line "aws_secret_access_key"
      then secret_key profile_name cred
      else if starts_with line "aws_session_token"
      then session_token profile_name cred
      else end_line line

  -- The lines of the credential that have been met, after one line and after several.
  abbrev pub visit : Visits → String → Visits
  visit v line =
      if starts_with line "aws_access_key_id"
      then record v { aws_access_key_id = true }
      else if starts_with line "aws_secret_access_key"
      then record v { aws_secret_access_key = true }
      else if starts_with line "aws_session_token"
      then record v { aws_session_token = true }
      else v

  abbrev pub visit_all : Visits → List String → Visits
  visit_all v [] = v
  visit_all v (line ∷ rest) = visit_all (visit v line) rest

  write_section-cons :
      (v : Visits) (line next : String) (rest : List String)
      → IsInSection line
      → write_section profile_name cred v (line ∷ next ∷ rest) ≡ (
        replaced line ∷ (write_section profile_name cred (visit v line) (next ∷ rest)).0,
        (write_section profile_name cred (visit v line) (next ∷ rest)).1,
      )
  unfolding write_section
  write_section-cons v line next rest h = elim (Bool-cases (starts_with line "aws_access_key_id")) [
    | inl a ↦ rw (h, a)
    | inr a ↦ elim (Bool-cases (starts_with line "aws_secret_access_key")) [
      | inl b ↦ rw (h, a, b)
      | inr b ↦ elim (Bool-cases (starts_with line "aws_session_token")) [
        | inl d ↦ rw (h, a, b, d)
        | inr d ↦ rw (h, a, b, d)
      ]
    ]
  ]

  abbrev pub prepend : List String → List String × Bool → List String × Bool
  prepend lines (written, exist) = (lines ++ written, exist)

  -- The lines of a section, in front of further lines.
  write_section-append :
      (v : Visits) (body : List String) (line : String) (rest : List String)
      → All IsInSection body
      → write_section profile_name cred v (body ++ line ∷ rest)
        ≡ prepend
            (map replaced body)
            (write_section profile_name cred (visit_all v body) (line ∷ rest))
  write_section-append v [] line rest h = refl
  write_section-append v (b ∷ []) line rest (hb, h) = write_section-cons v b line rest hb
  write_section-append v (b ∷ b' ∷ body) line rest (hb, h) =
      write_section-cons v b b' (body ++ line ∷ rest) hb
      ∙ ap (prepend (replaced b ∷ [])) (write_section-append (visit v b) (b' ∷ body) line rest h)

  abbrev pub IsOther : String → Type 0
  IsOther line = (line == profile_section profile_name cred) ≡ false

  -- The lines before the profile's section.
  pub write_lines-append :
      (before rest : List String)
      → All IsOther before
      → write_lines profile_name cred (before ++ rest)
        ≡ prepend (map end_line before) (write_lines profile_name cred rest)
  unfolding write_lines
  write_lines-append [] rest h = refl
  write_lines-append (line ∷ before) rest (other, h) =
      rw other (ap (prepend (end_line line ∷ [])) (write_lines-append before rest h))

  pub write_lines-section :
      (rest : List String)
      → write_lines profile_name cred (profile_section profile_name cred ∷ rest)
        ≡ prepend
            (end_line (profile_section profile_name cred) ∷ [])
            (write_section profile_name cred unvisited rest)
  unfolding write_lines
  write_lines-section rest = rw (eq_refl (profile_section profile_name cred))

  write_section_stop :
      (v : Visits) (section next : String) (after : List String)
      → starts_with section "[" ≡ true
      → write_section profile_name cred v (section ∷ next ∷ after)
        ≡ (missing_lines profile_name cred v ++ map end_line (section ∷ next ∷ after), true)
  unfolding write_section
  write_section_stop v section next after h = rw h (
      ap (λ l. (missing_lines profile_name cred v ++ l, true))
        (copy_lines_lem (section ∷ next ∷ after)))

  -- A file with the profile's section, up to a line behind the section's own lines.
  pub profile_lines :
      (before body : List String) (line : String) (rest : List String)
      → All IsOther before
      → All IsInSection body
      → write_lines profile_name cred
          (before ++ profile_section profile_name cred ∷ (body ++ line ∷ rest))
        ≡ prepend (map end_line before) (
            prepend (end_line (profile_section profile_name cred) ∷ []) (
              prepend
                (map replaced body)
                (write_section profile_name cred (visit_all unvisited body) (line ∷ rest))))
  profile_lines before body line rest hb hs =
      write_lines-append before _ hb
      ∙ ap (prepend (map end_line before)) (
          write_lines-section (body ++ line ∷ rest)
          ∙ ap (prepend (end_line (profile_section profile_name cred) ∷ []))
              (write_section-append unvisited body line rest hs))

  -- Of a file with the profile's section and another section with at least one line behind it,
  -- the new contents are the same lines with their line ends, but that in the section every line
  -- of the credential is replaced by the new one, and that the lines of the credential which the
  -- section lacked stand at its end.
  pub updated_section :
      (before body : List String) (section next : String) (after : List String)
      → All IsOther before
      → All IsInSection body
      → starts_with section "[" ≡ true
      → get_new_credentials_file_contents profile_name cred
          (before ++ profile_section profile_name cred ∷ (body ++ section ∷ next ∷ after))
        ≡ map end_line before
          ++ end_line (profile_section profile_name cred)
            ∷ (map replaced body
                ++ (missing_lines profile_name cred (visit_all unvisited body)
                    ++ map end_line (section ∷ next ∷ after)))
  unfolding get_new_credentials_file_contents
  updated_section before body section next after hb hs bracket =
      ap (add_profile profile_name cred) (
        profile_lines before body section (next ∷ after) hb hs
        ∙ ap
            (λ r. prepend (map end_line before) (
              prepend (end_line (profile_section profile_name cred) ∷ [])
                (prepend (map replaced body) r)))
            (write_section_stop (visit_all unvisited body) section next after bracket))

  write_lines_absent :
      (lines : List String)
      → All IsOther lines
      → write_lines profile_name cred lines ≡ (map end_line lines, false)
  unfolding write_lines
  write_lines_absent [] h = refl
  write_lines_absent (line ∷ rest) (other, h) =
      rw other (ap (prepend (end_line line ∷ [])) (write_lines_absent rest h))

  -- If no line is the profile's section line, then the new contents are the same lines with their
  -- line ends, and a section with the credential behind them.
  pub added_section :
      (lines : List String)
      → All IsOther lines
      → get_new_credentials_file_contents profile_name cred lines
        ≡ map end_line lines ++ new_profile profile_name cred ∷ []
  unfolding get_new_credentials_file_contents
  added_section lines h = ap (add_profile profile_name cred) (write_lines_absent lines h)
