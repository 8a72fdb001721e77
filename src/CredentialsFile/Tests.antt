-- ===== src/CredentialsFile/Tests.antt =====
-- Updates of concrete files.
use rolesanywhere_credential.Prelude.{◌≡◌, refl, ℕ, [], ◌∷◌, ◌++◌, map}
use rolesanywhere_credential.CredentialsFile.{
  TemporaryCredential, unvisited, end_line, copy_lines, profile_section, missing_lines,
  write_section, write_lines, get_new_credentials_file_contents,
}
use rolesanywhere_credential.CredentialsFile.Sections.{replaced, visit_all, updated_section}
use rolesanywhere_credential.CredentialsFile.Loss.{last_line_dropped}

contents : Unit {0}
unfolding get_new_credentials_file_contents write_lines write_section copy_lines missing_lines
contents = tt

abbrev fresh : TemporaryCredential ℕ
fresh = record {
  access_key_id = "A2";
  secret_access_key = "S2";
  session_token = "T2";
  expiration = 5;
}

update_test :
    get_new_credentials_file_contents "dev" fresh
      ("[dev]" ∷ "region = x" ∷ "aws_access_key_id = A1" ∷ "[b]" ∷ "k = v" ∷ [])
    ≡ "[dev]\n" ∷ "region = x\n" ∷ "aws_access_key_id = A2\n" ∷ "aws_secret_access_key = S2\n"
      ∷ "aws_session_token = T2\n" ∷ "[b]\n" ∷ "k = v\n" ∷ []
unfolding contents
update_test = refl

-- The setting `region = x`, the last line of the file, is lost.
loss_test :
    get_new_credentials_file_contents "dev" fresh
      ("[dev]" ∷ "aws_access_key_id = A1" ∷ "region = x" ∷ [])
    ≡ "[dev]\n" ∷ "aws_access_key_id = A2\n" ∷ "aws_secret_access_key = S2\n"
      ∷ "aws_session_token = T2\n" ∷ []
unfolding contents
loss_test = refl

updated_section_example :
    get_new_credentials_file_contents "dev" fresh
      (("[a]" ∷ []) ++ profile_section "dev" fresh ∷ (("region = x" ∷ []) ++ "[b]" ∷ "k = v" ∷ []))
    ≡ map end_line ("[a]" ∷ [])
      ++ end_line (profile_section "dev" fresh)
        ∷ (map (replaced "dev" fresh) ("region = x" ∷ [])
            ++ (missing_lines "dev" fresh (visit_all "dev" fresh unvisited ("region = x" ∷ []))
                ++ map end_line ("[b]" ∷ "k = v" ∷ [])))
updated_section_example =
    updated_section "dev" fresh ("[a]" ∷ []) ("region = x" ∷ []) "[b]" "k = v" [] (refl, tt)
      (refl, tt) refl

last_line_dropped_example :
    get_new_credentials_file_contents "dev" fresh
      ([] ++ profile_section "dev" fresh ∷ (("aws_access_key_id = A1" ∷ []) ++ "region = x" ∷ []))
    ≡ map end_line []
      ++ end_line (profile_section "dev" fresh)
        ∷ (map (replaced "dev" fresh) ("aws_access_key_id = A1" ∷ [])
            ++ missing_lines "dev" fresh
                (visit_all "dev" fresh unvisited ("aws_access_key_id = A1" ∷ [])))
last_line_dropped_example =
    last_line_dropped "dev" fresh [] ("aws_access_key_id = A1" ∷ []) "region = x" tt (refl, tt)
