-- ===== src/CredentialsFile/Loss.antt =====
-- What an update does to a file that ends within the profile's section: its last line is lost.
use rolesanywhere_credential.Prelude.{◌≡◌, ap, ◌∙◌, String, List, [], ◌∷◌, ◌++◌, All, map}
use rolesanywhere_credential.CredentialsFile.{
  TemporaryCredential, unvisited, end_line, profile_section, missing_lines, write_section,
  new_profile, add_profile, get_new_credentials_file_contents,
}
use rolesanywhere_credential.CredentialsFile.Sections.{
  IsInSection, IsOther, replaced, visit_all, prepend, profile_lines, write_lines-append,
  write_lines-section,
}

module _ {Time : Type 0} (profile_name : String) (cred : TemporaryCredential Time) where
  -- If the profile's section is the last of the file and has at least one line, then the new
  -- contents do not depend on the last line of the file, whatever it says: it is dropped, also
  -- where it is another setting of the profile or begins another section.
  pub last_line_dropped :
      (before body : List String) (last : String)
      → All (IsOther profile_name cred) before
      → All IsInSection body
      → get_new_credentials_file_contents profile_name cred
          (before ++ profile_section profile_name cred ∷ (body ++ last ∷ []))
        ≡ map end_line before
          ++ end_line (profile_section profile_name cred)
            ∷ (map (replaced profile_name cred) body
                ++ missing_lines profile_name cred (visit_all profile_name cred unvisited body))
  unfolding get_new_credentials_file_contents write_section
  last_line_dropped before body last hb hs =
      ap (add_profile profile_name cred) (profile_lines profile_name cred before body last [] hb hs)

  -- If the profile's section line is the last line of the file, then the section is written a
  -- second time, with the credential.
  pub section_line_twice :
      (before : List String)
      → All (IsOther profile_name cred) before
      → get_new_credentials_file_contents profile_name cred
          (before ++ profile_section profile_name cred ∷ [])
        ≡ (map end_line before ++ end_line (profile_section profile_name cred) ∷ [])
          ++ new_profile profile_name cred ∷ []
  unfolding get_new_credentials_file_contents write_section
  section_line_twice before hb = ap (add_profile profile_name cred) (
      write_lines-append profile_name cred before _ hb
      ∙ ap (prepend profile_name cred (map end_line before))
          (write_lines-section profile_name cred []))
