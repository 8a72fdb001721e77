-- ===== src/CredentialsFile.antt =====
-- The shared credentials file: GetNewCredentialsFileContents of aws_signing_helper/update.go.
-- A line read from the file has no line end; a line to be written has one.
pub mod Sections
pub mod Loss
mod Tests
use rolesanywhere_credential.Prelude.{
  Bool, true, false, String, List, [], ◌∷◌, ◌++◌, if◌then◌else◌, ◌==◌, ◌+++◌, starts_with,
}

pub record TemporaryCredential (Time : Type 0) : Type 0 where
  pub access_key_id : String
  pub secret_access_key : String
  pub session_token : String
  pub expiration : Time

-- The map `newCredVisit`: which of the three lines have been written.
pub record Visits : Type 0 where
  pub aws_access_key_id : Bool
  pub aws_secret_access_key : Bool
  pub aws_session_token : Bool

abbrev pub unvisited : Visits
unvisited = record {
  aws_access_key_id = false;
  aws_secret_access_key = false;
  aws_session_token = false;
}

abbrev pub end_line : String → String
end_line line = line +++ "\n"

-- The outer loop once the profile has been written: the lines are copied.
pub copy_lines : List String → List String
copy_lines [] = []
copy_lines (line ∷ rest) = end_line line ∷ copy_lines rest

module _ {Time : Type 0} (profile_name : String) (cred : TemporaryCredential Time) where
  abbrev pub profile_section : String
  profile_section = "[" +++ profile_name +++ "]"

  abbrev pub access_key : String
  access_key = "aws_access_key_id = " +++ cred.access_key_id +++ "\n"

  abbrev pub secret_key : String
  secret_key = "aws_secret_access_key = " +++ cred.secret_access_key +++ "\n"

  abbrev pub session_token : String
  session_token = "aws_session_token = " +++ cred.session_token +++ "\n"

  -- The lines that have not been written when the section ends.
  abbrev pub unless_visited : Bool → String → List String → List String
  unless_visited true line lines = lines
  unless_visited false line lines = line ∷ lines

  pub missing_lines : Visits → List String
  missing_lines v = unless_visited v.aws_access_key_id access_key (
      unless_visited v.aws_secret_access_key secret_key
        (unless_visited v.aws_session_token session_token []))

  -- The inner loop, over the lines behind the profile's section line, and the outer loop behind
  -- it: what is written, and the flag `profileExist`. At the last line of the file the index is
  -- not set back, so the outer loop does not meet that line.
  pub write_section : Visits → List String → List String × Bool
  unfolding copy_lines missing_lines
  write_section v [] = ([], false)
  write_section v (line ∷ []) = (missing_lines v, true)
  write_section v (line ∷ next ∷ rest) =
      let as_access_key = write_section (record v { aws_access_key_id = true }) (next ∷ rest) in
      let as_secret_key = write_section (record v { aws_secret_access_key = true }) (next ∷ rest) in
      let as_session_token = write_section (record v { aws_session_token = true }) (next ∷ rest) in
      let as_other = write_section v (next ∷ rest) in
      if starts_with line "["
      then (missing_lines v ++ copy_lines (line ∷ next ∷ rest), true)
      else if starts_with line "aws_access_key_id"
      then (access_key ∷ as_access_key.0, as_access_key.1)
      else if starts_with line "aws_secret_access_key"
      then (secret_key ∷ as_secret_key.0, as_secret_key.1)
      else if starts_with line "aws_session_token"
      then (session_token ∷ as_session_token.0, as_session_token.1)
      else (end_line line ∷ as_other.0, as_other.1)

  -- The outer loop while the profile has not been met.
  unfoldable pub write_lines : List String → List String × Bool
  unfolding write_section
  write_lines [] = ([], false)
  write_lines (line ∷ rest) =
      let section = write_section unvisited rest in
      let later = write_lines rest in
      if line == profile_section
      then (end_line profile_section ∷ section.0, section.1)
      else (end_line line ∷ later.0, later.1)

  abbrev pub new_profile : String
  new_profile = (profile_section +++ "\n" +++ access_key +++ secret_key +++ session_token) +++ "\n"

  -- A profile that was not met is added at the end.
  abbrev pub add_profile : List String × Bool → List String
  add_profile (written, profile_exist) =
      if profile_exist then written else written ++ new_profile ∷ []

  -- GetNewCredentialsFileContents.
  unfoldable pub get_new_credentials_file_contents : List String → List String
  get_new_credentials_file_contents read_lines = add_profile (write_lines read_lines)
