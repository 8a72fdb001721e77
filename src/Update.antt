-- ===== src/Update.antt =====
-- The update command: Update, GetCredentialsFileContents, GetWriteOnlyCredentialsFile and WriteTo
-- of aws_signing_helper/update.go. Each round of the loop meets a world of its own: the service's
-- answer and the file system at that time. The loop runs as long as worlds are given.
-- The file is emptied when it is opened for writing, and the lines go through a bufio.Writer: what
-- the file holds after a write that failed, and after Flush, whose error is dropped, is a parameter.
pub mod Writes
pub mod Once
mod Tests
use rolesanywhere_credential.Prelude.{
  ℕ, Bool, true, false, String, List, [], ◌∷◌, Option, none, some, if◌then◌else◌, ◌==◌, ◌&&◌, ◌++◌,
}
use rolesanywhere_credential.Prelude.Int.{ℤ}
use rolesanywhere_credential.Results.{Result, ok, err, Outcome, returned, panicked}
use rolesanywhere_credential.Certificate.{Signer}
use rolesanywhere_credential.Clock.{Clock}
use rolesanywhere_credential.Session.{
  CredentialsOpts, CredentialProcessOutput, Environment, Generated, generate_credentials,
}
use rolesanywhere_credential.Metadata.{minus_refresh_time}
use rolesanywhere_credential.CredentialsFile.{
  TemporaryCredential, get_new_credentials_file_contents,
}

-- The file system and the environment variables, as the program uses them.
pub record FileSystem : Type 0 where
  pub user_home_dir : Result String
  -- The variable AWS_SHARED_CREDENTIALS_FILE, or "".
  pub shared_credentials_file : String
  pub join : String → String → String → String
  pub dir : String → String
  pub mkdir_all : String → Option String
  -- The lines of the file at a path, which is created if need be.
  pub open_and_scan : String → Result (List String)
  -- Opening for writing empties the file.
  pub open_to_write : String → Option String
  -- The error of writing a line through the buffer, behind the lines written before.
  pub write_string : List String → String → Option String
  -- What the emptied file holds when lines were handed to the buffer, a part of their text, and what
  -- it holds after Flush, whose error is dropped.
  pub unflushed : List String → String
  pub flushed : List String → String

-- A step that may return an error, or end the process with status 1.
pub data Ran {ℓ} (A : Type ℓ) : Type ℓ where
  done : A → Ran A
  failed : String → Ran A
  exited : String → Ran A

credentials_path : FileSystem → String → String
credentials_path fs home =
    if fs.shared_credentials_file == ""
    then fs.join home ".aws" "credentials"
    else fs.shared_credentials_file

read_lines : FileSystem → String → Ran (List String)
read_lines fs path = elim (fs.mkdir_all (fs.dir path)) [
  | some e ↦ failed e
  | none ↦ elim (fs.open_and_scan path) [
    | err e ↦ exited "unable to get or create read-only AWS credentials file"
    | ok lines ↦ done lines
  ]
]

pub get_credentials_file_contents : FileSystem → Ran (List String)
unfolding read_lines credentials_path
get_credentials_file_contents fs = elim fs.user_home_dir [
  | err e ↦ failed e
  | ok home ↦ read_lines fs (credentials_path fs home)
]

-- The path that GetWriteOnlyCredentialsFile opens: an error of the home directory is dropped.
write_path : FileSystem → String
unfolding credentials_path
write_path fs = elim fs.user_home_dir [
  | err e ↦ credentials_path fs ""
  | ok home ↦ credentials_path fs home
]

-- The loop of WriteTo over the lines and its Flush, behind the lines written before, with what the
-- file holds in the end.
pub write_strings : FileSystem → List String → List String → String × Ran (Unit {0})
write_strings fs before [] = (fs.flushed before, done tt)
write_strings fs before (line ∷ rest) =
    let later = write_strings fs (before ++ line ∷ []) rest in
    elim (fs.write_string before line) [
      | some e ↦ (fs.unflushed (before ++ line ∷ []), exited "unable to write to credentials file")
      | none ↦ later
    ]

-- WriteTo, from the new contents and the error of opening the file; with what the file holds in the
-- end, if it was opened and so emptied.
pub write_opened : FileSystem → List String → Option String → List String × Ran (Unit {0})
unfolding write_strings
write_opened fs contents (some e) = ([], exited "unable to get write-only AWS credentials file")
write_opened fs contents none =
    let (text, outcome) = write_strings fs [] contents in (text ∷ [], outcome)

pub write_to : FileSystem → List String → List String × Ran (Unit {0})
unfolding write_opened write_path
write_to fs contents = write_opened fs contents (fs.open_to_write (write_path fs))

pub record World : Type 0 where
  pub environment : Environment
  pub files : FileSystem

-- What the loop does to the outside: what the file holds after each time it was opened for writing,
-- and its sleeps.
pub data Event (Time : Type 0) : Type 0 where
  overwritten : String → Event Time
  slept_until : Time → Event Time

pub data Ending : Type 0 where
  stopped : Ending
  exit : String → Ending
  crash : Ending
  unfinished : Ending

-- The end of a round, with what the file holds if it was overwritten: the process ends, or it goes
-- on until a credential's expiration.
pub data Round (Time : Type 0) : Type 0 where
  ended : List String → Ending → Round Time
  stored : List String → Time → Round Time

abbrev pub overwrites : {Time : Type 0} → List String → List (Event Time)
overwrites [] = []
overwrites (text ∷ texts) = overwritten text ∷ overwrites texts

module _ (c : Clock) (parse_rfc3339 : String → c.Time) (is_zero_time : c.Time → Bool)
    (profile : String) where
  open c use {Time, add}

  abbrev pub temporary_credential : CredentialProcessOutput → TemporaryCredential Time
  temporary_credential out = record {
    access_key_id = out.access_key_id;
    secret_access_key = out.secret_access_key;
    session_token = out.session_token;
    expiration = parse_rfc3339 out.expiration;
  }

  -- refreshableCred == TemporaryCredential{}
  abbrev pub is_empty : TemporaryCredential Time → Bool
  is_empty cred =
      cred.access_key_id == ""
      && cred.secret_access_key == ""
      && cred.session_token == ""
      && is_zero_time cred.expiration

  -- What Update makes of the outcome of WriteTo.
  pub written_round : Time → List String × Ran (Unit {0}) → Round Time
  written_round expiration (texts, failed e) =
      ended texts (exit "unable to write to AWS credentials file")
  written_round expiration (texts, exited e) = ended texts (exit e)
  written_round expiration (texts, done _) = stored texts expiration

  pub read_round : FileSystem → TemporaryCredential Time → Ran (List String) → Round Time
  unfolding written_round write_to
  read_round fs cred (failed e) = ended [] (exit "unable to get credentials file contents")
  read_round fs cred (exited e) = ended [] (exit e)
  read_round fs cred (done lines) =
      written_round cred.expiration
        (write_to fs (get_new_credentials_file_contents profile cred lines))

  -- A round, from what GenerateCredentials returned.
  pub round : FileSystem → Generated → Round Time
  unfolding read_round get_credentials_file_contents
  round fs panicked = ended [] crash
  round fs (returned (out, some e)) = ended [] (exit e)
  round fs (returned (out, none)) =
      if is_empty (temporary_credential out)
      then ended [] (exit "no credentials created")
      else read_round fs (temporary_credential out) (get_credentials_file_contents fs)

  -- What follows a round: with --once the loop ends, else it sleeps until five minutes before the
  -- expiration and goes on.
  pub go_on : Bool → Round Time → List (Event Time) × Ending → List (Event Time) × Ending
  go_on once (ended texts e) rest = (overwrites texts, e)
  go_on once (stored texts expiration) rest =
      if once
      then (overwrites texts, stopped)
      else (overwrites texts ++ slept_until (add expiration minus_refresh_time) ∷ rest.0, rest.1)

  module _ (signer : Signer) (algorithm : String) where
    -- The loop of Update.
    unfoldable pub update_loop : Bool → List World → CredentialsOpts → List (Event Time) × Ending
    unfolding go_on round
    update_loop once [] opts = ([], unfinished)
    update_loop once (w ∷ worlds) opts =
        let (opts', generated) = generate_credentials w.environment opts signer algorithm in
        let rest = update_loop once worlds opts' in go_on once (round w.files generated) rest

  -- Update: without a signer the process ends before the loop.
  unfoldable pub update :
      Result (Signer × String) → Bool → List World → CredentialsOpts → List (Event Time) × Ending
  unfolding update_loop
  update (err e) once worlds opts = ([], exit e)
  update (ok (signer, algorithm)) once worlds opts = update_loop signer algorithm once worlds opts
