-- ===== src/Update/Tests.antt =====
-- Runs of the update command in concrete worlds.
use rolesanywhere_credential.Prelude.{
  length, ◌≤◌, ◌≡◌, refl, ◌⊎◌, ◌≢◌, Bool, true, false, String, List, [], ◌∷◌, Option, none, some,
  if◌then◌else◌, ◌==◌, ◌+++◌,
}
use rolesanywhere_credential.Prelude.Int.{ℤ, pos, ◌+ℤ◌}
use rolesanywhere_credential.Results.{Result, ok, err}
use rolesanywhere_credential.Samples.{
  far_clock, sample_signer, sample_credentials, environment, sample_opts,
}
use rolesanywhere_credential.Session.{
  Credentials, to_output, from_pointers, read_answer, configure, call_service, start_session,
  generate_credentials,
}
use rolesanywhere_credential.CredentialsFile.{write_lines, get_new_credentials_file_contents}
use rolesanywhere_credential.Update.{
  FileSystem, World, Event, overwritten, overwrites, slept_until, Ending, stopped, exit, unfinished,
  update_loop, update, write_strings,
}
use rolesanywhere_credential.Update.Once.{update_loop_once}

abbrev files : List String → FileSystem
files lines = record {
  user_home_dir = ok "/root";
  shared_credentials_file = "";
  join = λ a b d. a +++ "/" +++ b +++ "/" +++ d;
  dir = λ path. path;
  mkdir_all = λ path. none;
  open_and_scan = λ path. if path == "/root/.aws/credentials" then ok lines else err "no such file";
  open_to_write = λ path. none;
  write_string = λ before line. none;
  unflushed = λ handed. "";
  flushed = λ handed. "all";
}

abbrev world : Result (List (Option Credentials)) → World
world answer = record { environment = environment answer; files = files ("[a]" ∷ []) }

abbrev good : World
good = world (ok (some sample_credentials ∷ []))

abbrev run : Bool → List World → List (Event ℤ) × Ending
run once worlds =
    update far_clock (λ text. pos 900_000_000_000) (λ t. false) "dev" (ok (sample_signer, "RSA"))
      once worlds sample_opts

-- A disk that is full at the first line.
abbrev full : World
full = record good {
  files = record good.files {
    write_string = λ before line. some "no space left on device";
    unflushed = λ handed. "[a";
  };
}

run_tests :
    (run true (good ∷ good ∷ []) ≡ (overwritten "all" ∷ [], stopped))
    × (run false (good ∷ world (err "denied") ∷ good ∷ [])
        ≡ (overwritten "all" ∷ slept_until (pos 600_000_000_000) ∷ [], exit "denied"))
    × (run true (full ∷ []) ≡ (overwritten "[a" ∷ [], exit "unable to write to credentials file"))
unfolding update write_strings write_lines get_new_credentials_file_contents generate_credentials
    start_session call_service configure read_answer to_output from_pointers ◌+ℤ◌
run_tests = (refl, refl, refl)

update_loop_once_example :
    ((text : String) × (update_loop far_clock
          (λ text. pos 900_000_000_000)
          (λ t. false)
          "dev"
          sample_signer
          "RSA"
          true
          (full ∷ [])
          sample_opts
        ≡ (overwritten text ∷ [], stopped)))
    ⊎ ((texts : List String) × (e : Ending) × (update_loop far_clock
            (λ text. pos 900_000_000_000)
            (λ t. false)
            "dev"
            sample_signer
            "RSA"
            true
            (full ∷ [])
            sample_opts
          ≡ (overwrites texts, e))
        × (length texts ≤ 1)
        × (e ≢ unfinished)
        × (e ≢ stopped))
update_loop_once_example =
    update_loop_once far_clock (λ text. pos 900_000_000_000) (λ t. false) "dev" sample_signer "RSA"
      full [] sample_opts
