-- ===== src/Update/Once.antt =====
-- How a round of the update command ends, and what --once makes of it.
use rolesanywhere_credential.Prelude.{
  length, ◌≤◌, ◌≡◌, refl, ◌≢◌, ◌⊎◌, Bool, true, String, List, [], ◌∷◌, Option, none, some, arith,
  Bool-cases, inl, inr,
}
use rolesanywhere_credential.Results.{returned, panicked}
use rolesanywhere_credential.Certificate.{Signer}
use rolesanywhere_credential.Clock.{Clock}
use rolesanywhere_credential.Session.{CredentialsOpts, Generated, generate_credentials}
use rolesanywhere_credential.Update.{
  FileSystem, Ran, done, failed, exited, World, Event, overwritten, Ending, stopped, unfinished,
  Round, ended, stored, overwrites, get_credentials_file_contents, write_opened, write_to,
  temporary_credential, is_empty, written_round, read_round, round, go_on, update_loop,
}

module _ (c : Clock) (parse_rfc3339 : String → c.Time) (is_zero_time : c.Time → Bool)
    (profile : String) (signer : Signer) (algorithm : String) where
  open c use {Time}

  -- How a round may end: it goes on with the file overwritten once, or the process ends, with the
  -- file overwritten at most once.
  abbrev HasEnded : Round Time → Type 0
  HasEnded (stored texts expiration) = (text : String) × (texts ≡ text ∷ [])
  HasEnded (ended texts e) = (length texts ≤ 1) × (e ≢ unfinished) × (e ≢ stopped)

  written_round-HasEnded :
      (expiration : Time) (text : String) (o : Ran (Unit {0}))
      → HasEnded (written_round c parse_rfc3339 is_zero_time profile expiration (text ∷ [], o))
  unfolding written_round
  written_round-HasEnded expiration text (done _) = (text, refl)
  written_round-HasEnded expiration text (failed e) = (omega arith, λ u. cc, λ u. cc)
  written_round-HasEnded expiration text (exited e) = (omega arith, λ u. cc, λ u. cc)

  write_opened-HasEnded :
      (fs : FileSystem) (expiration : Time) (contents : List String) (o : Option String)
      → HasEnded (
          written_round c parse_rfc3339 is_zero_time profile expiration
            (write_opened fs contents o))
  unfolding write_opened written_round
  write_opened-HasEnded fs expiration contents (some e) = (omega arith, λ u. cc, λ u. cc)
  write_opened-HasEnded fs expiration contents none = written_round-HasEnded expiration _ _

  write_to-HasEnded :
      (fs : FileSystem) (expiration : Time) (contents : List String)
      → HasEnded
          (written_round c parse_rfc3339 is_zero_time profile expiration (write_to fs contents))
  unfolding write_to
  write_to-HasEnded fs expiration contents = write_opened-HasEnded fs expiration contents _

  round-HasEnded :
      (fs : FileSystem) (g : Generated) → HasEnded (round c parse_rfc3339 is_zero_time profile fs g)
  unfolding round read_round
  round-HasEnded fs panicked = (omega arith, λ u. cc, λ u. cc)
  round-HasEnded fs (returned (out, some m)) = (omega arith, λ u. cc, λ u. cc)
  round-HasEnded fs (returned (out, none)) =
      elim (Bool-cases (
        is_empty c parse_rfc3339 is_zero_time profile
          (temporary_credential c parse_rfc3339 is_zero_time profile out))) [
            | inl empty ↦ rw empty (omega arith, λ u. cc, λ u. cc)
            | inr nonempty ↦ rw nonempty (of_lines (get_credentials_file_contents fs))
          ]
    where
      of_lines :
          (r : Ran (List String))
          → HasEnded (
              read_round c parse_rfc3339 is_zero_time profile fs
                (temporary_credential c parse_rfc3339 is_zero_time profile out)
                r)
      of_lines (failed e) = (omega arith, λ u. cc, λ u. cc)
      of_lines (exited e) = (omega arith, λ u. cc, λ u. cc)
      of_lines (done lines) = write_to-HasEnded fs _ _

  go_on_once :
      (r : Round Time) (rest : List (Event Time) × Ending)
      → HasEnded r
      → ((text : String) × (go_on c parse_rfc3339 is_zero_time profile true r rest
            ≡ (overwritten text ∷ [], stopped)))
        ⊎ ((texts : List String) × (e : Ending) × (go_on c parse_rfc3339 is_zero_time profile true r
                rest
              ≡ (overwrites texts, e))
            × (length texts ≤ 1)
            × (e ≢ unfinished)
            × (e ≢ stopped))
  unfolding go_on
  go_on_once (stored texts expiration) rest (text, h) = inl (text, rw h refl)
  go_on_once (ended texts e) rest (one, open_end, fine) = inr (texts, e, refl, one, open_end, fine)

  -- With --once the loop takes one round, whatever worlds would follow: it overwrites the file once
  -- and stops, or the process ends in that round, having overwritten the file at most once.
  pub update_loop_once :
      (w : World) (worlds : List World) (opts : CredentialsOpts)
      → ((text : String) × (update_loop c parse_rfc3339 is_zero_time profile signer algorithm true
              (w ∷ worlds)
              opts
            ≡ (overwritten text ∷ [], stopped)))
        ⊎ ((texts : List String) × (e : Ending) × (update_loop c parse_rfc3339 is_zero_time profile
                signer algorithm true
                (w ∷ worlds)
                opts
              ≡ (overwrites texts, e))
            × (length texts ≤ 1)
            × (e ≢ unfinished)
            × (e ≢ stopped))
  unfolding update_loop
  update_loop_once w worlds opts =
      go_on_once _ _
        (round-HasEnded w.files (generate_credentials w.environment opts signer algorithm).1)
