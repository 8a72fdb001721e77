-- ===== src/Update/Writes.antt =====
-- What the update command leaves in the credentials file.
use rolesanywhere_credential.Prelude.{◌≡◌, Bool, false, String, List, [], ◌∷◌, ◌++◌, none}
use rolesanywhere_credential.Results.{returned}
use rolesanywhere_credential.Certificate.{Signer}
use rolesanywhere_credential.Clock.{Clock}
use rolesanywhere_credential.Session.{
  CredentialsOpts, CredentialProcessOutput, generate_credentials,
}
use rolesanywhere_credential.CredentialsFile.{get_new_credentials_file_contents}
use rolesanywhere_credential.Update.{
  FileSystem, done, World, Event, overwritten, slept_until, Round, ended, stored,
  get_credentials_file_contents, temporary_credential, is_empty,
}

-- What a file holds that was overwritten with contents: the text of all of them, as far as Flush
-- brought it there, or what the buffer let through of the first of them.
pub data IsPartOf (fs : FileSystem) (contents : List String) : String → Type 0 where
  whole : IsPartOf fs contents (fs.flushed contents)
  part :
      (handed rest : List String)
      → contents ≡ handed ++ rest
      → IsPartOf fs contents (fs.unflushed handed)

module _ (c : Clock) (parse_rfc3339 : String → c.Time) (is_zero_time : c.Time → Bool)
    (profile : String) (signer : Signer) (algorithm : String) where
  open c use {Time}

  -- What a round leaves in the file: of the lines that it read, updated with a credential that the
  -- service has just vended for the options given and that is not empty.
  pub record IsUpdate (opts : CredentialsOpts) (w : World) (text : String) : Type 0 where
    pub out : CredentialProcessOutput
    pub vended : (generate_credentials w.environment opts signer algorithm).1 ≡ returned (out, none)
    pub nonempty :
        is_empty c parse_rfc3339 is_zero_time profile
          (temporary_credential c parse_rfc3339 is_zero_time profile out)
        ≡ false
    pub lines : List String
    pub read : get_credentials_file_contents w.files ≡ done lines
    pub updated :
        IsPartOf w.files
          (get_new_credentials_file_contents profile
            (temporary_credential c parse_rfc3339 is_zero_time profile out)
            lines)
          text

  -- The texts of a round.
  abbrev texts_of : Round Time → List String
  texts_of (ended texts e) = texts
  texts_of (stored texts expiration) = texts

  -- The options that calls of GenerateCredentials in worlds leave.
  abbrev pub left_by : CredentialsOpts → List World → CredentialsOpts
  left_by opts [] = opts
  left_by opts (w ∷ worlds) =
      left_by (generate_credentials w.environment opts signer algorithm).0 worlds

  -- An event of a run over the worlds: what the file holds is an update of one of them, vended for
  -- the options as the rounds before left them.
  abbrev pub IsJustified : CredentialsOpts → List World → Event Time → Type 0
  IsJustified opts worlds (overwritten text) =
      (before : List World) × (w : World) × (after : List World) × (worlds ≡ before ++ w ∷ after)
      × IsUpdate (left_by opts before) w text
  IsJustified opts worlds (slept_until t) = Unit
