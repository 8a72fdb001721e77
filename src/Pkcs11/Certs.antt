-- ===== src/Pkcs11/Certs.antt =====
-- Finding certificates in the tokens: getCertsInSession, getMatchingCerts, getCertificate, the
-- certificate chain and GetMatchingPKCSCerts of aws_signing_helper/pkcs11_signer.go.
use rolesanywhere_credential.Prelude.{
  ℕ, Bool, true, false, String, List, [], ◌∷◌, ◌++◌, Option, none, some, length, ltb, eqb,
  if◌then◌else◌, ◌==◌, ◌&&◌,
}
use rolesanywhere_credential.Results.{Result, ok, err}
use rolesanywhere_credential.Certificate.{Certificate}
use rolesanywhere_credential.Pkcs11.{
  SlotIdInfo, empty_slot, is_empty_slot, CertObjInfo, cko_certificate, Event, logged_out, Device,
  cku_user, cka_value, cka_id, cka_label,
}
use rolesanywhere_credential.Pkcs11.Calls.{
  M, ◌>>=◌, ◌>>◌, pure, emit, history, panic, Found, init_failed, find_failed, final_failed,
  objects, find_objects, open_session, close_session, login,
}
use rolesanywhere_credential.Pkcs11.Slots.{enumerate_slots, match_slots, get_find_template}

-- What getMatchingCerts returns.
pub record Matching : Type 0 where
  pub slot : SlotIdInfo
  pub session : ℕ
  pub is_logged_in : Bool
  pub certs : List CertObjInfo
  pub error : Option String

-- The variables of its loop.
pub record Scan : Type 0 where
  pub slot : SlotIdInfo
  pub session : ℕ
  pub certs : List CertObjInfo

abbrev pub no_scan : Scan
no_scan = record { slot = empty_slot; session = 0; certs = [] }

-- An attribute, or nil where it cannot be read.
abbrev pub or_nil : Result (List ℕ) → Option (List ℕ)
or_nil (ok value) = some value
or_nil (err e) = none

-- What getCertificate returns: the slot, all slots, the session, the login and the object.
pub record CertFound : Type 0 where
  pub slot : SlotIdInfo
  pub slots : List SlotIdInfo
  pub session : ℕ
  pub is_logged_in : Bool
  pub cert_obj : CertObjInfo

module _ {Uri : Type 0} (d : Device Uri) where
  -- The attributes of a certificate object whose value was parsed.
  abbrev pub cert_obj_of : List Event → ℕ → ℕ → Result Certificate → Result CertObjInfo
  cert_obj_of h session object (err e) = err "error parsing certificate"
  cert_obj_of h session object (ok cert) = ok record {
    id = or_nil (d.attribute h session object cka_id);
    label = or_nil (d.attribute h session object cka_label);
    cert = some cert;
    cert_object = object;
  }

  abbrev pub cert_obj_from : List Event → ℕ → ℕ → Result (List ℕ) → Result CertObjInfo
  cert_obj_from h session object (err e) = err e
  cert_obj_from h session object (ok value) =
      cert_obj_of h session object (d.parse_certificate value)

  abbrev pub with_cert : Result CertObjInfo → Result (List CertObjInfo) → Result (List CertObjInfo)
  with_cert (err e) rest = err e
  with_cert (ok cert) (err e) = err e
  with_cert (ok cert) (ok certs) = ok (cert ∷ certs)

  -- The loop over the objects that were found.
  unfoldable pub read_certs : List Event → ℕ → List ℕ → Result (List CertObjInfo)
  read_certs h session [] = ok []
  read_certs h session (object ∷ rest) =
      with_cert (cert_obj_from h session object (d.attribute h session object cka_value))
        (read_certs h session rest)

  abbrev pub certs_of : List Event → ℕ → Found → Result (List CertObjInfo)
  certs_of h session (init_failed e) = err e
  certs_of h session (find_failed e) = err e
  certs_of h session (final_failed e) = err e
  certs_of h session (objects os) = read_certs h session os

  unfoldable pub get_certs_in_session : ℕ → Option Uri → M (Result (List CertObjInfo))
  get_certs_in_session session uri = do
    found ← find_objects d session (get_find_template d uri cko_certificate)
    h ← history
    pure (certs_of h session found)

  -- The session stays open if it is the first one with a matching certificate.
  unfoldable pub keep_or_close : SlotIdInfo → ℕ → Scan → Result (List CertObjInfo) → M Scan
  keep_or_close slot session s (err e) = close_session d session >> pure s
  keep_or_close slot session s (ok []) = close_session d session >> pure s
  keep_or_close slot session s (ok (cert ∷ certs)) =
      if is_empty_slot s.slot
      then pure (record { slot = slot; session = session; certs = s.certs ++ (cert ∷ certs) })
      else (close_session d session >> pure (record s { certs = s.certs ++ (cert ∷ certs) }))

  -- A slot in the loop of getMatchingCerts. A session that could not be opened is closed, by the
  -- handle 0.
  unfoldable pub scan_session : SlotIdInfo → Option Uri → Scan → Result ℕ → M Scan
  unfolding keep_or_close
  scan_session slot uri s (err e) = close_session d 0 >> pure s
  scan_session slot uri s (ok session) =
      get_certs_in_session session uri >>= keep_or_close slot session s

  unfoldable pub scan : Option Uri → List SlotIdInfo → Scan → M Scan
  unfolding scan_session
  scan uri [] s = pure s
  scan uri (slot ∷ rest) s = open_session d slot.id >>= scan_session slot uri s >>= scan uri rest

  -- The label fail: an error, which is nil in one case.
  unfoldable pub fail : ℕ → Option String → M Matching
  fail session e = do
    if eqb session 0 then pure tt else (emit (logged_out session) >> close_session d session)
    pure (record {
      slot = empty_slot;
      session = session;
      is_logged_in = false;
      certs = [];
      error = e;
    })

  -- The label foundCert.
  unfoldable pub found_cert : Bool → SlotIdInfo → ℕ → Bool → List CertObjInfo → M Matching
  unfolding fail
  found_cert single slot session is_logged_in certs =
      if single && ltb 1 (length certs)
      then fail session (some "multiple matching certificates")
      else pure (record {
        slot = slot;
        session = session;
        is_logged_in = is_logged_in;
        certs = certs;
        error = none;
      })

  -- After the login: without a certificate the label foundCert is reached all the same.
  pub private_certs : Bool → SlotIdInfo → ℕ → Result (List CertObjInfo) → M Matching
  unfolding found_cert
  private_certs single slot session (err e) = found_cert single empty_slot 0 false []
  private_certs single slot session (ok []) = found_cert single empty_slot 0 false []
  private_certs single slot session (ok (cert ∷ certs)) =
      found_cert single slot session true (cert ∷ certs)

  -- The errors assigned in the blocks below are those of a variable of the block: the error that
  -- the label fail returns is still nil.
  unfoldable pub after_login : Bool → SlotIdInfo → Option Uri → ℕ → Option String → M Matching
  unfolding private_certs
  after_login single slot uri session (some e) = fail 0 none
  after_login single slot uri session none =
      get_certs_in_session session uri >>= private_certs single slot session

  unfoldable pub search_private : Bool → SlotIdInfo → Option Uri → String → Result ℕ → M Matching
  unfolding after_login
  search_private single slot uri user_pin (err e) = fail 0 none
  search_private single slot uri user_pin (ok session) =
      login d session cku_user user_pin >>= after_login single slot uri session

  -- Without a match, and precisely one slot: the search after a login.
  unfoldable pub log_in_and_search : Bool → Option Uri → String → List SlotIdInfo → M Matching
  unfolding search_private
  log_in_and_search single uri user_pin [] = fail 0 (some "no matching slots")
  log_in_and_search single uri user_pin (slot ∷ []) =
      if user_pin == ""
      then fail 0 (some "one matching slot, but no user PIN provided")
      else (open_session d slot.id >>= search_private single slot uri user_pin)
  log_in_and_search single uri user_pin (slot ∷ other ∷ rest) =
      fail 0 (some "multiple matching slots")

  unfoldable pub after_certs :
      Bool → Option Uri → String → List SlotIdInfo → Scan → List CertObjInfo → M Matching
  unfolding log_in_and_search
  after_certs single uri user_pin slots s [] = log_in_and_search single uri user_pin slots
  after_certs single uri user_pin slots s (cert ∷ certs) =
      found_cert single s.slot s.session false (cert ∷ certs)

  unfoldable pub after_scan : Bool → Option Uri → String → List SlotIdInfo → Scan → M Matching
  unfolding after_certs
  after_scan single uri user_pin slots s = after_certs single uri user_pin slots s s.certs

  unfoldable pub get_matching_certs : List SlotIdInfo → Option Uri → String → Bool → M Matching
  unfolding scan after_scan
  get_matching_certs slots uri user_pin single =
      scan uri (match_slots d slots uri) no_scan
      >>= after_scan single uri user_pin (match_slots d slots uri)

  -- matchingCerts[0]
  unfoldable pub first_cert :
      List SlotIdInfo → Matching → Option String → List CertObjInfo → M (Result CertFound)
  first_cert slots matching (some e) certs = pure (err e)
  first_cert slots matching none [] = panic
  first_cert slots matching none (cert ∷ certs) = pure (
      ok record {
        slot = matching.slot;
        slots = slots;
        session = matching.session;
        is_logged_in = matching.is_logged_in;
        cert_obj = cert;
      })

  abbrev pub certificate_in : Option Uri → String → Result (List SlotIdInfo) → M (Result CertFound)
  unfolding first_cert
  certificate_in uri user_pin (err e) = pure (err e)
  certificate_in uri user_pin (ok slots) =
      get_matching_certs slots uri user_pin true >>= λ matching.
      first_cert slots matching matching.error matching.certs

  unfoldable pub get_certificate : Option Uri → String → M (Result CertFound)
  get_certificate uri user_pin = history >>= λ h. certificate_in uri user_pin (enumerate_slots d h)
