-- ===== src/Pkcs11/Key.antt =====
-- Finding the private key: getPKCS11Key of aws_signing_helper/pkcs11_signer.go.
use rolesanywhere_credential.Prelude.{
  ℕ, zero, suc, Bool, true, false, not, String, List, [], ◌∷◌, ◌++◌, Option, none, some, is_some,
  length, eqb, if◌then◌else◌, ◌==◌, ◌&&◌, ◌+++◌,
}
use rolesanywhere_credential.Results.{Result, ok, err}
use rolesanywhere_credential.Pkcs11.{
  SlotIdInfo, empty_slot, CertObjInfo, cko_private_key, logged_out, Device, cku_user,
}
use rolesanywhere_credential.Pkcs11.Calls.{
  waits, M, ◌>>=◌, ◌>>◌, pure, emit, panic, Found, init_failed, find_failed, final_failed, objects,
  find_objects, open_session, close_session, login,
}
use rolesanywhere_credential.Pkcs11.Encoding.{escape_all}
use rolesanywhere_credential.Pkcs11.Slots.{match_slots, get_find_template}
use rolesanywhere_credential.Pkcs11.Pin.{pkcs11_password_prompt}
use rolesanywhere_credential.Pkcs11.KeyScan.{
  Chosen, KeyFound, KeyScan, KeyState, key_failed, no_key, scan_failed, scan_keys, scanned,
  slot_with,
}

module _ {Uri : Type 0} (d : Device Uri) where
  -- escapeAll of an attribute that is neither nil nor empty.
  abbrev pub set_bytes_attribute : String → Option (List ℕ) → Uri → Uri
  set_bytes_attribute name none uri = uri
  set_bytes_attribute name (some []) uri = uri
  set_bytes_attribute name (some (b ∷ value)) uri =
      d.set_path_attribute name (d.text (escape_all (b ∷ value))) uri

  abbrev pub bytes_or_empty : Option (List ℕ) → List ℕ
  bytes_or_empty none = []
  bytes_or_empty (some value) = value

  module _ (cert_obj : CertObjInfo) (no_key_uri : Bool) (user_pin : String) (reuse_pin : Bool)
      (at : Chosen) where
    abbrev pub key_found : KeyState → Uri → KeyFound Uri
    key_found s uri = record {
      session = at.session;
      user_pin = user_pin;
      key_uri =
          some (set_bytes_attribute "object" s.key.label (set_bytes_attribute "id" s.key.id uri));
      key_type = s.key_type;
      key = s.key;
      slot = at.slot;
      always_auth = s.always_auth;
      context_pin = s.context_pin;
      error = none;
    }

    -- The URI of the repeated search: without the label, by the certificate's CKA_ID.
    abbrev pub retry_uri : Uri → Uri
    retry_uri uri =
        d.set_path_attribute "id" (d.text (escape_all (bytes_or_empty cert_obj.id)))
          (d.remove_path_attribute "object" uri)

    abbrev pub may_retry : Uri → Bool
    may_retry uri = is_some cert_obj.cert && no_key_uri && is_some (d.path_attribute uri "object")

    unfoldable pub conclude :
        (Uri → List ℕ → KeyState → M (KeyFound Uri)) → Uri → List ℕ → KeyScan → M (KeyFound Uri)
    conclude again uri handles (scan_failed e) = pure (key_failed d (some e))
    conclude again uri handles (scanned s) =
        if eqb s.key.key_object 0
        then (if may_retry uri
            then again (retry_uri uri) handles s
            else pure (key_failed d (some "unable to find matching private key")))
        else pure (key_found s uri)

    -- An error of FindObjects is that of a variable of the loop: nil is returned.
    unfoldable pub after_search :
        (Uri → List ℕ → KeyState → M (KeyFound Uri))
        → Uri
        → List ℕ
        → KeyState
        → Found
        → M (KeyFound Uri)
    unfolding conclude
    after_search again uri earlier s (init_failed e) = pure (key_failed d (some e))
    after_search again uri earlier s (find_failed e) = pure (key_failed d none)
    after_search again uri earlier s (final_failed e) = pure (key_failed d (some e))
    after_search again uri earlier s (objects found) =
        scan_keys d at.session user_pin reuse_pin cert_obj.cert at.manufacturer
          (length (earlier ++ found)) (earlier ++ found) s
        >>= conclude again uri (earlier ++ found)

    -- The label retry_search, on fuel: the handles found are added to the earlier ones.
    unfoldable pub retry_search : ℕ → Uri → List ℕ → KeyState → M (KeyFound Uri)
    unfolding after_search
    retry_search zero uri earlier s w = waits w
    retry_search (suc n) uri earlier s w =
        (find_objects d at.session (get_find_template d (some uri) cko_private_key)
            >>= after_search (retry_search n) uri earlier s)
          w

  -- Leaving the certificate's session: it is closed only if it is logged in.
  abbrev pub leave_session : Bool → ℕ → M (Unit {0})
  leave_session is_logged_in session =
      if not (eqb session 0) && is_logged_in
      then (emit (logged_out session) >> close_session d session)
      else pure tt

  pub choose_by_number : ℕ → Bool → Option SlotIdInfo → Result Chosen
  choose_by_number session is_logged_in none = err "Could not identify unique slot for PKCS#11 key"
  choose_by_number session is_logged_in (some slot) = ok record {
    session = session;
    is_logged_in = is_logged_in;
    slot = slot;
    manufacturer = slot.info.manufacturer_id;
  }

  -- A single slot that is not the certificate's is taken; if it is, neither the slot nor its
  -- manufacturer is set.
  pub choose_single : ℕ → Bool → ℕ → SlotIdInfo → M (Result Chosen)
  choose_single session is_logged_in cert_slot_nr slot =
      if eqb cert_slot_nr slot.id
      then pure (
          ok record {
            session = session;
            is_logged_in = is_logged_in;
            slot = empty_slot;
            manufacturer = "";
          })
      else (leave_session is_logged_in session
          >> pure (
              ok record {
                session = 0;
                is_logged_in = false;
                slot = slot;
                manufacturer = slot.info.manufacturer_id;
              }))

  pub choose_slot : ℕ → Bool → ℕ → List SlotIdInfo → M (Result Chosen)
  unfolding choose_single choose_by_number slot_with
  choose_slot session is_logged_in cert_slot_nr [] =
      pure (choose_by_number session is_logged_in none)
  choose_slot session is_logged_in cert_slot_nr (slot ∷ []) =
      choose_single session is_logged_in cert_slot_nr slot
  choose_slot session is_logged_in cert_slot_nr (slot ∷ other ∷ rest) =
      pure (choose_by_number session is_logged_in (slot_with cert_slot_nr (slot ∷ other ∷ rest)))

  unfoldable pub on_session : (ℕ → M (KeyFound Uri)) → Result ℕ → M (KeyFound Uri)
  on_session next (err e) = pure (key_failed d (some e))
  on_session next (ok session) = next session

  -- The label got_slot.
  abbrev pub ensure_session : Chosen → M (Result ℕ)
  ensure_session at = if eqb at.session 0 then open_session d at.slot.id else pure (ok at.session)

  unfoldable pub on_pin : (String → M (KeyFound Uri)) → Result String → M (KeyFound Uri)
  on_pin next (err e) = pure (key_failed d (some e))
  on_pin next (ok pin) = next pin

  unfoldable pub on_login : (String → M (KeyFound Uri)) → String → Option String → M (KeyFound Uri)
  on_login next pin (some e) = pure (key_failed d (some e))
  on_login next pin none = next pin

  -- The login, with the PIN given or one that is asked for.
  unfoldable pub ensure_login : Bool → ℕ → String → (String → M (KeyFound Uri)) → M (KeyFound Uri)
  unfolding on_pin on_login
  ensure_login is_logged_in session user_pin next =
      if is_logged_in
      then next user_pin
      else if user_pin == ""
      then (pkcs11_password_prompt d session cku_user
            (λ e. "user authentication failed (" +++ e +++ ")")
          >>= on_pin next)
      else (login d session cku_user user_pin >>= on_login next user_pin)

  -- Two searches are enough.
  unfoldable pub with_slot :
      Uri → Bool → CertObjInfo → String → String → Bool → Result Chosen → M (KeyFound Uri)
  unfolding on_session ensure_login retry_search
  with_slot uri no_key_uri cert_obj user_pin context_pin reuse_pin (err e) =
      pure (key_failed d (some e))
  with_slot uri no_key_uri cert_obj user_pin context_pin reuse_pin (ok at) =
      ensure_session at
      >>= on_session (λ session. ensure_login at.is_logged_in session user_pin (λ pin.
        retry_search cert_obj no_key_uri pin reuse_pin (record at { session = session }) 2 uri []
          (no_key context_pin)))

  abbrev pub pin_of : String → Option String → String
  pin_of user_pin none = if user_pin == "" then "" else user_pin
  pin_of user_pin (some pin) = if user_pin == "" then pin else user_pin

  unfoldable pub key_at :
      ℕ
      → Bool
      → Uri
      → Bool
      → ℕ
      → CertObjInfo
      → String
      → String
      → Bool
      → List SlotIdInfo
      → M (KeyFound Uri)
  unfolding choose_slot with_slot
  key_at session is_logged_in uri no_key_uri cert_slot_nr cert_obj user_pin context_pin reuse_pin
        slots =
      choose_slot session is_logged_in cert_slot_nr (match_slots d slots (some uri))
      >>= with_slot uri no_key_uri cert_obj (pin_of user_pin (d.query_attribute uri "pin-value"))
          context_pin reuse_pin

  -- Without a key URI that of the certificate is used; a method of a nil URI panics.
  unfoldable pub get_pkcs11_key :
      ℕ
      → Bool
      → Option Uri
      → Option Uri
      → Bool
      → ℕ
      → CertObjInfo
      → String
      → String
      → Bool
      → List SlotIdInfo
      → M (KeyFound Uri)
  unfolding key_at
  get_pkcs11_key session is_logged_in cert_uri (some uri) no_key_uri =
      key_at session is_logged_in uri no_key_uri
  get_pkcs11_key session is_logged_in (some uri) none no_key_uri =
      key_at session is_logged_in uri true
  get_pkcs11_key session is_logged_in none none no_key_uri =
      λ cert_slot_nr cert_obj user_pin context_pin reuse_pin slots. panic
