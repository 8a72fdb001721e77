-- ===== src/Pkcs11/KeySearch.antt =====
-- The whole search for a key: whatever it returns was checked against the certificate.
use rolesanywhere_credential.Prelude.{
  ℕ, suc, zero, ◌≡◌, refl, inl, inr, Bool, true, false, String, List, [], ◌++◌, Option, none, some,
  length, Bool-cases, eqb, ◌==◌, ◌+++◌,
}
use rolesanywhere_credential.Results.{Result, ok, err}
use rolesanywhere_credential.Certificate.{Certificate}
use rolesanywhere_credential.Pkcs11.{
  Device, KeyObjInfo, CertObjInfo, SlotIdInfo, cko_private_key, cku_user,
}
use rolesanywhere_credential.Pkcs11.Calls.{
  World, M, Found, init_failed, find_failed, final_failed, objects, find_objects, login,
}
use rolesanywhere_credential.Pkcs11.Slots.{get_find_template, match_slots}
use rolesanywhere_credential.Pkcs11.Pin.{pkcs11_password_prompt}
use rolesanywhere_credential.Pkcs11.Key.{
  conclude, after_search, retry_search, may_retry, retry_uri, on_session, on_pin, on_login,
  ensure_session, ensure_login, with_slot, choose_slot, key_at, get_pkcs11_key, pin_of,
}
use rolesanywhere_credential.Pkcs11.KeyScan.{
  KeyState, no_key, KeyScan, scanned, scan_failed, Chosen, KeyFound, key_failed, scan_keys,
}
use rolesanywhere_credential.Pkcs11.KeyLaws.{Holds, continue-Holds, unit-Holds, IsChecked}
use rolesanywhere_credential.Pkcs11.ScanLaws.{IsSound, scan_keys-IsSound}

module _ {Uri : Type 0} (d : Device Uri) where
  -- What getPKCS11Key returns was checked in the session that it returns.
  abbrev pub IsFoundChecked : Option Certificate → KeyFound Uri → Type 0
  IsFoundChecked cert found = IsChecked d found.session cert found.key

  no_key-IsChecked :
      (session : ℕ) (cert : Option Certificate) (key : KeyObjInfo)
      → key.key_object ≡ 0
      → IsChecked d session cert key
  no_key-IsChecked session none key h = tt
  no_key-IsChecked session (some c) key h = inl h

  failed-IsFoundChecked :
      (cert : Option Certificate) (e : Option String) → IsFoundChecked cert (key_failed d e)
  failed-IsFoundChecked none e = tt
  failed-IsFoundChecked (some c) e = inl refl

  module _ (cert_obj : CertObjInfo) (no_key_uri : Bool) (user_pin : String) (reuse_pin : Bool)
      (at : Chosen) where
    abbrev AgainIsChecked : (Uri → List ℕ → KeyState → M (KeyFound Uri)) → Type 0
    AgainIsChecked again =
        (uri : Uri) (handles : List ℕ) (s : KeyState) (w : World)
        → IsChecked d at.session cert_obj.cert s.key
        → Holds (IsFoundChecked cert_obj.cert) (again uri handles s w)

    conclude-IsFoundChecked :
        (again : Uri → List ℕ → KeyState → M (KeyFound Uri)) (uri : Uri) (handles : List ℕ)
        (k : KeyScan) (w : World)
        → AgainIsChecked again
        → IsSound d at.session cert_obj.cert k
        → Holds
            (IsFoundChecked cert_obj.cert)
            (conclude d cert_obj no_key_uri user_pin reuse_pin at again uri handles k w)
    unfolding conclude
    conclude-IsFoundChecked again uri handles (scan_failed e) w ha h =
        failed-IsFoundChecked cert_obj.cert (some e)
    conclude-IsFoundChecked again uri handles (scanned s) w ha h =
        elim (Bool-cases (eqb s.key.key_object 0)) [
          | inl e ↦ elim (Bool-cases (may_retry d cert_obj no_key_uri user_pin reuse_pin at uri)) [
            | inl m ↦
                rw (e, m)
                  (ha (retry_uri d cert_obj no_key_uri user_pin reuse_pin at uri) handles s w h)
            | inr m ↦
                rw (e, m)
                  (failed-IsFoundChecked cert_obj.cert (some "unable to find matching private key"))
          ]
          | inr e ↦ rw e h
        ]

    after_search-IsFoundChecked :
        (again : Uri → List ℕ → KeyState → M (KeyFound Uri)) (uri : Uri) (earlier : List ℕ)
        (s : KeyState) (found : Found) (w : World)
        → AgainIsChecked again
        → IsChecked d at.session cert_obj.cert s.key
        → Holds
            (IsFoundChecked cert_obj.cert)
            (after_search d cert_obj no_key_uri user_pin reuse_pin at again uri earlier s found w)
    unfolding after_search
    after_search-IsFoundChecked again uri earlier s (init_failed e) w ha h =
        failed-IsFoundChecked cert_obj.cert (some e)
    after_search-IsFoundChecked again uri earlier s (find_failed e) w ha h =
        failed-IsFoundChecked cert_obj.cert none
    after_search-IsFoundChecked again uri earlier s (final_failed e) w ha h =
        failed-IsFoundChecked cert_obj.cert (some e)
    after_search-IsFoundChecked again uri earlier s (objects found) w ha h =
        continue-Holds (IsSound d at.session cert_obj.cert) (IsFoundChecked cert_obj.cert)
          (scan_keys d at.session user_pin reuse_pin cert_obj.cert at.manufacturer
            (length (earlier ++ found)) (earlier ++ found) s w)
          (conclude d cert_obj no_key_uri user_pin reuse_pin at again uri (earlier ++ found))
          (scan_keys-IsSound d at.session user_pin reuse_pin at.manufacturer cert_obj.cert
            (length (earlier ++ found)) (earlier ++ found) s w h)
          (λ k w' hk. conclude-IsFoundChecked again uri (earlier ++ found) k w' ha hk)

    pub retry_search-IsFoundChecked :
        (n : ℕ) → AgainIsChecked (retry_search d cert_obj no_key_uri user_pin reuse_pin at n)
    unfolding retry_search
    retry_search-IsFoundChecked zero uri earlier s w h = tt
    retry_search-IsFoundChecked (suc n) uri earlier s w h =
        continue-Holds (λ f. Unit) (IsFoundChecked cert_obj.cert)
          (find_objects d at.session (get_find_template d (some uri) cko_private_key) w)
          (after_search d cert_obj no_key_uri user_pin reuse_pin at
            (retry_search d cert_obj no_key_uri user_pin reuse_pin at n) uri earlier s)
          (unit-Holds
            (find_objects d at.session (get_find_template d (some uri) cko_private_key) w))
          (λ found w' u.
            after_search-IsFoundChecked (retry_search d cert_obj no_key_uri user_pin reuse_pin at n)
              uri earlier s found w' (retry_search-IsFoundChecked n) h)

  -- A session and a login do not matter for what the search returns.
  module _ (cert : Option Certificate) where
    on_session-IsFoundChecked :
        (next : ℕ → M (KeyFound Uri)) (r : Result ℕ) (w : World)
        → ((session : ℕ) (w' : World) → Holds (IsFoundChecked cert) (next session w'))
        → Holds (IsFoundChecked cert) (on_session d next r w)
    unfolding on_session
    on_session-IsFoundChecked next (err e) w h = failed-IsFoundChecked cert (some e)
    on_session-IsFoundChecked next (ok session) w h = h session w

    on_pin-IsFoundChecked :
        (next : String → M (KeyFound Uri)) (r : Result String) (w : World)
        → ((pin : String) (w' : World) → Holds (IsFoundChecked cert) (next pin w'))
        → Holds (IsFoundChecked cert) (on_pin d next r w)
    unfolding on_pin
    on_pin-IsFoundChecked next (err e) w h = failed-IsFoundChecked cert (some e)
    on_pin-IsFoundChecked next (ok pin) w h = h pin w

    on_login-IsFoundChecked :
        (next : String → M (KeyFound Uri)) (pin : String) (e : Option String) (w : World)
        → ((pin : String) (w' : World) → Holds (IsFoundChecked cert) (next pin w'))
        → Holds (IsFoundChecked cert) (on_login d next pin e w)
    unfolding on_login
    on_login-IsFoundChecked next pin (some e) w h = failed-IsFoundChecked cert (some e)
    on_login-IsFoundChecked next pin none w h = h pin w

    ensure_login-IsFoundChecked :
        (is_logged_in : Bool) (session : ℕ) (user_pin : String) (next : String → M (KeyFound Uri))
        (w : World)
        → ((pin : String) (w' : World) → Holds (IsFoundChecked cert) (next pin w'))
        → Holds (IsFoundChecked cert) (ensure_login d is_logged_in session user_pin next w)
    unfolding ensure_login
    ensure_login-IsFoundChecked true session user_pin next w h = h user_pin w
    ensure_login-IsFoundChecked false session user_pin next w h =
        elim (Bool-cases (user_pin == "")) [
          | inl e ↦ rw e (
              continue-Holds (λ p. Unit) (IsFoundChecked cert)
                (pkcs11_password_prompt d session cku_user
                  (λ m. "user authentication failed (" +++ m +++ ")") w)
                (on_pin d next) (unit-Holds _) (λ p w' u. on_pin-IsFoundChecked next p w' h))
          | inr e ↦ rw e (
              continue-Holds (λ p. Unit) (IsFoundChecked cert) (login d session cku_user user_pin w)
                (on_login d next user_pin) (unit-Holds _)
                (λ p w' u. on_login-IsFoundChecked next user_pin p w' h))
        ]

  with_slot-IsFoundChecked :
      (uri : Uri) (no_key_uri : Bool) (cert_obj : CertObjInfo) (user_pin context_pin : String)
      (reuse_pin : Bool) (chosen : Result Chosen) (w : World)
      → Holds
          (IsFoundChecked cert_obj.cert)
          (with_slot d uri no_key_uri cert_obj user_pin context_pin reuse_pin chosen w)
  unfolding with_slot
  with_slot-IsFoundChecked uri no_key_uri cert_obj user_pin context_pin reuse_pin (err e) w =
      failed-IsFoundChecked cert_obj.cert (some e)
  with_slot-IsFoundChecked uri no_key_uri cert_obj user_pin context_pin reuse_pin (ok at) w =
      continue-Holds (λ p. Unit) (IsFoundChecked cert_obj.cert) (ensure_session d at w) _
        (unit-Holds _)
        (λ r w1 u. on_session-IsFoundChecked cert_obj.cert _ r w1 (λ session w2.
          ensure_login-IsFoundChecked cert_obj.cert at.is_logged_in session user_pin _ w2 (λ pin w3.
            retry_search-IsFoundChecked cert_obj no_key_uri pin reuse_pin
              (record at { session = session }) 2 uri [] (no_key context_pin) w3
              (no_key-IsChecked session cert_obj.cert (no_key context_pin).key refl))))

  -- A key that getPKCS11Key returns for a certificate made, in the session that is returned, a
  -- signature of a challenge that the certificate's public key accepts.
  pub get_pkcs11_key-IsFoundChecked :
      (session : ℕ) (is_logged_in : Bool) (cert_uri key_uri : Option Uri) (no_key_uri : Bool)
      (cert_slot_nr : ℕ) (cert_obj : CertObjInfo) (user_pin context_pin : String) (reuse_pin : Bool)
      (slots : List SlotIdInfo) (w : World)
      → Holds (IsFoundChecked cert_obj.cert) (
          get_pkcs11_key d session is_logged_in cert_uri key_uri no_key_uri cert_slot_nr cert_obj
            user_pin context_pin reuse_pin slots w)
  unfolding get_pkcs11_key key_at
  get_pkcs11_key-IsFoundChecked session is_logged_in cert_uri (some uri) no_key_uri nr cert_obj
        user_pin context_pin reuse_pin slots w =
      continue-Holds (λ c. Unit) (IsFoundChecked cert_obj.cert)
        (choose_slot d session is_logged_in nr (match_slots d slots (some uri)) w) _ (unit-Holds _)
        (λ c w' u.
          with_slot-IsFoundChecked uri no_key_uri cert_obj
            (pin_of d user_pin (d.query_attribute uri "pin-value")) context_pin reuse_pin c w')
  get_pkcs11_key-IsFoundChecked session is_logged_in (some uri) none no_key_uri nr cert_obj user_pin
        context_pin reuse_pin slots w =
      continue-Holds (λ c. Unit) (IsFoundChecked cert_obj.cert)
        (choose_slot d session is_logged_in nr (match_slots d slots (some uri)) w) _ (unit-Holds _)
        (λ c w' u.
          with_slot-IsFoundChecked uri true cert_obj
            (pin_of d user_pin (d.query_attribute uri "pin-value")) context_pin reuse_pin c w')
  get_pkcs11_key-IsFoundChecked session is_logged_in none none no_key_uri nr cert_obj user_pin
        context_pin reuse_pin slots w =
      tt
