-- ===== src/Pkcs11/SearchLaws.antt =====
-- How the search for a key ends.
use mathlib.Core.Path.{fun_ext}
use rolesanywhere_credential.Prelude.{
  ℕ, suc, zero, ◌≡◌, refl, ap, ◌∙◌, inl, inr, ◌⊎◌, Bool, true, false, String, List, ◌++◌, none,
  some, is_some, length, ◌&&◌,
}
use rolesanywhere_credential.Results.{ok}
use rolesanywhere_credential.FileSigner.{aws4_x509_rsa_sha256}
use rolesanywhere_credential.Pkcs11.{Device, CertObjInfo, cko_private_key}
use rolesanywhere_credential.Pkcs11.Calls.{
  World, done, M, continue, ◌>>=◌, Found, init_failed, find_failed, final_failed, objects,
  find_objects,
}
use rolesanywhere_credential.Pkcs11.Encoding.{escape_all}
use rolesanywhere_credential.Pkcs11.Slots.{get_find_template}
use rolesanywhere_credential.Pkcs11.Key.{
  conclude, after_search, retry_search, may_retry, retry_uri, bytes_or_empty,
}
use rolesanywhere_credential.Pkcs11.KeyScan.{
  KeyState, KeyScan, scanned, scan_failed, Chosen, KeyFound, key_failed, scan_keys,
}
use rolesanywhere_credential.Pkcs11.Sign.{finish_signer, with_signing_algorithm, signer_of}
use rolesanywhere_credential.Pkcs11.Locate.{Located}

without_label : (a b : Bool) → (a && b && false) ≡ false
without_label true true = refl
without_label true false = refl
without_label false true = refl
without_label false false = refl

module _ {Uri : Type 0} (d : Device Uri) (cert_obj : CertObjInfo) (no_key_uri : Bool)
    (user_pin : String) (reuse_pin : Bool) (at : Chosen) where
  abbrev Again : Type 0
  Again = Uri → List ℕ → KeyState → M (KeyFound Uri)

  -- The searches that a round may go on with agree.
  abbrev AgreeAfter : Again → Again → Uri → Type 0
  AgreeAfter again other uri =
      (may_retry d cert_obj no_key_uri user_pin reuse_pin at uri ≡ false)
      ⊎ ((handles : List ℕ) (s : KeyState)
          → again (retry_uri d cert_obj no_key_uri user_pin reuse_pin at uri) handles s
            ≡ other (retry_uri d cert_obj no_key_uri user_pin reuse_pin at uri) handles s)

  conclude_agrees :
      (again other : Again) (uri : Uri) (handles : List ℕ) (k : KeyScan) (w : World)
      → AgreeAfter again other uri
      → conclude d cert_obj no_key_uri user_pin reuse_pin at again uri handles k w
        ≡ conclude d cert_obj no_key_uri user_pin reuse_pin at other uri handles k w
  unfolding conclude
  conclude_agrees again other uri handles (scan_failed e) w h = refl
  conclude_agrees again other uri handles (scanned s) w (inl h) = rw h refl
  conclude_agrees again other uri handles (scanned s) w (inr h) = rw (h handles s) refl

  after_search_agrees :
      (again other : Again) (uri : Uri) (earlier : List ℕ) (s : KeyState) (found : Found)
      (w : World)
      → AgreeAfter again other uri
      → after_search d cert_obj no_key_uri user_pin reuse_pin at again uri earlier s found w
        ≡ after_search d cert_obj no_key_uri user_pin reuse_pin at other uri earlier s found w
  unfolding after_search
  after_search_agrees again other uri earlier s (init_failed e) w h = refl
  after_search_agrees again other uri earlier s (find_failed e) w h = refl
  after_search_agrees again other uri earlier s (final_failed e) w h = refl
  after_search_agrees again other uri earlier s (objects found) w h =
      ap
        (continue (
          scan_keys d at.session user_pin reuse_pin cert_obj.cert at.manufacturer
            (length (earlier ++ found)) (earlier ++ found) s w))
        (fun_ext λ k. fun_ext λ w'. conclude_agrees again other uri (earlier ++ found) k w' h)

  round_agrees :
      (n m : ℕ) (uri : Uri) (earlier : List ℕ) (s : KeyState)
      → AgreeAfter
          (retry_search d cert_obj no_key_uri user_pin reuse_pin at n)
          (retry_search d cert_obj no_key_uri user_pin reuse_pin at m)
          uri
      → retry_search d cert_obj no_key_uri user_pin reuse_pin at (suc n) uri earlier s
        ≡ retry_search d cert_obj no_key_uri user_pin reuse_pin at (suc m) uri earlier s
  unfolding retry_search
  round_agrees n m uri earlier s h = fun_ext λ w.
      ap (continue (find_objects d at.session (get_find_template d (some uri) cko_private_key) w)) (
        fun_ext λ found. fun_ext λ w'.
          after_search_agrees (retry_search d cert_obj no_key_uri user_pin reuse_pin at n)
            (retry_search d cert_obj no_key_uri user_pin reuse_pin at m) uri earlier s found w' h)

  -- A URI without a label is not changed again.
  abbrev pub RetriesOnce : Type 0
  RetriesOnce =
      (uri : Uri) (text : String)
      → d.path_attribute (d.set_path_attribute "id" text (d.remove_path_attribute "object" uri))
          "object"
        ≡ none

  not_again :
      RetriesOnce
      → (uri : Uri)
      → may_retry d cert_obj no_key_uri user_pin reuse_pin at
          (retry_uri d cert_obj no_key_uri user_pin reuse_pin at uri)
        ≡ false
  not_again h uri =
      ap (λ o. is_some cert_obj.cert && no_key_uri && is_some o)
        (h uri (d.text (escape_all (bytes_or_empty d cert_obj.id))))
      ∙ without_label (is_some cert_obj.cert) no_key_uri

  -- Where a URI has no label once it is removed, two searches are enough: with more fuel the search
  -- for a key does the same.
  pub retry_search_enough :
      RetriesOnce
      → (n : ℕ) (uri : Uri) (earlier : List ℕ) (s : KeyState)
      → retry_search d cert_obj no_key_uri user_pin reuse_pin at (suc (suc n)) uri earlier s
        ≡ retry_search d cert_obj no_key_uri user_pin reuse_pin at 2 uri earlier s
  retry_search_enough h n uri earlier s = round_agrees (suc n) 1 uri earlier s (
      inr λ handles s'.
        round_agrees n zero (retry_uri d cert_obj no_key_uri user_pin reuse_pin at uri) handles s'
          (inl (not_again h uri)))

  -- An error of FindObjects is lost: the search returns no error and no key, and GetPKCS11Signer
  -- makes a signer for RSA without the URI of a key of it.
  pub retry_search_loses_error :
      (l : Located Uri) (n : ℕ) (uri : Uri) (earlier : List ℕ) (s : KeyState) (e : String)
      (w w' : World)
      → find_objects d at.session (get_find_template d (some uri) cko_private_key) w
        ≡ done (find_failed e) w'
      → (retry_search d cert_obj no_key_uri user_pin reuse_pin at (suc n) uri earlier s >>= λ found.
            finish_signer d l reuse_pin found found.error)
          w
        ≡ done (ok (signer_of d l reuse_pin (key_failed d none), aws4_x509_rsa_sha256)) w'
  unfolding retry_search after_search finish_signer with_signing_algorithm
  retry_search_loses_error l n uri earlier s e w w' h =
      ap
        (λ r.
          continue
            (continue r (
              after_search d cert_obj no_key_uri user_pin reuse_pin at
                (retry_search d cert_obj no_key_uri user_pin reuse_pin at n) uri earlier s))
            (λ found. finish_signer d l reuse_pin found found.error))
        h
