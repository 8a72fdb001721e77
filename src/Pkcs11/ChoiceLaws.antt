-- ===== src/Pkcs11/ChoiceLaws.antt =====
-- GetSigner's call of GetPKCS11Signer: the URI by which the key is found.
use rolesanywhere_credential.Prelude.{
  ℕ, ◌≡◌, refl, inl, inr, Bool, true, false, String, List, Option, none, some, is_some, Bool-cases,
  ◌==◌, eqb,
}
use rolesanywhere_credential.Results.{Result, ok, err}
use rolesanywhere_credential.Certificate.{Certificate}
use rolesanywhere_credential.Session.{CredentialsOpts}
use rolesanywhere_credential.Keys.{Parsers}
use rolesanywhere_credential.SignerChoice.{pkcs11, get_signer}
use rolesanywhere_credential.SignerChoice.Laws.{HasKeyName, get_signer-IsPrepared}
use rolesanywhere_credential.Pkcs11.{Device}
use rolesanywhere_credential.Pkcs11.Calls.{
  World, Run, done, panics, waits, M, continue, end_session, finalize,
}
use rolesanywhere_credential.Pkcs11.Certs.{CertFound, get_certificate}
use rolesanywhere_credential.Pkcs11.Chain.{get_certificate_chain, pin_value}
use rolesanywhere_credential.Pkcs11.Locate.{
  Located, locate, locate_uri, cert_located, locate_chain, with_chain, narrowed_uri, key_uri_for,
  parsed_key_uri, copied_key_uri, close_all,
}
use rolesanywhere_credential.Pkcs11.KeyLaws.{Holds, continue-Holds, unit-Holds}

-- A run that does not panic.
abbrev pub Returns : {A : Type 0} → Run A → Type 0
Returns (done a w) = Unit
Returns (panics w) = ⊥
Returns (waits w) = Unit

continue-Returns :
    {A B : Type 0} (r : Run A) (f : A → M B)
    → Returns r
    → ((a : A) (w : World) → Returns (f a w))
    → Returns (continue r f)
continue-Returns (done a w) f h g = g a w
continue-Returns (panics w) f h g = h
continue-Returns (waits w) f h g = tt

module _ {Uri : Type 0} (d : Device Uri) where
  abbrev HasUri : Result (Located Uri) → Type 0
  HasUri (ok l) = is_some l.cert_uri ≡ true
  HasUri (err e) = Unit

  close_all-HasUri :
      (is_logged_in : Bool) (session : ℕ) (e : String) (w : World)
      → Holds HasUri (close_all d is_logged_in session e w)
  close_all-HasUri is_logged_in session e w =
      continue-Holds (λ u. Unit) HasUri
        (continue (end_session d is_logged_in session w) (λ u. finalize d))
        (λ u w'. done (err e) w') (unit-Holds _) (λ u w' h. tt)

  with_chain-HasUri :
      (found : CertFound) (uri : Uri) (user_pin : String) (r : Result (List Certificate))
      (w : World)
      → Holds HasUri (with_chain d found uri user_pin r w)
  unfolding with_chain
  with_chain-HasUri found uri user_pin (err e) w =
      close_all-HasUri found.is_logged_in found.session e w
  with_chain-HasUri found uri user_pin (ok chain) w = refl

  locate_chain-HasUri :
      (found : CertFound) (uri : Uri) (user_pin : String) (chain : Option (List Certificate))
      (cert : Option Certificate) (w : World)
      → Holds HasUri (locate_chain d found uri user_pin chain cert w)
  unfolding locate_chain
  locate_chain-HasUri found uri user_pin (some chain) cert w = refl
  locate_chain-HasUri found uri user_pin none (some cert) w =
      continue-Holds (λ r. Unit) HasUri (get_certificate_chain d found.session cert w)
        (with_chain d found uri user_pin) (unit-Holds _)
        (λ r w' u. with_chain-HasUri found uri user_pin r w')
  locate_chain-HasUri found uri user_pin none none w = tt

  cert_located-HasUri :
      (uri : Uri) (user_pin : String) (chain : Option (List Certificate)) (r : Result CertFound)
      (w : World)
      → Holds HasUri (cert_located d uri user_pin chain r w)
  unfolding cert_located
  cert_located-HasUri uri user_pin chain (err e) w = close_all-HasUri false 0 e w
  cert_located-HasUri uri user_pin chain (ok found) w =
      locate_chain-HasUri found (narrowed_uri d w.events found uri) user_pin chain
        found.cert_obj.cert w

  locate_uri-HasUri :
      (chain : Option (List Certificate)) (r : Result Uri) (w : World)
      → Holds HasUri (locate_uri d chain r w)
  unfolding locate_uri
  locate_uri-HasUri chain (err e) w = close_all-HasUri false 0 e w
  locate_uri-HasUri chain (ok uri) w =
      continue-Holds (λ r. Unit) HasUri (get_certificate d (some uri) (pin_value d uri) w)
        (cert_located d uri (pin_value d uri) chain) (unit-Holds _)
        (λ r w' u. cert_located-HasUri uri (pin_value d uri) chain r w')

  locate-HasUri :
      (chain : Option (List Certificate)) (certificate_id : String) (w : World)
      → (certificate_id == "") ≡ false
      → Holds HasUri (locate d none chain certificate_id w)
  unfolding locate
  locate-HasUri chain certificate_id w h =
      rw h (locate_uri-HasUri chain (d.parse_uri certificate_id) w)

  -- The key's URI can be found without the panic of a URI that is nil.
  abbrev pub NamesKey : String → Result (Located Uri) → Type 0
  NamesKey key (ok l) = (w : World) → Returns (key_uri_for d l key w)
  NamesKey key (err e) = Unit

  end_session-Returns :
      (is_logged_in : Bool) (session : ℕ) (w : World)
      → Returns (end_session d is_logged_in session w)
  end_session-Returns is_logged_in session w = elim (Bool-cases (eqb session 0)) [
    | inl e ↦ rw e tt
    | inr e ↦ elim (Bool-cases is_logged_in) [ inl b ↦ rw (e, b) tt | inr b ↦ rw (e, b) tt ]
  ]

  close_all-Returns :
      (is_logged_in : Bool) (session : ℕ) (e : String) (w : World)
      → Returns (close_all d {A = Uri × Bool} is_logged_in session e w)
  close_all-Returns is_logged_in session e w =
      continue-Returns (continue (end_session d is_logged_in session w) (λ u. finalize d))
        (λ u w'. done (err e) w')
        (continue-Returns (end_session d is_logged_in session w) (λ u. finalize d)
          (end_session-Returns is_logged_in session w) (λ u w'. tt))
        (λ u w'. tt)

  parsed_key_uri-Returns :
      (l : Located Uri) (r : Result Uri) (w : World) → Returns (parsed_key_uri d l r w)
  unfolding parsed_key_uri
  parsed_key_uri-Returns l (err e) w = close_all-Returns l.at.is_logged_in l.at.session e w
  parsed_key_uri-Returns l (ok uri) w = tt

  copied_key_uri-Returns :
      (uri : Option Uri) (w : World) → is_some uri ≡ true → Returns (copied_key_uri d uri w)
  unfolding copied_key_uri
  copied_key_uri-Returns none w h = cc h
  copied_key_uri-Returns (some uri) w h = tt

  own-NamesKey : (key : String) (r : Result (Located Uri)) → (key == "") ≡ false → NamesKey key r
  unfolding key_uri_for
  own-NamesKey key (err e) h = tt
  own-NamesKey key (ok l) h = λ w. rw h (parsed_key_uri-Returns l (d.parse_uri key) w)

  certificate-NamesKey : (key : String) (r : Result (Located Uri)) → HasUri r → NamesKey key r
  unfolding key_uri_for
  certificate-NamesKey key (err e) h = tt
  certificate-NamesKey key (ok l) h = λ w. elim (Bool-cases (key == "")) [
    | inl e ↦ rw e (copied_key_uri-Returns l.cert_uri w h)
    | inr e ↦ rw e (parsed_key_uri-Returns l (d.parse_uri key) w)
  ]

  Holds-implies :
      {A : Type 0} (P Q : A → Type 0) (r : Run A) → Holds P r → ((a : A) → P a → Q a) → Holds Q r
  Holds-implies P Q (done a w) h g = g a h
  Holds-implies P Q (panics w) h g = tt
  Holds-implies P Q (waits w) h g = tt

  always : {A : Type 0} (P : A → Type 0) (r : Run A) → ((a : A) → P a) → Holds P r
  always P (done a w) h = h a
  always P (panics w) h = tt
  always P (waits w) h = tt

  named-NamesKey :
      (key : String) (cert : Option Certificate) (chain : Option (List Certificate))
      (cert_id : String) (w : World)
      → HasKeyName key cert cert_id
      → Holds (NamesKey key) (locate d cert chain cert_id w)
  named-NamesKey key cert chain cert_id w (inl h) =
      always (NamesKey key) (locate d cert chain cert_id w) (λ r. own-NamesKey key r h)
  named-NamesKey key cert chain cert_id w (inr (no_cert, h)) = rw no_cert (
      Holds-implies HasUri (NamesKey key) (locate d none chain cert_id w)
        (locate-HasUri chain cert_id w h) (certificate-NamesKey key))

  -- For the arguments with which GetSigner calls GetPKCS11Signer, whatever certificate is found, the
  -- URI of the key is never copied from a nil URI of the certificate.
  pub get_signer-NamesKey :
      {Rsa Ecdsa : Type 0} (p : Parsers Rsa Ecdsa) (opts : CredentialsOpts) (lib : String)
      (cert : Option Certificate) (chain : Option (List Certificate)) (key cert_id : String)
      (reuse_pin : Bool)
      → get_signer p opts ≡ ok (pkcs11 lib cert chain key cert_id reuse_pin)
      → (w : World) → Holds (NamesKey key) (locate d cert chain cert_id w)
  get_signer-NamesKey p opts lib cert chain key cert_id reuse_pin h w =
      named-NamesKey key cert chain cert_id w (get_signer-IsPrepared p opts h).0
