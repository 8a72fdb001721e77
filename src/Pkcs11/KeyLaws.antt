-- ===== src/Pkcs11/KeyLaws.antt =====
-- The key that is chosen for a certificate.
use rolesanywhere_credential.Prelude.{
  ℕ, ◌≡◌, refl, ap, ◌∙◌, inl, inr, ◌⊎◌, Bool, true, false, String, List, Option, none, some,
  Bool-cases,
}
use rolesanywhere_credential.Results.{ok, err}
use rolesanywhere_credential.Certificate.{Certificate}
use rolesanywhere_credential.FileSigner.{sha256}
use rolesanywhere_credential.Pkcs11.{
  Device, KeyObjInfo, PublicKey, ec_public, rsa_public, other_public,
}
use rolesanywhere_credential.Pkcs11.Calls.{World, Run, done, panics, waits, M, continue}
use rolesanywhere_credential.Pkcs11.SignHelper.{
  Signed, sign_helper, challenge, fits, verified, check_private_key_matches_cert,
}

-- A property of what a run returns.
abbrev pub Holds : {A : Type 0} → (A → Type 0) → Run A → Type 0
Holds P (done a w) = P a
Holds P (panics w) = Unit
Holds P (waits w) = Unit

pub continue-Holds :
    {A B : Type 0} (P : A → Type 0) (Q : B → Type 0) (r : Run A) (f : A → M B)
    → Holds P r
    → ((a : A) (w : World) → P a → Holds Q (f a w))
    → Holds Q (continue r f)
continue-Holds P Q (done a w) f h g = g a w h
continue-Holds P Q (panics w) f h g = tt
continue-Holds P Q (waits w) f h g = tt

pub unit-Holds : {A : Type 0} (r : Run A) → Holds (λ a. Unit) r
unit-Holds (done a w) = tt
unit-Holds (panics w) = tt
unit-Holds (waits w) = tt

module _ {Uri : Type 0} (d : Device Uri) where
  -- A public key accepts a signature of a hashed challenge.
  abbrev pub accepts : PublicKey → List ℕ → List ℕ → Bool
  accepts (ec_public bytes) hash sig = d.verify_ecdsa bytes hash sig
  accepts (rsa_public bytes) hash sig = d.verify_rsa bytes hash sig
  accepts other_public hash sig = false

  -- A key made a signature in a session that the key of a certificate accepts.
  pub record IsProven (session : ℕ) (c : Certificate) (key : KeyObjInfo) : Type 0 where
    pub manufacturer : String
    pub user_pin : String
    pub always_auth : ℕ
    pub reuse_pin : Bool
    pub key_type : ℕ
    pub before : World
    pub after : World
    pub pin : String
    pub sig : List ℕ
    pub made :
        sign_helper d session key user_pin always_auth "" reuse_pin key_type
          (challenge d (d.public_key c) manufacturer)
          sha256
          before
        ≡ done (pin, ok sig) after
    pub accepted :
        accepts (d.public_key c) (d.sum256 (challenge d (d.public_key c) manufacturer)) sig ≡ true

  -- Beside a certificate: no key, or one that was proven.
  abbrev pub IsChecked : ℕ → Option Certificate → KeyObjInfo → Type 0
  IsChecked session none key = Unit
  IsChecked session (some c) key = (key.key_object ≡ 0) ⊎ IsProven session c key

  verified-accepts :
      (public : PublicKey) (hash : List ℕ) (s : Signed)
      → (verified d public hash s).1 ≡ true
      → (sig : List ℕ) × (s ≡ (s.0, ok sig)) × (accepts public hash sig ≡ true)
  verified-accepts public hash (p, err e) h = cc h
  verified-accepts (ec_public bytes) hash (p, ok sig) h = (sig, refl, h)
  verified-accepts (rsa_public bytes) hash (p, ok sig) h = (sig, refl, h)
  verified-accepts other_public hash (p, ok sig) h = cc h

  module _ (session : ℕ) (key : KeyObjInfo) (c : Certificate) (manufacturer user_pin : String)
      (always_auth : ℕ) (reuse_pin : Bool) (key_type : ℕ) (w : World) where
    abbrev test_of : Run Signed
    test_of =
        sign_helper d session key user_pin always_auth "" reuse_pin key_type
          (challenge d (d.public_key c) manufacturer) sha256 w

    verified-IsProven :
        (r : Run Signed)
        → test_of ≡ r
        → Holds
            (λ (p : String × Bool). p.1 ≡ true → IsProven session c key)
            (continue r (λ s w'.
              done
                (verified d
                  (d.public_key c)
                  (d.sum256 (challenge d (d.public_key c) manufacturer))
                  s)
                w'))
    verified-IsProven (panics w') e = tt
    verified-IsProven (waits w') e = tt
    verified-IsProven (done s w') e = λ t.
        let v =
          verified-accepts (d.public_key c) (d.sum256 (challenge d (d.public_key c) manufacturer)) s
            t in
        record {
          manufacturer = manufacturer;
          user_pin = user_pin;
          always_auth = always_auth;
          reuse_pin = reuse_pin;
          key_type = key_type;
          before = w;
          after = w';
          pin = s.0;
          sig = v.0;
          made = e ∙ ap (λ x. done x w') v.1;
          accepted = v.2;
        }

    pub check_private_key-IsProven :
        Holds
          (λ (p : String × Bool). p.1 ≡ true → IsProven session c key)
          (check_private_key_matches_cert d session key_type user_pin always_auth reuse_pin key c
            manufacturer w)
    unfolding check_private_key_matches_cert
    check_private_key-IsProven = elim (Bool-cases (fits d (d.public_key c) key_type)) [
      | inl e ↦ rw e (verified-IsProven test_of refl)
      | inr e ↦ rw e (λ t. cc t)
    ]
