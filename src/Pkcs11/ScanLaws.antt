-- ===== src/Pkcs11/ScanLaws.antt =====
-- The keys of one search: a key that is kept was proven against the certificate.
use rolesanywhere_credential.Prelude.{
  ℕ, ◌≡◌, refl, inl, inr, Bool, true, false, String, List, [], ◌∷◌, Option, none, some, Bool-cases,
  eqb,
}
use rolesanywhere_credential.Certificate.{Certificate}
use rolesanywhere_credential.Pkcs11.{Device, KeyObjInfo}
use rolesanywhere_credential.Pkcs11.Calls.{World, M}
use rolesanywhere_credential.Pkcs11.SignHelper.{check_private_key_matches_cert}
use rolesanywhere_credential.Pkcs11.KeyScan.{
  KeyState, KeyScan, scanned, scan_failed, KeyRead, skipped, unreadable, readable, key_read,
  matched, try_key, try_read, scan_keys,
}
use rolesanywhere_credential.Pkcs11.KeyLaws.{
  Holds, continue-Holds, IsProven, IsChecked, check_private_key-IsProven,
}

module _ {Uri : Type 0} (d : Device Uri) where
  abbrev pub IsSound : ℕ → Option Certificate → KeyScan → Type 0
  IsSound session cert (scanned s) = IsChecked d session cert s.key
  IsSound session cert (scan_failed e) = Unit

  abbrev pub NextIsSound : ℕ → Option Certificate → (KeyState → M KeyScan) → Type 0
  NextIsSound session cert next =
      (s : KeyState) (w : World)
      → IsChecked d session cert s.key
      → Holds (IsSound session cert) (next s w)

  module _ (session : ℕ) (user_pin : String) (reuse_pin : Bool) (manufacturer : String) where
    matched-IsSound :
        (c : Certificate) (s : KeyState) (key : KeyObjInfo) (next : KeyState → M KeyScan)
        (p : String × Bool) (w : World)
        → NextIsSound session (some c) next
        → IsChecked d session (some c) s.key
        → (p.1 ≡ true → IsProven d session c key)
        → Holds
            (IsSound session (some c))
            (matched d session user_pin reuse_pin (some c) manufacturer s key next p w)
    unfolding matched
    matched-IsSound c s key next (pin, true) w hn hs h = inr (h refl)
    matched-IsSound c s key next (pin, false) w hn hs h = hn s w hs

    try_key-IsSound :
        (cert : Option Certificate) (count : ℕ) (s : KeyState) (key : KeyObjInfo)
        (next : KeyState → M KeyScan) (w : World)
        → NextIsSound session cert next
        → IsChecked d session cert s.key
        → Holds
            (IsSound session cert)
            (try_key d session user_pin reuse_pin cert manufacturer cert count s key next w)
    unfolding try_key
    try_key-IsSound none count s key next w hn hs = elim (Bool-cases (eqb count 1)) [
      | inl e ↦ rw e tt
      | inr e ↦ rw e tt
    ]
    try_key-IsSound (some c) count s key next w hn hs =
        continue-Holds (λ (p : String × Bool). p.1 ≡ true → IsProven d session c key)
          (IsSound session (some c))
          (check_private_key_matches_cert d session s.key_type user_pin s.always_auth reuse_pin key
            c manufacturer w)
          (matched d session user_pin reuse_pin (some c) manufacturer s key next)
          (check_private_key-IsProven d session key c manufacturer user_pin s.always_auth reuse_pin
            s.key_type w)
          (λ p w' h. matched-IsSound c s key next p w' hn hs h)

    try_read-IsSound :
        (cert : Option Certificate) (count : ℕ) (s : KeyState) (next : KeyState → M KeyScan)
        (r : KeyRead) (w : World)
        → NextIsSound session cert next
        → IsChecked d session cert s.key
        → Holds
            (IsSound session cert)
            (try_read d session user_pin reuse_pin cert manufacturer count s next r w)
    unfolding try_read
    try_read-IsSound cert count s next skipped w hn hs = hn s w hs
    try_read-IsSound cert count s next (unreadable e) w hn hs = tt
    try_read-IsSound cert count s next (readable key key_type always_auth) w hn hs =
        try_key-IsSound cert count (record s { key_type = key_type; always_auth = always_auth }) key
          next w hn hs

    pub scan_keys-IsSound :
        (cert : Option Certificate) (count : ℕ) (handles : List ℕ)
        → NextIsSound session cert
            (scan_keys d session user_pin reuse_pin cert manufacturer count handles)
    unfolding scan_keys
    scan_keys-IsSound cert count [] s w hs = hs
    scan_keys-IsSound cert count (handle ∷ rest) s w hs =
        try_read-IsSound cert count s
          (scan_keys d session user_pin reuse_pin cert manufacturer count rest)
          (key_read d w.events session handle) w (scan_keys-IsSound cert count rest) hs
