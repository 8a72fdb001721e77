-- ===== src/Pkcs11/KeyScan.antt =====
-- The keys of a search, tried one after another: the loop of getPKCS11Key in
-- aws_signing_helper/pkcs11_signer.go.
use rolesanywhere_credential.Prelude.{
  ℕ, Bool, true, false, String, List, [], ◌∷◌, Option, none, some, eqb, if◌then◌else◌,
}
use rolesanywhere_credential.Results.{Result, ok, err}
use rolesanywhere_credential.Certificate.{Certificate}
use rolesanywhere_credential.Pkcs11.{
  SlotIdInfo, empty_slot, KeyObjInfo, empty_key, Event, Device, cka_id, cka_label, cka_key_type,
  cka_always_authenticate,
}
use rolesanywhere_credential.Pkcs11.Calls.{M, ◌>>=◌, pure, history}
use rolesanywhere_credential.Pkcs11.Encoding.{bytes_to_uint}
use rolesanywhere_credential.Pkcs11.Certs.{or_nil}
use rolesanywhere_credential.Pkcs11.SignHelper.{check_private_key_matches_cert}

-- The variables that the search for a key assigns; they keep their values when it is repeated.
pub record KeyState : Type 0 where
  pub key : KeyObjInfo
  pub key_type : ℕ
  pub always_auth : ℕ
  pub context_pin : String

abbrev pub no_key : String → KeyState
no_key context_pin = record {
  key = empty_key;
  key_type = 0;
  always_auth = 0;
  context_pin = context_pin;
}

pub data KeyScan : Type 0 where
  scanned : KeyState → KeyScan
  scan_failed : String → KeyScan

-- What is read of a key object: nothing, an unsupported integer, or the key with its type and the
-- attribute CKA_ALWAYS_AUTHENTICATE.
pub data KeyRead : Type 0 where
  skipped : KeyRead
  unreadable : String → KeyRead
  readable : KeyObjInfo → ℕ → ℕ → KeyRead

-- The session, and the slot if another one than the certificate's was chosen.
pub record Chosen : Type 0 where
  pub session : ℕ
  pub is_logged_in : Bool
  pub slot : SlotIdInfo
  pub manufacturer : String

abbrev pub always_auth_of : KeyObjInfo → ℕ → Result ℕ → KeyRead
always_auth_of key key_type (err e) = unreadable e
always_auth_of key key_type (ok always_auth) = readable key key_type always_auth

abbrev pub with_always_auth : KeyObjInfo → ℕ → Result (List ℕ) → KeyRead
with_always_auth key key_type (err e) = readable key key_type 0
with_always_auth key key_type (ok value) = always_auth_of key key_type (bytes_to_uint value)

abbrev pub with_key_type : KeyObjInfo → Result (List ℕ) → Result ℕ → KeyRead
with_key_type key always_auth (err e) = unreadable e
with_key_type key always_auth (ok key_type) = with_always_auth key key_type always_auth

abbrev pub key_read_of : KeyObjInfo → Result (List ℕ) → Result (List ℕ) → KeyRead
key_read_of key always_auth (err e) = skipped
key_read_of key always_auth (ok value) = with_key_type key always_auth (bytes_to_uint value)

-- The slot with the certificate's number, if there are none or many.
unfoldable pub slot_with : ℕ → List SlotIdInfo → Option SlotIdInfo
slot_with nr [] = none
slot_with nr (slot ∷ rest) =
    let later = slot_with nr rest in if eqb nr slot.id then some slot else later

-- What getPKCS11Key returns: zero values beside an error, which may be nil as well.
pub record KeyFound (Uri : Type 0) : Type 0 where
  pub session : ℕ
  pub user_pin : String
  pub key_uri : Option Uri
  pub key_type : ℕ
  pub key : KeyObjInfo
  pub slot : SlotIdInfo
  pub always_auth : ℕ
  pub context_pin : String
  pub error : Option String

module _ {Uri : Type 0} (d : Device Uri) where
  abbrev pub key_failed : Option String → KeyFound Uri
  key_failed e = record {
    session = 0;
    user_pin = "";
    key_uri = none;
    key_type = 0;
    key = empty_key;
    slot = empty_slot;
    always_auth = 0;
    context_pin = "";
    error = e;
  }

  abbrev pub key_read : List Event → ℕ → ℕ → KeyRead
  key_read h session handle =
      key_read_of
        (record {
          id = or_nil (d.attribute h session handle cka_id);
          label = or_nil (d.attribute h session handle cka_label);
          key_object = handle;
        })
        (d.attribute h session handle cka_always_authenticate)
        (d.attribute h session handle cka_key_type)

  module _ (session : ℕ) (user_pin : String) (reuse_pin : Bool) (cert : Option Certificate)
      (manufacturer : String) where
    unfoldable pub matched :
        KeyState → KeyObjInfo → (KeyState → M KeyScan) → String × Bool → M KeyScan
    matched s key next (pin, true) = pure (scanned (record s { key = key; context_pin = pin }))
    matched s key next (pin, false) = next s

    -- A readable key: with a certificate it must match it, without one it must be the only one.
    unfoldable pub try_key :
        Option Certificate → ℕ → KeyState → KeyObjInfo → (KeyState → M KeyScan) → M KeyScan
    unfolding matched
    try_key none count s key next =
        if eqb count 1
        then pure (scanned (record s { key = key }))
        else pure (
            scan_failed "multiple matching private keys, but no certificate provided to match with")
    try_key (some c) count s key next =
        check_private_key_matches_cert d session s.key_type user_pin s.always_auth reuse_pin key c
          manufacturer
        >>= matched s key next

    unfoldable pub try_read : ℕ → KeyState → (KeyState → M KeyScan) → KeyRead → M KeyScan
    unfolding try_key
    try_read count s next skipped = next s
    try_read count s next (unreadable e) = pure (scan_failed e)
    try_read count s next (readable key key_type always_auth) =
        try_key cert count (record s { key_type = key_type; always_auth = always_auth }) key next

    -- The loop over the handles, of which there are `count` in all.
    unfoldable pub scan_keys : ℕ → List ℕ → KeyState → M KeyScan
    unfolding try_read
    scan_keys count [] s = pure (scanned s)
    scan_keys count (handle ∷ rest) s =
        history >>= λ h. try_read count s (scan_keys count rest) (key_read h session handle)
