-- ===== src/Tpm/Load.antt =====
-- Making the signer: fixupEmptyAuth and GetTPMv2Signer of aws_signing_helper/tpm_signer.go.
use rolesanywhere_credential.Prelude.{
  ℕ, zero, suc, ◌+◌, ◌-◌, ◌*◌, ◌/◌, Bool, true, false, not, String, List, [], ◌∷◌, Option, none,
  some, is_some, length, eqb, ltb, leb, if◌then◌else◌, ◌==◌, ◌&&◌, ◌||◌, starts_with,
}
use rolesanywhere_credential.Prelude.Int.{ℤ, pos, negsuc}
use rolesanywhere_credential.Results.{Result, ok, err, ◌>>=◌}
use rolesanywhere_credential.Keys.{Block}
use rolesanywhere_credential.FileSigner.{aws4_x509_rsa_sha256, aws4_x509_ecdsa_sha256}
use rolesanywhere_credential.SignerChoice.{TpmSignerOpts}
use rolesanywhere_credential.Tpm.{
  TpmKey, TpmPublic, Tpmv2Signer, TpmDevice, alg_rsa, alg_ecc, open_tpm,
}

abbrev pub oid_loadable_key : List ℕ
oid_loadable_key = 2 ∷ 23 ∷ 133 ∷ 10 ∷ 1 ∷ 3 ∷ []

-- Equal.
abbrev pub same_oid : List ℕ → List ℕ → Bool
same_oid [] [] = true
same_oid [] (y ∷ ys) = false
same_oid (x ∷ xs) [] = false
same_oid (x ∷ xs) (y ∷ ys) = let rest = same_oid xs ys in eqb x y && rest

-- h >> 24 == HandleTypePersistent, where a negative number stays negative.
abbrev pub handle_is_persistent : ℤ → Bool
handle_is_persistent (pos h) = eqb (h / 16777216) 129
handle_is_persistent (negsuc h) = false

-- HandleOwner, HandleNull, HandleEndorsement and HandlePlatform.
abbrev pub is_hierarchy : ℤ → Bool
is_hierarchy (pos h) = eqb h 1073741825 || eqb h 1073741831 || eqb h 1073741835 || eqb h 1073741836
is_hierarchy (negsuc h) = false

-- Where the bytes of a SEQUENCE start, from its byte of the length.
abbrev pub start_of : ℕ → Option ℕ
start_of len_byte =
    if ltb len_byte 128
    then some 2
    else if ltb len_byte 133
    then some (2 + len_byte - 128)
    else none

abbrev pub skip : ℕ → List ℕ → List ℕ
skip zero bytes = bytes
skip (suc n) [] = []
skip (suc n) (b ∷ bytes) = skip n bytes

-- The five bytes of a BOOLEAN that is 1, in an explicit tag 0, get 0xff for their value.
unfoldable pub fix_boolean : List ℕ → List ℕ
fix_boolean (tag ∷ size ∷ type ∷ width ∷ value ∷ rest) =
    if eqb tag 160 && eqb size 3 && eqb type 1 && eqb width 1 && eqb value 1
    then tag ∷ size ∷ type ∷ width ∷ 255 ∷ rest
    else tag ∷ size ∷ type ∷ width ∷ value ∷ rest
fix_boolean bytes = bytes

-- The change of the bytes from a position on.
unfoldable pub fix_at : ℕ → List ℕ → List ℕ
unfolding fix_boolean
fix_at zero bytes = fix_boolean bytes
fix_at (suc n) [] = []
fix_at (suc n) (b ∷ bytes) = b ∷ fix_at n bytes

module _ (d : TpmDevice) where
  unfoldable pub fix_behind_oid : List ℕ → Option (List ℕ × ℕ) → List ℕ
  unfolding fix_at
  fix_behind_oid data_of none = data_of
  fix_behind_oid data_of (some (oid, rest)) =
      if not (same_oid oid oid_loadable_key) || ltb rest 5
      then data_of
      else fix_at (length data_of - rest) data_of

  unfoldable pub fix_from : List ℕ → Option ℕ → List ℕ
  unfolding fix_behind_oid
  fix_from data_of none = data_of
  fix_from data_of (some start) =
      if leb (length data_of) start
      then data_of
      else fix_behind_oid data_of (d.unmarshal_oid (skip start data_of))

  unfoldable pub fixup_empty_auth : List ℕ → List ℕ
  unfolding fix_from
  fixup_empty_auth [] = []
  fixup_empty_auth (b ∷ []) = b ∷ []
  fixup_empty_auth (b ∷ len_byte ∷ rest) =
      if eqb b 48 then fix_from (b ∷ len_byte ∷ rest) (start_of len_byte) else b ∷ len_byte ∷ rest

  -- The second part of "handle:...", without 0x.
  abbrev pub hex_part : List String → Result String
  hex_part [] = err "invalid TPM handle format"
  hex_part (scheme ∷ []) = err "invalid TPM handle format"
  hex_part (scheme ∷ hex ∷ []) = ok (if starts_with hex "0x" then d.behind_two hex else hex)
  hex_part (scheme ∷ hex ∷ more ∷ rest) = err "invalid TPM handle format"

  abbrev pub handle_value : Result ℕ → Result ℕ
  handle_value (err e) = err "invalid hex TPM handle value"
  handle_value (ok handle) = ok handle

  abbrev pub unless_some : {A : Type 0} → Option String → Result A → Result A
  unless_some none next = next
  unless_some (some e) next = err e

  abbrev pub read_handle : String → Result (ℕ × TpmPublic)
  read_handle text = hex_part (d.split text ":") >>= λ hex.
      handle_value (d.parse_hex hex) >>= λ handle.
      unless_some (open_tpm d) (d.read_public handle >>= λ public. ok (handle, public))

  -- A blob with its length in two bytes before it.
  unfoldable pub blob_fits : List ℕ → Bool
  blob_fits [] = false
  blob_fits (a ∷ []) = false
  blob_fits (a ∷ b ∷ rest) = eqb (length rest) (256 * a + b)

  -- blob[2:], for one that is long enough.
  abbrev pub blob_of : List ℕ → Option (List ℕ)
  blob_of [] = none
  blob_of (a ∷ []) = none
  blob_of (a ∷ b ∷ rest) = some rest

  abbrev pub blob_or : String → Bool → List ℕ → Result (List ℕ)
  blob_or message fits blob =
      if fits then elim (blob_of blob) [ none ↦ err message | some rest ↦ ok rest ] else err message

  -- The tests of a key's data, in their order.
  unfoldable pub checked_key : String → TpmKey → Result (TpmPublic × List ℕ)
  unfolding blob_fits
  checked_key password key =
      if key.empty_auth && not (password == "")
      then err "password is provided but TPM key file indicates that one isn't required"
      else if not (same_oid key.oid oid_loadable_key)
      then err "invalid OID for TPMv2 key:"
      else if key.has_policy || key.has_auth_policy
      then err "TPMv2 policy not implemented yet"
      else if is_some key.secret
      then err "TPMv2 key has 'secret' field which should not be set"
      else if not (handle_is_persistent key.parent) && not (is_hierarchy key.parent)
      then err "invalid parent for TPMv2 key"
      else (blob_or "invalid length for TPMv2 PUBLIC blob" (blob_fits key.pubkey) key.pubkey
          >>= λ pubkey. d.decode_public pubkey >>= λ public.
              blob_or "invalid length for TPMv2 PRIVATE blob" (blob_fits key.privkey) key.privkey
              >>= λ private. ok (public, private))

  -- The signing algorithm, for a signer that is otherwise complete.
  unfoldable pub with_key_algorithm : Tpmv2Signer → Result (Tpmv2Signer × String)
  with_key_algorithm signer =
      if eqb signer.public.key_algorithm alg_rsa
      then ok (signer, aws4_x509_rsa_sha256)
      else if eqb signer.public.key_algorithm alg_ecc
      then ok (signer, aws4_x509_ecdsa_sha256)
      else err "unsupported TPMv2 key type"

  abbrev pub no_tpm_key : TpmKey
  no_tpm_key = record {
    oid = [];
    empty_auth = false;
    has_policy = false;
    secret = none;
    has_auth_policy = false;
    parent = pos 0;
    pubkey = [];
    privkey = [];
  }

  abbrev pub signer_by_handle : TpmSignerOpts → ℕ × TpmPublic → Tpmv2Signer
  signer_by_handle opts (handle, public) = record {
    cert = opts.certificate;
    cert_chain = opts.certificate_chain;
    tpm_data = no_tpm_key;
    public = public;
    private = [];
    password = opts.password;
    empty_auth = opts.empty_auth;
    handle = handle;
  }

  abbrev pub signer_by_key : TpmSignerOpts → TpmKey → TpmPublic × List ℕ → Tpmv2Signer
  signer_by_key opts key (public, private) = record {
    cert = opts.certificate;
    cert_chain = opts.certificate_chain;
    tpm_data = key;
    public = public;
    private = private;
    password = opts.password;
    empty_auth = key.empty_auth;
    handle = 0;
  }

  -- The bytes of a block that is nil panic.
  unfoldable pub from_key_pem :
      TpmSignerOpts → Option Block → Option (Result (Tpmv2Signer × String))
  from_key_pem opts none = none
  from_key_pem opts (some block) = some (
      d.unmarshal_key (fixup_empty_auth block.bytes) >>= λ key.
      checked_key opts.password key >>= λ parts. with_key_algorithm (signer_by_key opts key parts))

  -- GetTPMv2Signer; none is a panic.
  unfoldable pub get_tpmv2_signer : TpmSignerOpts → Option (Result (Tpmv2Signer × String))
  unfolding from_key_pem
  get_tpmv2_signer opts =
      if opts.handle == ""
      then from_key_pem opts opts.key_pem
      else some
          (read_handle opts.handle >>= λ found. with_key_algorithm (signer_by_handle opts found))
