-- ===== src/Pkcs11/Encoding.antt =====
-- bytesToUint and escapeAll.
use rolesanywhere_credential.Prelude.{
  ℕ, zero, suc, ◌+◌, ◌*◌, ◌/◌, ◌%◌, List, [], ◌∷◌, length, if◌then◌else◌, ltb,
}
use rolesanywhere_credential.Results.{Result, ok, err}

-- The number that bytes stand for in memory, least significant byte first, as on the platforms for
-- which the program is built.
abbrev pub native_uint : List ℕ → ℕ
native_uint [] = 0
native_uint (b ∷ rest) = b + 256 * native_uint rest

unfoldable pub bytes_to_uint : List ℕ → Result ℕ
bytes_to_uint (a ∷ []) = ok (native_uint (a ∷ []))
bytes_to_uint (a ∷ b ∷ []) = ok (native_uint (a ∷ b ∷ []))
bytes_to_uint (a ∷ b ∷ c ∷ d ∷ []) = ok (native_uint (a ∷ b ∷ c ∷ d ∷ []))
bytes_to_uint (a ∷ b ∷ c ∷ d ∷ e ∷ f ∷ g ∷ h ∷ []) =
    ok (native_uint (a ∷ b ∷ c ∷ d ∷ e ∷ f ∷ g ∷ h ∷ []))
bytes_to_uint b = err "Unsupported integer size in bytesToUint"

-- hexchar[n]: "0123456789ABCDEF" has the digits at 48 and the letters at 65.
abbrev pub hexchar : ℕ → ℕ
hexchar n = if ltb n 10 then 48 + n else 55 + n

-- Three bytes for each byte: '%' and two hexadecimal digits.
unfoldable pub escape_all : List ℕ → List ℕ
escape_all [] = []
escape_all (c ∷ rest) = 37 ∷ hexchar (c / 16) ∷ hexchar (c % 16) ∷ escape_all rest

-- big.Int's SetBytes: the most significant byte first, behind what was read so far.
abbrev pub set_bytes : ℕ → List ℕ → ℕ
set_bytes read [] = read
set_bytes read (b ∷ rest) = set_bytes (256 * read + b) rest

-- signature[:n] and signature[n:]
abbrev pub split_at : ℕ → List ℕ → List ℕ × List ℕ
split_at zero bytes = ([], bytes)
split_at (suc n) [] = ([], [])
split_at (suc n) (b ∷ bytes) = (b ∷ (split_at n bytes).0, (split_at n bytes).1)

-- encodeEcdsaSigValue of aws_signing_helper/signer.go, from asn1.Marshal of R and S.
unfoldable pub encode_ecdsa_sig_value : (ℕ → ℕ → Result (List ℕ)) → List ℕ → Result (List ℕ)
encode_ecdsa_sig_value marshal signature =
    let halves = split_at (length signature / 2) signature in
    marshal (set_bytes 0 halves.0) (set_bytes 0 halves.1)
