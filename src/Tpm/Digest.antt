-- ===== src/Tpm/Digest.antt =====
-- The digest that Sign of aws_signing_helper/tpm_signer.go gives to the TPM.
use rolesanywhere_credential.Prelude.{
  ℕ, zero, suc, ◌+◌, ◌/◌, List, [], ◌∷◌, Option, none, some, length, eqb, ltb, if◌then◌else◌,
}
use rolesanywhere_credential.FileSigner.{Hash, sha256, sha384, sha512, other_hash}
use rolesanywhere_credential.Tpm.{
  TpmDevice, alg_unknown, alg_sha1, alg_sha256, alg_sha384, alg_sha512,
}

-- The digest and the algorithm of a hash; with another one both keep their zero values.
abbrev pub hashed : TpmDevice → Hash → List ℕ → List ℕ × ℕ
hashed d sha256 digest = (d.sum256 digest, alg_sha256)
hashed d sha384 digest = (d.sum384 digest, alg_sha384)
hashed d sha512 digest = (d.sum512 digest, alg_sha512)
hashed d other_hash digest = ([], alg_unknown)

-- The bytes of a key on a curve, at most those of SHA-512.
abbrev pub byte_size_of : ℕ → ℕ
byte_size_of bits = if ltb 64 ((bits + 7) / 8) then 64 else (bits + 7) / 8

-- The algorithm that the TPM is told, by the size of the key.
abbrev pub algorithm_of_size : ℕ → Option ℕ
algorithm_of_size size =
    if eqb size 64
    then some alg_sha512
    else if eqb size 48
    then some alg_sha384
    else if eqb size 32
    then some alg_sha256
    else if eqb size 20
    then some alg_sha1
    else none

-- shadigest[:size]
unfoldable pub first_bytes : ℕ → List ℕ → List ℕ
first_bytes zero bytes = []
first_bytes (suc n) [] = []
first_bytes (suc n) (b ∷ bytes) = b ∷ first_bytes n bytes

abbrev pub truncated : ℕ → List ℕ → List ℕ
unfolding first_bytes
truncated size digest = if ltb size (length digest) then first_bytes size digest else digest

-- The loop that puts zeros in front, on fuel: `size` rounds are enough.
unfoldable pub pad_loop : ℕ → ℕ → List ℕ → List ℕ
pad_loop zero size digest = digest
pad_loop (suc n) size digest =
    let rest = pad_loop n size (0 ∷ digest) in if ltb (length digest) size then rest else digest

unfoldable pub fit_digest : ℕ → List ℕ → List ℕ
unfolding pad_loop
fit_digest size digest = pad_loop size size (truncated size digest)
