-- ===== src/Pkcs11/RoundTrip.antt =====
-- Decoding what escapeAll, bytesToUint and encodeEcdsaSigValue read and write.
use rolesanywhere_credential.Prelude.{
  ℕ, zero, suc, ◌+◌, ◌-◌, ◌*◌, ◌/◌, ◌%◌, ◌^◌, ◌<◌, ◌≡◌, refl, ap, ◌∙◌, List, [], ◌∷◌, ◌++◌, length,
  length-append, arith, if◌then◌else◌, ltb, eqb, All,
}
use rolesanywhere_credential.Results.{Result, ok}
use rolesanywhere_credential.Pkcs11.Encoding.{
  native_uint, bytes_to_uint, hexchar, escape_all, set_bytes, split_at, encode_ecdsa_sig_value,
}

-- The value of a hexadecimal digit, and the percent-decoding of RFC 3986.
abbrev pub digit : ℕ → ℕ
digit c = if ltb c 58 then c - 48 else c - 55

pub unescape : List ℕ → List ℕ
unescape [] = []
unescape (p ∷ []) = p ∷ []
unescape (p ∷ a ∷ []) = p ∷ a ∷ []
unescape (p ∷ a ∷ b ∷ rest) =
    let plain = unescape (a ∷ b ∷ rest) in
    let escaped = unescape rest in
    if eqb p 37 then (16 * digit a + digit b) ∷ escaped else p ∷ plain

digit-hexchar : (n : ℕ) → n < 16 → digit (hexchar n) ≡ n
digit-hexchar n h = ground (arith, h)

byte_of_digits : (c : ℕ) → c < 256 → 16 * digit (hexchar (c / 16)) + digit (hexchar (c % 16)) ≡ c
byte_of_digits c h =
    omega (arith, digit-hexchar (c / 16) (omega (arith, h)), digit-hexchar (c % 16) (omega arith))

abbrev pub AreBytes : List ℕ → Type 0
AreBytes bytes = All (λ b. b < 256) bytes

-- Percent-decoding what escapeAll makes of bytes gives the bytes.
pub unescape-escape_all : (bytes : List ℕ) → AreBytes bytes → unescape (escape_all bytes) ≡ bytes
unfolding unescape escape_all
unescape-escape_all [] h = refl
unescape-escape_all (c ∷ rest) h =
    ap (λ (n : ℕ). n ∷ unescape (escape_all rest)) (byte_of_digits c h.0)
    ∙ ap (λ r. c ∷ r) (unescape-escape_all rest h.1)

-- The bytes of an integer in memory, least significant byte first.
abbrev pub native_bytes : ℕ → ℕ → List ℕ
native_bytes zero n = []
native_bytes (suc width) n = n % 256 ∷ native_bytes width (n / 256)

native_uint-native_bytes : (width n : ℕ) → n < 256 ^ width → native_uint (native_bytes width n) ≡ n
native_uint-native_bytes zero n h = omega (arith, h)
native_uint-native_bytes (suc width) n h =
    omega (arith, native_uint-native_bytes width (n / 256) (omega (arith, h)))

-- The sizes of the unsigned integers.
pub data IsIntegerSize : ℕ → Type 0 where
  size_8 : IsIntegerSize 1
  size_16 : IsIntegerSize 2
  size_32 : IsIntegerSize 4
  size_64 : IsIntegerSize 8

-- bytesToUint reads back every unsigned integer of one, two, four or eight bytes.
pub bytes_to_uint-native_bytes :
    {size : ℕ} (n : ℕ)
    → IsIntegerSize size
    → n < 256 ^ size
    → bytes_to_uint (native_bytes size n) ≡ ok n
unfolding bytes_to_uint
bytes_to_uint-native_bytes n size_8 h = ap ok (native_uint-native_bytes 1 n h)
bytes_to_uint-native_bytes n size_16 h = ap ok (native_uint-native_bytes 2 n h)
bytes_to_uint-native_bytes n size_32 h = ap ok (native_uint-native_bytes 4 n h)
bytes_to_uint-native_bytes n size_64 h = ap ok (native_uint-native_bytes 8 n h)

-- The bytes of an integer in a signature, most significant byte first.
abbrev pub big_endian : ℕ → ℕ → List ℕ
big_endian zero n = []
big_endian (suc width) n = big_endian width (n / 256) ++ (n % 256 ∷ [])

set_bytes-append : (n : ℕ) (xs ys : List ℕ) → set_bytes n (xs ++ ys) ≡ set_bytes (set_bytes n xs) ys
set_bytes-append n [] ys = refl
set_bytes-append n (x ∷ xs) ys = set_bytes-append (256 * n + x) xs ys

set_bytes-big_endian : (width n : ℕ) → n < 256 ^ width → set_bytes 0 (big_endian width n) ≡ n
set_bytes-big_endian zero n h = omega (arith, h)
set_bytes-big_endian (suc width) n h =
    set_bytes-append 0 (big_endian width (n / 256)) (n % 256 ∷ [])
    ∙ omega (arith, set_bytes-big_endian width (n / 256) (omega (arith, h)))

length-big_endian : (width n : ℕ) → length (big_endian width n) ≡ width
length-big_endian zero n = refl
length-big_endian (suc width) n = omega (
  arith,
  length-append (big_endian width (n / 256)) (n % 256 ∷ []),
  length-big_endian width (n / 256),
)

split_at-append : (xs ys : List ℕ) → split_at (length xs) (xs ++ ys) ≡ (xs, ys)
split_at-append [] ys = refl
split_at-append (x ∷ xs) ys = ap (λ (p : List ℕ × List ℕ). (x ∷ p.0, p.1)) (split_at-append xs ys)

-- encodeEcdsaSigValue marshals the integers R and S of a raw signature, in which both have the same
-- number of bytes.
pub encode_ecdsa_sig_value-big_endian :
    (marshal : ℕ → ℕ → Result (List ℕ)) (width r s : ℕ)
    → r < 256 ^ width
    → s < 256 ^ width
    → encode_ecdsa_sig_value marshal (big_endian width r ++ big_endian width s) ≡ marshal r s
unfolding encode_ecdsa_sig_value
encode_ecdsa_sig_value-big_endian marshal width r s hr hs =
    let first = big_endian width r in
    let second = big_endian width s in
    let half : length (first ++ second) / 2 ≡ length first =
      omega
        (arith, length-append first second, length-big_endian width r, length-big_endian width s) in
    ap
      (λ (n : ℕ).
        marshal (set_bytes 0 (split_at n (first ++ second)).0)
          (set_bytes 0 (split_at n (first ++ second)).1))
      half
    ∙ ap (λ (p : List ℕ × List ℕ). marshal (set_bytes 0 p.0) (set_bytes 0 p.1))
        (split_at-append first second)
    ∙ ap (λ (n : ℕ). marshal n (set_bytes 0 second)) (set_bytes-big_endian width r hr)
    ∙ ap (marshal r) (set_bytes-big_endian width s hs)
