-- ===== src/CertIdentity/Laws.antt =====
-- When a certificate matches an identifier.
use rolesanywhere_credential.Prelude.{
  ◌≡◌, refl, ap, ◌∙◌, ◌↔◌, ◌⊎◌, inl, inr, true, false, not, String, Option, none, some, Bool-cases,
  ◌==◌, ◌&&◌, eq_iff, arith, ltb-false→le,
}
use rolesanywhere_credential.Prelude.Int.{ℤ, pos, negsuc, ltb_ℤ}
use rolesanywhere_credential.Certificate.{Certificate, CertIdentifier}
use rolesanywhere_credential.CertIdentity.{serial_matches, differs, cert_matches}

-- Nothing is asked for, or just this.
abbrev pub IsAsked : String → String → Type 0
IsAsked wanted name = (wanted ≡ "") ⊎ (wanted ≡ name)

abbrev pub IsAskedSerial : Option ℤ → ℤ → Type 0
IsAskedSerial wanted serial = (wanted ≡ none) ⊎ (wanted ≡ some serial)

differs-IsAsked : (wanted name : String) → differs wanted name ≡ false → IsAsked wanted name
unfolding differs
differs-IsAsked wanted name h = elim (Bool-cases (wanted == "")) [
  | inl e ↦ inl ((eq_iff wanted "").0 e)
  | inr e ↦ elim (Bool-cases (wanted == name)) [
    | inl e' ↦ inr ((eq_iff wanted name).0 e')
    | inr e' ↦ let h' = rw (e, e') at h in cc h'
  ]
]

IsAsked-differs : (wanted name : String) → IsAsked wanted name → differs wanted name ≡ false
unfolding differs
IsAsked-differs wanted name (inl e) = let t = (eq_iff wanted "").1 e in rw t refl
IsAsked-differs wanted name (inr e) = elim (Bool-cases (wanted == "")) [
  | inl t ↦ rw t refl
  | inr t ↦ let u = (eq_iff wanted name).1 e in rw (t, u) refl
]

equal_of_cmp :
    (a b : ℤ)
    → (not (ltb_ℤ a b) && not (ltb_ℤ b a)) ≡ true
    → (ltb_ℤ a b ≡ false) × (ltb_ℤ b a ≡ false)
equal_of_cmp a b h = elim (Bool-cases (ltb_ℤ a b)) [
  | inl e ↦ let h' = rw e at h in cc h'
  | inr e ↦ elim (Bool-cases (ltb_ℤ b a)) [
    | inl e' ↦ let h' = rw (e, e') at h in cc h'
    | inr e' ↦ (e, e')
  ]
]

equal_of_not_less : (a b : ℤ) → ltb_ℤ a b ≡ false → ltb_ℤ b a ≡ false → a ≡ b
equal_of_not_less (pos m) (pos n) h k =
    ap pos (omega (arith, ltb-false→le _ _ h, ltb-false→le _ _ k))
equal_of_not_less (negsuc m) (negsuc n) h k =
    ap negsuc (omega (arith, ltb-false→le _ _ h, ltb-false→le _ _ k))
equal_of_not_less (pos m) (negsuc n) h k = absurd (omega (arith, ltb-false→le _ _ k))
equal_of_not_less (negsuc m) (pos n) h k = absurd (omega (arith, ltb-false→le _ _ h))

serial_matches-IsAskedSerial :
    (wanted : Option ℤ) (serial : ℤ)
    → serial_matches wanted serial ≡ true
    → IsAskedSerial wanted serial
unfolding serial_matches
serial_matches-IsAskedSerial none serial h = inl refl
serial_matches-IsAskedSerial (some wanted) serial h =
    let less = equal_of_cmp wanted serial h in
    inr (ap some (equal_of_not_less wanted serial less.0 less.1))

not_less_self : (a : ℤ) → ltb_ℤ a a ≡ false
not_less_self (pos n) = ground arith
not_less_self (negsuc n) = ground arith

serial_matches_self : (serial : ℤ) → serial_matches (some serial) serial ≡ true
unfolding serial_matches
serial_matches_self serial = rw (not_less_self serial) refl

IsAskedSerial-serial_matches :
    (wanted : Option ℤ) (serial : ℤ)
    → IsAskedSerial wanted serial
    → serial_matches wanted serial ≡ true
IsAskedSerial-serial_matches wanted serial (inl e) =
    ap (λ w. serial_matches w serial) e ∙ (unfold serial_matches in refl)
IsAskedSerial-serial_matches wanted serial (inr e) =
    ap (λ w. serial_matches w serial) e ∙ serial_matches_self serial

-- A certificate matches an identifier exactly if its subject, its issuer and its serial number are
-- those that the identifier asks for, each of which may be left open.
pub cert_matches_iff :
    (i : CertIdentifier) (cert : Certificate)
    → (cert_matches i cert ≡ true) ↔ (
        IsAsked i.subject cert.subject
        × IsAsked i.issuer cert.issuer
        × IsAskedSerial i.serial_number cert.serial_number)
unfolding cert_matches
cert_matches_iff i cert = (
  λ h. elim (Bool-cases (differs i.subject cert.subject)) [
    | inl e ↦ let h' = rw e at h in cc h'
    | inr e ↦ elim (Bool-cases (differs i.issuer cert.issuer)) [
      | inl e' ↦ let h' = rw (e, e') at h in cc h'
      | inr e' ↦
          let h' = rw (e, e') at h in
          (
            differs-IsAsked i.subject cert.subject e,
            differs-IsAsked i.issuer cert.issuer e',
            serial_matches-IsAskedSerial i.serial_number cert.serial_number h',
          )
    ]
  ],
  λ asked.
      let subject = IsAsked-differs i.subject cert.subject asked.0 in
      let issuer = IsAsked-differs i.issuer cert.issuer asked.1 in
      rw (subject, issuer)
        (IsAskedSerial-serial_matches i.serial_number cert.serial_number asked.2),
)
