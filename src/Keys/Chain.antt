-- ===== src/Keys/Chain.antt =====
-- The certificate chain that ReadPKCS12Data builds.
use mathlib.Core.List.{Permᴰ}
use mathlib.Core.List.Permᴰ
use rolesanywhere_credential.Prelude.{
  ℕ, suc, ◌≤◌, ◌<◌, ◌≡◌, refl, sym, ap, ◌∙◌, ◌⊎◌, inl, inr, true, false, String, List, [], ◌∷◌,
  Option, none, some, lookup, insert, eqb, eqb_iff, if◌then◌else◌, ◌==◌, Bool-cases, is_some, arith,
  lookup-insert, All,
}
use rolesanywhere_credential.Certificate.{Certificate}
use rolesanywhere_credential.Keys.{cert_map, find_end_entity, other_certs, chain_from, order_chain}

none_of : (o : Option Certificate) → is_some o ≡ false → o ≡ none
none_of none h = refl
none_of (some c) h = cc h

some_not_none : (o : Option Certificate) → is_some o ≡ true → o ≡ none → ⊥
some_not_none none s e = cc s
some_not_none (some c) s e = cc e

-- Behind the index nothing is left out.
other_certs_all :
    (found i : ℕ) (certs : List Certificate) → found < i → other_certs found i certs ≡ certs
unfolding other_certs
other_certs_all found i [] h = refl
other_certs_all found i (cert ∷ rest) h =
    let differ : eqb i found ≡ false = ground (arith, h) in
    rw differ (ap (λ r. cert ∷ r) (other_certs_all found (suc i) rest (omega (arith, h))))

-- The certificate found, and the others, are all the certificates.
find_end_entity-Perm :
    (m : List (String × Certificate)) (i : ℕ) (certs : List Certificate) {found : ℕ}
    {cert : Certificate}
    → find_end_entity m i certs ≡ some (found, cert)
    → (i ≤ found) × Permᴰ (cert ∷ other_certs found i certs) certs
unfolding find_end_entity other_certs
find_end_entity-Perm m i [] h = cc h
find_end_entity-Perm m i (c ∷ rest) {found} {cert} h =
    elim (Bool-cases (is_some (lookup c.subject m))) [
      | inr e ↦
          let h' = rw e at h in
          let same_index : i ≡ found = cc h' in
          let same_cert : c ≡ cert = cc h' in
          let equal : eqb i found ≡ true = (eqb_iff i found).1 same_index in
          (
            omega (arith, same_index),
            rw equal (
                Permᴰ.cons (sym same_cert) (
                  rw (other_certs_all found (suc i) rest (omega (arith, same_index)))
                    (Permᴰ.refl rest))),
          )
      | inl s ↦
          let h' = rw s at h in
          let later = find_end_entity-Perm m (suc i) rest h' in
          let differ : eqb i found ≡ false = ground (arith, later.0) in
          (
            omega (arith, later.0),
            rw differ (Permᴰ.trans (Permᴰ.swap refl refl) (Permᴰ.cons refl later.1)),
          )
    ]

chain_from-Perm :
    (m : List (String × Certificate)) (certs : List Certificate) (o : Option (ℕ × Certificate))
    → find_end_entity m 0 certs ≡ o
    → Permᴰ (chain_from o certs) certs
unfolding chain_from
chain_from-Perm m certs none h = Permᴰ.refl certs
chain_from-Perm m certs (some (found, cert)) h = (find_end_entity-Perm m 0 certs h).1

-- The chain of a PKCS#12 file holds each certificate of the file as often as the file does.
pub order_chain-Perm : (certs : List Certificate) → Permᴰ (order_chain certs) certs
unfolding order_chain
order_chain-Perm certs =
    chain_from-Perm (cert_map [] certs) certs (find_end_entity (cert_map [] certs) 0 certs) refl

-- No certificate of the list was issued by the subject.
abbrev pub IssuesNone : String → List Certificate → Type 0
IssuesNone subject certs = All (λ c. (c.issuer == subject) ≡ false) certs

-- certMap has a certificate for exactly the names that issued one of the certificates.
lookup-cert_map :
    (subject : String) (m : List (String × Certificate)) (certs : List Certificate)
    → lookup subject (cert_map m certs) ≡ none
    → (lookup subject m ≡ none) × IssuesNone subject certs
unfolding cert_map
lookup-cert_map subject m [] h = (h, tt)
lookup-cert_map subject m (c ∷ rest) h =
    let later = lookup-cert_map subject (insert c.issuer c m) rest h in
    let here = sym (lookup-insert c.issuer subject c m) ∙ later.0 in
    elim (Bool-cases (c.issuer == subject)) [
      | inl e ↦ let here' = rw e at here in cc here'
      | inr e ↦ let here' = rw e at here in (here', (e, later.1))
    ]

lookup-cert_map-none :
    (subject : String) (m : List (String × Certificate)) (certs : List Certificate)
    → lookup subject m ≡ none
    → IssuesNone subject certs
    → lookup subject (cert_map m certs) ≡ none
unfolding cert_map
lookup-cert_map-none subject m [] h a = h
lookup-cert_map-none subject m (c ∷ rest) h a =
    let kept =
      lookup-insert c.issuer subject c m
      ∙ ap (λ t. if t then some c else lookup subject m) a.0
      ∙ h in
    lookup-cert_map-none subject (insert c.issuer c m) rest kept a.1

-- The certificate found issued no certificate; where none is found, each issued one.
find_end_entity-found :
    (m : List (String × Certificate)) (i : ℕ) (certs : List Certificate) {found : ℕ}
    {cert : Certificate}
    → find_end_entity m i certs ≡ some (found, cert)
    → lookup cert.subject m ≡ none
unfolding find_end_entity
find_end_entity-found m i [] h = cc h
find_end_entity-found m i (c ∷ rest) {found} {cert} h =
    elim (Bool-cases (is_some (lookup c.subject m))) [
      | inr e ↦
          let h' = rw e at h in
          let same : c ≡ cert = cc h' in
          ap (λ x. lookup x.subject m) (sym same) ∙ none_of (lookup c.subject m) e
      | inl s ↦ let h' = rw s at h in find_end_entity-found m (suc i) rest h'
    ]

find_end_entity-none :
    (m : List (String × Certificate)) (i : ℕ) (certs : List Certificate)
    → find_end_entity m i certs ≡ none
    → All (λ c. (lookup c.subject m ≡ none) → ⊥) certs
unfolding find_end_entity
find_end_entity-none m i [] h = tt
find_end_entity-none m i (c ∷ rest) h = elim (Bool-cases (is_some (lookup c.subject m))) [
  | inr e ↦ let h' = rw e at h in cc h'
  | inl s ↦
      let h' = rw s at h in
      (λ e. some_not_none (lookup c.subject m) s e, find_end_entity-none m (suc i) rest h')
]

HasEndEntity : List Certificate → Type 0
HasEndEntity certs =
    (first : Certificate) × (rest : List Certificate) × (order_chain certs ≡ first ∷ rest)
    × IssuesNone first.subject certs

end_entity_of :
    (certs : List Certificate) (o : Option (ℕ × Certificate))
    → find_end_entity (cert_map [] certs) 0 certs ≡ o
    → HasEndEntity certs ⊎ All (λ c. IssuesNone c.subject certs → ⊥) certs
unfolding order_chain chain_from lookup HasEndEntity
end_entity_of certs none h =
    inr (All-map certs (find_end_entity-none (cert_map [] certs) 0 certs h))
  where
    All-map :
        (cs : List Certificate)
        → All (λ c. (lookup c.subject (cert_map [] certs) ≡ none) → ⊥) cs
        → All (λ c. IssuesNone c.subject certs → ⊥) cs
    All-map [] a = tt
    All-map (c ∷ cs) a = (
      λ none_issued. a.0 (lookup-cert_map-none c.subject [] certs refl none_issued),
      All-map cs a.1,
    )
end_entity_of certs (some (found, cert)) h = inl (
  cert,
  other_certs found 0 certs,
  ap (λ o. chain_from o certs) h,
  (lookup-cert_map cert.subject [] certs (find_end_entity-found (cert_map [] certs) 0 certs h)).1,
)

-- The chain of a PKCS#12 file begins with a certificate that issued none of the file's
-- certificates, unless every certificate of the file issued one of them.
pub order_chain_starts :
    (certs : List Certificate)
    → ((first : Certificate) × (rest : List Certificate) × (order_chain certs ≡ first ∷ rest)
        × IssuesNone first.subject certs)
      ⊎ All (λ c. IssuesNone c.subject certs → ⊥) certs
unfolding HasEndEntity
order_chain_starts certs = end_entity_of certs (find_end_entity (cert_map [] certs) 0 certs) refl
