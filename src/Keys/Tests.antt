-- ===== src/Keys/Tests.antt =====
-- Reading from concrete files.
use mathlib.Core.List.{Permᴰ}
use rolesanywhere_credential.Prelude.{
  ◌≡◌, refl, ap, ◌⊎◌, List, [], ◌∷◌, length, lookup, insert, arith, All,
}
use rolesanywhere_credential.Certificate.{Certificate}
use rolesanywhere_credential.Samples.{sample_parsers, leaf, middle}
use rolesanywhere_credential.Keys.{
  order_chain, cert_map, find_end_entity, other_certs, chain_from, parse_der_from_pem,
}
use rolesanywhere_credential.Keys.Pem.{Consumes, Finds, parse_der_from_pem-Finds}
use rolesanywhere_credential.Keys.Chain.{IssuesNone, order_chain-Perm, order_chain_starts}

abbrev certs : List Certificate
certs = middle ∷ leaf ∷ []

order_chain_test : order_chain certs ≡ leaf ∷ middle ∷ []
unfolding order_chain cert_map find_end_entity other_certs chain_from lookup insert
order_chain_test = refl

order_chain-Perm_example : Permᴰ (order_chain certs) certs
order_chain-Perm_example = order_chain-Perm certs

order_chain_starts_example :
    ((first : Certificate) × (rest : List Certificate) × (order_chain certs ≡ first ∷ rest)
      × IssuesNone first.subject certs)
    ⊎ All (λ c. IssuesNone c.subject certs → ⊥) certs
order_chain_starts_example = order_chain_starts certs

decode_all-Consumes : Consumes sample_parsers
decode_all-Consumes [] block rest e = cc e
decode_all-Consumes (b ∷ bytes) block rest e =
    let same : bytes ≡ rest = ap (λ d. d.1) e in omega (arith, ap length same)

parse_der_from_pem-Finds_example :
    Finds sample_parsers "CERTIFICATE"
      (1 ∷ 2 ∷ [])
      (parse_der_from_pem sample_parsers "cert.pem" "CERTIFICATE")
parse_der_from_pem-Finds_example =
    parse_der_from_pem-Finds sample_parsers "CERTIFICATE" decode_all-Consumes "cert.pem"
      (1 ∷ 2 ∷ []) refl
