-- ===== src/SignerChoice/Tests.antt =====
-- The choice of a signer for concrete options.
