-- ===== src/Lib.antt =====
-- IAM Roles Anywhere credential helper: a model of its core.
--
-- The program obtains temporary AWS credentials with a certificate. cmd reads flags into options
-- (Selector), GetSigner chooses what holds the private key (SignerChoice), GenerateCredentials
-- calls CreateSession with a request that the key signs (Session, Signing), and the credentials
-- are printed, written to the shared credentials file (Update, CredentialsFile) or served by a
-- local metadata endpoint with session tokens (Metadata, Tokens).
--
-- Files and the sources they model:
--   Tokens            aws_signing_helper/serve.go: the map of tokens; Bounds (its search), Eviction
--                     and Expiry are its laws.
--   Metadata          aws_signing_helper/serve.go: the three handlers; Access (guards), Refresh
--                     (the stored credential), System (the goroutines as steps), Soundness (what
--                     every step keeps), Handler (an uninterrupted handler as steps), Start (Serve
--                     up to the server's loop), Launch (what a started server can be brought to).
--   Session           aws_signing_helper/credentials.go: GenerateCredentials, with the request
--                     it sends.
--   Signing           aws_signing_helper/signer.go: signRequest and its helpers; Squeeze and
--                     Spaces on stripExcessSpaces, Headers on what the signature covers.
--   Keys              aws_signing_helper/signer.go: PEM, private keys, certificates, PKCS#12;
--                     Pem on the loop, Chain on the order of a chain.
--   Password          aws_signing_helper/signer.go: GetPassword and PasswordPrompt.
--   CertIdentity      aws_signing_helper/signer.go: certMatches.
--   FileSigner        aws_signing_helper/file_system_signer.go.
--   Pkcs11            aws_signing_helper/pkcs11_signer.go, and encodeEcdsaSigValue of signer.go.
--                     Calls: the monad of the module's calls. Slots, Certs, Chain, Pin,
--                     SignHelper, KeyScan, Key, Locate, Sign and Encoding: its functions in the
--                     order of their calls. KeyLaws, ScanLaws and KeySearch (the key that is found),
--                     SearchLaws (how the search ends), SignLaws, CertLaws, ChainLaws,
--                     ChoiceLaws, PinLaws and RoundTrip: their laws.
--   Tpm               aws_signing_helper/tpm_signer.go and tpm_signer_helper_*.go: Load (the
--                     key's file), Digest, Sign; Handles, Padding and Loadable are their laws.
--   SignerChoice      aws_signing_helper/signer.go: GetSigner, up to the constructor it calls
--                     last.
--   Selector          cmd/credentials.go: certificate selectors and the options.
--   Commands          cmd/sign_string.go, read_certificate_data.go, credential_process.go,
--                     update.go and serve.go.
--   CredentialsFile   aws_signing_helper/update.go: GetNewCredentialsFileContents; Sections and
--                     Loss.
--   Update            aws_signing_helper/update.go: the update loop; Writes (what it leaves in the
--                     file) and Once.
--   Certificate, Results, Clock, Prelude: certificates and signers, Go's errors and panics, the
--                     interface of package time, and the helpers. Samples: concrete stand-ins
--                     for the tests in the modules Tests.
--
-- State is passed explicitly. A Go map is an association list in the order of one iteration, a nil
-- pointer is none, an error is its text, and an index out of range or an exit is an outcome of its
-- own. A time is a value of the interface Clock, whose laws are those of package time: its instant
-- is an integer of nanoseconds, and a difference saturates at 64 bits. Numbers are unbounded but
-- where a conversion wraps round (int32 of the session duration).
--
-- What a PKCS#11 module answers may depend on the calls made before: a world holds them, the
-- latest first, with what the user will enter, and a run ends with a value, a panic or a wait for
-- the terminal. A label of the source that is reached by goto is a definition of its own.
--
-- The goroutines of the endpoint are steps on one state. An operation on the token map is one step,
-- since it holds the mutex, but the clock that it uses was read before. The stored credential has
-- no lock: a handler that refreshes it writes one field a step, and other handlers may write
-- between. One field is written at once, which Go does not promise for a data race.
--
-- Opening the credentials file for writing empties it. What it holds after a write that fails, or
-- after a Flush whose error the program drops, is the library's: a parameter of the file system.
--
-- Fuel: the loops over PEM data run on the length of their input, which each block makes shorter.
-- The update loop runs on a list of worlds, one for each round, and the prompt for a password on a
-- list of what is entered; both tell apart a list that ends from a loop that does. The search for
-- a PKCS#11 key runs on fuel 2, since it is repeated at most once, and the chain out of a token on
-- the number of certificates, of which each round takes one away. A digest is padded for a TPM on
-- the size of the key, one byte a round.
--
-- Parameters, with what is assumed of them at the theorem that needs it: the file system, ARNs,
-- the SDK's configuration and the call of CreateSession, JSON, base64, hexadecimal, digests,
-- signatures, X.509, PEM and PKCS#12 parsing, the PKCS#11 module and its URIs, the TPM, the
-- splitting of strings, Unicode case, random bytes and the terminal. FlushContext of the TPM is taken
-- to succeed, as the program ignores its error; the files of a signer do not change during a call.
--
-- Not modelled: the signers on the certificate stores of operating systems, which are bindings of
-- their interfaces, the listener that sets a TTL, the generated API client under rolesanywhere,
-- the helpers copied from the SDK under internal, and the declarations of flags.
pub mod Prelude
pub mod Clock
pub mod Results
pub mod Certificate
pub mod Session
pub mod Metadata
pub mod CredentialsFile
pub mod Update
pub mod Keys
pub mod FileSigner
pub mod Signing
pub mod SignerChoice
pub mod Selector
pub mod CertIdentity
pub mod Password
pub mod Samples
pub mod Pkcs11
pub mod Tpm
pub mod Commands
pub mod Tokens
