-- ===== src/Lib.antt =====
-- JASM: what its controller, its providers and its retry queue do, and that they do it.
--
-- JASM watches pods. A pod with the annotation `jasm.io/secret-sync` names a provider, a path and a
-- secret; the controller fetches the path from the provider and writes the values to the secret, in the
-- namespace of the pod. The parts, and the files that model them:
--
--   Controller       internal/controller/podsecret_controller.go. `reconcile` is Reconcile, cut into one
--                    function for each early return; `find_pods_for_secret` is findPodsForSecret. Target
--                    holds the secret to be written. The state is that of the API server, a parameter
--                    (`Client`), so a write is a call that takes it to a new state and may fail.
--                    `watched` is what SetupWithManager has a change of a pod or a secret queue.
--   Annotation       internal/annotation/parser.go. `parse_annotation`; the YAML decoder is a parameter.
--   Events           internal/events/recorder.go, each call as the event that it records.
--   Registry         internal/provider/provider.go: the registry, and the choice of providers at start,
--                    where NewBitwardenProvider may panic; a fetch returns, panics or never ends.
--   Aws              internal/provider/aws.go: NewAWSSecretsManagerProvider and FetchSecret, with the SDK
--                    and the JSON codec as parameters.
--   Main             cmd/controller/main.go: main as a chain of calls that may each end it.
--   Delivery         the way of a secret through Registry, Aws and Controller.
--   RetryQueue       internal/provider/retry_queue.go. Callers and the goroutine of `process` interleave,
--                    so every method is cut at the mutex, the atomics and the waits; Steps says which
--                    part may run when, and a Run is any interleaving. Start is one part. `depth` is an int64 as its bit
--                    pattern; `calculate_backoff` wraps around as the code does.
--   Reference        internal/provider/onepassword_ref.go and bitwarden_ref.go: what both parsers share,
--                    and a module for each.
--   OnePassword      internal/provider/onepassword.go, with the SDK as a parameter and the metrics as
--                    state. Setup is NewOnePasswordProvider; Failures and Fetch hold the theorems.
--   Bitwarden        Crypto is internal/provider/bitwarden_crypto.go: encrypted strings, over an AES
--                    block cipher and an HMAC given as parameters, with the panics of the code, and the
--                    derivation of keys; Crypto/Seal describes the encryption of a client, for its
--                    round trip. Items is bitwarden_types.go: ToSecretMap. Client is
--                    bitwarden_client.go: the cache and FindItem, Client/Sync the requests of
--                    SyncVault, Client/Vault the decryption of what they bring, and Client/Session
--                    Authenticate; what the server replies is a parameter. Provider is bitwarden.go:
--                    FetchSecret and its errors, with the client, the metrics and the mutex as state.
--                    Client/Vault/Sealed says what a stored vault is, and Provider/Stored follows a
--                    secret from there to the result of a fetch.
--   Metrics          internal/metrics/metrics.go: what was added to the instruments of a provider, and in
--                    Export the set-up of the exporter.
--   Text, StrMap,    Go's strings as bytes with the functions of strings, net/url and strconv that the
--   Errors           code calls, Go's maps, and error values with their texts.
--   Base             shared names, lists, results, integers and the exclusive or.
--   Tests            runs at concrete inputs, and each theorem at an input that meets its hypotheses.
--
-- A Go map is an association list in the order in which a `range` visits it; theorems about loops over
-- maps hold for every list with unique keys. Texts are folded and quoted as ASCII texts are; a byte
-- above 0x7f stands for itself. An error is its text, with its wrapped error. The
-- loops run over lists or count down as the code does; only the printing of a number takes fuel,
-- nineteen digits, which are as many as an int can have.
--
-- Not modelled: logging; durations; the clock, but for the time stamp of a secret and what is expired;
-- the parsing of the command line; what the API server, the vault server, the SDKs, the ciphers and the
-- decoders do, beyond the hypotheses that a theorem names.
pub mod Base
pub mod Text
pub mod Reference
pub mod RetryQueue
pub mod Metrics
pub mod Main
pub mod Errors
pub mod StrMap
pub mod Annotation
pub mod Aws
pub mod Registry
pub mod Events
pub mod Controller
pub mod Delivery
pub mod OnePassword
pub mod Bitwarden
mod Tests
