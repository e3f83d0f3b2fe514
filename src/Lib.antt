-- ===== src/Lib.antt =====
-- A model of csar-core, the library that CSAR services share, and the theorems that make its parts
-- correct.
--
-- The parts and how they interact:
-- - ReadCache: readcache/group.go is a bounded single-flight group: concurrent readers of one key
--   share one load. readcache/scope.go puts a bounded memo, owned by one request, on top of a
--   group. ReadCache/Group.antt and ReadCache/Scope.antt model them, one function for each method
--   (NewGroup is new_group, Begin is begin with attach and lead, Finish is finish, Wait is wait,
--   Do is do_begin and end_load, Resolve is reserve, settle and resolve).
-- - ConfigSource: configsource fetches a service's configuration from a file, an S3 object, an
--   HTTP server or through a manifest that names one of these, and a watcher hands it on when it
--   is new and its hash is admitted. ConfigSource/Hash.antt is hash.go, Watcher.antt is
--   watcher.go, Http.antt is source_http.go, Manifest.antt is manifest.go, Resolver.antt is
--   source_manifest.go, Builder.antt is builder.go.
-- - TokenMint: tokenmint turns a long-lived credential pair into short-lived tokens. A descriptor
--   from the token store names a profile, the operator's profile says where and how a grant is
--   made, and the minter caches tokens and holds grants back. TokenMint/Descriptor.antt is
--   descriptor.go, Profile.antt is profile.go (Validate is validate, applyDefaults is
--   apply_defaults), Grant.antt is client.go (doGrant is do_grant), Minter.antt is minter.go
--   (mintOne is mint_one, Sweep is sweep); Minter/History.antt puts calls in a row, each with the
--   time that its grant takes, and Minter/Sweeps.antt puts sweeps between and into them.
-- - StsClient: stsclient/retry_transport.go repeats requests to the router that are safe to
--   repeat, within a budget of tokens that all requests share. StsClient/Retry.antt models
--   RoundTrip as round_trip over attempt_loop, with at most two retries, and the budget's take as
--   take.
-- - Delivery: audit/client.go and notify/client.go take events without blocking, gather them in
--   batches and let workers send them. Delivery/Client.antt models the state and each step of the
--   callers, of the dispatch loop and of the workers (Record is record_event, the closure flush is
--   flush, the loop dispatchLoop is receive and tick, workerLoop is take_batch and send_done,
--   Close is close_begin and close_end); Delivery/Notify.antt has what differs in notify, Record
--   and Close.
-- - Redaction: jsonredact/redact.go masks JSON documents by path and by key, logutil/redact.go log
--   attributes by key. Redaction/Json.antt has RedactPath as redact_path and the two walks over
--   keys as redact_walk, which differ in the test of a key; Redaction/Document.antt has
--   ParseAndRedactJSON, Redaction/Log.antt redactAttr, Redaction/Keys.antt IsSensitiveKey and
--   RedactQueryMap.
-- - Jwt: jwtx signs and verifies tokens and publishes keys. Jwt/Verify.antt has Verify as verify,
--   in the parts verify_signature and read_claims, Jwt/Sign.antt has sign.go, Jwt/Jwk.antt jwk.go,
--   Jwt/Remote.antt the cached key set of jwk_remote.go with one function for getJWKS, matchKey
--   and findKey, Jwt/Base64.antt base64URLDecode and the encoding that it undoes.
-- - Cloud: ycloud/iam.go keeps an IAM token fresh, postbox/postbox.go sends mail with it.
--   Cloud/Iam.antt has ResolveToken as resolve_token over refresh_token, the closure that it hands
--   to singleflight as refresh_once, and fetch_token, NewIAMTokenResolver as new_resolver and
--   LoadSAKey as load_sa_key; Cloud/Postbox.antt has SendEmailWithReceipt as
--   send_email_with_receipt over post, and the interface TokenResolver as a record that iam_tokens
--   fills.
-- - Gateway: gatewayctx/gatewayctx.go reads the identity that the gateway puts into headers.
--   Gateway.antt has StripTrusted as strip_trusted, FromRequest as from_request and
--   TrustedMiddleware as trusted_middleware.
-- - AuthnConfig: authnconfig/route_tokens.go fills in and checks the profiles of route tokens.
--   AuthnConfig.antt has applyRouteTokenDefaults as apply_defaults and validateRouteTokens as
--   validate_route_tokens.
-- - AuthzConfig: authzconfig/config.go checks the roles of a policy. AuthzConfig.antt has the
--   three loops of validate over roles and the names of roles, put together as validate_roles.
--
-- How the code becomes definitions: a mutex makes a method, or the locked part of one, an atomic
-- step, and a concurrent history is any list of such steps. A pointer that goroutines share is an
-- address of a heap. An error is a constructor with the values that its message shows. Maps are
-- association lists with at most one entry for a key where that matters, and the theorems do not
-- depend on their order. SHA-256, the S3 client's constructor, the JSON decoder and encoder, the
-- signature schemes, the signer of golang-jwt, the servers and the loaders are arguments. The
-- unpadded base64 of URLs and the bytes of big integers, which jwtx takes from the standard
-- library, are written out. What is mutated in place, as a JSON document is, is returned.
-- Floating-point arithmetic, URL parsing and the operations of strings are arguments too; the one
-- law that is asked of floats is that a factor of at most 1 does not lengthen a duration that
-- float64 holds exactly. A string is compared by the native equality, and its length is its number
-- of bytes. Time is in nanoseconds.
--
-- There is no fuel that could run out: the loops are structural recursion over histories, entries
-- or cycles, and the two bounded loops of the code (the retries of RoundTrip, the doublings of a
-- backoff) over the rounds that are left, as in the code. The digits of a number to the base 256
-- are taken with the number itself as the bound of their count, which is never less. Numbers that
-- the code keeps as int are natural numbers here: lengths, counts and limits, where the
-- constructors refuse limits that are not positive. The numeric claims of a token and the times of
-- a route token are integers with a sign, a decoded RSA exponent wraps around at 2 ^ 64, and so do
-- the seconds that time.Unix counts and the products that make durations of Retry-After and of the
-- life of a metadata token.
--
-- Not modelled: logging, metrics, the wall clock of tickers, goroutine scheduling inside a step,
-- and the packages that wrap third-party services (AMQP, gRPC, PostgreSQL, OpenTelemetry, SMTP,
-- TLS).

pub mod Prelude
pub mod AuthnConfig
pub mod AuthzConfig
pub mod Cloud
pub mod ConfigSource
pub mod Delivery
pub mod Gateway
pub mod Jwt
pub mod ReadCache
pub mod Redaction
pub mod StsClient
pub mod TokenMint
