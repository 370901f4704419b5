-- ===== src/Lib.antt =====
-- A verification library for authn, the authentication service of Krateo: it logs users in with an
-- identity provider, issues each a client certificate through the CSR API of the cluster, stores it
-- in a Secret, and answers with a kubeconfig and a token.
--
-- The parts, and the files that model them (paths from the repository's root):
-- - Go: what the program uses of Go's library. Go.Text has the functions of `strings`, Go.Dict the
--   maps (as lists of entries; Go visits them in any order, so a claim about a loop over a map is
--   made for every list), Go.Error the errors as values, Go.Time instants and durations in
--   nanoseconds, with the saturation of `Sub` and the wrap-around of `time.Unix`; Go.Act (with
--   Triple, Failing and Keeping) calls that read or change the outside world; Go.Check chains of
--   checks without one; Go.Json decoded documents.
-- - UserInfo: go/authn/internal/helpers/userinfo. `new_default_user` is NewDefaultUser,
--   `new_step_up_user` NewStepUpUser, `without_reserved` withoutReserved.
-- - Status: go/authn/internal/status. `new` is New, `from_error` FromError, `log_failure`
--   LogFailure. A text is kept as its format and its values; the rendered characters are not
--   modelled, since no decision depends on them.
-- - Cluster: the Kubernetes API for Secrets and the operating system as an interface over a world,
--   and go/authn/internal/helpers/kube/util (`get_operator_namespace`).
-- - Cert: go/authn/internal/helpers/kube/certinfo.go. The loop over PEM blocks runs on as much fuel
--   as the input is long, plus one: each block takes at least one byte.
-- - Storage: go/authn/internal/helpers/kube/config/storage. `put` is Put.
-- - Kubeconfig: go/authn/internal/helpers/kube/config and kube/certs.go. `generate` is Generate,
--   `generate_step_up` GenerateStepUp, `check_groups` checkGroups, `issue` issue. The generator
--   keeps the certificate authority and the address it looked up, so it is part of the state.
-- - Encode: go/authn/internal/helpers/encode. `token_duration` is tokenDuration, `success` Success;
--   Encode.Minting says what a response holds.
-- - Sweep: go/authn/internal/stepupsweep. `sweep` is Sweep.
-- - Backfill: go/authn/internal/identitybackfill. `run` is Run, `missing_annotations`
--   missingAnnotations, `strategy_of` strategyOf, `cluster_lookup` clusterLookup.
-- - Renewal: go/authn/internal/certrenewal. `ensure` is Ensure, `renew_at` RenewAt, `sync_annotations`
--   syncAnnotations; the float threshold is a parameter.
-- - Leading: the work of the leading replica, ownIdentity of go/authn/main.go (`own_identity`), with
--   the loops Run of certrenewal and stepupsweep as steps (`Step`), between which others write; a
--   check and a pass are single steps.
-- - Basic: go/authn/internal/routes/auth/basic. `handler` is the handler, `validate` validate,
--   `decoy_password` decoyPassword; the comparison of digests is a parameter.
-- - ServiceAccount: go/authn/internal/routes/auth/serviceaccount and, in ServiceAccount.Mapping,
--   go/authn/internal/helpers/kube/resolvers/serviceaccount.go. `handler` is the handler, `validate`
--   validate, `select` the loop of ServiceAccountForSA; TokenReview is a parameter.
-- - RestAction: go/authn/internal/helpers/restaction. `resolve` is Resolve, `legacy_resolve`
--   LegacyResolve (whose context holds snowplow's address), `failed` Failed; RestAction.Copies has
--   the copy of a RESTAction and its removal, and CreateOrUpdate of RESTActions and of Secrets.
-- - Oidc: go/authn/internal/routes/auth/oidc. `validate_id_token` is validateIDToken,
--   `check_step_up` checkStepUp, `step_up_extensions` StepUpExtensions, `update_config` updateConfig,
--   `check_keys` checkKeys. `do_login` is
--   doLogin, `authenticate` authenticate, `login_handler` and `step_up_handler` the two handlers.
--   Oidc.Discovery is go/authn/internal/helpers/kube/resolvers/oidcconfig.go (`oidc_config_get`), and
--   Oidc.Listing its two lists (`oidc_config_list`, `oidc_configs_without_issuer`);
--   CodeExchange is go/authn/internal/helpers/codeexchange.
-- - OAuth: go/authn/internal/routes/auth/oauth. `handler` is the handler, `get_config` getConfig,
--   `classify_exchange` classifyExchange; OAuth.Profile has updateConfig, and OAuth.Listing
--   go/authn/internal/helpers/kube/resolvers/list.go (`list_oauth_configs`), whose result says
--   whether the code panics.
-- - Ldap: go/authn/internal/routes/auth/ldap. `handler` is the handler; Ldap.Server has the calls of
--   the directory and the classification of their failures, Ldap.Config getConfig and the group
--   filter, Ldap.Login doLogin (`do_login`) and groupNames (`group_names`).
-- - Decode: go/authn/internal/helpers/decode. `json_body` is JSONBody.
-- - Jwks: go/authn/internal/routes/jwks. `parse_previous_keys` is ParsePreviousKeys, `endpoint` the
--   key set of Endpoint.
-- - Routes: go/authn/internal/routes/routes.go (`serve` is Serve) and go/authn/routes.go
--   (`build_routes` is buildRoutes).
-- - Strategies: go/authn/internal/routes/auth/strategies. `handler` is the handler.
-- - Issuance: the OpenID Connect login and its step-up over the generator that buildRoutes hands to
--   them (`wired`).
-- - Scenarios: the theorems at concrete inputs.
--
-- Parameters stand for what is not the program's: base64, PEM and x509, the signer, the Kubernetes
-- API, the token signer, `net/url`, HTTP, the connection to a directory and the templates of Go. Their
-- documented behaviour is a named hypothesis where a theorem needs it. Logging, tracing and metrics
-- are left out. Not modelled: the copies of other projects' libraries (internal/shortid,
-- internal/uuid, internal/middlewares/cors), generated code, the password encoders of the ldap route,
-- which nothing imports, and the wiring: the rest of main.go with its flags (internal/env), the
-- leader election (internal/leader), internal/telemetry, internal/routes/health
-- and internal/helpers/outbound, which set up servers, clients and exporters of other libraries.
mod Prelude
pub mod Go
pub mod UserInfo
pub mod Status
pub mod Cluster
pub mod Cert
pub mod Storage
pub mod Kubeconfig
pub mod OAuth
pub mod Ldap
pub mod Leading
pub mod Issuance
pub mod Decode
pub mod Jwks
pub mod Routes
pub mod Strategies
pub mod Oidc
pub mod Encode
pub mod Sweep
pub mod Backfill
pub mod Basic
pub mod Renewal
pub mod RestAction
pub mod ServiceAccount
pub mod CodeExchange
pub mod Scenarios
