-- ===== src/Oidc.antt =====
-- go/authn/internal/routes/auth/oidc: logging in with an OpenID Connect provider, and stepping up.
pub mod Validation
pub mod Token
pub mod StepUp
pub mod Claims
pub mod Profile
pub mod Exchange
pub mod Discovery
pub mod Listing
pub mod Login
