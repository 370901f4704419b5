-- ===== src/Ldap.antt =====
-- go/authn/internal/routes/auth/ldap: logging in with a directory (login.go, support.go), and
-- go/authn/internal/helpers/kube/resolvers/ldapconfig.go (LDAPConfigGet).
pub mod Server
pub mod Config
pub mod Login
