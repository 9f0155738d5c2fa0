-- ===== src/Core/Tls.antt =====
-- core/crates/aetherlink-core/src/tls.rs: the identity of a host, and the verifier of a client that pins
-- it. rcgen, which makes the certificate, and rustls, which takes it and runs the handshake, are not in
-- the repository: what they answer is a parameter. A certificate is its DER encoding.
use speeed.Base.{
  ℕ, Bool, not, if◌then◌else◌, Option, none, some, List, [], ◌∷◌, Result, ok, err, ◌>>◌, refuse_if,
}
use speeed.Base.Bytes.{Bytes, bytes_eq}
use speeed.Proto.Hashes.{Hash}
use speeed.Core.Errors.{CoreError, tls}

abbrev pub server_name : Bytes
server_name =
    b'a' ∷ b'e' ∷ b't' ∷ b'h' ∷ b'e' ∷ b'r' ∷ b'l' ∷ b'i' ∷ b'n' ∷ b'k' ∷ b'.' ∷ b'l' ∷ b'o' ∷ b'c'
    ∷ b'a' ∷ b'l' ∷ []

pub record HostIdentity : Type 0 where
  pub cert : Bytes
  pub key : Bytes
  pub fingerprint : Hash

-- The certificate and the key that rcgen gives for a name.
pub record Certified : Type 0 where
  pub cert : Bytes
  pub key_der : Bytes

-- What rcgen and rustls answer: a self-signed certificate, whether a key is well formed, whether TLS 1.3
-- is there, whether a certificate is taken with its key, and whether a name is one of a server.
pub record Provider : Type 0 where
  pub generate_simple_self_signed : Bytes → Option Certified
  pub is_private_key : Bytes → Bool
  pub has_tls13 : Bool
  pub takes_cert : Bytes → Bytes → Bool
  pub is_server_name : Bytes → Bool

abbrev pub identity_of :
    (Bytes → Hash) → Provider → Option Certified → Result CoreError HostIdentity
identity_of blake3 provider none = err tls
identity_of blake3 provider (some certified) =
    if provider.is_private_key certified.key_der
    then ok (record {
      cert = certified.cert;
      key = certified.key_der;
      fingerprint = blake3 certified.cert;
    })
    else err tls

unfoldable pub generate : (Bytes → Hash) → Provider → Result CoreError HostIdentity
generate blake3 provider =
    identity_of blake3 provider (provider.generate_simple_self_signed server_name)

-- A server asks its clients for no certificate, and sends no session tickets.
pub record ServerConfig : Type 0 where
  pub cert_chain : List Bytes
  pub key : Bytes
  pub send_tls13_tickets : ℕ

unfoldable pub server_config : Provider → HostIdentity → Result CoreError ServerConfig
server_config provider identity = do
  refuse_if (not provider.has_tls13) tls
  refuse_if (not (provider.takes_cert identity.cert identity.key)) tls
  ok (record { cert_chain = identity.cert ∷ []; key = identity.key; send_tls13_tickets = 0 })

pub data RustlsError : Type 0 where
  does_not_match_pinned : RustlsError
  server_does_not_support_tls12_or_13 : RustlsError
  bad_signature : RustlsError

pub record PinnedCertVerifier : Type 0 where
  pub expected : Hash

unfoldable pub verify_server_cert :
    (Bytes → Hash) → PinnedCertVerifier → Bytes → Result RustlsError (Unit {0})
verify_server_cert blake3 self end_entity =
    if bytes_eq (blake3 end_entity) self.expected then ok tt else err does_not_match_pinned

-- TLS 1.2 is not offered.
unfoldable pub verify_tls12_signature :
    PinnedCertVerifier → Bytes → Bytes → Bytes → Result RustlsError (Unit {0})
verify_tls12_signature self message cert dss = err server_does_not_support_tls12_or_13

-- `valid` is `rustls::crypto::verify_tls13_signature`.
unfoldable pub verify_tls13_signature :
    (Bytes → Bytes → Bytes → Bool)
    → PinnedCertVerifier
    → Bytes
    → Bytes
    → Bytes
    → Result RustlsError (Unit {0})
verify_tls13_signature valid self message cert dss =
    if valid message cert dss then ok tt else err bad_signature

-- A client offers TLS 1.3 only, and no certificate of its own.
pub record ClientConfig : Type 0 where
  pub verifier : PinnedCertVerifier

unfoldable pub client_config : Provider → Hash → Result CoreError ClientConfig
client_config provider pinned = do
  refuse_if (not provider.has_tls13) tls
  ok (record { verifier = record { expected = pinned } })
