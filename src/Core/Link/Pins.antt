-- ===== src/Core/Link/Pins.antt =====
-- A dialler reaches the host whose code was read, and no other.
use speeed.Base.{
  ◌≡◌, sym, ap, ◌∙◌, inl, inr, Bool, true, Bool-cases, Option, none, some, List, [], ◌∷◌, All,
  Result, ok, err, panic, ok_inj, arith,
}
use speeed.Base.Bits.{IsByte}
use speeed.Base.Bytes.{Bytes, bytes_eq, bytes_eq→eq}
use speeed.Proto.Hashes.{Hash}
use speeed.Proto.Hashes.Root.{IsHash}
use speeed.Core.Errors.{CoreError}
use speeed.Core.Config.{Config}
use speeed.Core.Tls.{
  identity_of, Provider, Certified, HostIdentity, ClientConfig, PinnedCertVerifier, server_name,
  generate, verify_server_cert, verify_tls13_signature, client_config,
}
use speeed.Core.Link.{
  Address, Peer, Call, lookup_host, Net, Dialer, new_dialer, next_stream, greeted, connected,
  dialled, resolved,
}
use speeed.Ffi.Fingerprint.{parse_fingerprint, fingerprint_hex}
use speeed.Ffi.Fingerprint.RoundTrip.{parse_fingerprint-fingerprint_hex}

-- What the documentation of rustls says of a handshake that succeeds: the verifier of the client was
-- asked about the certificate, and about the signature under it, and accepted both.
abbrev pub Verifies : (Bytes → Hash) → (Bytes → Bytes → Bytes → Bool) → Net → Type 0
Verifies blake3 valid net =
    (c : ClientConfig) (name : Bytes) (peer : Peer)
    → net.handshakes c name peer ≡ true
    → (verify_server_cert blake3 c.verifier peer.end_entity ≡ ok tt)
      × (verify_tls13_signature valid c.verifier peer.transcript peer.end_entity peer.signature
          ≡ ok tt)

identity-fingerprint :
    (blake3 : Bytes → Hash) (provider : Provider) (certified : Option Certified)
    {identity : HostIdentity}
    → identity_of blake3 provider certified ≡ ok identity
    → identity.fingerprint ≡ blake3 identity.cert
identity-fingerprint blake3 provider none e = cc
identity-fingerprint blake3 provider (some c) {identity} e =
    elim (Bool-cases (provider.is_private_key c.key_der)) [
      | inl good ↦
          let same = ok_inj (rw good at e) in
          ap (λ t. t.fingerprint) (sym same) ∙ ap (λ t. blake3 t.cert) same
      | inr bad ↦ cc (rw bad at e)
    ]

new_dialer-expected :
    (provider : Provider) (addr : Bytes) (pinned : Hash) (config : Config) {d : Dialer}
    → new_dialer provider addr pinned config ≡ ok d
    → (d.connector.verifier.expected ≡ pinned) × (d.config ≡ config)
unfolding new_dialer client_config
new_dialer-expected provider addr pinned config e = ground arith

module _ (net : Net) (d : Dialer) where
  greeted-handshakes :
      (calls : List Call) (reached : Option Peer) {peer : Peer}
      → (greeted net d calls reached).1 ≡ ok peer
      → net.handshakes d.connector d.server_name peer ≡ true
  greeted-handshakes calls none e = cc
  greeted-handshakes calls (some found) e =
      elim (Bool-cases (net.handshakes d.connector d.server_name found)) [
        | inl yes_it ↦ rw (← ok_inj (rw yes_it at e)) yes_it
        | inr not_it ↦ cc (rw not_it at e)
      ]

  connected-handshakes :
      (target : Address) (calls : List Call) (bound : Result CoreError (Unit {0})) {peer : Peer}
      → (connected net d target calls bound).1 ≡ ok peer
      → net.handshakes d.connector d.server_name peer ≡ true
  connected-handshakes target calls (ok u) e = greeted-handshakes _ (net.reaches target) e
  connected-handshakes target calls (err x) e = cc
  connected-handshakes target calls panic e = cc

  dialled-handshakes :
      (calls : List Call) (found : Result CoreError Address) {peer : Peer}
      → (dialled net d calls found).1 ≡ ok peer
      → net.handshakes d.connector d.server_name peer ≡ true
  dialled-handshakes calls (err x) e = cc
  dialled-handshakes calls panic e = cc
  dialled-handshakes calls (ok target) e = elim (Bool-cases (net.creates target.is_ipv4)) [
    | inl made ↦ connected-handshakes target _ _ (rw made at e)
    | inr failed ↦ cc (rw failed at e)
  ]

verified-hash :
    (blake3 : Bytes → Hash) (v : PinnedCertVerifier) (end_entity : Bytes)
    → verify_server_cert blake3 v end_entity ≡ ok tt
    → blake3 end_entity ≡ v.expected
unfolding verify_server_cert
verified-hash blake3 v end_entity e = elim (Bool-cases (bytes_eq (blake3 end_entity) v.expected)) [
  | inl same ↦ bytes_eq→eq _ _ same
  | inr other ↦ cc (rw other at e)
]

-- A client that read the code of a host reaches that host. The host generated its identity and published
-- the fingerprint as 64 hex characters, the client parsed them and made a dialler: a stream that
-- the dialler opens ends at a peer whose certificate has the BLAKE3 hash of the host's own, and who
-- signed the handshake under the certificate that it showed. (BLAKE3 gives 32 bytes, and a handshake
-- of rustls succeeds only if the verifier accepted the certificate and the signature.)
pub next_stream_pins :
    (blake3 : Bytes → Hash) (valid : Bytes → Bytes → Bytes → Bool) (host client : Provider)
    (net : Net) (identity : HostIdentity) (pinned addr : Bytes) (config : Config) (d : Dialer)
    (calls : List Call) (peer : Peer)
    → ((bytes : Bytes) → IsHash (blake3 bytes) × All IsByte (blake3 bytes))
    → Verifies blake3 valid net
    → generate blake3 host ≡ ok identity
    → parse_fingerprint (fingerprint_hex identity.fingerprint) ≡ ok pinned
    → new_dialer client addr pinned config ≡ ok d
    → next_stream net d ≡ (calls, ok peer)
    → (blake3 peer.end_entity ≡ blake3 identity.cert)
      × (valid peer.transcript peer.end_entity peer.signature ≡ true)
unfolding generate next_stream verify_tls13_signature
next_stream_pins blake3 valid host client net identity pinned addr config d calls peer hash law made
      read dials reached =
    let own =
      identity-fingerprint blake3 host (host.generate_simple_self_signed server_name) made in
    let width : IsHash identity.fingerprint = rw own (hash identity.cert).0 in
    let bytes : All IsByte identity.fingerprint = rw own (hash identity.cert).1 in
    let same : identity.fingerprint ≡ pinned =
      ok_inj (sym (parse_fingerprint-fingerprint_hex identity.fingerprint bytes width) ∙ read) in
    let pin = (new_dialer-expected client addr pinned config dials).0 in
    let (checked, signed) = law d.connector d.server_name peer (
      dialled-handshakes net d (lookup_host d.addr ∷ []) (resolved (net.lookup d.addr))
        (ap (λ t. t.1) reached)) in
    let one_hash : blake3 peer.end_entity ≡ blake3 identity.cert =
      verified-hash blake3 d.connector.verifier peer.end_entity checked ∙ pin ∙ sym same ∙ own in
    let good : valid peer.transcript peer.end_entity peer.signature ≡ true =
      elim (Bool-cases (valid peer.transcript peer.end_entity peer.signature)) [
        | inl good ↦ good
        | inr bad ↦ cc (rw bad at signed)
      ] in
    (one_hash, good)
