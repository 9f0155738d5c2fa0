-- ===== src/Core/Link/Tests.antt =====
-- core/crates/aetherlink-core/src/link.rs and tls.rs: the theorems at concrete inputs.
use speeed.Base.{
  ◌%◌, ◌≡◌, refl, inl, inr, Bool, true, false, some, [], ◌∷◌, ◌++◌, map, take, replicate,
  length-append, length-take, All, All-append, All-take, All-replicate, arith, ok,
}
use speeed.Base.Bits.{IsByte}
use speeed.Base.Bytes.{Bytes, bytes_eq}
use speeed.Proto.Hashes.{Hash}
use speeed.Proto.Hashes.Root.{IsHash}
use speeed.Core.Config
use speeed.Core.Platform.{darwin, success, bind_to_interface, set_socket_buffers}
use speeed.Core.Tls.{
  Provider, HostIdentity, generate, client_config, verify_server_cert, verify_tls13_signature,
  server_name,
}
use speeed.Core.Link.{Address, Peer, Net, Dialer, new_dialer, next_stream}
use speeed.Core.Link.Dials.{Prepared, next_stream-Prepared}
use speeed.Core.Link.Pins.{Verifies, next_stream_pins}
use speeed.Ffi.Fingerprint.RoundTrip.{parse_fingerprint-fingerprint_hex}

-- A stand-in for BLAKE3 that gives 32 bytes.
abbrev low_bytes : Bytes → Hash
low_bytes bytes = take 32 (map (λ b. b % 256) bytes ++ replicate 32 0)

reduced-IsByte : (bytes : Bytes) → All IsByte (map (λ b. b % 256) bytes)
reduced-IsByte [] = tt
reduced-IsByte (b ∷ bytes) = (omega arith, reduced-IsByte bytes)

low_bytes-IsHash : (bytes : Bytes) → IsHash (low_bytes bytes) × All IsByte (low_bytes bytes)
low_bytes-IsHash bytes = (
  omega (
    arith,
    length-take 32 (map (λ b. b % 256) bytes ++ replicate 32 0),
    length-append (map (λ b. b % 256) bytes) (replicate 32 0),
  ),
  All-take IsByte 32 (map (λ b. b % 256) bytes ++ replicate 32 0) (
      All-append IsByte (map (λ b. b % 256) bytes) (replicate 32 0) (reduced-IsByte bytes)
        (All-replicate IsByte 32 0 (omega arith))),
)

abbrev provider : Provider
provider = record {
  generate_simple_self_signed = λ name. some (record { cert = name; key_der = 1 ∷ [] });
  is_private_key = λ key. true;
  has_tls13 = true;
  takes_cert = λ cert key. true;
  is_server_name = λ name. true;
}

abbrev identity : HostIdentity
identity = record { cert = server_name; key = 1 ∷ []; fingerprint = low_bytes server_name }

abbrev home : Address
home = record { is_ipv4 = true; host = 1 }

abbrev peer : Peer
peer = record { end_entity = server_name; transcript = []; signature = [] }

abbrev net : Net
net = record {
  os = darwin;
  lookup = λ name. some (home ∷ []);
  creates = λ is_ipv4. true;
  bound = success;
  send_buffer = record { setsockopt = λ n. success; getsockopt = ok (false, 0) };
  recv_buffer = record { setsockopt = λ n. success; getsockopt = ok (false, 0) };
  reaches = λ target. some peer;
  handshakes = λ c name p. bytes_eq (low_bytes p.end_entity) c.verifier.expected;
}

abbrev dialer : Dialer
dialer = record {
  connector = record { verifier = record { expected = low_bytes server_name } };
  server_name = server_name;
  addr = [];
  config = Config.default;
}

net-Verifies : Verifies low_bytes (λ message cert dss. true) net
unfolding verify_server_cert verify_tls13_signature
net-Verifies c name p e = (rw e refl, refl)

generated : generate low_bytes provider ≡ ok identity
unfolding generate
generated = refl

dials : new_dialer provider [] (low_bytes server_name) Config.default ≡ ok dialer
unfolding new_dialer client_config
dials = refl

reached : next_stream net dialer ≡ ((next_stream net dialer).0, ok peer)
unfolding next_stream bind_to_interface set_socket_buffers
reached = refl

next_stream_pins_example :
    (low_bytes server_name ≡ low_bytes server_name) × (◌≡◌ {A = Bool} true true)
next_stream_pins_example =
    next_stream_pins low_bytes (λ message cert dss. true) provider provider net identity
      (low_bytes server_name) [] Config.default dialer _ peer low_bytes-IsHash net-Verifies
      generated
      (parse_fingerprint-fingerprint_hex (low_bytes server_name) (low_bytes-IsHash server_name).1
        (low_bytes-IsHash server_name).0)
      dials reached

next_stream-Prepared_example : Prepared net dialer home (next_stream net dialer).0
unfolding next_stream bind_to_interface set_socket_buffers
next_stream-Prepared_example =
    next_stream-Prepared net dialer home (inr (inr (inr (inr (inl refl)))))
