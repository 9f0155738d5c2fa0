-- ===== src/Core/Link.antt =====
-- core/crates/aetherlink-core/src/link.rs: who dials and who accepts. Names, sockets and the handshake
-- are calls of tokio and rustls: what they answer is a parameter, and the order in which they are made
-- is a list of calls.
pub mod Dials
pub mod Pins
mod Tests
use speeed.Base.{
  ℕ, Bool, true, false, not, if◌then◌else◌, Option, none, some, List, [], ◌∷◌, ◌++◌, Result, ok,
  err, panic, ◌>>=◌, ◌>>◌, refuse_if,
}
use speeed.Base.Bytes.{Bytes}
use speeed.Proto.Hashes.{Hash}
use speeed.Core.Errors.{CoreError, io, tls}
use speeed.Core.Config.{Config}
use speeed.Core.Platform.{Os, Answer, Socket, BufferResult, bind_to_interface, set_socket_buffers}
use speeed.Core.Tls.{
  Provider, HostIdentity, ServerConfig, ClientConfig, server_config, client_config, server_name,
}

pub record Address : Type 0 where
  pub is_ipv4 : Bool
  pub host : ℕ

-- What a server shows in the handshake: its certificate, what it signed, and with what result.
pub record Peer : Type 0 where
  pub end_entity : Bytes
  pub transcript : Bytes
  pub signature : Bytes

-- The calls on the system, and the end that is reached by them.
pub data Call : Type 0 where
  lookup_host : Bytes → Call
  new_socket : Bool → Call
  bind : ℕ → Call
  set_buffers : BufferResult → Call
  connect : Address → Call
  set_nodelay : Call
  handshake : Bytes → Call

-- What these calls answer. `handshakes` is rustls.
pub record Net : Type 0 where
  pub os : Os
  pub lookup : Bytes → Option (List Address)
  pub creates : Bool → Bool
  pub bound : Answer
  pub send_buffer : Socket
  pub recv_buffer : Socket
  pub reaches : Address → Option Peer
  pub handshakes : ClientConfig → Bytes → Peer → Bool

pub record Dialer : Type 0 where
  pub connector : ClientConfig
  pub server_name : Bytes
  pub addr : Bytes
  pub config : Config

unfoldable pub new_dialer : Provider → Bytes → Hash → Config → Result CoreError Dialer
new_dialer provider addr pinned config = do
  connector ← client_config provider pinned
  refuse_if (not (provider.is_server_name server_name)) tls
  ok (record { connector = connector; server_name = server_name; addr = addr; config = config })

-- The first address of a name.
abbrev pub resolved : Option (List Address) → Result CoreError Address
resolved none = err io
resolved (some []) = err io
resolved (some (target ∷ targets)) = ok target

abbrev pub greeted : Net → Dialer → List Call → Option Peer → List Call × Result CoreError Peer
greeted net d calls none = (calls, err io)
greeted net d calls (some peer) = (
  calls ++ set_nodelay ∷ handshake d.server_name ∷ [],
  (if net.handshakes d.connector d.server_name peer then ok peer else err tls),
)

abbrev pub connected :
    Net
    → Dialer
    → Address
    → List Call
    → Result CoreError (Unit {0})
    → List Call × Result CoreError Peer
connected net d target calls (err e) = (calls, err e)
connected net d target calls panic = (calls, panic)
connected net d target calls (ok _) =
    let buffers =
      set_socket_buffers net.send_buffer net.recv_buffer d.config.socket_send_buffer_bytes
        d.config.socket_recv_buffer_bytes in
    greeted net d (calls ++ set_buffers buffers ∷ connect target ∷ []) (net.reaches target)

abbrev pub dialled :
    Net → Dialer → List Call → Result CoreError Address → List Call × Result CoreError Peer
dialled net d calls (err e) = (calls, err e)
dialled net d calls panic = (calls, panic)
dialled net d calls (ok target) =
    let opened = calls ++ new_socket target.is_ipv4 ∷ [] in
    let pinned = opened ++ bind d.config.bound_interface_index ∷ [] in
    let rest =
      connected net d target pinned
        (bind_to_interface net.os net.bound d.config.bound_interface_index) in
    if net.creates target.is_ipv4 then rest else (opened, err io)

-- The stream, or why there is none, and the calls that were made for it.
unfoldable pub next_stream : Net → Dialer → List Call × Result CoreError Peer
next_stream net d = dialled net d (lookup_host d.addr ∷ []) (resolved (net.lookup d.addr))

-- The buffers are set on the listener, before anything is accepted.
pub record Acceptor : Type 0 where
  pub acceptor : ServerConfig
  pub buffers : BufferResult

unfoldable pub new_acceptor :
    Provider → Socket → Socket → HostIdentity → Config → Result CoreError Acceptor
new_acceptor provider send recv identity config = do
  acceptor ← server_config provider identity
  ok (record {
    acceptor = acceptor;
    buffers =
        set_socket_buffers send recv config.socket_send_buffer_bytes
          config.socket_recv_buffer_bytes;
  })

-- What arrives at the listener, and whether the handshake with it succeeds.
abbrev pub accept_stream : Acceptor → Option (ServerConfig → Bool) → Result CoreError (Unit {0})
accept_stream a none = err io
accept_stream a (some greets) = if greets a.acceptor then ok tt else err tls

-- The four ways into a transfer: the link is made, and `run` goes over it.
module _ {A : Type 0} where
  unfoldable pub send :
      Provider → Bytes → Hash → Config → (Dialer → Result CoreError A) → Result CoreError A
  send provider addr pinned config run = do d ← new_dialer provider addr pinned config; run d

  unfoldable pub receive_as_client :
      Provider → Bytes → Hash → Config → (Dialer → Result CoreError A) → Result CoreError A
  receive_as_client provider addr pinned config run = do
    d ← new_dialer provider addr pinned config
    run d

  unfoldable pub send_as_host :
      Provider
      → Socket
      → Socket
      → HostIdentity
      → Config
      → (Acceptor → Result CoreError A)
      → Result CoreError A
  send_as_host provider send recv identity config run = do
    a ← new_acceptor provider send recv identity config
    run a

  unfoldable pub receive :
      Provider
      → Socket
      → Socket
      → HostIdentity
      → Config
      → (Acceptor → Result CoreError A)
      → Result CoreError A
  receive provider send recv identity config run = do
    a ← new_acceptor provider send recv identity config
    run a
