-- ===== src/Cli.antt =====
-- core/crates/aetherlink-cli/src/main.rs: the commands of the harness and what each asks of the engine.
-- Arguments are parsed by clap, and a benchmark reports rates in f64: both are left out. `name_of` is
-- `Path::file_name` and `content_of` is what opening a path gives.
pub mod Payload
mod Tests
use speeed.Base.{ℕ, ◌*◌, Bool, not, Option, none, some, List, [], ◌∷◌, map, Result, ok, ◌>>=◌}
use speeed.Base.Bytes.{Bytes}
use speeed.Proto.Errors.{mul_u64}
use speeed.Core.Config
use speeed.Core.Config.{Config}
use speeed.Core.Send.Announce.{OutgoingFile}
use speeed.Ffi.Fingerprint.{Fault, parse_fingerprint}

pub record Tuning : Type 0 where
  pub streams : ℕ
  pub frame_bytes : ℕ
  pub chunk_bytes : ℕ
  pub keep_read_pages : Bool

abbrev pub config : Tuning → Config
config self = record Config.default {
  stream_count = self.streams;
  frame_size = self.frame_bytes;
  chunk_size = self.chunk_bytes;
  release_read_pages = not self.keep_read_pages;
}

pub data Command : Type 0 where
  recv : ℕ → Bytes → Tuning → Command
  send : Bytes → Bytes → List Bytes → Tuning → Command
  host_send : ℕ → List Bytes → Tuning → Command
  client_recv : Bytes → Bytes → Bytes → Tuning → Command
  bench : ℕ → Bytes → ℕ → Tuning → Command

abbrev or_file_bin : Option Bytes → Bytes
or_file_bin none = b'f' ∷ b'i' ∷ b'l' ∷ b'e' ∷ b'.' ∷ b'b' ∷ b'i' ∷ b'n' ∷ []
or_file_bin (some name) = name

abbrev octet_stream : Bytes
octet_stream =
    b'a' ∷ b'p' ∷ b'p' ∷ b'l' ∷ b'i' ∷ b'c' ∷ b'a' ∷ b't' ∷ b'i' ∷ b'o' ∷ b'n' ∷ b'/' ∷ b'o' ∷ b'c'
    ∷ b't' ∷ b'e' ∷ b't' ∷ b'-' ∷ b's' ∷ b't' ∷ b'r' ∷ b'e' ∷ b'a' ∷ b'm' ∷ []

-- A file goes under its own name, wherever it stands.
unfoldable pub to_outgoing :
    (Bytes → Option Bytes) → (Bytes → Option Bytes) → List Bytes → List OutgoingFile
to_outgoing name_of content_of files =
    map
      (λ path. record {
        content = content_of path;
        relative_path = or_file_bin (name_of path);
        mime_type = octet_stream;
      })
      files

-- What `main` calls: the entry points of the engine, with a new identity where it hosts.
pub data Action : Type 0 where
  receive : ℕ → Bytes → Config → Action
  send_to : Bytes → Bytes → List OutgoingFile → Config → Action
  send_as_host : ℕ → List OutgoingFile → Config → Action
  receive_as_client : Bytes → Bytes → Bytes → Config → Action
  measure : ℕ → Bytes → ℕ → Config → Action

unfoldable pub main :
    (Bytes → Option Bytes) → (Bytes → Option Bytes) → Command → Result Fault Action
main name_of content_of (recv port out tuning) = ok (receive port out (config tuning))
main name_of content_of (send addr fingerprint files tuning) = do
  pinned ← parse_fingerprint fingerprint
  ok (send_to addr pinned (to_outgoing name_of content_of files) (config tuning))
main name_of content_of (host_send port files tuning) =
    ok (send_as_host port (to_outgoing name_of content_of files) (config tuning))
main name_of content_of (client_recv addr fingerprint out tuning) = do
  pinned ← parse_fingerprint fingerprint
  ok (receive_as_client addr pinned out (config tuning))
main name_of content_of (bench size_mib dir runs tuning) = do
  kib ← mul_u64 size_mib 1024
  bytes ← mul_u64 kib 1024
  ok (measure bytes dir runs (config tuning))
