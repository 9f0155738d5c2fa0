-- ===== src/Core/Platform.antt =====
-- core/crates/aetherlink-core/src/platform.rs. The system calls are parameters: what each of them
-- answers is an argument. A platform is Linux (and Android), Darwin (macOS and iOS), or another one.
pub mod Preallocate
pub mod Sockets
mod Tests
use speeed.Base.{
  ℕ, zero, suc, ◌+◌, ◌-◌, ◌^◌, Bool, true, false, ltb, ◌==◌, if◌then◌else◌, Option, none, some, [],
  ◌∷◌, ◌++◌, length, take, replicate, Result, ok, err, panic,
}
use speeed.Base.Bytes.{Bytes}
use speeed.Core.Errors.{CoreError, io}

pub data Os : Type 0 where
  linux darwin other_os : Os

-- What the code tells apart of `raw_os_error`. EOPNOTSUPP and ENOTSUP are one on Linux, not on Darwin.
pub data Errno : Type 0 where
  eopnotsupp enosys enotsup einval other_errno : Errno

pub data ReserveError : Type 0 where
  unsupported : ReserveError
  failed : Errno → ReserveError

-- What a system call answers: success, or an error.
pub data Answer : Type 0 where
  success : Answer
  failure : Errno → Answer

-- The answers of `fallocate`, of the two calls of `fcntl`, and of `set_len`.
pub record Disk : Type 0 where
  pub os : Os
  pub fallocate : Answer
  pub allocate_contig : Answer
  pub allocate_all : Answer
  pub set_len : Answer

abbrev fallocated : Answer → Result ReserveError (Unit {0})
fallocated success = ok tt
fallocated (failure eopnotsupp) = err unsupported
fallocated (failure enosys) = err unsupported
fallocated (failure e) = err (failed e)

abbrev all_allocated : Answer → Result ReserveError (Unit {0})
all_allocated success = ok tt
all_allocated (failure enotsup) = err unsupported
all_allocated (failure einval) = err unsupported
all_allocated (failure e) = err (failed e)

-- One contiguous extent first, then any blocks; the error is that of the second call.
abbrev contig_allocated : Answer → Answer → Result ReserveError (Unit {0})
contig_allocated success all = ok tt
contig_allocated (failure e) all = all_allocated all

abbrev reserve_on : Os → Disk → Result ReserveError (Unit {0})
reserve_on linux disk = fallocated disk.fallocate
reserve_on darwin disk = contig_allocated disk.allocate_contig disk.allocate_all
reserve_on other_os disk = err unsupported

unfoldable pub reserve_blocks : Disk → Result ReserveError (Unit {0})
reserve_blocks disk = reserve_on disk.os disk

-- The file after `set_len`: cut, or filled up with zeros.
abbrev pub resized : Bytes → ℕ → Bytes
resized content size = take size content ++ replicate (size - length content) 0

abbrev set_len : Answer → Bytes → ℕ → Result CoreError Bytes
set_len success content size = ok (resized content size)
set_len (failure e) content size = err io

abbrev after_reserve : Result ReserveError (Unit {0}) → Answer → Bytes → ℕ → Result CoreError Bytes
after_reserve (ok _) answer content size = set_len answer content size
after_reserve (err unsupported) answer content size = set_len answer content size
after_reserve (err (failed e)) answer content size = err io
after_reserve panic answer content size = panic

-- The content after the call. Nothing is done for an empty file.
unfoldable pub preallocate : Disk → Bytes → ℕ → Result CoreError Bytes
preallocate disk content size =
    if size == 0 then ok content else after_reserve (reserve_blocks disk) disk.set_len content size

-- `sysconf` may answer with a negative number: that is nothing here.
abbrev pub page_size : Option ℕ → ℕ
page_size none = 4096
page_size (some raw) = if raw == 0 then 4096 else raw

abbrev to_io : Answer → Result CoreError (Unit {0})
to_io success = ok tt
to_io (failure e) = err io

abbrev bind_impl : Os → Answer → Result CoreError (Unit {0})
bind_impl darwin answer = to_io answer
bind_impl linux answer = err io
bind_impl other_os answer = err io

-- `answer` is what `setsockopt` says.
unfoldable pub bind_to_interface : Os → Answer → ℕ → Result CoreError (Unit {0})
bind_to_interface os answer interface_index =
    if interface_index == 0 then ok tt else bind_impl os answer

-- A socket: whether it takes a size for an option, and the size it then reports, as a 32-bit signed
-- number given by its sign and its value.
pub record Socket : Type 0 where
  pub setsockopt : ℕ → Answer
  pub getsockopt : Result Errno (Bool × ℕ)

-- `value.max(0)`; the flag says that the number is negative.
abbrev get_buf : Result Errno (Bool × ℕ) → Result Errno ℕ
get_buf (ok (negative, value)) = ok (if negative then 0 else value)
get_buf (err e) = err e
get_buf panic = panic

abbrev after_set : Answer → Socket → Result Errno ℕ
after_set success socket = get_buf socket.getsockopt
after_set (failure e) socket = err e

abbrev set_buf : Socket → ℕ → Result Errno ℕ
set_buf socket bytes = after_set (socket.setsockopt bytes) socket

pub record BufferResult : Type 0 where
  pub send : Option (Result Errno ℕ)
  pub recv : Option (Result Errno ℕ)

abbrev requested : Socket → ℕ → Option (Result Errno ℕ)
requested socket bytes = if ltb 0 bytes then some (set_buf socket bytes) else none

-- `send` is the socket under `SO_SNDBUF`, `recv` the same under `SO_RCVBUF`.
unfoldable pub set_socket_buffers : Socket → Socket → ℕ → ℕ → BufferResult
set_socket_buffers send recv send_bytes recv_bytes = record {
  send = requested send send_bytes;
  recv = requested recv recv_bytes;
}
