-- ===== src/Core/Platform/Tests.antt =====
-- core/crates/aetherlink-core/src/platform.rs: the theorems at concrete inputs.
use speeed.Base.{ℕ, ◌≤◌, ◌≡◌, refl, [], ◌∷◌, length, take, arith, ok}
use speeed.Base.Bytes.{Bytes}
use speeed.Core.Platform.{
  Disk, linux, success, failure, enosys, einval, reserve_blocks, preallocate,
}
use speeed.Core.Platform.Preallocate.{preallocate-keeps}

-- A file system that cannot reserve blocks.
abbrev fuse : Disk
fuse = record {
  os = linux;
  fallocate = failure enosys;
  allocate_contig = failure einval;
  allocate_all = failure einval;
  set_len = success;
}

abbrev two_bytes : Bytes
two_bytes = 5 ∷ 6 ∷ []

abbrev four_bytes : Bytes
four_bytes = 5 ∷ 6 ∷ 0 ∷ 0 ∷ []

fuse_grows : preallocate fuse two_bytes 4 ≡ ok four_bytes
unfolding preallocate reserve_blocks
fuse_grows = refl

-- What a file held before is still there when it is reserved for no bytes at all.
empty_keeps : preallocate fuse two_bytes 0 ≡ ok two_bytes
unfolding preallocate
empty_keeps = refl

preallocate-keeps_example :
    (length four_bytes ≡ 4)
    × ((n : ℕ) → n ≤ 4 → n ≤ length two_bytes → take n four_bytes ≡ take n two_bytes)
preallocate-keeps_example = preallocate-keeps fuse two_bytes 4 fuse_grows (omega arith)
