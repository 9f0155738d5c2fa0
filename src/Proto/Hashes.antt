-- ===== src/Proto/Hashes.antt =====
-- core/crates/aetherlink-proto/src/chunk.rs: hashes of chunks, the root of a file, and the set that
-- collects hashes as chunks arrive. BLAKE3 is a crate of its own: its function on byte strings is
-- the parameter `blake3`. Feeding a hasher in parts hashes the parts one behind the other.
pub mod Arrival
pub mod Root
pub mod Slots
mod Tests
use speeed.Base.{
  ℕ, zero, suc, ◌+◌, ◌≤◌, ◌<◌, Bool, true, false, leb, ltb, ◌==◌, if◌then◌else◌, Option, none, some,
  List, [], ◌∷◌, ◌++◌, length, get_elem?, replicate, set as set_elem, Result, ok, err, panic, ◌>>=◌,
  ok_or,
}
use speeed.Base.Bytes.{Bytes, to_le_bytes, bytes_eq}
use speeed.Proto.Errors.{Error, chunk_out_of_range, chunk_hash_conflict}

abbrev pub Hash : Type 0
Hash = Bytes

-- b"aetherlink.file-root.v1"
abbrev pub root_domain : Bytes
root_domain =
    b'a' ∷ b'e' ∷ b't' ∷ b'h' ∷ b'e' ∷ b'r' ∷ b'l' ∷ b'i' ∷ b'n' ∷ b'k' ∷ b'.' ∷ b'f' ∷ b'i' ∷ b'l'
    ∷ b'e' ∷ b'-' ∷ b'r' ∷ b'o' ∷ b'o' ∷ b't' ∷ b'.' ∷ b'v' ∷ b'1' ∷ []

abbrev pub concat : List Hash → Bytes
concat [] = []
concat (h ∷ hs) = h ++ concat hs

-- What the hasher of the root is fed with.
unfoldable pub root_input : List Hash → Bytes
root_input chunk_hashes =
    root_domain ++ (to_le_bytes 8 (length chunk_hashes) ++ concat chunk_hashes)

module _ (blake3 : Bytes → Hash) where
  abbrev pub hash_chunk : Bytes → Hash
  hash_chunk bytes = blake3 bytes

  abbrev pub root_from_chunk_hashes : List Hash → Hash
  root_from_chunk_hashes chunk_hashes = blake3 (root_input chunk_hashes)

pub record ChunkHashSet : Type 0 where
  pub hashes : List (Option Hash)
  pub filled : ℕ

unfoldable pub new : ℕ → ChunkHashSet
new count = record { hashes = replicate count none; filled = 0 }

-- What `insert` does by the slot: nothing, an error, or the new hash.
fill_slot : ChunkHashSet → ℕ → Hash → Option Hash → Result Error ChunkHashSet
fill_slot s index hash (some existing) =
    if bytes_eq existing hash then ok s else err (chunk_hash_conflict index)
fill_slot s index hash none =
    ok (record { hashes = set_elem s.hashes index (some hash); filled = s.filled + 1 })

unfoldable pub insert : ChunkHashSet → ℕ → Hash → Result Error ChunkHashSet
unfolding fill_slot
insert s index hash = do
  slot ← ok_or (get_elem? s.hashes index) (chunk_out_of_range index (length s.hashes))
  fill_slot s index hash slot

unfoldable pub is_complete : ChunkHashSet → Bool
is_complete s = s.filled == length s.hashes

-- `self.hashes.iter().map(|h| h.unwrap()).collect()`
unwrap_all : List (Option Hash) → Result Error (List Hash)
unwrap_all [] = ok []
unwrap_all (none ∷ slots) = panic
unwrap_all (some h ∷ slots) = do hs ← unwrap_all slots; ok (h ∷ hs)

unfoldable pub root : (Bytes → Hash) → ChunkHashSet → Result Error (Option Hash)
unfolding is_complete unwrap_all
root blake3 s =
    let whole = (do
      ordered ← unwrap_all s.hashes
      ok (some (root_from_chunk_hashes blake3 ordered))) in
    if is_complete s then whole else ok none
