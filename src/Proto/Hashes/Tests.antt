-- ===== src/Proto/Hashes/Tests.antt =====
-- core/crates/aetherlink-proto/src/chunk.rs: the theorems at concrete inputs.
use speeed.Base.{
  ◌≡◌, ◌≢◌, ◌⊎◌, refl, if◌then◌else◌, none, some, List, [], ◌∷◌, take, replicate, arith, ok,
}
use speeed.Base.Bytes.{Bytes}
use speeed.Proto.Hashes
use speeed.Proto.Hashes.{root_input, Hash, ChunkHashSet, root, root_from_chunk_hashes}
use speeed.Proto.Hashes.Root.{root_commits}
use speeed.Proto.Hashes.Arrival.{insert_all, covers, root-insert_all}

abbrev ones : Hash
ones = replicate 32 1

abbrev other : Hash
other = 1 ∷ replicate 31 2

-- A stand-in for BLAKE3 that keeps 32 bytes of its input, so that it has collisions.
abbrev prefix : Bytes → Hash
prefix bytes = take 32 bytes

root_commits_example :
    (ones ∷ [] ≡ other ∷ []) ⊎ ((x : Bytes) × (y : Bytes) × (x ≢ y) × (prefix x ≡ prefix y))
unfolding root_input
root_commits_example =
    root_commits prefix (ones ∷ []) (other ∷ []) (refl, tt) (refl, tt) (omega arith) (omega arith)
      refl

abbrev two_hashes : List Hash
two_hashes = (1 ∷ []) ∷ (2 ∷ []) ∷ []

root-insert_all_example :
    (s : ChunkHashSet) × (insert_all two_hashes (1 ∷ 0 ∷ 1 ∷ []) (Hashes.new 2) ≡ ok s)
    × (root prefix s ≡ (
        if covers (1 ∷ 0 ∷ 1 ∷ []) 2 0
        then ok (some (root_from_chunk_hashes prefix two_hashes))
        else ok none))
root-insert_all_example =
    root-insert_all prefix two_hashes (1 ∷ 0 ∷ 1 ∷ [])
      (omega arith, (omega arith, (omega arith, tt)))
