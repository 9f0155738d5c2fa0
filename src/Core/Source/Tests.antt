-- ===== src/Core/Source/Tests.antt =====
-- core/crates/aetherlink-core/src/io.rs: the theorems at concrete inputs.
use speeed.Base.{ℕ, ◌+◌, ◌%◌, ◌≤◌, ◌<◌, ◌≡◌, refl, some, none, true, [], ◌∷◌, take, arith, ok}
use speeed.Base.Bytes.{Bytes}
use speeed.Proto.Chunk
use speeed.Proto.Hashes.{Hash}
use speeed.Proto.Chunk.{is_power_of_two}
use speeed.Core.Source.{SourceFile, Hashing, open_source, release_range, chunk_hashes}
use speeed.Core.Source.Pages.{release_range-inward}
use speeed.Core.Source.Hashes.{hashes_of, chunk_hashes-hashes_of}

-- From the middle of a page to the middle of another.
two_pages : release_range 4096 100 13000 ≡ some (4096, 8192)
unfolding release_range
two_pages = refl

abbrev page : ℕ
page = 4096

abbrev two : ℕ
two = 8192

release_range-inward_example :
    (100 ≤ page) × (page + two ≤ 13000) × (0 < two) × (page % page ≡ 0) × ((page + two) % page ≡ 0)
release_range-inward_example = release_range-inward page 100 13000 page two (omega arith) two_pages

abbrev content : Bytes
content = 7 ∷ 8 ∷ 9 ∷ []

-- A stand-in for BLAKE3.
abbrev prefix : Bytes → Hash
prefix bytes = take 32 bytes

abbrev source : SourceFile
source = record {
  map = content;
  layout = record { file_size = 3; chunk_size = 65536; count = 1 };
  page_size = 4096;
}

opens : open_source (some content) 65536 none ≡ ok source
unfolding open_source Chunk.new is_power_of_two
opens = refl

chunk_hashes-hashes_of_example :
    (st : Hashing) × (chunk_hashes prefix source true ≡ ok st)
    × (st.out ≡ hashes_of prefix content source.layout 1 0)
chunk_hashes-hashes_of_example =
    chunk_hashes-hashes_of prefix content 65536 none source true (omega arith) opens
