-- ===== src/Core/Send/Announce.antt =====
-- core/crates/aetherlink-core/src/send.rs, `run`: the hello and the offer. What opening a path gives is
-- part of the outgoing file.
use speeed.Base.{
  ℕ, ◌+◌, ◌*◌, ◌^◌, ◌≤◌, ◌<◌, ◌≡◌, refl, sym, ap, ◌∙◌, Option, some, true, false, List, [], ◌∷◌,
  ◌++◌, length, length-append, take, drop, take-append, drop-append, All, arith, Result, ok, ◌>>=◌,
  ==_iff, ◌==◌,
}
use speeed.Base.Bytes.{Bytes}
use speeed.Proto.Chunk
use speeed.Proto.Hashes.{Hash, root_from_chunk_hashes, concat}
use speeed.Proto.Hashes.Root.{IsHash}
use speeed.Proto.Frame.{protocol_version}
use speeed.Proto.Manifest.{sanitize_relative_path}
use speeed.Core.Errors.{CoreError}
use speeed.Core.Config.{Config}
use speeed.Core.Control.{FileEntry, ManifestOffer, Body, hello, offer}
use speeed.Core.Source.{SourceFile, open_source, chunk_hashes}
use speeed.Core.Source.Hashes.{hashes_of, chunk_hashes-hashes_of, hashes_of-All, opened_layout}
use speeed.Core.Recv.{split_hashes, chunks_of_32}
use speeed.Core.Offer.{Setup, seen, check_entry}
use speeed.Core.Offer.Valid.{check_entry_passes}

pub record OutgoingFile : Type 0 where
  pub content : Option Bytes
  pub relative_path : Bytes
  pub mime_type : Bytes

-- The round of file `i`.
unfoldable pub announce :
    (Bytes → Hash)
    → Config
    → Option ℕ
    → ℕ
    → OutgoingFile
    → Result CoreError (SourceFile × FileEntry)
announce blake3 config raw i f = do
  src ← open_source f.content config.chunk_size raw
  hashes ← chunk_hashes blake3 src config.release_read_pages
  ok (
    src,
    record {
      file_id = i;
      relative_path = f.relative_path;
      size_bytes = src.layout.file_size;
      mime_type = f.mime_type;
      root_hash = root_from_chunk_hashes blake3 hashes.out;
      chunk_hashes = concat hashes.out;
      modified_unix_ms = 0;
      created_unix_ms = 0;
    },
  )

unfoldable pub announce_from :
    (Bytes → Hash)
    → Config
    → Option ℕ
    → ℕ
    → List OutgoingFile
    → Result CoreError (List (SourceFile × FileEntry))
announce_from blake3 config raw i [] = ok []
announce_from blake3 config raw i (f ∷ fs) = do
  announced ← announce blake3 config raw i f
  rest ← announce_from blake3 config raw (i + 1) fs
  ok (announced ∷ rest)

abbrev pub entries_of : List (SourceFile × FileEntry) → List FileEntry
entries_of [] = []
entries_of ((src, entry) ∷ rest) = entry ∷ entries_of rest

-- The two messages that open the control stream.
unfoldable pub opening : Config → Bytes → List (SourceFile × FileEntry) → Body × Body
opening config session_id announced = (
  hello (record {
    protocol_version = protocol_version;
    session_id = session_id;
    stream_count = config.stream_count;
  }),
  offer (record { chunk_size = config.chunk_size; files = entries_of announced }),
)

length-concat : (hs : List Hash) → All IsHash hs → length (concat hs) ≡ length hs * 32
length-concat [] a = omega arith
length-concat (h ∷ hs) a = omega (arith, length-append h (concat hs), a.0, length-concat hs a.1)

chunks_of_32-concat : (hs : List Hash) → All IsHash hs → chunks_of_32 (length hs) (concat hs) ≡ hs
chunks_of_32-concat [] a = refl
chunks_of_32-concat (h ∷ hs) a =
    let first : take 32 (h ++ concat hs) ≡ h =
      ap (λ n. take n (h ++ concat hs)) (sym a.0) ∙ take-append h (concat hs) in
    let rest : drop 32 (h ++ concat hs) ≡ concat hs =
      ap (λ n. drop n (h ++ concat hs)) (sym a.0) ∙ drop-append h (concat hs) in
    rw (first, rest) (ap (λ t. h ∷ t) (chunks_of_32-concat hs a.1))

split_hashes-concat :
    (hs : List Hash) (count : ℕ)
    → All IsHash hs
    → length hs ≡ count
    → split_hashes (concat hs) count ≡ ok hs
unfolding split_hashes
split_hashes-concat hs count a n =
    let long : (length (concat hs) == count * 32) ≡ true =
      (==_iff _ _).1 (omega (arith, n, length-concat hs a)) in
    rw long (ap ok (ap (λ m. chunks_of_32 m (concat hs)) (sym n) ∙ chunks_of_32-concat hs a))

-- What a sender announces, a receiver of the same BLAKE3 accepts. When a file whose length is a u64 is
-- opened at the chunk size of the offer, announcing it succeeds; and when its relative path is safe
-- and not yet seen and its length is not above the receiver's maximum, the tests on the entry pass
-- with the layout of the sender and the hashes of the chunks of its file. (BLAKE3 gives 32 bytes.)
pub check_entry-announce :
    (setup : Setup) (config : Config) (raw : Option ℕ) (i : ℕ) (f : OutgoingFile)
    (content path : Bytes) (src : SourceFile) (o : ManifestOffer) (seen_paths : List Bytes)
    → ((bytes : Bytes) → IsHash (setup.blake3 bytes))
    → f.content ≡ some content
    → length content < 2 ^ 64
    → open_source (some content) config.chunk_size raw ≡ ok src
    → o.chunk_size ≡ config.chunk_size
    → sanitize_relative_path f.relative_path ≡ ok path
    → seen seen_paths path ≡ false
    → length content ≤ setup.config.max_file_bytes
    → (entry : FileEntry) × (announce setup.blake3 config raw i f ≡ ok (src, entry))
      × (entry.file_id ≡ i)
      × (entry.size_bytes ≡ length content)
      × (check_entry setup o entry seen_paths
          ≡ ok (path, src.layout, hashes_of setup.blake3 content src.layout src.layout.count 0))
unfolding announce
check_entry-announce setup config raw i f content path src o seen_paths hash is small opens
      same_size safe fresh fits =
    let (st, hashed, out) =
      chunk_hashes-hashes_of setup.blake3 content config.chunk_size raw src
        config.release_read_pages small opens in
    let (cut, long) = opened_layout content config.chunk_size raw src small opens in
    let (all, counted) = hashes_of-All setup.blake3 content src.layout src.layout.count 0 hash in
    let opens_f : open_source f.content config.chunk_size raw ≡ ok src = rw is opens in
    let entry : FileEntry = record {
      file_id = i;
      relative_path = f.relative_path;
      size_bytes = src.layout.file_size;
      mime_type = f.mime_type;
      root_hash = root_from_chunk_hashes setup.blake3 st.out;
      chunk_hashes = concat st.out;
      modified_unix_ms = 0;
      created_unix_ms = 0;
    } in
    let cut_again : Chunk.new src.layout.file_size o.chunk_size ≡ ok src.layout =
      (λ k. Chunk.new (long k) (same_size k)) ∙ cut in
    let split : split_hashes (concat st.out) src.layout.count
        ≡ ok (hashes_of setup.blake3 content src.layout src.layout.count 0) =
      rw out (split_hashes-concat _ src.layout.count all counted) in
    (
      entry,
      rw (opens_f, hashed) refl,
      refl,
      long,
      check_entry_passes setup o entry seen_paths path src.layout _ safe fresh cut_again
          (omega (arith, long, fits)) split (ap (root_from_chunk_hashes setup.blake3) out),
    )
