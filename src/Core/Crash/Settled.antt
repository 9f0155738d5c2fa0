-- ===== src/Core/Crash/Settled.antt =====
-- What a record may promise: its chunks are verified, and are on the device as the process sees them.
use speeed.Base.{
  some_inj, ℕ, ◌*◌, ◌<◌, ◌≡◌, ◌≢◌, ◌⊎◌, refl, sym, ap, ◌∙◌, inl, inr, true, ◌==◌, ==_iff,
  Bool-cases, some, List, length, get_elem?, arith, ok,
}
use speeed.Base.Bytes.{Bytes, bytes_eq, bytes_eq→eq, bytes_eq_refl}
use speeed.Proto.Chunk.{ChunkLayout, range}
use speeed.Proto.Chunk.Layout
use speeed.Proto.Chunk.Layout.{len_at}
use speeed.Proto.Hashes.{Hash}
use speeed.Proto.Bitmap.{ChunkBitmap, get}
use speeed.Core.Sink.{verify_and_write, write_all_at}
use speeed.Core.Sink.Content.{verify_and_write-eq-ok, length-write_all_at}
use speeed.Core.Recv.Verified.{chunk_bytes, range-InFile, own_chunk, other_chunk, in_file}
use speeed.Core.Offer.Valid.{Honest}
use speeed.Core.Delivery.Chunks.{Collision, same_hash}
use speeed.Core.Crash.{Torn}
use speeed.Core.Crash.WriteBack.{Torn-same}

-- Chunk `i` has the hash that was offered.
abbrev pub IsHashed : (Bytes → Hash) → ChunkLayout → List Hash → Bytes → ℕ → Type 0
IsHashed blake3 l hashes content i =
    (i < l.count) × (get_elem? hashes i ≡ some (blake3 (chunk_bytes content l i)))

pub record Settled (blake3 : Bytes → Hash) (l : ChunkLayout) (hashes : List Hash)
    (content disk : Bytes) (b : ChunkBitmap) : Type 0 where
  pub honest : Honest blake3 l hashes content b
  pub there :
      (i : ℕ) → i < l.count → get b i ≡ ok true → chunk_bytes disk l i ≡ chunk_bytes content l i

module _ {blake3 : Bytes → Hash} {l : ChunkLayout} {hashes : List Hash} where
  -- A sync brings to the device what was verified before it.
  pub Settled-sync :
      {content : Bytes} {b : ChunkBitmap}
      → Honest blake3 l hashes content b
      → Settled blake3 l hashes content content b
  Settled-sync h = record { honest = h; there = λ i lt e. refl }

  pub Settled-write_back :
      {content disk disk' : Bytes} {b : ChunkBitmap}
      → Torn disk content disk'
      → Settled blake3 l hashes content disk b
      → Settled blake3 l hashes content disk' b
  Settled-write_back torn s = record {
    honest = s.honest;
    there = λ i lt e. Torn-same (i * l.chunk_size) (len_at l i) torn (s.there i lt e);
  }

  -- After a loss of power what was on the device is all there is.
  pub Settled-lose_power :
      {content disk : Bytes} {b : ChunkBitmap}
      → Settled blake3 l hashes content disk b
      → Settled blake3 l hashes disk disk b
  Settled-lose_power s = Settled-sync (record {
    valid = s.honest.valid;
    counted = s.honest.counted;
    verified = λ i lt e. rw (s.there i lt e) (s.honest.verified i lt e);
  })

-- What a write of a worker changes.
pub record Written (blake3 : Bytes → Hash) (l : ChunkLayout) (hashes : List Hash)
    (content content' disk : Bytes) (i : ℕ) : Type 0 where
  pub sized : length content' ≡ length content
  pub mine : IsHashed blake3 l hashes content' i
  pub hashed : (j : ℕ) → IsHashed blake3 l hashes content j → IsHashed blake3 l hashes content' j
  pub honest :
      (b : ChunkBitmap) → Honest blake3 l hashes content b → Honest blake3 l hashes content' b
  pub settled :
      (b : ChunkBitmap)
      → Settled blake3 l hashes content disk b
      → Settled blake3 l hashes content' disk b

module _ (blake3 : Bytes → Hash) {l : ChunkLayout} (v : Layout.IsValid l) (hashes : List Hash)
    (content disk payload : Bytes) (i : ℕ) (h : i < l.count) (sized : length content ≡ l.file_size)
    (long : length payload ≡ len_at l i) (right : get_elem? hashes i ≡ some (blake3 payload)) where
  abbrev after : Bytes
  after = write_all_at content (i * l.chunk_size) payload

  IsHashed-after : (j : ℕ) → IsHashed blake3 l hashes content j → IsHashed blake3 l hashes after j
  IsHashed-after j (lt, e) = elim (Bool-cases (j == i)) [
    | inl same ↦
        let eq : j ≡ i = (==_iff j i).0 same in
        rw eq
          (h, right ∙ ap (λ t. some (blake3 t)) (sym (own_chunk v content payload i h sized long)))
    | inr other ↦ (
      lt,
      e ∙ ap (λ t. some (blake3 t)) (sym (other_chunk v content payload i h sized long j lt other)),
    )
  ]

  Honest-after :
      (b : ChunkBitmap) → Honest blake3 l hashes content b → Honest blake3 l hashes after b
  Honest-after b honest = record {
    valid = honest.valid;
    counted = honest.counted;
    verified = λ j lt e. (IsHashed-after j (lt, honest.verified j lt e)).1;
  }

  -- A chunk that a record promises is written again with the bytes that it has.
  Settled-after :
      (payload ≡ chunk_bytes content l i) ⊎ (blake3 payload ≢ blake3 (chunk_bytes content l i))
      → (b : ChunkBitmap) → Settled blake3 l hashes content disk b
      → Settled blake3 l hashes after disk b
  Settled-after again b s = record {
    honest = Honest-after b s.honest;
    there = λ j lt e. elim (Bool-cases (j == i)) [
      | inr other ↦ s.there j lt e ∙ sym (other_chunk v content payload i h sized long j lt other)
      | inl same ↦
          let eq : j ≡ i = (==_iff j i).0 same in
          let marked : get b i ≡ ok true = rw eq at e in
          rw eq (elim again [
            | inl equal ↦
                s.there i h marked ∙ sym equal ∙ sym (own_chunk v content payload i h sized long)
            | inr differ ↦ absurd (differ (some_inj (sym right ∙ s.honest.verified i h marked)))
          ])
    ];
  }

  after-Written :
      (payload ≡ chunk_bytes content l i) ⊎ (blake3 payload ≢ blake3 (chunk_bytes content l i))
      → Written blake3 l hashes content after disk i
  after-Written again = record {
    sized =
        length-write_all_at content (i * l.chunk_size) payload
          (omega (arith, in_file v i h, sized, long));
    mine =
        (h, right ∙ ap (λ t. some (blake3 t)) (sym (own_chunk v content payload i h sized long)));
    hashed = IsHashed-after;
    honest = Honest-after;
    settled = Settled-after again;
  }

-- A chunk that a worker verified and wrote.
pub verify_and_write-Written :
    (blake3 : Bytes → Hash) {l : ChunkLayout} (hashes : List Hash) (content disk payload : Bytes)
    (i start len : ℕ) (expected : Hash) (content' : Bytes)
    → Layout.IsValid l
    → length content ≡ l.file_size
    → range l i ≡ ok (start, len)
    → length payload ≡ len
    → get_elem? hashes i ≡ some expected
    → verify_and_write blake3 content start payload expected ≡ ok content'
    → Written blake3 l hashes content content' disk i ⊎ Collision blake3
verify_and_write-Written blake3 {l} hashes content disk payload i start len expected content' v
      sized r long offered e =
    let f = range-InFile v r in
    let (right, place) = verify_and_write-eq-ok blake3 content start payload expected e in
    let own : get_elem? hashes i ≡ some (blake3 payload) = offered ∙ ap some (sym right) in
    let made =
      after-Written blake3 v hashes content disk payload i f.below sized (long ∙ f.long) own in
    let written : (payload ≡ chunk_bytes content l i)
          ⊎ (blake3 payload ≢ blake3 (chunk_bytes content l i))
        → Written blake3 l hashes content content' disk i =
      λ again. rw (place, f.starts) (made again) in
    elim (Bool-cases (bytes_eq (blake3 payload) (blake3 (chunk_bytes content l i)))) [
      | inl same ↦
          elim (same_hash blake3 payload (chunk_bytes content l i) (bytes_eq→eq _ _ same)) [
            | inl equal ↦ inl (written (inl equal))
            | inr found ↦ inr found
          ]
      | inr differ ↦ inl (written (inr λ p. cc (differ, bytes_eq_refl (blake3 payload), p)))
    ]
