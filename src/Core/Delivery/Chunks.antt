-- ===== src/Core/Delivery/Chunks.antt =====
-- The chunks of a file put together are the file, so its root tells it from each other file.
use speeed.Base.{
  ℕ, zero, suc, ◌+◌, ◌*◌, ◌≤◌, ◌≡◌, ◌≢◌, ◌⊎◌, inl, inr, refl, sym, ap, ◌∙◌, min, List, [], ◌∷◌,
  ◌++◌, map, length, length-drop, take, drop, Bool-cases, arith,
}
use speeed.Base.Bytes.{Bytes, bytes_eq, bytes_eq→eq, bytes_eq_refl}
use speeed.Proto.Chunk.{ChunkLayout}
use speeed.Proto.Chunk.Layout
use speeed.Proto.Chunk.Layout.{len_at, end-le, count-le}
use speeed.Proto.Hashes.{Hash, root_from_chunk_hashes}
use speeed.Proto.Hashes.Root.{IsHash, root_commits}
use speeed.Core.Source.Hashes.{hashes_of, hashes_of-All}
use speeed.Core.Recv.Verified.{chunk_bytes}

-- Two byte strings with one hash.
abbrev pub Collision : (Bytes → Hash) → Type 0
Collision blake3 = (x : Bytes) × (y : Bytes) × (x ≢ y) × (blake3 x ≡ blake3 y)

-- The chunks i, …, i + n - 1 of a file.
abbrev chunks : Bytes → ChunkLayout → ℕ → ℕ → List Bytes
chunks content l zero i = []
chunks content l (suc n) i = chunk_bytes content l i ∷ chunks content l n (i + 1)

abbrev joined : List Bytes → Bytes
joined [] = []
joined (x ∷ xs) = x ++ joined xs

drop_past : (n : ℕ) (xs : Bytes) → length xs ≤ n → drop n xs ≡ []
drop_past zero [] h = refl
drop_past zero (x ∷ xs) h = absurd (omega arith)
drop_past (suc n) [] h = refl
drop_past (suc n) (x ∷ xs) h = drop_past n xs (omega arith)

drop_twice : (n m : ℕ) (xs : Bytes) → drop m (drop n xs) ≡ drop (n + m) xs
drop_twice zero m xs = ap (λ k. drop k xs) (let e : m ≡ 0 + m = omega arith in e)
drop_twice (suc n) zero [] = sym (drop_past (suc n + 0) [] (omega arith))
drop_twice (suc n) (suc m) [] = sym (drop_past (suc n + suc m) [] (omega arith))
drop_twice (suc n) m (x ∷ xs) =
    drop_twice n m xs
    ∙ ap (λ k. drop k (x ∷ xs)) (let e : suc (n + m) ≡ suc n + m = omega arith in e)

-- A chunk that is cut off at the end of the file, and what is behind it.
cut_join : (n c : ℕ) (xs : Bytes) → n ≡ min (length xs) c → take n xs ++ drop c xs ≡ xs
cut_join zero zero xs e = refl
cut_join zero (suc c) [] e = refl
cut_join zero (suc c) (x ∷ xs) e = absurd (omega arith)
cut_join (suc n) zero xs e = absurd (omega arith)
cut_join (suc n) (suc c) [] e = absurd (omega arith)
cut_join (suc n) (suc c) (x ∷ xs) e = ap (λ t. x ∷ t) (cut_join n c xs (omega arith))

module _ {l : ChunkLayout} (v : Layout.IsValid l) (content : Bytes)
    (sized : length content ≡ l.file_size) where
  joined-chunks_from :
      (n i : ℕ) → i + n ≡ l.count → joined (chunks content l n i) ≡ drop (i * l.chunk_size) content
  joined-chunks_from zero i e =
      let all : i ≡ l.count = omega arith in
      rw all (sym (drop_past (l.count * l.chunk_size) content (omega (arith, end-le v))))
  joined-chunks_from (suc n) i e =
      let rest = drop (i * l.chunk_size) content in
      let behind : drop ((i + 1) * l.chunk_size) content ≡ drop l.chunk_size rest =
        ap (λ k. drop k content) (omega arith)
        ∙ sym (drop_twice (i * l.chunk_size) l.chunk_size content) in
      ap (λ t. chunk_bytes content l i ++ t) (joined-chunks_from n (i + 1) (omega arith) ∙ behind)
      ∙ cut_join (len_at l i) l.chunk_size rest
          (omega (arith, length-drop (i * l.chunk_size) content))

  joined-chunks : joined (chunks content l l.count 0) ≡ content
  joined-chunks =
      joined-chunks_from l.count 0 (omega arith)
      ∙ ap (λ k. drop k content) (let e : 0 * l.chunk_size ≡ 0 = omega arith in e)

hashes_of-map :
    (blake3 : Bytes → Hash) (content : Bytes) (l : ChunkLayout) (n i : ℕ)
    → hashes_of blake3 content l n i ≡ map blake3 (chunks content l n i)
hashes_of-map blake3 content l zero i = refl
hashes_of-map blake3 content l (suc n) i =
    ap (λ t. blake3 (chunk_bytes content l i) ∷ t) (hashes_of-map blake3 content l n (i + 1))

pub same_hash :
    (blake3 : Bytes → Hash) (x y : Bytes) → blake3 x ≡ blake3 y → (x ≡ y) ⊎ Collision blake3
same_hash blake3 x y e = elim (Bool-cases (bytes_eq x y)) [
  | inl same ↦ inl (bytes_eq→eq x y same)
  | inr other ↦ inr (x, y, λ p. cc (other, bytes_eq_refl y, p), e)
]

-- Lists with the same hashes are the same.
same_hashes :
    (blake3 : Bytes → Hash) (xs ys : List Bytes)
    → map blake3 xs ≡ map blake3 ys
    → (xs ≡ ys) ⊎ Collision blake3
same_hashes blake3 [] [] e = inl refl
same_hashes blake3 [] (y ∷ ys) e = absurd (omega (arith, ap length e))
same_hashes blake3 (x ∷ xs) [] e = absurd (omega (arith, ap length e))
same_hashes blake3 (x ∷ xs) (y ∷ ys) e = elim (same_hash blake3 x y (cc)) [
  | inr found ↦ inr found
  | inl here ↦ elim (same_hashes blake3 xs ys (cc)) [
    | inr found ↦ inr found
    | inl there ↦ inl (cc (here, there))
  ]
]

-- Two files, cut in two valid layouts of their lengths, whose chunks have hashes with one root: they
-- have the same content, or two byte strings with one hash are at hand.
pub same_root :
    (blake3 : Bytes → Hash) {l l' : ChunkLayout} (content content' : Bytes)
    → ((bytes : Bytes) → IsHash (blake3 bytes))
    → Layout.IsValid l
    → Layout.IsValid l'
    → length content ≡ l.file_size
    → length content' ≡ l'.file_size
    → root_from_chunk_hashes blake3 (hashes_of blake3 content l l.count 0)
      ≡ root_from_chunk_hashes blake3 (hashes_of blake3 content' l' l'.count 0)
    → (content ≡ content') ⊎ Collision blake3
same_root blake3 {l} {l'} content content' hash v v' sized sized' e =
    let hs = hashes_of-All blake3 content l l.count 0 hash in
    let ks = hashes_of-All blake3 content' l' l'.count 0 hash in
    elim (root_commits blake3 _ _ hs.0 ks.0 (omega (arith, hs.1, count-le v, v.sized))
      (omega (arith, ks.1, count-le v', v'.sized)) e) [
        | inr found ↦ inr found
        | inl same ↦
            elim (same_hashes blake3 (chunks content l l.count 0) (chunks content' l' l'.count 0) (
              sym (hashes_of-map blake3 content l l.count 0)
              ∙ same
              ∙ hashes_of-map blake3 content' l' l'.count 0)) [
                | inr found ↦ inr found
                | inl chunks_same ↦ inl (
                    sym (joined-chunks v content sized)
                    ∙ ap joined chunks_same
                    ∙ joined-chunks v' content' sized')
              ]
      ]
