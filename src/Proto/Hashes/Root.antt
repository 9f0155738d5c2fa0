-- ===== src/Proto/Hashes/Root.antt =====
-- The root commits to the list of chunk hashes.
use speeed.Base.{
  ◌^◌, ◌<◌, ◌≡◌, ◌≢◌, ◌⊎◌, inl, inr, refl, sym, ap, ◌∙◌, List, [], ◌∷◌, length, All, arith,
  Bool-cases,
}
use speeed.Base.Bytes.{
  Bytes, to_le_bytes, length-to_le_bytes, from_le_bytes, from_le_bytes-to_le_bytes, bytes_eq,
  bytes_eq→eq, append_inj, bytes_eq_refl,
}
use speeed.Proto.Hashes.{Hash, concat, root_domain, root_input, root_from_chunk_hashes}

abbrev pub IsHash : Hash → Type 0
IsHash h = length h ≡ 32

concat_inj :
    (hs ks : List Hash)
    → All IsHash hs
    → All IsHash ks
    → length hs ≡ length ks
    → concat hs ≡ concat ks
    → hs ≡ ks
concat_inj [] [] a b l e = refl
concat_inj [] (k ∷ ks) a b l e = absurd (omega arith)
concat_inj (h ∷ hs) [] a b l e = absurd (omega arith)
concat_inj (h ∷ hs) (k ∷ ks) a b l e =
    let (same, rest) = append_inj h k (concat hs) (concat ks) (a.0 ∙ sym b.0) e in
    cc (same, concat_inj hs ks a.1 b.1 (omega arith) rest)

-- Lists of hashes, shorter than 2 ^ 64, are told apart by what is hashed.
pub root_input_inj :
    (hs ks : List Hash)
    → All IsHash hs
    → All IsHash ks
    → length hs < 2 ^ 64
    → length ks < 2 ^ 64
    → root_input hs ≡ root_input ks
    → hs ≡ ks
unfolding root_input
root_input_inj hs ks a b small small' e =
    let (_, tails) = append_inj root_domain root_domain _ _ refl e in
    let (counts, bodies) =
      append_inj (to_le_bytes 8 (length hs)) (to_le_bytes 8 (length ks)) (concat hs) (concat ks)
        (length-to_le_bytes 8 (length hs) ∙ sym (length-to_le_bytes 8 (length ks))) tails in
    let same : length hs ≡ length ks =
      sym (from_le_bytes-to_le_bytes 8 (length hs) (omega arith))
      ∙ ap from_le_bytes counts
      ∙ from_le_bytes-to_le_bytes 8 (length ks) (omega arith) in
    concat_inj hs ks a b same bodies

-- Two lists of 32-byte hashes with one root are the same list, or they give two different byte
-- strings with one BLAKE3 hash. Order and number of the chunks are thus committed to.
pub root_commits :
    (blake3 : Bytes → Hash) (hs ks : List Hash)
    → All IsHash hs
    → All IsHash ks
    → length hs < 2 ^ 64
    → length ks < 2 ^ 64
    → root_from_chunk_hashes blake3 hs ≡ root_from_chunk_hashes blake3 ks
    → (hs ≡ ks) ⊎ ((x : Bytes) × (y : Bytes) × (x ≢ y) × (blake3 x ≡ blake3 y))
root_commits blake3 hs ks a b small small' e =
    elim (Bool-cases (bytes_eq (root_input hs) (root_input ks))) [
      | inl same ↦ inl (root_input_inj hs ks a b small small' (bytes_eq→eq _ _ same))
      | inr other ↦
          inr (root_input hs, root_input ks, λ p. cc (other, bytes_eq_refl (root_input ks), p), e)
    ]
