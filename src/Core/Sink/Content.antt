-- ===== src/Core/Sink/Content.antt =====
-- A write changes the bytes that it covers, and no others.
use speeed.Base.{
  ℕ, zero, suc, ◌+◌, ◌≤◌, ◌≡◌, refl, sym, ap, ◌∙◌, [], ◌∷◌, ◌++◌, length, length-append,
  length-drop, take, take-append, drop, arith, true, not, ok, >>=-eq-ok, ok_inj, refuse_if,
  refuse_if-eq-ok,
}
use speeed.Base.Bytes.{Bytes, bytes_eq, bytes_eq→eq}
use speeed.Proto.Hashes.{Hash, hash_chunk}
use speeed.Core.Errors.{chunk_verification_failed}
use speeed.Core.Sink.{write_all_at, verify_and_write}

pub length-write_all_at :
    (c : Bytes) (s : ℕ) (p : Bytes)
    → s + length p ≤ length c
    → length (write_all_at c s p) ≡ length c
length-write_all_at c zero p h =
    omega (arith, length-append p (drop (length p) c), length-drop (length p) c)
length-write_all_at [] (suc s) p h = absurd (omega arith)
length-write_all_at (b ∷ c) (suc s) p h = ap suc (length-write_all_at c s p (omega arith))

-- What was written is read back.
pub written :
    (c : Bytes) (s : ℕ) (p : Bytes)
    → s + length p ≤ length c
    → take (length p) (drop s (write_all_at c s p)) ≡ p
written c zero p h = take-append p (drop (length p) c)
written [] (suc s) p h = absurd (omega arith)
written (b ∷ c) (suc s) p h = written c s p (omega arith)

take_before :
    (c : Bytes) (s n : ℕ) (p : Bytes)
    → n ≤ s
    → n ≤ length c
    → take n (write_all_at c s p) ≡ take n c
take_before c s zero p h k = refl
take_before c zero (suc n) p h k = absurd (omega arith)
take_before [] (suc s) (suc n) p h k = absurd (omega arith)
take_before (b ∷ c) (suc s) (suc n) p h k =
    ap (λ t. b ∷ t) (take_before c s n p (omega arith) (omega arith))

-- What stands before the write is kept.
pub kept_before :
    (c : Bytes) (s a n : ℕ) (p : Bytes)
    → a + n ≤ s
    → s ≤ length c
    → take n (drop a (write_all_at c s p)) ≡ take n (drop a c)
kept_before c s zero n p h k = take_before c s n p (omega arith) (omega arith)
kept_before c zero (suc a) n p h k = absurd (omega arith)
kept_before [] (suc s) (suc a) n p h k = absurd (omega arith)
kept_before (b ∷ c) (suc s) (suc a) n p h k = kept_before c s a n p (omega arith) (omega arith)

drop-nil : (n : ℕ) → drop {A = ℕ} n [] ≡ []
drop-nil zero = refl
drop-nil (suc n) = refl

drop_past : (c p : Bytes) (a : ℕ) → length p ≤ a → drop a (p ++ drop (length p) c) ≡ drop a c
drop_past c [] a h = refl
drop_past c (x ∷ p) zero h = absurd (omega arith)
drop_past [] (x ∷ p) (suc a) h =
    ap (λ t. drop a (p ++ t)) (sym (drop-nil (length p)))
    ∙ drop_past [] p a (omega arith)
    ∙ drop-nil a
drop_past (b ∷ c) (x ∷ p) (suc a) h = drop_past c p a (omega arith)

-- What stands behind the write is kept.
pub kept_after :
    (c : Bytes) (s a : ℕ) (p : Bytes)
    → s + length p ≤ a
    → s ≤ length c
    → drop a (write_all_at c s p) ≡ drop a c
kept_after c zero a p h k = drop_past c p a (omega arith)
kept_after [] (suc s) a p h k = absurd (omega arith)
kept_after (b ∷ c) (suc s) zero p h k = absurd (omega arith)
kept_after (b ∷ c) (suc s) (suc a) p h k = kept_after c s a p (omega arith) (omega arith)

-- What reaches the file has the expected hash.
pub verify_and_write-eq-ok :
    (blake3 : Bytes → Hash) (content : Bytes) (start : ℕ) (payload : Bytes) (expected : Hash)
    {out : Bytes}
    → verify_and_write blake3 content start payload expected ≡ ok out
    → (blake3 payload ≡ expected) × (out ≡ write_all_at content start payload)
unfolding verify_and_write
verify_and_write-eq-ok blake3 content start payload expected e =
    let (_, e1, e2) =
      >>=-eq-ok
        (refuse_if (not (bytes_eq (hash_chunk blake3 payload) expected))
          (chunk_verification_failed start))
        _ e in
    let ne = refuse_if-eq-ok _ _ e1 in
    let yes : bytes_eq (blake3 payload) expected ≡ true = ground (arith, ne) in
    (bytes_eq→eq _ _ yes, sym (ok_inj e2))
