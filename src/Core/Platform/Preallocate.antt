-- ===== src/Core/Platform/Preallocate.antt =====
-- The file that is reserved is as long as it was asked to be, and keeps what it had.
use speeed.Base.{
  ℕ, zero, suc, ◌-◌, ◌≤◌, ◌<◌, ◌≡◌, refl, ap, inl, inr, ◌==◌, ==_iff, Bool-cases, ◌++◌, [], ◌∷◌,
  length, length-append, length-take, length-replicate, take, replicate, arith, Result, ok, err,
  panic, ok_inj,
}
use speeed.Base.Bytes.{Bytes}
use speeed.Core.Platform.{
  Disk, Answer, ReserveError, success, failure, unsupported, failed, resized, after_reserve,
  reserve_blocks, preallocate,
}

length-resized : (content : Bytes) (size : ℕ) → length (resized content size) ≡ size
length-resized content size = omega (
  arith,
  length-append (take size content) (replicate (size - length content) 0),
  length-take size content,
  length-replicate {A = ℕ} (size - length content) 0,
)

take-take-append :
    (content rest : Bytes) (size n : ℕ)
    → n ≤ size
    → n ≤ length content
    → take n (take size content ++ rest) ≡ take n content
take-take-append content rest size zero h k = refl
take-take-append [] rest size (suc n) h k = absurd (omega arith)
take-take-append (b ∷ content) rest zero (suc n) h k = absurd (omega arith)
take-take-append (b ∷ content) rest (suc size) (suc n) h k =
    ap (λ t. b ∷ t) (take-take-append content rest size n (omega arith) (omega arith))

after_reserve-eq-ok :
    (r : Result ReserveError (Unit {0})) (answer : Answer) (content : Bytes) (size : ℕ)
    {after : Bytes}
    → after_reserve r answer content size ≡ ok after
    → resized content size ≡ after
after_reserve-eq-ok (ok _) success content size e = ok_inj e
after_reserve-eq-ok (ok _) (failure x) content size e = cc
after_reserve-eq-ok (err unsupported) success content size e = ok_inj e
after_reserve-eq-ok (err unsupported) (failure x) content size e = cc
after_reserve-eq-ok (err (failed x)) answer content size e = cc
after_reserve-eq-ok panic answer content size e = cc

pub preallocate-eq-ok :
    (disk : Disk) (content : Bytes) (size : ℕ) {after : Bytes}
    → preallocate disk content size ≡ ok after
    → 0 < size
    → resized content size ≡ after
unfolding preallocate
preallocate-eq-ok disk content size e h = elim (Bool-cases (size == 0)) [
  | inl nothing ↦ absurd (let z : size ≡ 0 = ground arith in omega arith)
  | inr something ↦
      after_reserve-eq-ok (reserve_blocks disk) disk.set_len content size (rw something at e)
]

pub preallocate-zero :
    (disk : Disk) (content : Bytes) (size : ℕ) {after : Bytes}
    → size ≡ 0
    → preallocate disk content size ≡ ok after
    → content ≡ after
unfolding preallocate
preallocate-zero disk content size h e = ok_inj (rw ((==_iff size 0).1 h) at e)

-- On every platform, and whatever the system calls answer: when a file is reserved for a size that is
-- not zero, its length is that size, and what it held up to that size is unchanged.
pub preallocate-keeps :
    (disk : Disk) (content : Bytes) (size : ℕ) {after : Bytes}
    → preallocate disk content size ≡ ok after
    → 0 < size
    → (length after ≡ size)
      × ((n : ℕ) → n ≤ size → n ≤ length content → take n after ≡ take n content)
preallocate-keeps disk content size e h =
    let same = preallocate-eq-ok disk content size e h in
    rw (← same) (
      length-resized content size,
      λ n h k. take-take-append content (replicate (size - length content) 0) size n h k,
    )
