-- ===== src/Cli/Payload.antt =====
-- core/crates/aetherlink-cli/src/main.rs, `write_source`: a payload of an exact length.
use Prim.Native.Nat.{bit_xor}
use speeed.Base.{
  ℕ, zero, suc, ◌+◌, ◌-◌, ◌*◌, ◌/◌, ◌%◌, ◌^◌, ◌≤◌, ◌<◌, ◌≡◌, refl, inl, inr, min, ltb, Bool-cases,
  if◌then◌else◌, Option, none, some, [], ◌++◌, length, length-append, length-take, take, All,
  All-append, All-take, arith,
}
use speeed.Base.Bits.{IsByte}
use speeed.Base.Bytes.{Bytes, to_le_bytes, length-to_le_bytes, to_le_bytes-IsByte}

-- `x ^= x << 13; x ^= x >> 7; x ^= x << 17` on a u64.
unfoldable pub xorshift : ℕ → ℕ
xorshift x =
    let a = bit_xor x (x * 2 ^ 13 % 2 ^ 64) in
    let b = bit_xor a (a / 2 ^ 7) in bit_xor b (b * 2 ^ 17 % 2 ^ 64)

-- The `n` pieces of eight bytes of a block, and the state behind them.
unfoldable pub fill : ℕ → ℕ → Bytes × ℕ
fill zero x = ([], x)
fill (suc n) x =
    let (rest, last) = fill n (xorshift x) in (to_le_bytes 8 (xorshift x) ++ rest, last)

-- The loop, with fuel. Each round writes a byte or more, so that one more than the bytes is enough.
unfoldable pub write_from : ℕ → ℕ → ℕ → Bytes → ℕ → Option Bytes
write_from zero pieces x out bytes = none
write_from (suc fuel) pieces x out bytes =
    let (block, x') = fill pieces x in
    let n = min (length block) (bytes - length out) in
    let rest = write_from fuel pieces x' (out ++ take n block) bytes in
    if ltb (length out) bytes then rest else some out

-- A block is a mebibyte: 131072 pieces.
unfoldable pub write_source : ℕ → Option Bytes
write_source bytes = write_from (suc bytes) 131072 0x243F6A8885A308D3 [] bytes

fill-IsByte : (n x : ℕ) → All IsByte (fill n x).0 × (length (fill n x).0 ≡ n * 8)
unfolding fill
fill-IsByte zero x = (tt, omega arith)
fill-IsByte (suc n) x =
    let (bytes, long) = fill-IsByte n (xorshift x) in
    (
      All-append IsByte (to_le_bytes 8 (xorshift x)) (fill n (xorshift x)).0
          (to_le_bytes-IsByte 8 (xorshift x)) bytes,
      omega (
        arith,
        length-append (to_le_bytes 8 (xorshift x)) (fill n (xorshift x)).0,
        long,
        length-to_le_bytes 8 (xorshift x),
      ),
    )

-- A payload of this length is written, of bytes.
abbrev pub Writes : ℕ → Option Bytes → Type 0
Writes bytes result =
    (content : Bytes) × (result ≡ some content) × (length content ≡ bytes) × All IsByte content

write_from-Writes :
    (fuel pieces x : ℕ) (out : Bytes) (bytes : ℕ)
    → 0 < pieces
    → length out ≤ bytes
    → bytes - length out < fuel
    → All IsByte out
    → Writes bytes (write_from fuel pieces x out bytes)
unfolding write_from
write_from-Writes zero pieces x out bytes some_pieces fits enough all = absurd (omega arith)
write_from-Writes (suc fuel) pieces x out bytes some_pieces fits enough all =
    elim (Bool-cases (ltb (length out) bytes)) [
      | inr done ↦ rw done (out, refl, ground arith, all)
      | inl more ↦
          let block = (fill pieces x).0 in
          let n = min (length block) (bytes - length out) in
          let (are_bytes, long) = fill-IsByte pieces x in
          let lt : length out < bytes = ground arith in
          let written : length (out ++ take n block) ≡ length out + n =
            omega (arith, length-append out (take n block), length-take n block) in
          rw more (
            write_from-Writes fuel pieces (fill pieces x).1 (out ++ take n block) bytes some_pieces
              (omega (arith, written)) (omega (arith, written, long, lt))
              (All-append IsByte out (take n block) all (All-take IsByte n block are_bytes)))
    ]

-- The payload of a benchmark is written in full: for every length the loop ends within the fuel that it
-- is given, and what it wrote has exactly that length and consists of bytes.
pub write_source-Writes : (bytes : ℕ) → Writes bytes (write_source bytes)
unfolding write_source
write_source-Writes bytes =
    write_from-Writes (suc bytes) 131072 0x243F6A8885A308D3 [] bytes (omega arith) (omega arith)
      (omega arith) tt
