-- ===== src/Proto/Frame/Canonical.antt =====
-- `decode` accepts no bytes but those that `to_bytes` writes.
use Prim.Native.Nat.{bit_and}
use speeed.Base.{
  ℕ, zero, suc, ◌+◌, ◌^◌, ◌≤◌, ◌<◌, ◌≡◌, refl, ap, ◌∙◌, true, false, ◌==◌, ltb, [], ◌∷◌, ◌++◌,
  length, get_or, take, drop, All, All-take, All-drop, length-take, length-drop, arith, Result, ok,
  >>=-eq-ok, ok_inj, refuse_if-eq-ok, not,
}
use native.Mathlib.Nat.{zero-add, suc-add}
use speeed.Base.Bits.{IsByte, flag_mask}
use speeed.Base.Bytes.{
  Bytes, to_le_bytes, from_le_bytes, to_le_bytes-from_le_bytes, from_le_bytes-lt,
}
use speeed.Proto.Errors.{Error}
use speeed.Proto.Frame.{
  FrameHeader, MsgType, keepalive, max_frame_payload, to_bytes, decode, check_fields, from_u8,
  to_u8, word_at, header_len, magic, protocol_version,
}
use speeed.Proto.Frame.RoundTrip.{IsHeader}

take_step :
    (n m : ℕ) (xs : Bytes) → n ≤ length xs → take n xs ++ take m (drop n xs) ≡ take (n + m) xs
take_step zero m xs h = rw zero-add refl
take_step (suc n) m [] h = elim h [ ]
take_step (suc n) m (x ∷ xs) h = rw suc-add (ap (λ t. x ∷ t) (take_step n m xs (omega arith)))

drop-nil : (n : ℕ) → drop {A = ℕ} n [] ≡ []
drop-nil zero = refl
drop-nil (suc n) = refl

drop_step : (n a : ℕ) (xs : Bytes) → drop n (drop a xs) ≡ drop (a + n) xs
drop_step n zero xs = rw zero-add refl
drop_step n (suc a) [] = rw suc-add (drop-nil n)
drop_step n (suc a) (x ∷ xs) = rw suc-add (drop_step n a xs)

-- Cell `a`, written before what follows it.
cell_step :
    (a m : ℕ) (buf : Bytes)
    → a < length buf
    → get_or buf a 0 ∷ take m (drop (a + 1) buf) ≡ take (suc m) (drop a buf)
cell_step a m [] h = elim h [ ]
cell_step zero m (b ∷ bs) h = refl
cell_step (suc a) m (b ∷ bs) h = rw suc-add (cell_step a m bs (omega arith))

-- A word of `n` bytes at `a`, written before what follows it.
word_step :
    (a n m v : ℕ) (buf : Bytes)
    → All IsByte buf
    → a + n ≤ length buf
    → from_le_bytes (take n (drop a buf)) ≡ v
    → to_le_bytes n v ++ take m (drop (a + n) buf) ≡ take (n + m) (drop a buf)
word_step a n m v buf bytes h e =
    let piece = take n (drop a buf) in
    let long : length piece ≡ n = omega (arith, length-take n (drop a buf), length-drop a buf) in
    let same : to_le_bytes n v ≡ piece = rw (← e) (
      rw long at
        (to_le_bytes-from_le_bytes piece (All-take IsByte n _ (All-drop IsByte a buf bytes)))) in
    rw (same, ← drop_step n a buf) (take_step n m (drop a buf) (omega (arith, length-drop a buf)))

-- The tests of `decode` on the fields, as it makes them.
abbrev fields_of : Bytes → MsgType → Result Error (Unit {0})
fields_of buf m =
    check_fields (word_at buf 4 6) (word_at buf 6 8) (word_at buf 28 32) (word_at buf 24 28) m

-- What `decode` has found when it succeeds.
record Found (buf : Bytes) (h : FrameHeader) : Type 0 where
  long : header_len ≤ length buf
  word : word_at buf 0 2 ≡ magic
  version : get_or buf 2 0 ≡ protocol_version
  kind : from_u8 (get_or buf 3 0) ≡ ok h.msg_type
  fields : fields_of buf h.msg_type ≡ ok tt
  flags : word_at buf 4 6 ≡ h.flags.bits
  file_id : word_at buf 8 16 ≡ h.file_id
  offset : word_at buf 16 24 ≡ h.offset
  length : word_at buf 24 28 ≡ h.length

not_ltb : (a b : ℕ) → ltb a b ≡ false → b ≤ a
not_ltb a b h = ground arith

not_ne : (a b : ℕ) → not (a == b) ≡ false → a ≡ b
not_ne a b h = ground arith

decode-Found : (buf : Bytes) (h : FrameHeader) → decode buf ≡ ok h → Found buf h
unfolding decode
decode-Found buf h e =
    let (_, e0, r0) = >>=-eq-ok _ _ e in
    let (_, e1, r1) = >>=-eq-ok _ _ r0 in
    let (_, e2, r2) = >>=-eq-ok _ _ r1 in
    let (m, kind, r3) = >>=-eq-ok (from_u8 (get_or buf 3 0)) _ r2 in
    let (_, fields, r4) = >>=-eq-ok (fields_of buf m) _ r3 in
    let same = ok_inj r4 in
    let m_same : m ≡ h.msg_type = ap (λ x. x.msg_type) same in
    record {
      long = not_ltb _ _ (refuse_if-eq-ok _ _ e0);
      word = not_ne _ _ (refuse_if-eq-ok _ _ e1);
      version = not_ne _ _ (refuse_if-eq-ok _ _ e2);
      kind = rw m_same at kind;
      fields = rw m_same at fields;
      flags = ap (λ x. x.flags.bits) same;
      file_id = ap (λ x. x.file_id) same;
      offset = ap (λ x. x.offset) same;
      length = ap (λ x. x.length) same;
    }

-- What the tests on the fields establish.
check_fields-bounds :
    (raw low high len : ℕ) (m : MsgType)
    → check_fields raw low high len m ≡ ok tt
    → ((bit_and raw 65534 == 0) ≡ true)
      × (low ≡ 0)
      × (high ≡ 0)
      × (len ≤ max_frame_payload)
      × (m ≡ keepalive → len ≡ 0)
unfolding check_fields
check_fields-bounds raw low high len m e =
    (ground arith, ground arith, ground arith, ground arith, λ k. ground arith)

to_u8-from_u8 : (v : ℕ) (m : MsgType) → from_u8 v ≡ ok m → to_u8 m ≡ v
unfolding from_u8
to_u8-from_u8 v m e = ground arith

word_lt :
    (a n : ℕ) (buf : Bytes)
    → All IsByte buf
    → a + n ≤ length buf
    → from_le_bytes (take n (drop a buf)) < 256 ^ n
word_lt a n buf bytes h =
    let piece = take n (drop a buf) in
    let long : length piece ≡ n = omega (arith, length-take n (drop a buf), length-drop a buf) in
    rw long at (from_le_bytes-lt piece (All-take IsByte n _ (All-drop IsByte a buf bytes)))

flag_bits : (w : ℕ) → w < 65536 → (bit_and w 65534 == 0) ≡ true → w ≤ 1
flag_bits w h e = ground (arith, flag_mask w h)

Found-IsHeader : {buf : Bytes} {h : FrameHeader} → All IsByte buf → Found buf h → IsHeader h
Found-IsHeader {buf} {h} bytes f =
    let (flags, _, _, short, silent) = check_fields-bounds _ _ _ _ h.msg_type f.fields in
    record {
      flags =
          flag_bits h.flags.bits (rw f.flags at (word_lt 4 2 buf bytes (omega (arith, f.long))))
            (rw f.flags at flags);
      file_id = rw (← f.file_id) (word_lt 8 8 buf bytes (omega (arith, f.long)));
      offset = rw (← f.offset) (word_lt 16 8 buf bytes (omega (arith, f.long)));
      length = rw f.length at short;
      silent = rw f.length at silent;
    }

-- The nine writes of `to_bytes`, from the last to the first.
Found-to_bytes :
    {buf : Bytes} {h : FrameHeader}
    → All IsByte buf
    → Found buf h
    → to_bytes h ≡ take header_len buf
unfolding to_bytes
Found-to_bytes {buf} {h} bytes f =
    let (_, low, high, _, _) = check_fields-bounds _ _ _ _ h.msg_type f.fields in
    let s28 = word_step 28 4 0 0 buf bytes (omega (arith, f.long)) high in
    let s24 =
      ap (λ t. to_le_bytes 4 h.length ++ t) s28
      ∙ word_step 24 4 4 h.length buf bytes (omega (arith, f.long)) f.length in
    let s16 =
      ap (λ t. to_le_bytes 8 h.offset ++ t) s24
      ∙ word_step 16 8 8 h.offset buf bytes (omega (arith, f.long)) f.offset in
    let s8 =
      ap (λ t. to_le_bytes 8 h.file_id ++ t) s16
      ∙ word_step 8 8 16 h.file_id buf bytes (omega (arith, f.long)) f.file_id in
    let s6 =
      ap (λ t. to_le_bytes 2 0 ++ t) s8
      ∙ word_step 6 2 24 0 buf bytes (omega (arith, f.long)) low in
    let s4 =
      ap (λ t. to_le_bytes 2 h.flags.bits ++ t) s6
      ∙ word_step 4 2 26 h.flags.bits buf bytes (omega (arith, f.long)) f.flags in
    let s3 =
      ap (λ t. to_u8 h.msg_type ∷ t) s4
      ∙ rw (to_u8-from_u8 _ _ f.kind) (cell_step 3 28 buf (omega (arith, f.long))) in
    let s2 =
      ap (λ t. protocol_version ∷ t) s3
      ∙ rw f.version at (cell_step 2 29 buf (omega (arith, f.long))) in
    ap (λ t. to_le_bytes 2 magic ++ t) s2
    ∙ word_step 0 2 30 magic buf bytes (omega (arith, f.long)) f.word

-- The bytes that `decode` accepts are those that `to_bytes` writes for its result, which is a header
-- that a peer may send. So the encoding is unique, and reserved fields and unknown flags are zero.
pub to_bytes-decode :
    (buf : Bytes) (h : FrameHeader)
    → All IsByte buf
    → decode buf ≡ ok h
    → (to_bytes h ≡ take header_len buf) × IsHeader h
to_bytes-decode buf h bytes e =
    let found = decode-Found buf h e in (Found-to_bytes bytes found, Found-IsHeader bytes found)

-- A header that was accepted announces no more than a frame may hold.
pub decode-le : (buf : Bytes) (h : FrameHeader) → decode buf ≡ ok h → h.length ≤ max_frame_payload
decode-le buf h e =
    let f = decode-Found buf h e in
    let (_, _, _, short, _) = check_fields-bounds _ _ _ _ h.msg_type f.fields in
    rw f.length at short

pub decode-long : (buf : Bytes) (h : FrameHeader) → decode buf ≡ ok h → header_len ≤ length buf
decode-long buf h e = (decode-Found buf h e).long
