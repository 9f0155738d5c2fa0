-- ===== src/Core/Offer/Counts.antt =====
-- What the receiver answers to an offer, and what it has refused before.
use speeed.Base.{
  ℕ, ◌+◌, ◌≤◌, ◌<◌, ◌≡◌, sym, ap, ◌∙◌, false, List, [], ◌∷◌, ◌++◌, append_assoc, append-nil, map,
  All, arith, Result, ok, >>=-eq-ok, ok_inj, map_err,
}
use speeed.Base.Bytes.{Bytes}
use speeed.Base.Sums.{sum}
use speeed.Proto.Errors.{add_u64, mul_u64}
use speeed.Proto.Frame.{protocol_version}
use speeed.Core.Config.{Config}
use speeed.Core.Control.{FileEntry, ManifestOffer, Body, Hello, hello}
use speeed.Core.Control
use speeed.Core.Offer.{
  Setup, quiet, Accepting, nothing_yet, seen, prepare, check_hello, check_entry, accept_entry,
  accept_entries, handshake,
}
use speeed.Core.Offer.Valid.{check_entry-Checked}

-- No path stands twice.
abbrev pub Distinct : List Bytes → Type 0
Distinct [] = Unit {0}
Distinct (p ∷ ps) = (seen ps p ≡ false) × Distinct ps

-- What one entry adds.
record Adds (setup : Setup) (entry : FileEntry) (a a' : Accepting) : Type 0 where
  pub accepted : a'.accepted ≡ a.accepted ++ entry.file_id ∷ []
  pub total : a'.total_bytes ≡ a.total_bytes + entry.size_bytes
  pub small : entry.size_bytes ≤ setup.config.max_file_bytes
  pub distinct : Distinct a.seen_paths → Distinct a'.seen_paths

add_u64-eq-ok :
    {E : Type 0} (x y : ℕ) {z : ℕ} → ◌≡◌ {A = Result E ℕ} (add_u64 x y) (ok z) → x + y ≡ z
add_u64-eq-ok x y e = ground arith

accept_entry-Adds :
    (setup : Setup) (o : ManifestOffer) (entry : FileEntry) (a a' : Accepting)
    → accept_entry setup o entry a ≡ ok a'
    → Adds setup entry a a'
unfolding accept_entry
accept_entry-Adds setup o entry a a' e =
    let ((path, layout, hashes), e1, f1) = >>=-eq-ok (check_entry setup o entry a.seen_paths) _ e in
    let (st, _, f2) = >>=-eq-ok (map_err quiet (prepare setup o entry path layout hashes)) _ f1 in
    let (there, _, f3) = >>=-eq-ok (mul_u64 st.bitmap.set_count o.chunk_size) _ f2 in
    let (resumed, _, f4) = >>=-eq-ok (add_u64 a.resumed_bytes there) _ f3 in
    let (total, e5, f5) = >>=-eq-ok (add_u64 a.total_bytes entry.size_bytes) _ f4 in
    let c = check_entry-Checked setup o entry a.seen_paths e1 in
    let same = ok_inj f5 in
    record {
      accepted = ap (λ t. t.accepted) (sym same);
      total =
          ap (λ t. t.total_bytes) (sym same)
          ∙ sym (add_u64-eq-ok a.total_bytes entry.size_bytes e5);
      small = c.small;
      distinct = λ d. rw (← ap (λ t. t.seen_paths) same) (c.fresh, d);
    }

accept_entries-Adds :
    (setup : Setup) (o : ManifestOffer) (entries : List FileEntry) (a a' : Accepting)
    → accept_entries setup o entries a ≡ ok a'
    → Distinct a.seen_paths
    → (a'.accepted ≡ a.accepted ++ map (λ x. x.file_id) entries)
      × (a'.total_bytes ≡ a.total_bytes + sum (map (λ x. x.size_bytes) entries))
      × All (λ x. x.size_bytes ≤ setup.config.max_file_bytes) entries
      × Distinct a'.seen_paths
unfolding accept_entries
accept_entries-Adds setup o [] a a' e d =
    rw (← ok_inj e) (sym (append-nil a.accepted), omega arith, tt, d)
accept_entries-Adds setup o (entry ∷ entries) a a' e d =
    let (b, e1, f1) = >>=-eq-ok (accept_entry setup o entry a) _ e in
    let s = accept_entry-Adds setup o entry a b e1 in
    let (ids, total, small, distinct) =
      accept_entries-Adds setup o entries b a' f1 (s.distinct d) in
    (
      ids
          ∙ ap (λ t. t ++ map (λ x. x.file_id) entries) s.accepted
          ∙ append_assoc a.accepted (entry.file_id ∷ []) (map (λ x. x.file_id) entries),
      omega (arith, total, s.total),
      (s.small, small),
      distinct,
    )

check_hello-within :
    (config : Config) (h : Hello) {n : ℕ}
    → check_hello config (hello h) ≡ ok n
    → (h.protocol_version ≡ protocol_version)
      × (h.stream_count ≡ n)
      × (0 < n)
      × (n ≤ config.max_streams)
unfolding check_hello
check_hello-within config h e = (ground arith, ground arith, ground arith, ground arith)

-- When a hello and an offer are accepted: the peer speaks this version of the protocol, the streams
-- are as many as it asked for, at least one and at most the configured maximum; the answer names the
-- ids of all entries in their order; the total is the sum of their sizes, none of which is above the
-- maximum; and no two entries have the same sanitized path.
pub handshake-bounds :
    (setup : Setup) (h : Hello) (o : ManifestOffer) (n : ℕ) (a : Accepting)
    → handshake setup (hello h) (Control.offer o) ≡ ok (n, a)
    → ((h.protocol_version ≡ protocol_version)
        × (h.stream_count ≡ n)
        × (0 < n)
        × (n ≤ setup.config.max_streams))
      × (a.accepted ≡ map (λ x. x.file_id) o.files)
      × (a.total_bytes ≡ sum (map (λ x. x.size_bytes) o.files))
      × All (λ x. x.size_bytes ≤ setup.config.max_file_bytes) o.files
      × Distinct a.seen_paths
unfolding handshake
handshake-bounds setup h o n a e =
    let (count, e1, f1) = >>=-eq-ok (check_hello setup.config (hello h)) _ e in
    let (found, e2, f2) = >>=-eq-ok (accept_entries setup o o.files nothing_yet) _ f1 in
    let same = ok_inj f2 in
    let (ids, total, small, distinct) =
      accept_entries-Adds setup o o.files nothing_yet found e2 tt in
    rw (← ap (λ t. t.0) same, ← ap (λ t. t.1) same)
      (check_hello-within setup.config h e1, ids, omega (arith, total), small, distinct)
