-- ===== src/Core/Delivery/Holds.antt =====
-- The receiver holds a file for each entry of the offer, from the offer to the end of the transfer.
use speeed.Base.{
  ℕ, ◌≡◌, refl, ap, inl, inr, ◌==◌, ==_iff, Bool-cases, some, List, [], ◌∷◌, ok, ok_inj, >>=-eq-ok,
  map_err,
}
use speeed.Proto.Bitmap
use speeed.Proto.Errors.{add_u64, mul_u64}
use speeed.Core.Control.{FileEntry, ManifestOffer}
use speeed.Core.Recv.{FileState, get_state}
use speeed.Core.Offer.{
  Setup, Accepting, quiet, insert, prepare, check_entry, accept_entry, accept_entries,
}
use speeed.Core.Offer.Promises.{IsIn}
use speeed.Core.Transfer.{finished, complete_files}

-- There is a state under this id.
abbrev pub Holds : List (ℕ × FileState) → ℕ → Type 0
Holds files k = (st : FileState) × (get_state files k ≡ some st)

insert-Holds_self :
    (files : List (ℕ × FileState)) (j : ℕ) (st : FileState) → Holds (insert files j st) j
unfolding get_state
insert-Holds_self [] j st = (st, rw ((==_iff j j).1 refl) refl)
insert-Holds_self ((i, own) ∷ files) j st = elim (Bool-cases (i == j)) [
  | inl here ↦ rw (here, here) (st, refl)
  | inr there ↦ rw (there, there) (insert-Holds_self files j st)
]

insert-Holds :
    (files : List (ℕ × FileState)) (j k : ℕ) (st : FileState)
    → Holds files k
    → Holds (insert files j st) k
unfolding get_state
insert-Holds [] j k st (old, e) = cc
insert-Holds ((i, own) ∷ files) j k st (old, e) = elim (Bool-cases (i == j)) [
  | inl here ↦ elim (Bool-cases (i == k)) [
    | inl mine ↦ rw (here, mine) (st, refl)
    | inr other ↦ rw (here, other) (old, rw other at e)
  ]
  | inr there ↦ elim (Bool-cases (i == k)) [
    | inl mine ↦ rw (there, mine) (own, refl)
    | inr other ↦ rw (there, other) (insert-Holds files j k st (old, rw other at e))
  ]
]

module _ (setup : Setup) (o : ManifestOffer) where
  accept_entry-Holds :
      (entry : FileEntry) (a a' : Accepting)
      → accept_entry setup o entry a ≡ ok a'
      → Holds a'.files entry.file_id × ((k : ℕ) → Holds a.files k → Holds a'.files k)
  unfolding accept_entry
  accept_entry-Holds entry a a' e =
      let ((path, layout, hashes), _, f1) =
        >>=-eq-ok (check_entry setup o entry a.seen_paths) _ e in
      let (st, _, f2) = >>=-eq-ok (map_err quiet (prepare setup o entry path layout hashes)) _ f1 in
      let (there, _, f3) = >>=-eq-ok (mul_u64 st.bitmap.set_count o.chunk_size) _ f2 in
      let (resumed, _, f4) = >>=-eq-ok (add_u64 a.resumed_bytes there) _ f3 in
      let (total, _, f5) = >>=-eq-ok (add_u64 a.total_bytes entry.size_bytes) _ f4 in
      let files : insert a.files entry.file_id st ≡ a'.files = ap (λ t. t.files) (ok_inj f5) in
      rw (← files) (
        insert-Holds_self a.files entry.file_id st,
        λ k h. insert-Holds a.files entry.file_id k st h,
      )

  -- Every entry that was accepted has a state.
  pub accept_entries-Holds :
      (entries : List FileEntry) (a a' : Accepting)
      → accept_entries setup o entries a ≡ ok a'
      → ((entry : FileEntry) → IsIn entry entries → Holds a'.files entry.file_id)
        × ((k : ℕ) → Holds a.files k → Holds a'.files k)
  unfolding accept_entries
  accept_entries-Holds [] a a' e = (λ entry is. absurd is, λ k h. rw (← ok_inj e) h)
  accept_entries-Holds (first ∷ entries) a a' e =
      let (a1, e1, f1) = >>=-eq-ok (accept_entry setup o first a) _ e in
      let (mine, kept) = accept_entry-Holds first a a1 e1 in
      let (rest, later) = accept_entries-Holds entries a1 a' f1 in
      (
        λ entry is. elim is [
          | inl here ↦ rw (← here) (later first.file_id mine)
          | inr there ↦ rest entry there
        ],
        λ k h. later k (kept k h),
      )

-- The end of the transfer drops no file.
pub complete_files-Holds :
    (files : List (ℕ × FileState)) (k : ℕ)
    → (complete_files files).1 ≡ ok tt
    → Holds files k
    → Holds (complete_files files).0 k
unfolding complete_files get_state
complete_files-Holds [] k e h = h
complete_files-Holds ((j, st) ∷ files) k e (old, at) =
    elim (Bool-cases (Bitmap.is_complete st.bitmap)) [
      | inl done ↦ elim (Bool-cases (j == k)) [
        | inl here ↦ rw (done, here) (finished st, refl)
        | inr there ↦
            rw (done, there) (complete_files-Holds files k (rw done at e) (old, rw there at at))
      ]
      | inr missing ↦ cc (rw missing at e)
    ]
