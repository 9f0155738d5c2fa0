-- ===== src/Core/Recv/Unchanged.antt =====
-- A frame changes neither what was offered for a file nor the layout that was cut for it.
use speeed.Base.{
  ℕ, ◌≡◌, refl, sym, ap, ◌∙◌, inl, inr, Bool, ltb, ◌==◌, Bool-cases, some, List, [], ◌∷◌, ◌++◌,
  length, get_elem?, All, ok, >>=-eq-ok, ok_inj, map_err, ok_or, ok_or-eq-ok, or_panic, take, drop,
}
use speeed.Base.Bytes.{Bytes}
use speeed.Proto.Errors.{add_u64}
use speeed.Proto.Chunk.{ChunkLayout}
use speeed.Proto.Hashes.{Hash}
use speeed.Proto.Bitmap
use speeed.Proto.Frame.{
  FrameHeader, MsgType, control, file_data, file_end, keepalive, decode, header_len,
}
use speeed.Core.Errors.{wire, protocol, unknown_file_id}
use speeed.Core.Sink.{verify_and_write}
use speeed.Core.Recv.{
  FileState, World, Stream, Session, Current, get_state, put_state, checkpoint, checkpoint_if_due,
  open_chunk, check_frame, read_payload, finish_chunk, on_data, on_frame, take_frame,
}
use speeed.Core.Recv.Frames.{check_frame-own}

abbrev pub SameOffer : FileState → FileState → Type 0
SameOffer st st' = (st'.layout ≡ st.layout) × (st'.chunk_hashes ≡ st.chunk_hashes)

-- A property of what was offered under each id.
abbrev pub Committed : (ℕ → ChunkLayout → List Hash → Type 0) → List (ℕ × FileState) → Type 0
Committed P files = All (λ f. P f.0 f.1.layout f.1.chunk_hashes) files

pub checkpoint-SameOffer : (st : FileState) → SameOffer st (checkpoint st)
unfolding checkpoint
checkpoint-SameOffer st = elim (Bool-cases (st.bitmap.set_count == 0)) [
  | inl none_set ↦ rw none_set (refl, refl)
  | inr some_set ↦ rw some_set (refl, refl)
]

checkpoint_if_due-SameOffer :
    (free : Bool) (st : FileState) {st' : FileState} (added threshold : ℕ)
    → checkpoint_if_due free st added threshold ≡ ok st'
    → SameOffer st st'
unfolding checkpoint_if_due
checkpoint_if_due-SameOffer free st {st'} added threshold e = elim (Bool-cases (threshold == 0)) [
  | inl off ↦ rw (← ok_inj (rw off at e)) (refl, refl)
  | inr on ↦
      let (total, _, e2) = >>=-eq-ok (add_u64 st.since_checkpoint added) _ (rw on at e) in
      elim (Bool-cases (ltb total threshold)) [
        | inl early ↦ rw (← ok_inj (rw early at e2)) (refl, refl)
        | inr due ↦ elim (Bool-cases free) [
          | inl taken ↦
              rw (← ok_inj (rw (due, taken) at e2))
                (checkpoint-SameOffer (record st { since_checkpoint = 0 }))
          | inr lost ↦ rw (← ok_inj (rw (due, lost) at e2)) (refl, refl)
        ]
      ]
]

module _ (P : ℕ → ChunkLayout → List Hash → Type 0) where
  put_state-Committed :
      (files : List (ℕ × FileState)) (k : ℕ) (st st' : FileState)
      → Committed P files
      → get_state files k ≡ some st
      → SameOffer st st'
      → Committed P (put_state files k st')
  unfolding get_state put_state
  put_state-Committed [] k st st' c e same = tt
  put_state-Committed ((j, old) ∷ files) k st st' c e same = elim (Bool-cases (j == k)) [
    | inl here ↦
        let mine : old ≡ st = cc (rw here at e) in
        let layout : old.layout ≡ st'.layout = ap (λ s. s.layout) mine ∙ sym same.0 in
        let hashes : old.chunk_hashes ≡ st'.chunk_hashes =
          ap (λ s. s.chunk_hashes) mine ∙ sym same.1 in
        let kept : P j st'.layout st'.chunk_hashes = rw (← layout, ← hashes) c.0 in
        rw here (kept, c.1)
    | inr there ↦ rw there (c.0, put_state-Committed files k st st' c.1 (rw there at e) same)
  ]

  finish_chunk-Committed :
      (session : Session) (w w' : World) (s' : Stream) (st : FileState) (c : Current)
      (payload : Bytes)
      → Committed P w.files
      → get_state w.files c.file_id ≡ some st
      → finish_chunk session w st c payload ≡ ok (w', s')
      → Committed P w'.files
  unfolding finish_chunk
  finish_chunk-Committed session w w' s' st c payload p at e =
      let (expected, _, f1) = >>=-eq-ok (or_panic (get_elem? st.chunk_hashes c.chunk_index)) _ e in
      let (content, _, f2) =
        >>=-eq-ok (verify_and_write session.blake3 st.content c.start payload expected) _ f1 in
      let (bitmap, _, f3) = >>=-eq-ok (map_err wire (Bitmap.set st.bitmap c.chunk_index)) _ f2 in
      let (done, _, f4) = >>=-eq-ok (add_u64 w.counter c.expected_len) _ f3 in
      let stored : FileState = record st { content = content; bitmap = bitmap } in
      let (st', e5, f5) =
        >>=-eq-ok
          (checkpoint_if_due (session.free w) stored c.expected_len session.checkpoint_bytes) _
          f4 in
      let same = checkpoint_if_due-SameOffer (session.free w) stored _ _ e5 in
      rw (← ap (λ t. t.0.files) (ok_inj f5))
        (put_state-Committed w.files c.file_id st st' p at same)

  on_data-Committed :
      (session : Session) (w w' : World) (s s' : Stream) (h : FrameHeader) (input : Bytes)
      → Committed P w.files
      → on_data session w s h input ≡ ok (w', s')
      → Committed P w'.files
  unfolding on_data
  on_data-Committed session w w' s s' h input p e =
      let (st, e1, f1) =
        >>=-eq-ok (ok_or (get_state w.files h.file_id) (protocol (unknown_file_id h.file_id))) _
          e in
      let at = ok_or-eq-ok (get_state w.files h.file_id) _ e1 in
      let ((c, buf), _, f2) = >>=-eq-ok (open_chunk st h s) _ f1 in
      let (_, e3, f3) = >>=-eq-ok (check_frame c buf h) _ f2 in
      let (payload, _, f4) = >>=-eq-ok (read_payload h input) _ f3 in
      let own : get_state w.files c.file_id ≡ some st =
        ap (get_state w.files) (sym (check_frame-own c buf h e3)) ∙ at in
      elim (Bool-cases (length (buf ++ payload) == c.expected_len)) [
        | inl whole ↦
            finish_chunk-Committed session w w' s' st c (buf ++ payload) p own (rw whole at f4)
        | inr part ↦ rw (← ap (λ t. t.0.files) (ok_inj (rw part at f4))) p
      ]

  on_message-Committed :
      (session : Session) (w w' : World) (s s' : Stream) (h : FrameHeader) (input : Bytes)
      (m : MsgType)
      → Committed P w.files
      → on_frame session w s (record h { msg_type = m }) input ≡ ok (w', s')
      → Committed P w'.files
  unfolding on_frame
  on_message-Committed session w w' s s' h input file_data p e =
      on_data-Committed session w w' s s' (record h { msg_type = file_data }) input p e
  on_message-Committed session w w' s s' h input keepalive p e =
      rw (← ap (λ t. t.0.files) (ok_inj e)) p
  on_message-Committed session w w' s s' h input control p e = cc
  on_message-Committed session w w' s s' h input file_end p e = cc

  -- What was offered stays as it was, whatever frame is taken.
  pub take_frame-Committed :
      (session : Session) (w w' : World) (s s' : Stream) (input rest : Bytes)
      → Committed P w.files
      → take_frame session w s input ≡ ok (w', s', rest)
      → Committed P w'.files
  unfolding take_frame
  take_frame-Committed session w w' s s' input rest p e =
      let (h, _, f1) = >>=-eq-ok (map_err wire (decode (take header_len input))) _ e in
      let ((w1, s1), e2, f2) = >>=-eq-ok (on_frame session w s h (drop header_len input)) _ f1 in
      let files : w1.files ≡ w'.files = ap (λ t. t.0.files) (ok_inj f2) in
      rw (← files)
        (on_message-Committed session w w1 s s1 h (drop header_len input) h.msg_type p e2)
