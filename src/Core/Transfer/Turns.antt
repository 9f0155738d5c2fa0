-- ===== src/Core/Transfer/Turns.antt =====
-- Whatever the schedule, every turn keeps the states of the files valid.
use speeed.Base.{
  ℕ, zero, suc, ◌≡◌, ◌∙◌, refl, inl, inr, ltb, Bool-cases, Option, none, some, List, [], ◌∷◌,
  length, All, Result, Result-cases,
}
use speeed.Base.Bytes.{Bytes}
use speeed.Proto.Chunk.{ChunkLayout}
use speeed.Proto.Hashes.{Hash}
use speeed.Proto.Frame.{header_len}
use speeed.Core.Errors.{CoreError}
use speeed.Core.Recv.{FileState, World, Stream, Session, take_frame}
use speeed.Core.Recv.Preserved.{AllValid, SameLayouts}
use speeed.Core.Recv.Frames.{Opens, Opens-SameLayouts, SameLayouts-refl}
use speeed.Core.Recv.Streams.{take_frame-Kept}
use speeed.Core.Recv.Unchanged.{Committed, take_frame-Committed}
use speeed.Core.Transfer.{Worker, after_frame, round, unless_ended, advance, turn, run_schedule}

-- What every turn keeps, for a property of what was offered.
pub record Steady (P : ℕ → ChunkLayout → List Hash → Type 0) (blake3 : Bytes → Hash) (w : World)
    (workers : List Worker) : Type 0 where
  pub valid : AllValid blake3 w.files
  pub committed : Committed P w.files
  pub opens : All (λ x. Opens w.files x.stream) workers

module _ (P : ℕ → ChunkLayout → List Hash → Type 0) (session : Session) where
  -- What a turn of one worker leaves to all.
  record Turned (w w' : World) (x' : Worker) : Type 0 where
    pub valid : AllValid session.blake3 w'.files
    pub committed : Committed P w'.files
    pub layouts : SameLayouts w.files w'.files
    pub opens : Opens w'.files x'.stream

  -- An ended worker, or one that ends in this turn.
  stays :
      (w : World) (x : Worker) (s : Stream)
      → AllValid session.blake3 w.files
      → Committed P w.files
      → Opens w.files s
      → x.stream ≡ s
      → Turned w w x
  stays w x s v c o same = record {
    valid = v;
    committed = c;
    layouts = SameLayouts-refl w.files;
    opens = rw same o;
  }

  after_frame-Turned :
      (w : World) (x : Worker)
      → AllValid session.blake3 w.files
      → Committed P w.files
      → Opens w.files x.stream
      → let t = after_frame (take_frame session w x.stream x.input) w x in Turned w t.0 t.1
  after_frame-Turned w x v c o = elim (Result-cases (take_frame session w x.stream x.input)) [
    | inl ((w', s', rest), e) ↦
        let k = take_frame-Kept session w w' x.stream s' x.input rest v o e in
        let c' = take_frame-Committed P session w w' x.stream s' x.input rest c e in
        let t : Turned w w' (record { stream = s'; input = rest; outcome = none }) = record {
          valid = k.valid;
          committed = c';
          layouts = k.layouts;
          opens = k.opens;
        } in
        rw e t
    | inr (inl (y, e)) ↦ rw e (stays w _ x.stream v c o refl)
    | inr (inr e) ↦ rw e (stays w _ x.stream v c o refl)
  ]

  round-Turned :
      (w : World) (x : Worker)
      → AllValid session.blake3 w.files
      → Committed P w.files
      → Opens w.files x.stream
      → Turned w (round session w x).0 (round session w x).1
  unfolding round
  round-Turned w x v c o = elim (Bool-cases (ltb (length x.input) header_len)) [
    | inl over ↦ rw over (stays w _ x.stream v c o refl)
    | inr more ↦ rw more (after_frame-Turned w x v c o)
  ]

  advance-Turned :
      (w : World) (x : Worker)
      → AllValid session.blake3 w.files
      → Committed P w.files
      → Opens w.files x.stream
      → Turned w (advance session w x).0 (advance session w x).1
  unfolding advance
  advance-Turned w x v c o = unless (x.outcome)
    where
      unless :
          (outcome : Option (Result CoreError (Unit {0})))
          → let t = unless_ended outcome (w, x) (round session w x) in Turned w t.0 t.1
      unless none = round-Turned w x v c o
      unless (some r) = stays w x x.stream v c o refl

  others :
      (files files' : List (ℕ × FileState)) (xs : List Worker)
      → SameLayouts files files'
      → All (λ x. Opens files x.stream) xs
      → All (λ x. Opens files' x.stream) xs
  others files files' [] same a = tt
  others files files' (x ∷ xs) same a =
      (Opens-SameLayouts files files' x.stream same a.0, others files files' xs same a.1)

  turn-Steady :
      (w : World) (workers : List Worker) (i : ℕ)
      → Steady P session.blake3 w workers
      → let t = turn session w workers i in
        Steady P session.blake3 t.0 t.1 × SameLayouts w.files t.0.files
  unfolding turn
  turn-Steady w [] i s = (s, SameLayouts-refl w.files)
  turn-Steady w (x ∷ xs) zero s =
      let t = advance-Turned w x s.valid s.committed s.opens.0 in
      (
        record {
          valid = t.valid;
          committed = t.committed;
          opens = (t.opens, others w.files _ xs t.layouts s.opens.1);
        },
        t.layouts,
      )
  turn-Steady w (x ∷ xs) (suc i) s =
      let (t, same) =
        turn-Steady w xs i
          (record { valid = s.valid; committed = s.committed; opens = s.opens.1 }) in
      (
        record {
          valid = t.valid;
          committed = t.committed;
          opens = (Opens-SameLayouts w.files _ x.stream same s.opens.0, t.opens);
        },
        same,
      )

  pub run_schedule-Steady :
      (w : World) (workers : List Worker) (schedule : List ℕ)
      → Steady P session.blake3 w workers
      → let t = run_schedule session w workers schedule in Steady P session.blake3 t.0 t.1
  unfolding run_schedule
  run_schedule-Steady w workers [] s = s
  run_schedule-Steady w workers (i ∷ is) s =
      run_schedule-Steady (turn session w workers i).0 (turn session w workers i).1 is
        (turn-Steady w workers i s).0

  pub run_schedule-SameLayouts :
      (w : World) (workers : List Worker) (schedule : List ℕ)
      → Steady P session.blake3 w workers
      → SameLayouts w.files (run_schedule session w workers schedule).0.files
  unfolding run_schedule
  run_schedule-SameLayouts w workers [] s = SameLayouts-refl w.files
  run_schedule-SameLayouts w workers (i ∷ is) s =
      let (t, same) = turn-Steady w workers i s in
      let next =
        run_schedule-SameLayouts (turn session w workers i).0 (turn session w workers i).1 is t in
      λ k st e.
        let (st', e', eq) = same k st e in
        let (st'', e'', eq') = next k st' e' in (st'', e'', eq' ∙ eq)
