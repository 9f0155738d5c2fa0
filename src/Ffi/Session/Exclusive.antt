-- ===== src/Ffi/Session/Exclusive.antt =====
-- As long as nothing is cancelled, one transfer runs at a time.
use speeed.Base.{
  ℕ, suc, ◌+◌, ◌≡◌, refl, sym, ap, ◌∙◌, ◌⊎◌, inl, inr, Bool, true, false, ◌==◌, Bool-cases,
  Option-cases, ◌||◌, length-append, Option, none, some, List, [], ◌∷◌, length, arith,
}
use speeed.Ffi.Session.{
  EngineSession, Task, Outcome, Event, host_receiving, host_sending, client_sending,
  client_receiving, cancels, settles, reports, stats, failure, settle, take_settled, with_rest,
  keep, report, reported, outcome_of, step, run,
}
use speeed.Ffi.Session.Starts.{
  Started, refused, spawned, start_host_receiving-Started, start_host_sending-Started,
  start_client_sending-Started, start_client_receiving-Started,
}

-- No task is alive, or one is and the session is marked as running.
abbrev pub Exclusive : EngineSession → Type 0
Exclusive e = (length e.tasks ≡ 0) ⊎ ((length e.tasks ≡ 1) × (e.running ≡ true))

abbrev pub is_cancel : Event → Bool
is_cancel cancels = true
is_cancel _ = false

abbrev pub has_cancel : List Event → Bool
has_cancel [] = false
has_cancel (x ∷ xs) = is_cancel x || has_cancel xs

Started-Exclusive : {e e' : EngineSession} → Started e e' → Exclusive e → Exclusive e'
Started-Exclusive (refused tasks _ _ up) (inl empty) = inl (ap length tasks ∙ empty)
Started-Exclusive (refused tasks _ _ up) (inr (one, r)) = inr (ap length tasks ∙ one, up r)
Started-Exclusive {e} (spawned s idle r tasks _ _) (inl empty) =
    inr (ap length tasks ∙ length-append e.tasks _ ∙ ap (λ n. n + 1) empty ∙ refl, r)
Started-Exclusive (spawned s idle r tasks _ _) (inr (one, busy)) = cc (idle, busy)

pub length-settle : (id : ℕ) (o : Outcome) (ts : List Task) → length (settle id o ts) ≡ length ts
unfolding settle
length-settle id o [] = refl
length-settle id o (t ∷ ts) = elim (Bool-cases (t.id == id)) [
  | inl own ↦ rw own refl
  | inr other ↦ rw other (ap suc (length-settle id o ts))
]

with_rest_length :
    (ts : List Task) (o : Option Outcome) {x : Outcome} {rest : List Task}
    → with_rest ts o ≡ some (x, rest)
    → length rest ≡ length ts
with_rest_length ts none e = cc
with_rest_length ts (some o) e = cc

keep_length :
    (t : Task) (found : Option (Outcome × List Task)) {x : Outcome} {rest : List Task}
    → keep t found ≡ some (x, rest)
    → (more : List Task) × (found ≡ some (x, more)) × (rest ≡ t ∷ more)
keep_length t none e = cc
keep_length t (some (o, ts)) e = (ts, cc, cc)

-- The task that reports is no longer among the others.
pub take_settled_length :
    (id : ℕ) (ts : List Task) {x : Outcome} {rest : List Task}
    → take_settled id ts ≡ some (x, rest)
    → length ts ≡ suc (length rest)
unfolding take_settled
take_settled_length id [] e = cc
take_settled_length id (t ∷ ts) e = elim (Bool-cases (t.id == id)) [
  | inl own ↦ ap suc (sym (with_rest_length ts (outcome_of t.phase) (rw own at e)))
  | inr other ↦
      let (more, found, same) = keep_length t (take_settled id ts) (rw other at e) in
      ap suc (take_settled_length id ts found ∙ ap length (sym same))
]

pub report_tasks : (o : Outcome) (e : EngineSession) → (report o e).tasks ≡ e.tasks
report_tasks (stats bytes) e = refl
report_tasks failure e = refl

reported-Exclusive :
    (id : ℕ) (e : EngineSession) → Exclusive e → Exclusive (reported e (take_settled id e.tasks))
reported-Exclusive id e v = elim (Option-cases (take_settled id e.tasks)) [
  | inl nothing ↦ rw nothing v
  | inr ((x, rest), found) ↦
      let shorter = take_settled_length id e.tasks found in
      let empty : length rest ≡ 0 = elim v [
        | inl zero_tasks ↦ absurd (omega arith)
        | inr (one, _) ↦ omega arith
      ] in
      rw found (inl (ap length (report_tasks x (record e { tasks = rest })) ∙ empty))
]

step-Exclusive :
    (e : EngineSession) (x : Event) → is_cancel x ≡ false → Exclusive e → Exclusive (step e x)
unfolding step
step-Exclusive e (host_receiving b) h v = Started-Exclusive (start_host_receiving-Started b e) v
step-Exclusive e (host_sending b) h v = Started-Exclusive (start_host_sending-Started b e) v
step-Exclusive e (client_sending hex) h v = Started-Exclusive (start_client_sending-Started hex e) v
step-Exclusive e (client_receiving hex) h v =
    Started-Exclusive (start_client_receiving-Started hex e) v
step-Exclusive e cancels h v = cc
step-Exclusive e (settles id o) h v = rw (length-settle id o e.tasks) v
step-Exclusive e (reports id) h v = reported-Exclusive id e v

-- From a session with at most one task, and that one marked as running, every sequence of calls and
-- of what the tasks do in which nothing is cancelled leads to such a session: no two transfers run
-- at once, and none runs in a session that would accept another.
pub run-Exclusive :
    (e : EngineSession) (events : List Event)
    → has_cancel events ≡ false
    → Exclusive e
    → Exclusive (run e events)
unfolding run
run-Exclusive e [] h v = v
run-Exclusive e (x ∷ xs) h v =
    run-Exclusive (step e x) xs (ground arith) (step-Exclusive e x (ground arith) v)
