-- ===== src/Core/Progress/Spacing.antt =====
-- The throttle keeps its rate, and drops no final update.
use speeed.Base.{
  ℕ, ◌+◌, ◌≤◌, ◌<◌, ◌≡◌, ◌⊎◌, refl, sym, ap, ◌∙◌, inl, inr, Bool, true, false, ◌==◌, if◌then◌else◌,
  Bool-cases, List, [], ◌∷◌, arith,
}
use speeed.Core.Progress.{Throttled, Call, never, is_final, too_early, on_progress, delivered}

-- Of the updates that are not final, each comes at least an interval after the one before it, where
-- `last` is the time of the one before the first.
abbrev pub Spaced : ℕ → ℕ → List Call → Type 0
Spaced interval last [] = Unit
Spaced interval last (c ∷ cs) =
    let later = Spaced interval last cs in
    let timed = ((last ≡ never) ⊎ (last + interval ≤ c.now)) × Spaced interval c.now cs in
    if is_final c then later else timed

-- The final updates of a sequence.
abbrev pub finals : List Call → List Call
finals [] = []
finals (c ∷ cs) = let rest = finals cs in if is_final c then c ∷ rest else rest

-- What one call does, by what it finds.
data Outcome (t : Throttled) (c : Call) : Type 0 where
  final_call : is_final c ≡ true → on_progress t c ≡ (t, true) → Outcome t c
  dropped : is_final c ≡ false → on_progress t c ≡ (t, false) → Outcome t c
  emitted :
      is_final c ≡ false
      → ((t.last_emit_micros ≡ never) ⊎ (t.last_emit_micros + t.interval ≤ c.now))
      → on_progress t c ≡ (record t { last_emit_micros = c.now }, true)
      → Outcome t c

on_progress-Outcome : (t : Throttled) (c : Call) → 0 < t.interval → Outcome t c
unfolding on_progress
on_progress-Outcome t c h = elim (Bool-cases (is_final c)) [
  | inl last ↦ final_call last (rw last refl)
  | inr going ↦ elim (Bool-cases (too_early t c)) [
    | inl early ↦ dropped going (rw (going, early) refl)
    | inr due ↦ elim (Bool-cases (t.last_emit_micros == c.last)) [
      | inr lost ↦ dropped going (rw (going, due, lost) refl)
      | inl won ↦ emitted going (ground arith) (rw (going, due, won) refl)
    ]
  ]
]

Spaced-final :
    (i last : ℕ) (c : Call) (cs : List Call)
    → is_final c ≡ true
    → Spaced i last cs
    → Spaced i last (c ∷ cs)
Spaced-final i last c cs e s = rw e s

Spaced-timed :
    (i last : ℕ) (c : Call) (cs : List Call)
    → is_final c ≡ false
    → ((last ≡ never) ⊎ (last + i ≤ c.now))
    → Spaced i c.now cs
    → Spaced i last (c ∷ cs)
Spaced-timed i last c cs e a s = rw e (a, s)

finals-final :
    (c : Call) (cs ds : List Call)
    → is_final c ≡ true
    → finals cs ≡ finals ds
    → finals (c ∷ cs) ≡ finals (c ∷ ds)
finals-final c cs ds e s = rw e (ap (λ r. c ∷ r) s)

finals-other : (c : Call) (cs : List Call) → is_final c ≡ false → finals (c ∷ cs) ≡ finals cs
finals-other c cs e = rw e refl

delivered_step :
    (t t' : Throttled) (c : Call) (cs : List Call) (emit : Bool)
    → on_progress t c ≡ (t', emit)
    → delivered t (c ∷ cs) ≡ (if emit then c ∷ delivered t' cs else delivered t' cs)
unfolding delivered
delivered_step t t' c cs emit e = ap (λ o. if o.1 then c ∷ delivered o.0 cs else delivered o.0 cs) e

-- With an interval that is not zero, whatever the calls have loaded and in whichever order their
-- exchanges happen: of the updates delivered that are not final, each comes at least an interval after
-- the one before it (the first after `last_emit_micros`, unless that is `never`), and all final
-- updates are delivered, in their order.
pub delivered-Spaced :
    (t : Throttled) (calls : List Call)
    → 0 < t.interval
    → Spaced t.interval t.last_emit_micros (delivered t calls)
      × (finals (delivered t calls) ≡ finals calls)
unfolding delivered
delivered-Spaced t [] h = (tt, refl)
delivered-Spaced t (c ∷ cs) h = elim (on_progress-Outcome t c h) [
  | final_call last e ↦
      let (spaced, all) = delivered-Spaced t cs h in
      rw (delivered_step t t c cs true e) (
        Spaced-final _ _ c (delivered t cs) last spaced,
        finals-final c (delivered t cs) cs last all,
      )
  | dropped going e ↦
      let (spaced, all) = delivered-Spaced t cs h in
      rw (delivered_step t t c cs false e) (spaced, all ∙ sym (finals-other c cs going))
  | emitted going apart e ↦
      let t' : Throttled = record t { last_emit_micros = c.now } in
      let (spaced, all) = delivered-Spaced t' cs h in
      rw (delivered_step t t' c cs true e) (
        Spaced-timed _ _ c (delivered t' cs) going apart spaced,
        finals-other c (delivered t' cs) going ∙ all ∙ sym (finals-other c cs going),
      )
]
