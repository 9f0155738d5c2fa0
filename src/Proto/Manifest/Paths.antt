-- ===== src/Proto/Manifest/Paths.antt =====
-- What a path that passed the gate looks like, and where it leads.
use speeed.Base.{
  ℕ, ◌≤◌, ◌≡◌, refl, sym, ap, ◌∙◌, inl, inr, false, ltb, ◌==◌, if◌then◌else◌, Bool-cases, List, [],
  ◌∷◌, ◌++◌, length, get_last?, All, arith, ok, >>=-eq-ok, ok_inj, refuse_if, refuse_if-eq-ok,
}
use speeed.Base.Bytes.{Bytes, bytes_eq}
use speeed.Proto.Manifest.{
  sanitize_relative_path, check_raw, collect, check_component, is_skipped, is_reserved_device_name,
  dot_dot, split, join, push_front, has_byte, max_component_len, ends_badly,
}

-- A name that a file or a directory may have: neither empty nor a dot nor two dots, without a
-- separator, at most 255 bytes, no dot and no space at its end, and not reserved.
pub record IsComponent (c : Bytes) : Type 0 where
  pub kept : is_skipped c ≡ false
  pub down : bytes_eq c dot_dot ≡ false
  pub whole : has_byte b'/' c ≡ false
  pub short : length c ≤ max_component_len
  pub ending : ends_badly (get_last? c) ≡ false
  pub free : is_reserved_device_name c ≡ false

abbrev pub HasNoSlash : Bytes → Type 0
HasNoSlash c = has_byte b'/' c ≡ false

-- The directory, its innermost name first, that one piece of a path leads to: as a file system reads
-- it, where the parent of the root is the root.
abbrev pub parent : List Bytes → List Bytes
parent [] = []
parent (c ∷ at) = at

abbrev pub enter : List Bytes → Bytes → List Bytes
enter at c = if is_skipped c then at else if bytes_eq c dot_dot then parent at else c ∷ at

unfoldable pub walk : List Bytes → List Bytes → List Bytes
walk at [] = at
walk at (c ∷ cs) = walk (enter at c) cs

-- One directory further down for each name.
unfoldable pub descend : List Bytes → List Bytes → List Bytes
descend at [] = at
descend at (c ∷ cs) = descend (c ∷ at) cs

push_front-HasNoSlash :
    (c : ℕ) (ps : List Bytes)
    → (c == b'/') ≡ false
    → All HasNoSlash ps
    → All HasNoSlash (push_front c ps)
unfolding has_byte
push_front-HasNoSlash c [] h a = (ground arith, tt)
push_front-HasNoSlash c (p ∷ ps) h a = (ground (arith, a.0), a.1)

split-HasNoSlash : (s : Bytes) → All HasNoSlash (split s)
unfolding split has_byte
split-HasNoSlash [] = (refl, tt)
split-HasNoSlash (c ∷ cs) = elim (Bool-cases (c == b'/')) [
  | inl slash ↦ rw slash (refl, split-HasNoSlash cs)
  | inr other ↦ rw other (push_front-HasNoSlash c (split cs) other (split-HasNoSlash cs))
]

split-end : (p : Bytes) → HasNoSlash p → split p ≡ p ∷ []
unfolding split has_byte
split-end [] h = refl
split-end (c ∷ cs) h = elim (Bool-cases (c == b'/')) [
  | inl slash ↦ cc (rw slash at h)
  | inr other ↦ rw other (ap (push_front c) (split-end cs (rw other at h)))
]

split-append : (p s : Bytes) → HasNoSlash p → split (p ++ b'/' ∷ s) ≡ p ∷ split s
unfolding split has_byte
split-append [] s h = refl
split-append (c ∷ cs) s h = elim (Bool-cases (c == b'/')) [
  | inl slash ↦ cc (rw slash at h)
  | inr other ↦ rw other (ap (push_front c) (split-append cs s (rw other at h)))
]

-- `split` takes apart what `join` puts together.
split-join :
    (p : Bytes) (ps : List Bytes) → All HasNoSlash (p ∷ ps) → split (join (p ∷ ps)) ≡ p ∷ ps
unfolding join
split-join p [] a = split-end p a.0
split-join p (q ∷ ps) a = split-append p _ a.0 ∙ ap (λ t. p ∷ t) (split-join q ps a.1)

check_component-IsComponent :
    (raw c : Bytes) {u : Unit {0}}
    → is_skipped c ≡ false
    → bytes_eq c dot_dot ≡ false
    → HasNoSlash c
    → check_component raw c ≡ ok u
    → IsComponent c
unfolding check_component
check_component-IsComponent raw c kept down whole e =
    let (_, e1, f1) = >>=-eq-ok _ _ e in
    let (_, e2, e3) = >>=-eq-ok _ _ f1 in
    record {
      kept = kept;
      down = down;
      whole = whole;
      short = ground (arith, refuse_if-eq-ok (ltb max_component_len (length c)) _ e1);
      ending = refuse_if-eq-ok _ _ e2;
      free = refuse_if-eq-ok _ _ e3;
    }

-- The parts that the loop keeps are names, and lead where the pieces lead.
collect-lem :
    (raw : Bytes) (cs : List Bytes) {ps : List Bytes}
    → All HasNoSlash cs
    → collect raw cs ≡ ok ps
    → All IsComponent ps × ((at : List Bytes) → walk at cs ≡ walk at ps)
unfolding collect walk
collect-lem raw [] a e = rw (← ok_inj e) (tt, λ at. refl)
collect-lem raw (c ∷ cs) a e = elim (Bool-cases (is_skipped c)) [
  | inl skipped ↦
      let (names, same) = collect-lem raw cs a.1 (rw skipped at e) in
      (names, λ at. rw skipped (same at))
  | inr kept ↦ elim (Bool-cases (bytes_eq c dot_dot)) [
    | inl up ↦ cc (rw (kept, up) at e)
    | inr down ↦
        let (_, passed, rest) = >>=-eq-ok (check_component raw c) _ (rw (kept, down) at e) in
        let (parts, found, all) = >>=-eq-ok (collect raw cs) _ rest in
        let (names, same) = collect-lem raw cs a.1 found in
        let here = check_component-IsComponent raw c kept down a.0 passed in
        rw (← ok_inj all) ((here, names), λ at. same (enter at c))
  ]
]

walk-descend : (at ps : List Bytes) → All IsComponent ps → walk at ps ≡ descend at ps
unfolding walk descend
walk-descend at [] a = refl
walk-descend at (p ∷ ps) a = rw (a.0.kept, a.0.down) (walk-descend (p ∷ at) ps a.1)

names-HasNoSlash : (ps : List Bytes) → All IsComponent ps → All HasNoSlash ps
names-HasNoSlash [] a = tt
names-HasNoSlash (p ∷ ps) a = (a.0.whole, names-HasNoSlash ps a.1)

-- The parts of a path that passed.
pub record Passed (raw path : Bytes) : Type 0 where
  pub parts : List Bytes
  pub gate : check_raw raw ≡ ok tt
  pub found : collect raw (split raw) ≡ ok parts
  pub joined : path ≡ join parts
  pub pieces : split path ≡ parts
  pub names : All IsComponent parts

pieces_of : (ps : List Bytes) → All IsComponent ps → (length ps == 0) ≡ false → split (join ps) ≡ ps
pieces_of [] a h = cc
pieces_of (p ∷ ps) a h = split-join p ps (names-HasNoSlash (p ∷ ps) a)

pub sanitize-Passed :
    (raw : Bytes) {path : Bytes} → sanitize_relative_path raw ≡ ok path → Passed raw path
unfolding sanitize_relative_path
sanitize-Passed raw {path} e =
    let (_, gate, f1) = >>=-eq-ok (check_raw raw) _ e in
    let (parts, found, f2) = >>=-eq-ok (collect raw (split raw)) _ f1 in
    let (_, some_part, f3) = >>=-eq-ok (refuse_if (length parts == 0) _) _ f2 in
    let (names, _) = collect-lem raw (split raw) (split-HasNoSlash raw) found in
    record {
      parts = parts;
      gate = gate;
      found = found;
      joined = sym (ok_inj f3);
      pieces = ap split (sym (ok_inj f3)) ∙ pieces_of parts names (refuse_if-eq-ok _ _ some_part);
      names = names;
    }

-- A path that `sanitize_relative_path` returns consists of names only, leads from each directory one
-- directory down for each of them, so never out of it, and leads where the raw path leads.
pub sanitize-descend :
    (raw path : Bytes)
    → sanitize_relative_path raw ≡ ok path
    → (at : List Bytes)
    → All IsComponent (split path)
      × (walk at (split path) ≡ descend at (split path))
      × (walk at (split raw) ≡ walk at (split path))
sanitize-descend raw path e at =
    let p = sanitize-Passed raw e in
    let (_, same) = collect-lem raw (split raw) (split-HasNoSlash raw) p.found in
    rw p.pieces (p.names, walk-descend at p.parts p.names, same at)
