-- ===== src/Core/Resume/Names.antt =====
-- core/crates/aetherlink-core/src/resume.rs: the names beside a file, and what `persist` and `discard` do
-- to the directory. A directory is its names, each with the bytes of the file there; names that lead
-- to one file (links) are left out.
use speeed.Base.{
  ◌≡◌, ◌≢◌, refl, sym, ap, ◌∙◌, inl, inr, false, Bool-cases, if◌then◌else◌, Option, none, some,
  List, [], ◌∷◌, ◌++◌, All,
}
use speeed.Base.Bytes.{Bytes, bytes_eq, bytes_eq→eq, bytes_eq_refl}

abbrev pub Directory : Type 0
Directory = List (Bytes × Bytes)

abbrev pub find : Directory → Bytes → Option Bytes
find [] path = none
find ((name, content) ∷ rest) path =
    let later = find rest path in if bytes_eq name path then some content else later

abbrev pub remove_file : Directory → Bytes → Directory
remove_file [] path = []
remove_file ((name, content) ∷ rest) path =
    let later = remove_file rest path in
    if bytes_eq name path then later else (name, content) ∷ later

-- A file that is created or written: what was there is cut.
abbrev pub write_file : Directory → Bytes → Bytes → Directory
write_file d path content = (path, content) ∷ remove_file d path

abbrev renamed : Option Bytes → Directory → Bytes → Bytes → Directory
renamed none d from to = d
renamed (some content) d from to = write_file (remove_file d from) to content

abbrev pub rename : Directory → Bytes → Bytes → Directory
rename d from to = renamed (find d from) d from to

-- `.aether_state` behind the name of the file.
abbrev pub state_path : Bytes → Bytes
state_path staging =
    staging
    ++ b'.' ∷ b'a' ∷ b'e' ∷ b't' ∷ b'h' ∷ b'e' ∷ b'r' ∷ b'_' ∷ b's' ∷ b't' ∷ b'a' ∷ b't' ∷ b'e' ∷ []

-- `with_extension("tmp")` puts `.tmp` in the place of `.aether_state`, the last extension of that name.
abbrev pub tmp_path : Bytes → Bytes
tmp_path staging = staging ++ b'.' ∷ b't' ∷ b'm' ∷ b'p' ∷ []

abbrev pub persist_names : Directory → Bytes → Bytes → Directory
persist_names d staging buf =
    rename (write_file d (tmp_path staging) buf) (tmp_path staging) (state_path staging)

abbrev pub discard : Directory → Bytes → Directory
discard d staging = remove_file (remove_file d (state_path staging)) (tmp_path staging)

-- What happens to the directory: the content of a file changes through its handle, or a record is
-- written or discarded.
pub data Change : Type 0 where
  writes : Bytes → Bytes → Change
  persists : Bytes → Bytes → Change
  discards : Bytes → Change

abbrev pub change : Change → Directory → Directory
change (writes path content) d = write_file d path content
change (persists path buf) d = persist_names d path buf
change (discards path) d = discard d path

abbrev pub run : List Change → Directory → Directory
run [] d = d
run (c ∷ cs) d = run cs (change c d)

-- The same without what happens to records.
abbrev pub only_writes : List Change → List Change
only_writes [] = []
only_writes (writes path content ∷ cs) = writes path content ∷ only_writes cs
only_writes (persists path buf ∷ cs) = only_writes cs
only_writes (discards path ∷ cs) = only_writes cs

-- This path is none of the names beside that file.
abbrev pub IsClear : Bytes → Bytes → Type 0
IsClear staging path = (state_path staging ≢ path) × (tmp_path staging ≢ path)

-- A change of a record leaves the path alone.
abbrev pub Spares : Bytes → Change → Type 0
Spares path (writes other content) = Unit {0}
Spares path (persists staging buf) = IsClear staging path
Spares path (discards staging) = IsClear staging path

find-remove_file :
    (d : Directory) (name path : Bytes) → name ≢ path → find (remove_file d name) path ≡ find d path
find-remove_file [] name path ne = refl
find-remove_file ((own, content) ∷ d) name path ne = elim (Bool-cases (bytes_eq own name)) [
  | inl gone ↦
      let other : bytes_eq own path ≡ false = elim (Bool-cases (bytes_eq own path)) [
        | inl same ↦ absurd (ne (sym (bytes_eq→eq own name gone) ∙ bytes_eq→eq own path same))
        | inr other ↦ other
      ] in
      rw (gone, other) (find-remove_file d name path ne)
  | inr stays ↦ elim (Bool-cases (bytes_eq own path)) [
    | inl here ↦ rw (stays, here) refl
    | inr there ↦ rw (stays, there) (find-remove_file d name path ne)
  ]
]

find-write_file_ne :
    (d : Directory) (name path content : Bytes)
    → name ≢ path
    → find (write_file d name content) path ≡ find d path
find-write_file_ne d name path content ne = elim (Bool-cases (bytes_eq name path)) [
  | inl same ↦ absurd (ne (bytes_eq→eq name path same))
  | inr other ↦ rw other (find-remove_file d name path ne)
]

find-renamed :
    (content : Option Bytes) (d : Directory) (from to path : Bytes)
    → from ≢ path
    → to ≢ path
    → find (renamed content d from to) path ≡ find d path
find-renamed none d from to path f t = refl
find-renamed (some content) d from to path f t =
    find-write_file_ne (remove_file d from) to path content t ∙ find-remove_file d from path f

find-change :
    (c : Change) (path : Bytes) (d d' : Directory)
    → Spares path c
    → find d path ≡ find d' path
    → find (change c d) path ≡ find (run (only_writes (c ∷ [])) d') path
find-change (writes name content) path d d' clear same = elim (Bool-cases (bytes_eq name path)) [
  | inl here ↦ rw here refl
  | inr there ↦
      let ne : name ≢ path = λ e. cc (there, ap (bytes_eq name) e, bytes_eq_refl name) in
      find-write_file_ne d name path content ne
      ∙ same
      ∙ sym (find-write_file_ne d' name path content ne)
]
find-change (persists staging buf) path d d' clear same =
    find-renamed _ (write_file d (tmp_path staging) buf) (tmp_path staging) (state_path staging)
      path clear.1 clear.0
    ∙ find-write_file_ne d (tmp_path staging) path buf clear.1
    ∙ same
find-change (discards staging) path d d' clear same =
    find-remove_file (remove_file d (state_path staging)) (tmp_path staging) path clear.1
    ∙ find-remove_file d (state_path staging) path clear.0
    ∙ same

-- What is at a path that is no record's is what was written there last.
pub find-run :
    (cs : List Change) (path : Bytes) (d d' : Directory)
    → All (Spares path) cs
    → find d path ≡ find d' path
    → find (run cs d) path ≡ find (run (only_writes cs) d') path
find-run [] path d d' clear same = same
find-run (writes name content ∷ cs) path d d' clear same =
    find-run cs path (write_file d name content) (write_file d' name content) clear.1
      (find-change (writes name content) path d d' tt same)
find-run (persists staging buf ∷ cs) path d d' clear same =
    find-run cs path (persist_names d staging buf) d' clear.1
      (find-change (persists staging buf) path d d' clear.0 same)
find-run (discards staging ∷ cs) path d d' clear same =
    find-run cs path (discard d staging) d' clear.1
      (find-change (discards staging) path d d' clear.0 same)
