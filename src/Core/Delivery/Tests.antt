-- ===== src/Core/Delivery/Tests.antt =====
-- core/crates/aetherlink-core/src/send.rs and recv.rs: the theorems at concrete inputs.
use speeed.Base.{
  inl, inr, sym, ap, ◌∙◌, ok_inj, some_inj, ◌≡◌, ◌⊎◌, refl, true, none, some, [], ◌∷◌, List, All,
  arith, ok,
}
use speeed.Proto.Chunk
use speeed.Proto.Chunk.{is_power_of_two, range}
use speeed.Proto.Hashes.{root_input}
use speeed.Proto.Manifest.Plain.{plain, plain_passes}
use speeed.Core.Config
use speeed.Core.Config.{Config}
use speeed.Core.Control.{hello}
use speeed.Core.Source.{open_source, chunk, hash_one, hash_from, chunk_hashes, release_behind}
use speeed.Core.Send.Announce.{OutgoingFile, announce, announce_from}
use speeed.Core.Offer.Sample.{
  prefix, prefix-IsHash, content, setup, entry, one_file, greeting, entry-Sound,
}
use speeed.Core.Transfer.Sample.{wire, received, two_turns}
use speeed.Core.Delivery.Chunks.{Collision}
use speeed.Core.Delivery.Origin.{IsSized}
use speeed.Core.Delivery.Lands.{IsDestination, Apart, IsOf, Agrees, Delivers, transfer-Delivers}
use speeed.Core.Resume.Names.{Change, writes, persists, discards, run, only_writes, find, tmp_path}
use speeed.Core.Recv.{get_state}
use speeed.Base.Bytes.{Bytes}
use speeed.Proto.Manifest.{sanitize_relative_path}

abbrev outgoing : List OutgoingFile
outgoing = record { content = some content; relative_path = plain; mime_type = [] } ∷ []

abbrev config : Config
config = record Config.default { chunk_size = 65536 }

outgoing-IsSized : All IsSized outgoing
outgoing-IsSized = (λ c e. let same : content ≡ c = cc in rw (← same) (omega arith), tt)

announced :
    announce_from prefix config none 0 outgoing
    ≡ ok (
        (
          record {
            map = content;
            layout = record { file_size = 3; chunk_size = 65536; count = 1 };
            page_size = 4096;
          },
          entry,
        )
        ∷ [])
unfolding announce_from announce open_source chunk_hashes hash_from hash_one chunk release_behind
    range Chunk.new is_power_of_two root_input
announced = refl

-- The one path that is offered.
only_plain : (path : Bytes) → IsDestination one_file.files path → plain ≡ path
only_plain path (e, is, passes) = elim is [
  | inl same ↦
      ok_inj (sym plain_passes ∙ ap (λ x. sanitize_relative_path x.relative_path) same ∙ passes)
  | inr other ↦ absurd other
]

one_file-Apart : Apart one_file.files
one_file-Apart staging path s p =
    rw (← only_plain staging s, ← only_plain path p) (λ e. cc, λ e. cc)

-- A record is written beside the file in the middle of it, and discarded at the end.
abbrev history : List Change
history = writes plain [] ∷ persists plain (1 ∷ []) ∷ writes plain content ∷ discards plain ∷ []

plain_offered : IsDestination one_file.files plain
plain_offered = (entry, inl refl, plain_passes)

history-IsOf : All (IsOf one_file.files) history
history-IsOf = (tt, (plain_offered, (tt, (plain_offered, tt))))

history-Agrees : Agrees one_file.files ((0, received) ∷ []) (run (only_writes history) [])
unfolding get_state
history-Agrees e path st is passes at =
    let here : plain ≡ path = only_plain path (e, is, passes) in
    let id : 0 ≡ e.file_id = elim is [
      | inl same ↦ ap (λ x. x.file_id) same
      | inr other ↦ absurd other
    ] in
    let mine : received ≡ st = some_inj (rw (← id) at at) in rw (← here, ← mine) refl

transfer-Delivers_example : Delivers outgoing (run history []) ⊎ Collision prefix
transfer-Delivers_example =
    transfer-Delivers setup config none outgoing _ (λ w. true) (hello greeting) one_file (λ i. wire)
      (0 ∷ 0 ∷ []) ((0, received) ∷ []) 3 history [] prefix-IsHash outgoing-IsSized announced refl
      entry-Sound one_file-Apart two_turns history-IsOf history-Agrees

-- A file that has the name of another's record is lost when that one is done.
lost_file :
    find
      (run (writes plain content ∷ writes (tmp_path plain) (1 ∷ []) ∷ discards plain ∷ []) [])
      (tmp_path plain)
    ≡ none
lost_file = refl
