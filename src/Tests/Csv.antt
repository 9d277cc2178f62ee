-- ===== src/Tests/Csv.antt =====
-- The lists of the chat and of the drive at concrete inputs.
use ncloud.Common.{◌≡◌, refl, some, [], ◌∷◌, codes, true, false, bytes_eq}
use ncloud.Kv.Memory.{Memory, memory, memory-IsLawful, cell, write, answer_of, holds}
use ncloud.Http.Text.{tokens}
use ncloud.Csv.{
  nonempty_tokens, chat_split_csv, join_behind, chat_join_csv, has_item, with_item, cut_to,
  next_text, swap_text, extend_found, attempt, attempts_left, append_csv_item_cas,
}
use ncloud.Csv.Extended.{Has, append_csv_item_cas-Has, append_csv_item_cas_keeps}

-- A folder with two files; the storage refuses the next write.
abbrev folder : Memory
folder = record {
  cells = (codes "drive:dir:d1", codes "children", some (codes "f1,f2")) ∷ [];
  refusals = true ∷ [];
}

f3_added :
    (append_csv_item_cas memory
      (codes "drive:dir:d1")
      (codes "children")
      (codes "f3")
      false
      0
      folder).0
    ≡ true
unfolding append_csv_item_cas attempts_left attempt extend_found swap_text next_text chat_split_csv
    nonempty_tokens tokens join_behind chat_join_csv has_item with_item cut_to cell write answer_of
    holds bytes_eq
f3_added = refl

append_csv_item_cas-Has_example :
    Has memory memory-IsLawful
      (codes "drive:dir:d1")
      (codes "children")
      (codes "f3")
      (append_csv_item_cas memory
        (codes "drive:dir:d1")
        (codes "children")
        (codes "f3")
        false
        0
        folder).1
append_csv_item_cas-Has_example =
    append_csv_item_cas-Has memory memory-IsLawful (codes "drive:dir:d1") (codes "children")
      (codes "f3") false 0 folder (refl, (refl, tt)) f3_added

f2_there : Has memory memory-IsLawful (codes "drive:dir:d1") (codes "children") (codes "f2") folder
unfolding chat_split_csv nonempty_tokens tokens has_item cell bytes_eq
f2_there = refl

append_csv_item_cas_keeps_example :
    Has memory memory-IsLawful
      (codes "drive:dir:d1")
      (codes "children")
      (codes "f2")
      (append_csv_item_cas memory
        (codes "drive:dir:d1")
        (codes "children")
        (codes "f3")
        false
        0
        folder).1
append_csv_item_cas_keeps_example =
    append_csv_item_cas_keeps memory memory-IsLawful (codes "drive:dir:d1") (codes "children")
      (codes "f3") false folder (codes "f2") (refl, (refl, tt)) f2_there
