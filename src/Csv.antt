-- ===== src/Csv.antt =====
-- frontend/src/fe_server.cc: lists in one cell, separated by commas, which several writers extend: the
-- rooms and direct messages of the chat and the folders of the drive.
pub mod Lists
pub mod Items
pub mod Extended
use ncloud.Common.{
  ℕ, zero, suc, ◌+◌, ◌-◌, List, [], ◌∷◌, ◌++◌, Bytes, codes, length, take, drop, Bool, true, false,
  ltb, ◌==◌, ◌&&◌, not, if◌then◌else◌, bytes_eq,
}
use ncloud.Kv.{Kv, get_str, KvReadStatus, found, not_found, unavailable}
use ncloud.Http.Text.{tokens}

unfoldable pub nonempty_tokens : List Bytes → List Bytes
nonempty_tokens [] = []
nonempty_tokens ([] ∷ ts) = nonempty_tokens ts
nonempty_tokens ((c ∷ t) ∷ ts) = (c ∷ t) ∷ nonempty_tokens ts

unfoldable pub chat_split_csv : Bytes → List Bytes
unfolding nonempty_tokens
chat_split_csv s = nonempty_tokens (tokens b',' [] s)

unfoldable pub join_behind : List Bytes → Bytes
join_behind [] = []
join_behind (item ∷ items) = b',' ∷ (item ++ join_behind items)

unfoldable pub chat_join_csv : List Bytes → Bytes
unfolding join_behind
chat_join_csv [] = []
chat_join_csv (item ∷ items) = item ++ join_behind items

unfoldable pub has_item : Bytes → List Bytes → Bool
has_item item [] = false
has_item item (i ∷ items) =
    let later = has_item item items in if bytes_eq i item then true else later

-- `erase` of the place that `find` gives.
unfoldable pub erase_item : Bytes → List Bytes → List Bytes
erase_item item [] = []
erase_item item (i ∷ items) =
    let rest = erase_item item items in if bytes_eq i item then items else i ∷ rest

unfoldable pub with_item : Bytes → Bool → List Bytes → List Bytes
with_item item prepend items =
    if prepend then item ∷ erase_item item items else items ++ (item ∷ [])

-- At most `max_items`, where that is not zero; the oldest go.
unfoldable pub cut_to : Bool → ℕ → List Bytes → List Bytes
cut_to prepend max_items items =
    if ltb 0 max_items && ltb max_items (length items)
    then if prepend then take max_items items else drop (length items - max_items) items
    else items

-- The cell's next text.
unfoldable pub next_text : Bytes → Bool → ℕ → List Bytes → Bytes
next_text item prepend max_items items =
    chat_join_csv (cut_to prepend max_items (with_item item prepend items))

module _ (K : Kv) where
  -- The list is as it should be, or the cell is swapped if it still has the old text.
  unfoldable pub swap_text :
      Bytes → Bytes → Bytes → Bytes → (K.State → Bool × K.State) → K.State → Bool × K.State
  swap_text row col old_value next again s =
      let r = K.cput row col old_value next s in
      if bytes_eq next old_value then (true, s) else if r.0 then (true, r.1) else again r.1

  unfoldable pub extend_found :
      Bytes
      → Bytes
      → Bytes
      → Bool
      → ℕ
      → Bytes
      → (K.State → Bool × K.State)
      → K.State
      → Bool × K.State
  unfolding swap_text
  extend_found row col item prepend max_items old_value again s =
      let items = chat_split_csv old_value in
      if has_item item items && not prepend
      then (true, s)
      else swap_text row col old_value (next_text item prepend max_items items) again s

  -- One attempt, with what follows if there is another.
  unfoldable pub attempt :
      Bytes
      → Bytes
      → Bytes
      → Bool
      → ℕ
      → (K.State → Bool × K.State)
      → KvReadStatus × K.State
      → Bool × K.State
  unfolding extend_found
  attempt row col item prepend max_items again (unavailable, s) = again s
  attempt row col item prepend max_items again (not_found, s) =
      again (K.put row col (next_text item prepend max_items []) s).1
  attempt row col item prepend max_items again (found old_value, s) =
      extend_found row col item prepend max_items old_value again s

  unfoldable pub attempts_left : ℕ → Bytes → Bytes → Bytes → Bool → ℕ → K.State → Bool × K.State
  unfolding attempt
  attempts_left zero row col item prepend max_items s = (false, s)
  attempts_left (suc n) row col item prepend max_items s =
      attempt row col item prepend max_items (λ t. attempts_left n row col item prepend max_items t)
        (K.get_status row col s)

  unfoldable pub append_csv_item_cas : Bytes → Bytes → Bytes → Bool → ℕ → K.State → Bool × K.State
  unfolding attempts_left
  append_csv_item_cas row col [] prepend max_items s = (false, s)
  append_csv_item_cas row col (c ∷ item) prepend max_items s =
      attempts_left 16 row col (c ∷ item) prepend max_items s

  unfoldable pub append_chat_message_id : Bytes → Bytes → K.State → Bool × K.State
  append_chat_message_id room id s =
      append_csv_item_cas (codes "chat:room:" ++ room) (codes "ids") id false 200 s

  unfoldable pub append_dm_peer : Bytes → Bytes → K.State → Bool × K.State
  append_dm_peer user peer s =
      append_csv_item_cas (codes "chat:dm:user:" ++ user) (codes "peers") peer true 100 s

  unfoldable pub append_dm_message_id : Bytes → Bytes → K.State → Bool × K.State
  append_dm_message_id canon id s =
      append_csv_item_cas (codes "chat:dm:thread:" ++ canon) (codes "ids") id false 200 s

  -- The drive has its own copies of the two functions on lists.
  unfoldable pub append_child : Bytes → Bytes → K.State → Bool × K.State
  append_child dir_uid child_uid s =
      append_csv_item_cas (codes "drive:dir:" ++ dir_uid) (codes "children") child_uid false 0 s

  -- `std::remove` of every such item.
  unfoldable pub remove_all : Bytes → List Bytes → List Bytes
  remove_all item [] = []
  remove_all item (i ∷ items) =
      let rest = remove_all item items in if bytes_eq i item then rest else i ∷ rest

  swap_children : Bytes → Bytes → Bytes → (K.State → Bool × K.State) → K.State → Bool × K.State
  swap_children row old_children next again s =
      let r = K.cput row (codes "children") old_children next s in
      if r.0 then (true, r.1) else again r.1

  removal : Bytes → Bytes → Bool → (K.State → Bool × K.State) → Bytes × K.State → Bool × K.State
  unfolding swap_children
  removal row child_uid require_present again ([], s) = (not require_present, s)
  removal row child_uid require_present again (c ∷ text, s) =
      let kids = chat_split_csv (c ∷ text) in
      let left = remove_all child_uid kids in
      if length left == length kids
      then (not require_present, s)
      else swap_children row (c ∷ text) (chat_join_csv left) again s

  removals_left : ℕ → Bytes → Bytes → Bool → K.State → Bool × K.State
  unfolding removal
  removals_left zero row child_uid require_present s = (false, s)
  removals_left (suc n) row child_uid require_present s =
      removal row child_uid require_present (λ t. removals_left n row child_uid require_present t)
        (get_str K row (codes "children") s)

  unfoldable pub remove_child : Bytes → Bytes → Bool → K.State → Bool × K.State
  unfolding removals_left
  remove_child dir_uid child_uid require_present s =
      removals_left 8 (codes "drive:dir:" ++ dir_uid) child_uid require_present s
