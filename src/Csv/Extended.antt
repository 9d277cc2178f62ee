-- ===== src/Csv/Extended.antt =====
-- frontend/src/fe_server.cc: what `append_csv_item_cas` leaves in the cell.
use ncloud.Common.{
  ℕ, zero, suc, ◌≡◌, ◌≢◌, ap, sym, subst, ◌∙◌, inl, inr, some, [], ◌∷◌, Bytes, Bool, true, ◌&&◌,
  not, bytes_eq, bytes_eq_iff, arith, if_elim,
}
use ncloud.Kv.{Kv, KvReadStatus, found, not_found, unavailable, IsLawful, Tells, text_of}
use ncloud.Http.Text.{tokens}
use ncloud.Csv.{
  nonempty_tokens, chat_split_csv, has_item, next_text, swap_text, extend_found, attempt,
  attempts_left, append_csv_item_cas,
}
use ncloud.Csv.Lists.{IsItem, NoComma}
use ncloud.Csv.Items.{chat_split_csv-next_text, has_item-cut_to, has_item-with_item}

module _ (K : Kv) (L : IsLawful K) (row col : Bytes) where
  -- The list in the cell has the item.
  abbrev pub Has : Bytes → K.State → Type 0
  Has x s = has_item x (chat_split_csv (text_of (L.view s row col))) ≡ true

  -- A list with the text in the cell.
  Has-some :
      (x v : Bytes) (s : K.State)
      → L.view s row col ≡ some v
      → has_item x (chat_split_csv v) ≡ true
      → Has x s
  Has-some x v s e h = subst (λ o. has_item x (chat_split_csv (text_of o)) ≡ true) (sym e) h

  Has-view : (x : Bytes) (s t : K.State) → L.view t row col ≡ L.view s row col → Has x s → Has x t
  Has-view x s t e h = subst (λ o. has_item x (chat_split_csv (text_of o)) ≡ true) (sym e) h

nothing : (x : Bytes) → has_item x (chat_split_csv []) ≢ true
unfolding has_item chat_split_csv nonempty_tokens tokens
nothing x e = cc e

module _ (K : Kv) (L : IsLawful K) (row col item : Bytes) where
  abbrev Done : Bool × K.State → Type 0
  Done r = r.0 ≡ true → Has K L row col item r.1

  module _ (prepend : Bool) (max_items : ℕ) (ok : IsItem item) where
    next_text-has_item :
        (v : Bytes)
        → has_item item (chat_split_csv (next_text item prepend max_items (chat_split_csv v)))
          ≡ true
    next_text-has_item v =
        ap (has_item item) (chat_split_csv-next_text item prepend max_items v ok)
        ∙ has_item-cut_to item prepend max_items (chat_split_csv v)

    swap_text-Done :
        (v next : Bytes) (again : K.State → Bool × K.State) (s : K.State)
        → L.view s row col ≡ some v
        → has_item item (chat_split_csv next) ≡ true
        → ((t : K.State) → Done (again t))
        → Done (swap_text K row col v next again s)
    unfolding swap_text
    swap_text-Done v next again s e h later =
        let r = K.cput row col v next s in
        if_elim Done (bytes_eq next v) _ _
          (λ q _.
            Has-some K L row col item v s e
              (subst (λ w. has_item item (chat_split_csv w) ≡ true) ((bytes_eq_iff next v).0 q) h))
          (λ _.
            if_elim Done r.0 _ _
              (λ q _. Has-some K L row col item next r.1 (L.cput_done row col v next s q).1 h)
              (λ _. later r.1))

    extend_found-Done :
        (v : Bytes) (again : K.State → Bool × K.State) (s : K.State)
        → L.view s row col ≡ some v
        → ((t : K.State) → Done (again t))
        → Done (extend_found K row col item prepend max_items v again s)
    unfolding extend_found
    extend_found-Done v again s e later =
        let items = chat_split_csv v in
        if_elim Done (has_item item items && not prepend) _ _
          (λ q _. Has-some K L row col item v s e (ground (arith, q)))
          (λ _.
            swap_text-Done v (next_text item prepend max_items items) again s e
              (next_text-has_item v) later)

    attempt-Done :
        (again : K.State → Bool × K.State) (s : K.State) (a : KvReadStatus × K.State)
        → Tells a.0 (L.view s row col)
        → L.view a.1 row col ≡ L.view s row col
        → ((t : K.State) → Done (again t))
        → Done (attempt K row col item prepend max_items again a)
    unfolding attempt
    attempt-Done again s (unavailable, t) tells same later = later t
    attempt-Done again s (not_found, t) tells same later = later _
    attempt-Done again s (found v, t) tells same later =
        extend_found-Done v again t (same ∙ tells) later

    attempts_left-Done :
        (n : ℕ) (s : K.State) → Done (attempts_left K n row col item prepend max_items s)
    unfolding attempts_left
    attempts_left-Done zero s = λ h. cc h
    attempts_left-Done (suc n) s =
        attempt-Done _ s (K.get_status row col s) (L.get-Tells row col s)
          (L.get-view row col row col s) (λ t. attempts_left-Done n t)

  -- The items of a list without a bound stay.
  module _ (prepend : Bool) (x : Bytes) (ok : IsItem item) where
    next_text-kept :
        (v : Bytes)
        → has_item x (chat_split_csv v) ≡ true
        → has_item x (chat_split_csv (next_text item prepend 0 (chat_split_csv v))) ≡ true
    next_text-kept v h =
        ap (has_item x) (chat_split_csv-next_text item prepend 0 v ok)
        ∙ has_item-with_item x item prepend (chat_split_csv v) h

    abbrev Keeps : K.State → (K.State → Bool × K.State) → Type 0
    Keeps s f = Has K L row col x s → Has K L row col x (f s).1

    swap_text-Has :
        (v next : Bytes) (again : K.State → Bool × K.State) (s : K.State)
        → Has K L row col x s
        → has_item x (chat_split_csv next) ≡ true
        → ((t : K.State) → Keeps t again)
        → Has K L row col x (swap_text K row col v next again s).1
    unfolding swap_text
    swap_text-Has v next again s h new later =
        let r = K.cput row col v next s in
        let swapped : Has K L row col x r.1 = elim (L.cput_either row col v next s) [
          | inl e ↦ Has-some K L row col x next r.1 e.1 new
          | inr e ↦ Has-view K L row col x s r.1 e h
        ] in
        if_elim (λ (r : Bool × K.State). Has K L row col x r.1) (bytes_eq next v) _ _ (λ _. h)
          (λ _.
            if_elim (λ (r : Bool × K.State). Has K L row col x r.1) r.0 _ _ (λ _. swapped)
              (λ _. later r.1 swapped))

    extend_found-Has :
        (v : Bytes) (again : K.State → Bool × K.State) (s : K.State)
        → L.view s row col ≡ some v
        → Has K L row col x s
        → ((t : K.State) → Keeps t again)
        → Has K L row col x (extend_found K row col item prepend 0 v again s).1
    unfolding extend_found
    extend_found-Has v again s e h later =
        if_elim (λ (r : Bool × K.State). Has K L row col x r.1)
          (has_item item (chat_split_csv v) && not prepend) _ _ (λ _. h)
          (λ _.
            swap_text-Has v (next_text item prepend 0 (chat_split_csv v)) again s h
              (next_text-kept v (subst (λ o. has_item x (chat_split_csv (text_of o)) ≡ true) e h))
              later)

    attempt-Has :
        (again : K.State → Bool × K.State) (s : K.State) (a : KvReadStatus × K.State)
        → Tells a.0 (L.view s row col)
        → L.view a.1 row col ≡ L.view s row col
        → Has K L row col x s
        → ((t : K.State) → Keeps t again)
        → Has K L row col x (attempt K row col item prepend 0 again a).1
    unfolding attempt
    attempt-Has again s (unavailable, t) tells same h later =
        later t (Has-view K L row col x s t same h)
    attempt-Has again s (not_found, t) tells same h later =
        absurd (nothing x (subst (λ o. has_item x (chat_split_csv (text_of o)) ≡ true) tells h))
    attempt-Has again s (found v, t) tells same h later =
        extend_found-Has v again t (same ∙ tells) (Has-view K L row col x s t same h) later

    attempts_left-Has :
        (n : ℕ) (s : K.State)
        → Has K L row col x s
        → Has K L row col x (attempts_left K n row col item prepend 0 s).1
    unfolding attempts_left
    attempts_left-Has zero s h = h
    attempts_left-Has (suc n) s h =
        attempt-Has (λ t. attempts_left K n row col item prepend 0 t) s (K.get_status row col s)
          (L.get-Tells row col s) (L.get-view row col row col s) h (λ t. attempts_left-Has n t)

-- An item without a comma that was added with success is in the list of the cell, whatever the bound
-- of the list and whatever writes were refused.
pub append_csv_item_cas-Has :
    (K : Kv) (L : IsLawful K) (row col item : Bytes) (prepend : Bool) (max_items : ℕ) (s : K.State)
    → NoComma item
    → (append_csv_item_cas K row col item prepend max_items s).0 ≡ true
    → Has K L row col item (append_csv_item_cas K row col item prepend max_items s).1
unfolding append_csv_item_cas
append_csv_item_cas-Has K L row col [] prepend max_items s ok done = cc
append_csv_item_cas-Has K L row col (c ∷ item) prepend max_items s ok done =
    attempts_left-Done K L row col (c ∷ item) prepend max_items ((λ e. cc e), ok) 16 s done

-- A list without a bound, as that of a folder, keeps each of its items, whatever is answered and
-- whatever writes were refused.
pub append_csv_item_cas_keeps :
    (K : Kv) (L : IsLawful K) (row col item : Bytes) (prepend : Bool) (s : K.State) (x : Bytes)
    → NoComma item
    → Has K L row col x s
    → Has K L row col x (append_csv_item_cas K row col item prepend 0 s).1
unfolding append_csv_item_cas
append_csv_item_cas_keeps K L row col [] prepend s x ok h = h
append_csv_item_cas_keeps K L row col (c ∷ item) prepend s x ok h =
    attempts_left-Has K L row col (c ∷ item) prepend x ((λ e. cc e), ok) 16 s h
