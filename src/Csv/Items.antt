-- ===== src/Csv/Items.antt =====
-- frontend/src/fe_server.cc: which items the next text of a list has.
use ncloud.Common.{
  ℕ, zero, suc, ◌-◌, ◌≤◌, ◌≡◌, refl, sym, subst, ◌∙◌, List, [], ◌∷◌, ◌++◌, Bytes, length,
  length-append, take, drop, drop-append_short, Bool, true, false, ltb, ◌&&◌, ◌||◌, bytes_eq,
  bytes_eq_iff, bytes_eq_self, arith, All, All-append, if_elim, Bool-cases, inl, inr,
}
use ncloud.Csv.{chat_split_csv, has_item, erase_item, with_item, cut_to, next_text}
use ncloud.Csv.Lists.{IsItem, chat_split_csv-chat_join_csv, chat_split_csv-IsItem}

module _ (P : Bytes → Type 0) where
  All-take : (n : ℕ) (xs : List Bytes) → All P xs → All P (take n xs)
  All-take zero xs h = tt
  All-take (suc n) [] h = tt
  All-take (suc n) (x ∷ xs) h = (h.0, All-take n xs h.1)

  All-drop : (n : ℕ) (xs : List Bytes) → All P xs → All P (drop n xs)
  All-drop zero xs h = h
  All-drop (suc n) [] h = tt
  All-drop (suc n) (x ∷ xs) h = All-drop n xs h.1

  All-erase_item : (item : Bytes) (xs : List Bytes) → All P xs → All P (erase_item item xs)
  unfolding erase_item
  All-erase_item item [] h = tt
  All-erase_item item (x ∷ xs) h =
      if_elim (All P) (bytes_eq x item) _ _ (λ _. h.1) (λ _. (h.0, All-erase_item item xs h.1))

  All-with_item :
      (item : Bytes) (prepend : Bool) (xs : List Bytes)
      → P item
      → All P xs
      → All P (with_item item prepend xs)
  unfolding with_item
  All-with_item item true xs p h = (p, All-erase_item item xs h)
  All-with_item item false xs p h = All-append P xs (item ∷ []) h (p, tt)

  All-cut_to : (prepend : Bool) (n : ℕ) (xs : List Bytes) → All P xs → All P (cut_to prepend n xs)
  unfolding cut_to
  All-cut_to prepend n xs h =
      if_elim (All P) (ltb 0 n && ltb n (length xs)) _ _
        (λ _.
          if_elim (All P) prepend _ _ (λ _. All-take n xs h) (λ _. All-drop (length xs - n) xs h))
        (λ _. h)

-- The next text is read as the list that it was made of.
pub chat_split_csv-next_text :
    (item : Bytes) (prepend : Bool) (max_items : ℕ) (old_value : Bytes)
    → IsItem item
    → chat_split_csv (next_text item prepend max_items (chat_split_csv old_value))
      ≡ cut_to prepend max_items (with_item item prepend (chat_split_csv old_value))
unfolding next_text
chat_split_csv-next_text item prepend max_items old_value h = chat_split_csv-chat_join_csv _ (
    All-cut_to IsItem prepend max_items _
      (All-with_item IsItem item prepend _ h (chat_split_csv-IsItem old_value)))

has_item-cons_self : (item : Bytes) (xs : List Bytes) → has_item item (item ∷ xs) ≡ true
unfolding has_item
has_item-cons_self item xs = rw (bytes_eq_self item) refl

has_item-append :
    (x : Bytes) (xs ys : List Bytes) → has_item x (xs ++ ys) ≡ (has_item x xs || has_item x ys)
unfolding has_item
has_item-append x [] ys = refl
has_item-append x (i ∷ xs) ys = ground (arith, has_item-append x xs ys)

has_item-last : (item : Bytes) (xs : List Bytes) → has_item item (xs ++ (item ∷ [])) ≡ true
has_item-last item xs =
    ground (arith, has_item-append item xs (item ∷ []), has_item-cons_self item [])

-- The item is not among those that are cut off.
pub has_item-cut_to :
    (item : Bytes) (prepend : Bool) (max_items : ℕ) (items : List Bytes)
    → has_item item (cut_to prepend max_items (with_item item prepend items)) ≡ true
unfolding cut_to with_item
has_item-cut_to item true zero items = has_item-cons_self item (erase_item item items)
has_item-cut_to item true (suc m) items =
    let all = item ∷ erase_item item items in
    if_elim (λ xs. has_item item xs ≡ true) (ltb 0 (suc m) && ltb (suc m) (length all))
      (take (suc m) all) all (λ _. has_item-cons_self item (take m (erase_item item items)))
      (λ _. has_item-cons_self item (erase_item item items))
has_item-cut_to item false zero items = has_item-last item items
has_item-cut_to item false (suc m) items =
    let n = length (items ++ (item ∷ [])) - suc m in
    let short : n ≤ length items = omega (arith, length-append items (item ∷ [])) in
    let all = items ++ (item ∷ []) in
    if_elim (λ xs. has_item item xs ≡ true) (ltb 0 (suc m) && ltb (suc m) (length all)) (drop n all)
      all
      (λ _.
        subst (λ xs. has_item item xs ≡ true) (sym (drop-append_short n items (item ∷ []) short))
          (has_item-last item (drop n items)))
      (λ _. has_item-last item items)

has_item-erase_item :
    (x item : Bytes) (items : List Bytes)
    → bytes_eq item x ≡ false
    → has_item x (erase_item item items) ≡ has_item x items
unfolding has_item erase_item
has_item-erase_item x item [] h = refl
has_item-erase_item x item (i ∷ items) h = ground (
  arith,
  has_item-erase_item x item items h,
  bytes_eq_iff i item,
  bytes_eq_iff i x,
  bytes_eq_iff item x,
  h,
)

has_item-cons :
    (x item : Bytes) (xs : List Bytes) → has_item x xs ≡ true → has_item x (item ∷ xs) ≡ true
unfolding has_item
has_item-cons x item xs h = ground (arith, h)

-- A list without a bound keeps its items.
pub has_item-with_item :
    (x item : Bytes) (prepend : Bool) (items : List Bytes)
    → has_item x items ≡ true
    → has_item x (cut_to prepend 0 (with_item item prepend items)) ≡ true
unfolding cut_to with_item
has_item-with_item x item true items h = elim (Bool-cases (bytes_eq item x)) [
  | inl e ↦
      subst (λ y. has_item y (item ∷ erase_item item items) ≡ true) ((bytes_eq_iff item x).0 e)
        (has_item-cons_self item (erase_item item items))
  | inr e ↦ has_item-cons x item (erase_item item items) (has_item-erase_item x item items e ∙ h)
]
has_item-with_item x item false items h = ground (arith, has_item-append x items (item ∷ []), h)
