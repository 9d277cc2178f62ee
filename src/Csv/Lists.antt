-- ===== src/Csv/Lists.antt =====
-- frontend/src/fe_server.cc: a list that is written into a cell is read back.
use ncloud.Common.{
  ℕ, ◌≡◌, ◌≢◌, refl, ap, sym, subst, ◌∙◌, inl, inr, List, [], ◌∷◌, ◌++◌, append_assoc, append-nil,
  Bytes, true, false, ◌==◌, All, All-append, Bool-cases,
}
use ncloud.Http.Text.{tokens}
use ncloud.Csv.{nonempty_tokens, chat_split_csv, join_behind, chat_join_csv}

-- The text has no comma.
abbrev pub NoComma : Bytes → Type 0
NoComma item = All (λ c. (c == b',') ≡ false) item

-- An item that can stand in a list.
abbrev pub IsItem : Bytes → Type 0
IsItem item = (item ≢ []) × NoComma item

nonempty_tokens-cons :
    (item : Bytes) (ts : List Bytes)
    → item ≢ []
    → nonempty_tokens (item ∷ ts) ≡ item ∷ nonempty_tokens ts
unfolding nonempty_tokens
nonempty_tokens-cons [] ts h = absurd (h refl)
nonempty_tokens-cons (c ∷ item) ts h = refl

tokens-other :
    (token : Bytes) (c : ℕ) (s : Bytes)
    → (c == b',') ≡ false
    → tokens b',' token (c ∷ s) ≡ tokens b',' (token ++ (c ∷ [])) s
unfolding tokens
tokens-other [] c s h = rw (tokens, h) refl
tokens-other (t ∷ token) c s h = rw (tokens, h) refl

tokens-separator :
    (token : Bytes) (c : ℕ) (s : Bytes)
    → (c == b',') ≡ true
    → tokens b',' token (c ∷ s) ≡ token ∷ tokens b',' [] s
unfolding tokens
tokens-separator [] c s h = rw (tokens, h) refl
tokens-separator (t ∷ token) c s h = rw (tokens, h) refl

-- The characters of an item are taken up to the comma behind it, or to the end.
tokens-append :
    (token item s : Bytes)
    → NoComma item
    → tokens b',' token (item ++ s) ≡ tokens b',' (token ++ item) s
unfolding tokens
tokens-append token [] s h = ap (λ t. tokens b',' t s) (sym (append-nil token))
tokens-append token (c ∷ item) s h =
    tokens-other token c (item ++ s) h.0
    ∙ tokens-append (token ++ (c ∷ [])) item s h.1
    ∙ ap (λ t. tokens b',' t s) (append_assoc token (c ∷ []) item)

tokens-end : (token : Bytes) → token ≢ [] → tokens b',' token [] ≡ token ∷ []
unfolding tokens
tokens-end [] h = absurd (h refl)
tokens-end (c ∷ token) h = refl

tokens-join_behind :
    (item : Bytes) (items : List Bytes)
    → item ≢ []
    → All IsItem items
    → nonempty_tokens (tokens b',' item (join_behind items)) ≡ item ∷ items
unfolding join_behind nonempty_tokens
tokens-join_behind item [] n h =
    ap nonempty_tokens (tokens-end item n) ∙ nonempty_tokens-cons item [] n
tokens-join_behind item (i ∷ items) n h =
    ap nonempty_tokens (tokens-separator item b',' (i ++ join_behind items) refl)
    ∙ nonempty_tokens-cons item _ n
    ∙ ap (λ ts. item ∷ nonempty_tokens ts) (tokens-append [] i (join_behind items) h.0.1)
    ∙ ap (λ ts. item ∷ ts) (tokens-join_behind i items h.0.0 h.1)

-- Items that are not empty and have no comma are read back as they were joined.
pub chat_split_csv-chat_join_csv :
    (items : List Bytes) → All IsItem items → chat_split_csv (chat_join_csv items) ≡ items
unfolding chat_split_csv chat_join_csv tokens nonempty_tokens
chat_split_csv-chat_join_csv [] h = refl
chat_split_csv-chat_join_csv (item ∷ items) h =
    ap nonempty_tokens (tokens-append [] item (join_behind items) h.0.1)
    ∙ tokens-join_behind item items h.0.0 h.1

nonempty_tokens-IsItem : (ts : List Bytes) → All NoComma ts → All IsItem (nonempty_tokens ts)
unfolding nonempty_tokens
nonempty_tokens-IsItem [] h = tt
nonempty_tokens-IsItem ([] ∷ ts) h = nonempty_tokens-IsItem ts h.1
nonempty_tokens-IsItem ((c ∷ t) ∷ ts) h = (((λ e. cc e), h.0), nonempty_tokens-IsItem ts h.1)

tokens-NoComma : (token s : Bytes) → NoComma token → All NoComma (tokens b',' token s)
unfolding tokens
tokens-NoComma [] [] h = tt
tokens-NoComma (t ∷ token) [] h = (h, tt)
tokens-NoComma [] (c ∷ s) h = elim (Bool-cases (c == b',')) [
  | inl e ↦ subst (All NoComma) (sym (tokens-separator [] c s e)) (tt, tokens-NoComma [] s tt)
  | inr e ↦ subst (All NoComma) (sym (tokens-other [] c s e)) (tokens-NoComma (c ∷ []) s (e, tt))
]
tokens-NoComma (t ∷ token) (c ∷ s) h = elim (Bool-cases (c == b',')) [
  | inl e ↦
      subst (All NoComma) (sym (tokens-separator (t ∷ token) c s e)) (h, tokens-NoComma [] s tt)
  | inr e ↦ subst (All NoComma) (sym (tokens-other (t ∷ token) c s e)) (
      tokens-NoComma ((t ∷ token) ++ (c ∷ [])) s
        (All-append (λ x. (x == b',') ≡ false) (t ∷ token) (c ∷ []) h (e, tt)))
]

-- Whatever a cell has is read as a list of items.
pub chat_split_csv-IsItem : (s : Bytes) → All IsItem (chat_split_csv s)
unfolding chat_split_csv
chat_split_csv-IsItem s = nonempty_tokens-IsItem _ (tokens-NoComma [] s tt)
