-- ===== src/Session/Rows.antt =====
-- frontend/src/session.h: what the writes of a session leave in its rows.
use ncloud.Common.{
  ◌<◌, ◌≡◌, refl, sym, subst, ◌∙◌, ◌⊎◌, inl, inr, Option, none, some, List, [], ◌∷◌, Bytes, codes,
  Bool, true, false, arith, bytes_eq, bytes_eq_iff, All, if_elim, Bool-cases,
}
use ncloud.Kv.{Kv, IsLawful, same}
use ncloud.Session.{store_row, store_rows}

user_not_expiry : (r i : Bytes) → same r (codes "user") i (codes "expiry") ≡ false
unfolding bytes_eq
user_not_expiry r i = ground arith

expiry_not_user : (r i : Bytes) → same r (codes "expiry") i (codes "user") ≡ false
unfolding bytes_eq
expiry_not_user r i = ground arith

other_row : (r c i j : Bytes) → bytes_eq r i ≡ false → same r c i j ≡ false
other_row r c i j h = ground (arith, h)

module _ (K : Kv) (L : IsLawful K) (u e : Bytes) where
  -- A cell is empty or has the value.
  abbrev pub Blank : Option Bytes → Bytes → Type 0
  Blank o v = (o ≡ none) ⊎ (o ≡ some v)

  -- Whatever a row has of a session is right.
  abbrev pub Clean : K.State → Bytes → Type 0
  Clean s r = Blank (L.view s r (codes "user")) u × Blank (L.view s r (codes "expiry")) e

  abbrev pub Full : K.State → Bytes → Type 0
  Full s r = (L.view s r (codes "user") ≡ some u) × (L.view s r (codes "expiry") ≡ some e)

  Blank-either : (o p : Option Bytes) (v : Bytes) → (o ≡ some v) ⊎ (o ≡ p) → Blank p v → Blank o v
  Blank-either o p v (inl h) b = inr h
  Blank-either o p v (inr h) (inl b) = inl (h ∙ b)
  Blank-either o p v (inr h) (inr b) = inr (h ∙ b)

  Blank-cleared : (o p : Option Bytes) (v : Bytes) → (o ≡ none) ⊎ (o ≡ p) → Blank p v → Blank o v
  Blank-cleared o p v (inl h) b = inl h
  Blank-cleared o p v (inr h) (inl b) = inl (h ∙ b)
  Blank-cleared o p v (inr h) (inr b) = inr (h ∙ b)

  -- A write that changes one column of one row keeps the rows clean if it keeps that cell blank.
  Clean-user :
      (r : Bytes) (s t : K.State)
      → ((i j : Bytes) → same r (codes "user") i j ≡ false → L.view t i j ≡ L.view s i j)
      → (Blank (L.view s r (codes "user")) u → Blank (L.view t r (codes "user")) u)
      → (i : Bytes) → Clean s i
      → Clean t i
  Clean-user r s t others here i v = (
    elim (Bool-cases (bytes_eq r i)) [
      | inl q ↦
          subst (λ k. Blank (L.view t k (codes "user")) u) ((bytes_eq_iff r i).0 q)
            (here
              (subst (λ k. Blank (L.view s k (codes "user")) u) (sym ((bytes_eq_iff r i).0 q)) v.0))
      | inr q ↦
          subst (λ o. Blank o u)
            (sym (others i (codes "user") (other_row r (codes "user") i (codes "user") q))) v.0
    ],
    subst (λ o. Blank o e) (sym (others i (codes "expiry") (user_not_expiry r i))) v.1,
  )

  Clean-expiry :
      (r : Bytes) (s t : K.State)
      → ((i j : Bytes) → same r (codes "expiry") i j ≡ false → L.view t i j ≡ L.view s i j)
      → (Blank (L.view s r (codes "expiry")) e → Blank (L.view t r (codes "expiry")) e)
      → (i : Bytes) → Clean s i
      → Clean t i
  Clean-expiry r s t others here i v = (
    subst (λ o. Blank o u) (sym (others i (codes "user") (expiry_not_user r i))) v.0,
    elim (Bool-cases (bytes_eq r i)) [
      | inl q ↦
          subst (λ k. Blank (L.view t k (codes "expiry")) e) ((bytes_eq_iff r i).0 q)
            (here (
              subst (λ k. Blank (L.view s k (codes "expiry")) e) (sym ((bytes_eq_iff r i).0 q))
                v.1))
      | inr q ↦
          subst (λ o. Blank o e)
            (sym (others i (codes "expiry") (other_row r (codes "expiry") i (codes "expiry") q)))
            v.1
    ],
  )

  put_user-Clean :
      (r : Bytes) (s : K.State) (i : Bytes) → Clean s i → Clean (K.put r (codes "user") u s).1 i
  put_user-Clean r s i v =
      Clean-user r s _ (λ i j h. L.put_other r (codes "user") u i j s h)
        (Blank-either _ _ u (L.put_either r (codes "user") u s)) i v

  put_expiry-Clean :
      (r : Bytes) (s : K.State) (i : Bytes) → Clean s i → Clean (K.put r (codes "expiry") e s).1 i
  put_expiry-Clean r s i v =
      Clean-expiry r s _ (λ i j h. L.put_other r (codes "expiry") e i j s h)
        (Blank-either _ _ e (L.put_either r (codes "expiry") e s)) i v

  del_user-Clean :
      (r : Bytes) (s : K.State) (i : Bytes) → Clean s i → Clean (K.del r (codes "user") s).1 i
  del_user-Clean r s i v =
      Clean-user r s _ (λ i j h. L.del_other r (codes "user") i j s h)
        (Blank-cleared _ _ u (L.del_either r (codes "user") s)) i v

  del_expiry-Clean :
      (r : Bytes) (s : K.State) (i : Bytes) → Clean s i → Clean (K.del r (codes "expiry") s).1 i
  del_expiry-Clean r s i v =
      Clean-expiry r s _ (λ i j h. L.del_other r (codes "expiry") i j s h)
        (Blank-cleared _ _ e (L.del_either r (codes "expiry") s)) i v

  store_row-Clean :
      (r : Bytes) (s : K.State) (i : Bytes) → Clean s i → Clean (store_row K u e r s).1 i
  unfolding store_row
  store_row-Clean r s i v =
      let user = put_user-Clean r s i v in
      let s₁ = (K.put r (codes "user") u s).1 in
      let both = put_expiry-Clean r s₁ i user in
      let s₂ = (K.put r (codes "expiry") e s₁).1 in
      if_elim (λ (p : Bool × K.State). Clean p.1 i) (K.put r (codes "user") u s).0 _ _
        (λ _.
          if_elim (λ (p : Bool × K.State). Clean p.1 i) (K.put r (codes "expiry") e s₁).0 _ _
            (λ _. both) λ _. del_expiry-Clean r _ i (del_user-Clean r s₂ i both))
        λ _. user

  pub store_rows-Clean :
      (rows : List Bytes) (s : K.State) (i : Bytes)
      → Clean s i
      → Clean (store_rows K u e rows s).1 i
  unfolding store_rows
  store_rows-Clean [] s i v = v
  store_rows-Clean (r ∷ rows) s i v = store_rows-Clean rows _ i (store_row-Clean r s i v)

  store_row_other :
      (r : Bytes) (s : K.State) (i j : Bytes)
      → bytes_eq r i ≡ false
      → L.view (store_row K u e r s).1 i j ≡ L.view s i j
  unfolding store_row
  store_row_other r s i j h =
      let off = λ (c : Bytes). other_row r c i j h in
      let s₁ = (K.put r (codes "user") u s).1 in
      let s₂ = (K.put r (codes "expiry") e s₁).1 in
      let s₃ = (K.del r (codes "user") s₂).1 in
      let one = L.put_other r (codes "user") u i j s (off _) in
      let two = L.put_other r (codes "expiry") e i j s₁ (off _) ∙ one in
      if_elim (λ (p : Bool × K.State). L.view p.1 i j ≡ L.view s i j) (K.put r (codes "user") u s).0
        _ _
        (λ _.
          if_elim (λ (p : Bool × K.State). L.view p.1 i j ≡ L.view s i j)
            (K.put r (codes "expiry") e s₁).0 _ _ (λ _. two)
            λ _.
              L.del_other r (codes "expiry") i j s₃ (off _)
              ∙ L.del_other r (codes "user") i j s₂ (off _)
              ∙ two)
        λ _. one

  store_row-Full :
      (r : Bytes) (s : K.State) → (store_row K u e r s).0 ≡ true → Full (store_row K u e r s).1 r
  unfolding store_row
  store_row-Full r s =
      let s₁ = (K.put r (codes "user") u s).1 in
      if_elim (λ (p : Bool × K.State). p.0 ≡ true → Full p.1 r) (K.put r (codes "user") u s).0 _ _
        (λ a.
          if_elim (λ (p : Bool × K.State). p.0 ≡ true → Full p.1 r)
            (K.put r (codes "expiry") e s₁).0 _ _
            (λ b _. (
              L.put_other r (codes "expiry") e r (codes "user") s₁ (expiry_not_user r r)
                  ∙ L.put_done r (codes "user") u s a,
              L.put_done r (codes "expiry") e s₁ b,
            ))
            λ _ h. cc)
        λ _ h. cc

  -- One of the rows is full.
  abbrev pub SomeFull : K.State → List Bytes → Type 0
  SomeFull s [] = ⊥
  SomeFull s (r ∷ rows) = Full s r ⊎ SomeFull s rows

  store_rows_other :
      (rows : List Bytes) (s : K.State) (i j : Bytes)
      → All (λ q. bytes_eq q i ≡ false) rows
      → L.view (store_rows K u e rows s).1 i j ≡ L.view s i j
  unfolding store_rows
  store_rows_other [] s i j h = refl
  store_rows_other (r ∷ rows) s i j h =
      store_rows_other rows _ i j h.1 ∙ store_row_other r s i j h.0

-- No two rows are the same.
abbrev pub Apart : List Bytes → Type 0
Apart [] = Unit
Apart (r ∷ rows) = All (λ q. bytes_eq q r ≡ false) rows × Apart rows

module _ (K : Kv) (L : IsLawful K) (u e : Bytes) where
  -- Where rows were stored, one of them is full in the end.
  pub store_rows-SomeFull :
      (rows : List Bytes) (s : K.State)
      → Apart rows
      → 0 < (store_rows K u e rows s).0
      → SomeFull K L u e (store_rows K u e rows s).1 rows
  unfolding store_rows
  store_rows-SomeFull [] s a h = absurd (omega (arith, h))
  store_rows-SomeFull (r ∷ rows) s a h = elim (Bool-cases (store_row K u e r s).0) [
    | inl q ↦
        let full = store_row-Full K L u e r s q in
        let t = (store_row K u e r s).1 in
        inl (
          store_rows_other K L u e rows t r (codes "user") a.0 ∙ full.0,
          store_rows_other K L u e rows t r (codes "expiry") a.0 ∙ full.1,
        )
    | inr q ↦ inr (store_rows-SomeFull rows _ a.1 (ground (arith, q, h)))
  ]
