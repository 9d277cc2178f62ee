-- ===== src/Coordinator/Initial/Freshest.antt =====
-- coordinator/src/coordinator.cc: which nodes the first roles make primaries.
use ncloud.Common.{
  ℕ, ◌≤◌, ◌≡◌, refl, ap, sym, subst, ◌∙◌, ◌⊎◌, inl, inr, Option, none, some, List, [], ◌∷◌, Bytes,
  true, ltb, ◌||◌, arith, All, if_elim, Bool-cases, bytes_eq, bytes_eq_iff, bytes_eq_self,
}
use ncloud.Common.Dict.{Dict, lookup}
use ncloud.Coordinator.{StorageNode, TabletGroup, node_tablet_lsn}
use ncloud.Coordinator.Network.{live}
use ncloud.Coordinator.Election.{contains}
use ncloud.Coordinator.Failover.{replace_first, swap_first}
use ncloud.Coordinator.Initial.{better, best_node, planned_ids, planned, first_live}

-- A node that is alive, and no live node of the tablet has a larger LSN of it.
abbrev pub Chosen : Dict StorageNode → TabletGroup → StorageNode → Type 0
Chosen nodes tg n =
    ((id : Bytes) × (live (lookup id nodes) ≡ some n))
    × All
        (λ id.
          (m : StorageNode)
          → live (lookup id nodes) ≡ some m
          → node_tablet_lsn m tg.name ≤ node_tablet_lsn n tg.name)
        tg.node_ids

-- One of the tablets, which has the name, may choose the node.
abbrev pub ChosenIn : Dict StorageNode → List TabletGroup → StorageNode → Bytes → Type 0
ChosenIn nodes [] n name = ⊥
ChosenIn nodes (tg ∷ tgs) n name =
    ((name ≡ tg.name) × Chosen nodes tg n) ⊎ ChosenIn nodes tgs n name

contains-All : (ids : List Bytes) → All (λ i. contains i ids ≡ true) ids
unfolding contains
contains-All [] = tt
contains-All (i ∷ ids) = (ground (arith, bytes_eq_self i), later i ids ids (contains-All ids))
  where
    later :
        (i : Bytes) (ids js : List Bytes)
        → All (λ j. contains j ids ≡ true) js
        → All (λ j. (bytes_eq i j || contains j ids) ≡ true) js
    later i ids [] h = tt
    later i ids (j ∷ js) h = (ground (arith, h.0), later i ids js h.1)

replace_first-some :
    (id x : Bytes) (ids : List Bytes)
    → contains id ids ≡ true
    → (r : List Bytes) × (replace_first id x ids ≡ some r)
unfolding replace_first contains
replace_first-some id x [] h = cc h
replace_first-some id x (j ∷ ids) h = elim (Bool-cases (bytes_eq j id)) [
  | inl e ↦ (x ∷ ids, rw e refl)
  | inr e ↦
      let (r, q) = replace_first-some id x ids (ground (arith, h, e)) in (j ∷ r, rw e (rw q refl))
]

swap_first-first :
    (id : Bytes) (ids : List Bytes)
    → contains id ids ≡ true
    → (rest : List Bytes) × (swap_first id ids ≡ id ∷ rest)
unfolding swap_first contains
swap_first-first id [] h = cc h
swap_first-first id (x ∷ ids) h = elim (Bool-cases (bytes_eq x id)) [
  | inl e ↦ (ids, rw e (ap (λ j. j ∷ ids) ((bytes_eq_iff x id).0 e)))
  | inr e ↦ let (r, q) = replace_first-some id x ids (ground (arith, h, e)) in (r, rw e (rw q refl))
]

module _ (name : Bytes) (nodes : Dict StorageNode) where
  -- The choice has at least the LSN.
  abbrev AtLeast : ℕ → Option (Bytes × ℕ) → Type 0
  AtLeast k none = ⊥
  AtLeast k (some (id, lsn)) = k ≤ lsn

  -- The choice is of a live node of the list, with its LSN.
  abbrev Valid : List Bytes → Option (Bytes × ℕ) → Type 0
  Valid ids none = Unit
  Valid ids (some (id, lsn)) =
      (contains id ids ≡ true)
      × ((n : StorageNode) × (live (lookup id nodes) ≡ some n) × (node_tablet_lsn n name ≡ lsn))

  better-AtLeast :
      (k : ℕ) (id : Bytes) (o : Option StorageNode) (best : Option (Bytes × ℕ))
      → AtLeast k best
      → AtLeast k (better name id o best)
  unfolding better
  better-AtLeast k id none best h = h
  better-AtLeast k id (some n) none h = absurd h
  better-AtLeast k id (some n) (some (old, lsn)) h =
      if_elim (AtLeast k) (ltb lsn (node_tablet_lsn n name)) _ (some (old, lsn))
        (λ e. ground (arith, e, h)) (λ _. h)

  better-AtLeast_self :
      (id : Bytes) (n : StorageNode) (best : Option (Bytes × ℕ))
      → AtLeast (node_tablet_lsn n name) (better name id (some n) best)
  unfolding better
  better-AtLeast_self id n none = omega arith
  better-AtLeast_self id n (some (old, lsn)) =
      if_elim (AtLeast (node_tablet_lsn n name)) (ltb lsn (node_tablet_lsn n name)) _
        (some (old, lsn)) (λ _. omega arith) (λ e. ground (arith, e))

  better-Valid :
      (ids : List Bytes) (id : Bytes) (o : Option StorageNode) (best : Option (Bytes × ℕ))
      → live (lookup id nodes) ≡ o
      → contains id ids ≡ true
      → Valid ids best
      → Valid ids (better name id o best)
  unfolding better
  better-Valid ids id none best e c v = v
  better-Valid ids id (some n) none e c v = (c, (n, e, refl))
  better-Valid ids id (some n) (some (old, lsn)) e c v =
      if_elim (Valid ids) (ltb lsn (node_tablet_lsn n name)) _ (some (old, lsn))
        (λ _. (c, (n, e, refl))) (λ _. v)

  best_node-AtLeast :
      (k : ℕ) (ids : List Bytes) (best : Option (Bytes × ℕ))
      → AtLeast k best
      → AtLeast k (best_node name nodes ids best)
  unfolding best_node
  best_node-AtLeast k [] best h = h
  best_node-AtLeast k (id ∷ ids) best h =
      best_node-AtLeast k ids _ (better-AtLeast k id (live (lookup id nodes)) best h)

  -- Every live node of the list is taken into account.
  best_node-All :
      (ids : List Bytes) (best : Option (Bytes × ℕ))
      → All
          (λ id.
            (m : StorageNode)
            → live (lookup id nodes) ≡ some m
            → AtLeast (node_tablet_lsn m name) (best_node name nodes ids best))
          ids
  unfolding best_node
  best_node-All [] best = tt
  best_node-All (id ∷ ids) best = (
    λ m e. best_node-AtLeast (node_tablet_lsn m name) ids _ (
        subst (λ o. AtLeast (node_tablet_lsn m name) (better name id o best)) (sym e)
          (better-AtLeast_self id m best)),
    best_node-All ids _,
  )

  best_node-Valid :
      (all ids : List Bytes) (best : Option (Bytes × ℕ))
      → All (λ i. contains i all ≡ true) ids
      → Valid all best
      → Valid all (best_node name nodes ids best)
  unfolding best_node
  best_node-Valid all [] best c v = v
  best_node-Valid all (id ∷ ids) best c v =
      best_node-Valid all ids _ c.1 (better-Valid all id (live (lookup id nodes)) best refl c.0 v)

  -- The first of the planned nodes, if it is alive, is the best one.
  first_live-best :
      (ids js : List Bytes) (o : Option (Bytes × ℕ)) (n : StorageNode)
      → Valid ids o
      → All
          (λ id.
            (m : StorageNode)
            → live (lookup id nodes) ≡ some m
            → AtLeast (node_tablet_lsn m name) o)
          js
      → first_live nodes (planned_ids ids o) ≡ some n
      → ids ≡ js
      → All
          (λ id.
            (m : StorageNode)
            → live (lookup id nodes) ≡ some m
            → node_tablet_lsn m name ≤ node_tablet_lsn n name)
          js
  unfolding first_live planned_ids
  first_live-best ids [] o n v a e q = tt
  first_live-best ids (j ∷ js) none n v a e q = absurd (a.0 n (ap (first_live nodes) (sym q) ∙ e))
  first_live-best ids (j ∷ js) (some (id, lsn)) n v a e q =
      let (c, place) = v in
      let (m, there, size) = place in
      let (rest, shape) = swap_first-first id ids c in
      let same : m ≡ n = cc (there, ap (first_live nodes) (sym shape) ∙ e) in
      let lsn_of : node_tablet_lsn n name ≡ lsn =
        ap (λ k. node_tablet_lsn k name) (sym same) ∙ size in
      lift n (j ∷ js) (λ k h. omega (arith, h, lsn_of)) a
    where
      lift :
          {lsn : ℕ} (n : StorageNode) (xs : List Bytes)
          → ((k : ℕ) → k ≤ lsn → k ≤ node_tablet_lsn n name)
          → All
              (λ id.
                (m : StorageNode) → live (lookup id nodes) ≡ some m → node_tablet_lsn m name ≤ lsn)
              xs
          → All
              (λ id.
                (m : StorageNode)
                → live (lookup id nodes) ≡ some m
                → node_tablet_lsn m name ≤ node_tablet_lsn n name)
              xs
      lift n [] f h = tt
      lift n (x ∷ xs) f h = ((λ m e. f _ (h.0 m e)), lift n xs f h.1)

first_live-id :
    (nodes : Dict StorageNode) (ids : List Bytes) (n : StorageNode)
    → first_live nodes ids ≡ some n
    → (id : Bytes) × (live (lookup id nodes) ≡ some n)
unfolding first_live
first_live-id nodes [] n e = cc e
first_live-id nodes (id ∷ ids) n e = (id, e)

-- The first node that is planned for a tablet, if it is alive, has the largest LSN of the live ones.
pub planned-Chosen :
    (nodes : Dict StorageNode) (tg : TabletGroup) (n : StorageNode)
    → first_live nodes (planned nodes tg).node_ids ≡ some n
    → Chosen nodes tg n
unfolding planned
planned-Chosen nodes tg n e = (
  first_live-id nodes _ n e,
  first_live-best tg.name nodes tg.node_ids tg.node_ids _ n
      (best_node-Valid tg.name nodes tg.node_ids tg.node_ids none (contains-All tg.node_ids) tt)
      (best_node-All tg.name nodes tg.node_ids none) e refl,
)
