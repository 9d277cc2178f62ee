-- ===== src/Coordinator/Election.antt =====
-- coordinator/src/coordinator.cc: `handle_node_failure`, what the coordinator does when a node is
-- found down: a new primary for the tablets that lost theirs, and a smaller replica set for the
-- others.
use ncloud.Common.{
  ℕ, Option, none, some, List, [], ◌∷◌, Bytes, bytes_eq, Bool, false, ltb, if◌then◌else◌, ◌||◌,
}
use ncloud.Common.Dict.{Dict, lookup}
use ncloud.Coordinator.{StorageNode, TabletGroup, node_tablet_lsn, tablet_max_known_lsn}
use ncloud.Coordinator.Network.{live}

-- A node that may become the primary of a tablet, with those that would follow it.
pub record ElectionCandidate : Type 0 where
  pub primary : StorageNode
  pub followers : List StorageNode
  pub lsn : ℕ

-- What is to be done for one tablet: nothing, a new replica set for its primary, or an election
-- with the largest LSN that is known.
pub data Plan : Type 0 where
  no_plan : Plan
  rebuild : Bytes → StorageNode → List StorageNode → Plan
  elect : Bytes → List ElectionCandidate → ℕ → Plan

keep_live : Option StorageNode → List StorageNode → List StorageNode
keep_live none ns = ns
keep_live (some n) ns = n ∷ ns

-- The nodes of these names that are alive, without two of them.
unfoldable pub alive_except : Dict StorageNode → Bytes → Bytes → List Bytes → List StorageNode
unfolding keep_live
alive_except nodes a b [] = []
alive_except nodes a b (id ∷ ids) =
    let rest = alive_except nodes a b ids in
    if bytes_eq id a || bytes_eq id b then rest else keep_live (live (lookup id nodes)) rest

keep_candidate :
    Dict StorageNode
    → TabletGroup
    → Bytes
    → Bytes
    → Option StorageNode
    → List ElectionCandidate
    → List ElectionCandidate
keep_candidate nodes tg dead id none cs = cs
keep_candidate nodes tg dead id (some n) cs =
    record {
      primary = n;
      followers = alive_except nodes dead id tg.node_ids;
      lsn = node_tablet_lsn n tg.name;
    }
    ∷ cs

unfoldable pub candidates :
    Dict StorageNode → TabletGroup → Bytes → List Bytes → List ElectionCandidate
unfolding keep_candidate
candidates nodes tg dead [] = []
candidates nodes tg dead (id ∷ ids) =
    let rest = candidates nodes tg dead ids in
    if bytes_eq id dead then rest else keep_candidate nodes tg dead id (live (lookup id nodes)) rest

unfoldable pub insert_candidate :
    ElectionCandidate → List ElectionCandidate → List ElectionCandidate
insert_candidate c [] = c ∷ []
insert_candidate c (d ∷ ds) =
    let rest = insert_candidate c ds in if ltb c.lsn d.lsn then d ∷ rest else c ∷ d ∷ ds

-- The candidates with the largest LSN first. The order of equal ones is not fixed by the source.
unfoldable pub sort_candidates : List ElectionCandidate → List ElectionCandidate
unfolding insert_candidate
sort_candidates [] = []
sort_candidates (c ∷ cs) = insert_candidate c (sort_candidates cs)

unfoldable pub election : Bytes → ℕ → List ElectionCandidate → Plan
election name largest [] = no_plan
election name largest (c ∷ cs) = elect name (c ∷ cs) largest

unfoldable pub contains : Bytes → List Bytes → Bool
contains id [] = false
contains id (j ∷ ids) = bytes_eq j id || contains id ids

unfoldable pub plan_with :
    Dict StorageNode → Bytes → TabletGroup → Bytes → List Bytes → Option StorageNode → Plan
plan_with nodes dead tg first ids none =
    election tg.name (tablet_max_known_lsn nodes tg)
      (sort_candidates (candidates nodes tg dead tg.node_ids))
plan_with nodes dead tg first ids (some p) =
    if bytes_eq first dead
    then election tg.name (tablet_max_known_lsn nodes tg)
        (sort_candidates (candidates nodes tg dead tg.node_ids))
    else rebuild tg.name p (alive_except nodes dead dead ids)

unfoldable pub plan_ids : Dict StorageNode → Bytes → TabletGroup → List Bytes → Plan
unfolding plan_with
plan_ids nodes dead tg [] = no_plan
plan_ids nodes dead tg (first ∷ ids) =
    if contains dead (first ∷ ids)
    then plan_with nodes dead tg first ids (live (lookup first nodes))
    else no_plan

unfoldable pub plan_tablet : Dict StorageNode → Bytes → TabletGroup → Plan
unfolding plan_ids contains election
plan_tablet nodes dead tg = plan_ids nodes dead tg tg.node_ids
