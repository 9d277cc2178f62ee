-- ===== src/Replication/Quorum.antt =====
-- Forwarding and the quorum: what `forward_to_all` answers, and what it leaves.
use ncloud.Common.{
  ℕ, ◌+◌, ◌*◌, ◌/◌, ◌<◌, ◌≡◌, ◌↔◌, refl, List, [], ◌∷◌, Bytes, length, true, arith, Bool-cases, inl,
  inr, ◌==◌,
}
use ncloud.Replication.{
  Manager, ReplicaInfo, Network, count_alive, forward_loop, forward_to_all, required_remote_acks,
}

-- The loop counts the replicas that it leaves alive.
forward_loop-acked :
    (net : Network) (msg : Bytes) (lsn : ℕ) (rs : List ReplicaInfo)
    → (forward_loop net msg lsn rs).0 ≡ count_alive (forward_loop net msg lsn rs).1
unfolding forward_loop count_alive
forward_loop-acked net msg lsn [] = refl
forward_loop-acked net msg lsn (r ∷ rs) = ground (arith, forward_loop-acked net msg lsn rs)

-- What forwarding leaves of the manager: all but the replicas.
pub forward_to_all-keeps :
    (net : Network) (msg : Bytes) (m : Manager)
    → (forward_to_all net msg m).1 ≡ record m { replicas = (forward_to_all net msg m).1.replicas }
unfolding forward_to_all
forward_to_all-keeps net msg m = elim (Bool-cases (required_remote_acks (length m.replicas) == 0)) [
  | inl e ↦ rw e refl
  | inr e ↦ rw e refl
]

required_remote_acks_lem : (n : ℕ) → required_remote_acks n ≡ (n + 1) / 2
unfolding required_remote_acks
required_remote_acks_lem n = ground arith

count_alive-nil : (rs : List ReplicaInfo) → length rs ≡ 0 → count_alive rs ≡ 0
unfolding count_alive
count_alive-nil [] h = refl
count_alive-nil (r ∷ rs) h = absurd (omega arith)

-- A message reaches the quorum exactly where the primary and the replicas that are marked alive by
-- the forwarding are more than half of the nodes.
pub forward_to_all-quorum :
    (net : Network) (msg : Bytes) (m : Manager)
    → ((forward_to_all net msg m).0 ≡ true)
      ↔ (length m.replicas + 1 < 2 * (count_alive (forward_to_all net msg m).1.replicas + 1))
unfolding forward_to_all
forward_to_all-quorum net msg m =
    elim (Bool-cases (required_remote_acks (length m.replicas) == 0)) [
      | inl e ↦
          rw e (
            ground
              (arith, required_remote_acks_lem (length m.replicas), count_alive-nil m.replicas))
      | inr e ↦ rw e (
          ground (
            arith,
            required_remote_acks_lem (length m.replicas),
            forward_loop-acked net msg m.tablet.lsn m.replicas,
          ))
    ]
