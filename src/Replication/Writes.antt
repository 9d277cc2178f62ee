-- ===== src/Replication/Writes.antt =====
-- kvstore/src/replication.h: the primary's PUT, CPUT and DELETE with their roll-back, and the
-- replica's two. `w` and `wr` say how the log takes the write and the roll-back.
pub mod Rollback
pub mod Client
pub mod Deletes
use ncloud.Common.{
  ℕ, ◌+◌, ◌%◌, ◌^◌, Option, none, some, Bytes, bytes_eq, Bool, true, false, leb, ◌==◌,
  if◌then◌else◌,
}
use ncloud.Tablet.{
  Tablet, Write, Outcome, put, get, cput, del, next_u64, apply_replicated_put,
  apply_replicated_delete,
}
use ncloud.Replication.{Manager, Network, make_repl_put, make_repl_delete, forward_to_all}

pub data KvPutStatus : Type 0 where
  ok quorum_unavailable mismatch error : KvPutStatus

-- What follows a roll-back that was tried: its message goes out and its answer is not looked at.
rolled_back : Network → (ℕ → Bytes) → Manager → Outcome × Tablet → Manager
rolled_back net msg m (o, t) =
    if o.ok
    then (forward_to_all net (msg o.assigned_lsn)
        (record m { tablet = t; last_repl_lsn = o.assigned_lsn })).1
    else record m { tablet = t }

pub roll_back_to : Network → Write → Bytes → Bytes → Bytes → Manager → Manager
unfolding rolled_back
roll_back_to net wr row col old m =
    rolled_back net (λ lsn. make_repl_put m.tablet_name lsn row col old) m
      (put wr row col old m.tablet)

pub roll_back_put : Network → Write → Bytes → Bytes → Option Bytes → Manager → Manager
unfolding rolled_back roll_back_to
roll_back_put net wr row col none m =
    rolled_back net (λ lsn. make_repl_delete m.tablet_name lsn row col) m (del wr row col m.tablet)
roll_back_put net wr row col (some old) m = roll_back_to net wr row col old m

-- The end of a write whose message went out.
settle : (Manager → Manager) → Bool × Manager → KvPutStatus × Manager
settle undo (true, m) = (ok, m)
settle undo (false, m) = (quorum_unavailable, undo m)

-- A local write, and the forwarding of its message if it succeeded.
pub forward_write :
    Network → (ℕ → Bytes) → (Manager → Manager) → Manager → Outcome × Tablet → KvPutStatus × Manager
unfolding settle
forward_write net msg undo m (o, t) =
    if o.ok
    then settle undo (
        forward_to_all net (msg o.assigned_lsn)
          (record m { tablet = t; last_repl_lsn = o.assigned_lsn }))
    else (error, record m { tablet = t })

put_over :
    Network
    → Write
    → Write
    → Bytes
    → Bytes
    → Bytes
    → Manager
    → Option Bytes × Tablet
    → KvPutStatus × Manager
unfolding forward_write roll_back_put
put_over net w wr row col val m (old, t) =
    forward_write net (λ lsn. make_repl_put m.tablet_name lsn row col val)
      (roll_back_put net wr row col old) m (put w row col val t)

unfoldable pub replicated_put :
    Network → Write → Write → Bytes → Bytes → Bytes → Manager → KvPutStatus × Manager
unfolding put_over
replicated_put net w wr row col val m =
    if m.is_primary then put_over net w wr row col val m (get row col m.tablet) else (error, m)

cput_over :
    Network
    → Write
    → Write
    → Bytes
    → Bytes
    → Bytes
    → Bytes
    → Manager
    → Option Bytes × Tablet
    → KvPutStatus × Manager
unfolding forward_write roll_back_to
cput_over net w wr row col expected replacement m (none, t) = (mismatch, record m { tablet = t })
cput_over net w wr row col expected replacement m (some old, t) =
    if bytes_eq old expected
    then forward_write net (λ lsn. make_repl_put m.tablet_name lsn row col replacement)
        (roll_back_to net wr row col old) m (cput w row col expected replacement t)
    else (mismatch, record m { tablet = t })

unfoldable pub replicated_cput :
    Network → Write → Write → Bytes → Bytes → Bytes → Bytes → Manager → KvPutStatus × Manager
unfolding cput_over
replicated_cput net w wr row col expected replacement m =
    if m.is_primary
    then cput_over net w wr row col expected replacement m (get row col m.tablet)
    else (error, m)

roll_back_delete : Network → Write → Bytes → Bytes → Option Bytes → Manager → Manager
unfolding roll_back_to
roll_back_delete net wr row col none m = m
roll_back_delete net wr row col (some old) m = roll_back_to net wr row col old m

delete_over :
    Network
    → Write
    → Write
    → Bytes
    → Bytes
    → Manager
    → Option Bytes
    → Outcome × Tablet
    → KvPutStatus × Manager
unfolding forward_write roll_back_delete
delete_over net w wr row col m old (o, t) =
    if o.ok
    then if o.deleted
      then forward_write net (λ lsn. make_repl_delete m.tablet_name lsn row col)
          (roll_back_delete net wr row col old) m (o, t)
      else (ok, record m { tablet = t })
    else (error, record m { tablet = t })

delete_found :
    Network
    → Write
    → Write
    → Bytes
    → Bytes
    → Manager
    → Option Bytes × Tablet
    → KvPutStatus × Manager
unfolding delete_over
delete_found net w wr row col m (old, t) = delete_over net w wr row col m old (del w row col t)

unfoldable pub replicated_delete :
    Network → Write → Write → Bytes → Bytes → Manager → KvPutStatus × Manager
unfolding delete_found
replicated_delete net w wr row col m =
    if m.is_primary then delete_found net w wr row col m (get row col m.tablet) else (error, m)

-- The replica's part. `lsn` is the primary's, and the tablet checks it again.
acknowledge : ℕ → Manager → Bool × Tablet → Bool × Manager
acknowledge lsn m (false, t) = (false, record m { tablet = t })
acknowledge lsn m (true, t) = (true, record m { tablet = t; last_repl_lsn = lsn })

unfoldable pub apply_replicate_put : Write → ℕ → Bytes → Bytes → Bytes → Manager → Bool × Manager
unfolding acknowledge
apply_replicate_put w lsn row col val m =
    if leb lsn m.tablet.lsn
    then (true, record m { last_repl_lsn = m.tablet.lsn })
    else if lsn == next_u64 m.tablet.lsn
    then acknowledge lsn m (apply_replicated_put w row col val lsn m.tablet)
    else (false, m)

unfoldable pub apply_replicate_delete : Write → ℕ → Bytes → Bytes → Manager → Bool × Manager
unfolding acknowledge
apply_replicate_delete w lsn row col m =
    if leb lsn m.tablet.lsn
    then (true, record m { last_repl_lsn = m.tablet.lsn })
    else if lsn == next_u64 m.tablet.lsn
    then acknowledge lsn m (apply_replicated_delete w row col lsn m.tablet)
    else (false, m)
