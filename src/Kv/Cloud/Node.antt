-- ===== src/Kv/Cloud/Node.antt =====
-- A write to the tablet of its row, among the tablets of a storage node.
use ncloud.Common.{
  ◌≡◌, refl, Option, some, List, [], ◌∷◌, Bytes, codes, true, false, if◌then◌else◌, if_elim,
}
use ncloud.Rows.{cell}
use ncloud.Tablet.Cells.{IsIndexed}
use ncloud.Protocol.{err_response, read_response, read_line}
use ncloud.Common.Search.{starts_with}
use ncloud.Kv.Cloud.{view, Local}
use ncloud.Kv.Cloud.Changed.{Cells, Changed, Changed-refl}
use ncloud.KvClient.{write_ok, write_error, success_reply}
use ncloud.Server.{HostedTablet, on_row, row_in_range}

abbrev pub IsLocal : HostedTablet → Type 0
IsLocal h = (h.replicated ≡ false) × IsIndexed h.manager.tablet

abbrev pub cells : HostedTablet → Cells
cells h = λ i j. cell i j h.manager.tablet.rows

abbrev pub Succeeds : Bytes → Type 0
Succeeds out = success_reply (some out) ≡ write_ok

module _ (row col : Bytes) (new : Option Bytes) (Old : Option Bytes → Type 0) where
  -- A tablet that has handled a write, with the answer.
  pub record Written (h : HostedTablet) (r : Bytes × HostedTablet) : Type 0 where
    pub first : r.1.row_start ≡ h.row_start
    pub last : r.1.row_end ≡ h.row_end
    pub local : IsLocal r.1
    pub changed : Changed row col new Old (cells h) (cells r.1)
    pub success : Succeeds r.0 → Old (cells h row col) × (cells r.1 row col ≡ new)

  -- The same of all tablets of a node.
  pub record Stored (hs : List HostedTablet) (r : Bytes × List HostedTablet) : Type 0 where
    pub local : Local r.1
    pub changed : Changed row col new Old (view hs) (view r.1)
    pub success : Succeeds r.0 → Old (view hs row col) × (view r.1 row col ≡ new)

  not_hosted :
      Succeeds (err_response (codes "row not hosted on this server")) → write_error ≡ write_ok
  unfolding success_reply read_response read_line err_response starts_with
  not_hosted e = e

  module _ (f : HostedTablet → Bytes × HostedTablet) where
    cons-Stored :
        (h : HostedTablet) (hs : List HostedTablet)
        → row_in_range row h.row_start h.row_end ≡ true
        → Local hs
        → Written h (f h)
        → Stored (h ∷ hs) ((f h).0, (f h).1 ∷ hs)
    unfolding view
    cons-Stored h hs e l w =
        let e' : row_in_range row (f h).1.row_start (f h).1.row_end ≡ true =
          rw (w.first, w.last) e in
        record {
          local = (w.local, l);
          changed = record {
            either = rw (e, e') w.changed.either;
            other = λ i j d.
                rw (w.first, w.last)
                  (if_elim
                    (λ (o : Option Bytes).
                      (if row_in_range i h.row_start h.row_end
                        then cells (f h).1 i j
                        else view hs i j)
                      ≡ o)
                    (row_in_range i h.row_start h.row_end) (cells h i j) (view hs i j)
                    (λ b. rw b (w.changed.other i j d)) (λ b. rw b refl));
          };
          success = rw (e, e') w.success;
        }

    skip-Stored :
        (h : HostedTablet) (hs : List HostedTablet) (r : Bytes × List HostedTablet)
        → row_in_range row h.row_start h.row_end ≡ false
        → IsLocal h
        → Stored hs r
        → Stored (h ∷ hs) (r.0, h ∷ r.1)
    unfolding view
    skip-Stored h hs r e l w = record {
      local = (l, w.local);
      changed = record {
        either = rw e w.changed.either;
        other = λ i j d.
            if_elim
              (λ (o : Option Bytes).
                (if row_in_range i h.row_start h.row_end then cells h i j else view r.1 i j) ≡ o)
              (row_in_range i h.row_start h.row_end) (cells h i j) (view hs i j) (λ b. rw b refl)
              (λ b. rw b (w.changed.other i j d));
      };
      success = rw e w.success;
    }

    pub on_row-Stored :
        (hs : List HostedTablet)
        → ((h : HostedTablet) → IsLocal h → Written h (f h))
        → Local hs
        → Stored hs (on_row row f hs)
    unfolding on_row view
    on_row-Stored [] w l = record {
      local = tt;
      changed = Changed-refl row col new Old (view []);
      success = λ e. cc (not_hosted e);
    }
    on_row-Stored (h ∷ hs) w l =
        if_elim (Stored (h ∷ hs)) (row_in_range row h.row_start h.row_end) _ _
          (λ e. cons-Stored h hs e l.1 (w h l.0))
          (λ e. skip-Stored h hs _ e l.0 (on_row-Stored hs w l.1))
