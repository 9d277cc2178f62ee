-- ===== src/Kv/Cloud/Reads.antt =====
-- A read of the client, which changes no cell and answers with what stands in its own.
use ncloud.Common.{
  ◌^◌, ◌<◌, ◌≤◌, ◌≡◌, refl, sym, ap, ◌∙◌, subst, Option, none, some, List, [], ◌∷◌, ◌++◌,
  append_assoc, append-nil, Bytes, codes, true, false, if◌then◌else◌, if_elim, length,
  length-append, arith, bytes_eq,
}
use ncloud.Common.Search.{starts_with}
use ncloud.Common.Decimal.{to_string}
use ncloud.Common.Decimal.Printed.{length-to_string, read_unsigned-to_string_only}
use ncloud.Codec.{read_exact}
use ncloud.Codec.Laws.{read_exact-append}
use ncloud.Rows.{cell}
use ncloud.Tablet.{Tablet, get}
use ncloud.Tablet.Cells.{get-eq-cell, same_table-IsIndexed}
use ncloud.Replication.Writes.Rollback.{get-rows, get-bloom}
use ncloud.Protocol.{err_response, ok_value_response, read_line}
use ncloud.Protocol.Lines.{read_line-append, to_string-InLine}
use ncloud.Server.{HostedTablet, on_row, row_in_range, get_row, get_response}
use ncloud.Kv.{found, not_found, unavailable, Tells}
use ncloud.Kv.Cloud.{view, Local}
use ncloud.Kv.Cloud.Node.{IsLocal, cells}
use ncloud.KvClient.{get_reply, get_line, value_reply}

missing_reply : get_reply (some (err_response (codes "not found"))) ≡ not_found
unfolding get_reply get_line read_line err_response starts_with bytes_eq
missing_reply = refl

not_hosted_reply :
    get_reply (some (err_response (codes "row not hosted on this server"))) ≡ unavailable
unfolding get_reply get_line read_line err_response starts_with bytes_eq
not_hosted_reply = refl

value_shape :
    (val : Bytes)
    → ok_value_response val ≡ (codes "+OK " ++ to_string (length val)) ++ (13 ∷ 10 ∷ val)
unfolding ok_value_response
value_shape val = sym (append_assoc (codes "+OK ") (to_string (length val)) (13 ∷ 10 ∷ val))

length-ok_value_response : (val : Bytes) → length val ≤ length (ok_value_response val)
length-ok_value_response val =
    rw (value_shape val)
      (omega (arith, length-append (codes "+OK " ++ to_string (length val)) (13 ∷ 10 ∷ val)))

value_line_reply :
    (val : Bytes)
    → length val < 2 ^ 32
    → get_line (some (codes "+OK " ++ to_string (length val), val)) ≡ found val
unfolding get_line value_reply starts_with
value_line_reply val h =
    ap (value_reply val) (read_unsigned-to_string_only (2 ^ 32) (length val) h (omega arith))
    ∙ (let e : read_exact (length val) val ≡ some (val, []) =
          ap (read_exact (length val)) (sym (append-nil val)) ∙ read_exact-append val [] in
        rw (e, value_reply) refl)

found_reply :
    (val : Bytes)
    → length (ok_value_response val) < 2 ^ 32
    → get_reply (some (ok_value_response val)) ≡ found val
unfolding get_reply
found_reply val h =
    ap (λ s. get_line (read_line s)) (value_shape val)
    ∙ ap get_line (
        read_line-append (codes "+OK " ++ to_string (length val)) val
          (refl, (refl, (refl, (refl, to_string-InLine (length val)))))
          (omega (arith, length-to_string (length val))))
    ∙ value_line_reply val (omega (arith, h, length-ok_value_response val))

-- A tablet, or the tablets of a node, that have handled a read, with the answer if it is short.
record Read (h : HostedTablet) (row col : Bytes) (r : Bytes × HostedTablet) : Type 0 where
  first : r.1.row_start ≡ h.row_start
  last : r.1.row_end ≡ h.row_end
  local : IsLocal r.1
  same : (i j : Bytes) → cells r.1 i j ≡ cells h i j
  tells : length r.0 < 2 ^ 32 → Tells (get_reply (some r.0)) (cells h row col)

pub record Looked (hs : List HostedTablet) (row col : Bytes) (r : Bytes × List HostedTablet)
    : Type 0 where
  pub local : Local r.1
  pub same : (i j : Bytes) → view r.1 i j ≡ view hs i j
  pub tells : length r.0 < 2 ^ 32 → Tells (get_reply (some r.0)) (view hs row col)

get_response-Tells :
    (o : Option Bytes) (t : Tablet) (h : HostedTablet)
    → length (get_response (o, t) h).0 < 2 ^ 32
    → Tells (get_reply (some (get_response (o, t) h).0)) o
unfolding get_response
get_response-Tells none t h short = subst (λ a. Tells a none) (sym missing_reply) refl
get_response-Tells (some val) t h short =
    subst (λ a. Tells a (some val)) (sym (found_reply val short)) refl

get_response-tablet :
    (o : Option Bytes) (t : Tablet) (h : HostedTablet)
    → (get_response (o, t) h).1 ≡ record h { manager = record h.manager { tablet = t } }
unfolding get_response
get_response-tablet none t h = refl
get_response-tablet (some val) t h = refl

get_row-Read : (row col : Bytes) (h : HostedTablet) → IsLocal h → Read h row col (get_row row col h)
unfolding get_row
get_row-Read row col h l =
    let t = h.manager.tablet in
    let r = get row col t in
    let e = get_response-tablet r.0 r.1 h in
    record {
      first = ap (λ (g : HostedTablet). g.row_start) e;
      last = ap (λ (g : HostedTablet). g.row_end) e;
      local =
          subst IsLocal (sym e)
            (l.0, same_table-IsIndexed t r.1 (get-rows row col t) (get-bloom row col t) l.1);
      same = λ i j. ap (λ (g : HostedTablet). cells g i j) e ∙ ap (cell i j) (get-rows row col t);
      tells = λ short.
          subst (Tells (get_reply (some (get_response r h).0))) (get-eq-cell row col t l.1)
            (get_response-Tells r.0 r.1 h short);
    }

cons-Looked :
    (h : HostedTablet) (hs : List HostedTablet) (row col : Bytes) (r : Bytes × HostedTablet)
    → row_in_range row h.row_start h.row_end ≡ true
    → Local hs
    → Read h row col r
    → Looked (h ∷ hs) row col (r.0, r.1 ∷ hs)
unfolding view
cons-Looked h hs row col r e l w = record {
  local = (w.local, l);
  same = λ i j.
      rw (w.first, w.last)
        (if_elim
          (λ (o : Option Bytes).
            (if row_in_range i h.row_start h.row_end then cells r.1 i j else view hs i j) ≡ o)
          (row_in_range i h.row_start h.row_end) (cells h i j) (view hs i j)
          (λ b. rw b (w.same i j)) (λ b. rw b refl));
  tells = rw e w.tells;
}

skip-Looked :
    (h : HostedTablet) (hs : List HostedTablet) (row col : Bytes) (r : Bytes × List HostedTablet)
    → row_in_range row h.row_start h.row_end ≡ false
    → IsLocal h
    → Looked hs row col r
    → Looked (h ∷ hs) row col (r.0, h ∷ r.1)
unfolding view
skip-Looked h hs row col r e l w = record {
  local = (l, w.local);
  same = λ i j.
      if_elim
        (λ (o : Option Bytes).
          (if row_in_range i h.row_start h.row_end then cells h i j else view r.1 i j) ≡ o)
        (row_in_range i h.row_start h.row_end) (cells h i j) (view hs i j) (λ b. rw b refl)
        (λ b. rw b (w.same i j));
  tells = rw e w.tells;
}

pub on_row-Looked :
    (row col : Bytes) (hs : List HostedTablet)
    → Local hs
    → Looked hs row col (on_row row (get_row row col) hs)
unfolding on_row view
on_row-Looked row col [] l = record {
  local = tt;
  same = λ i j. refl;
  tells = λ _. subst (λ a. Tells a none) (sym not_hosted_reply) tt;
}
on_row-Looked row col (h ∷ hs) l =
    if_elim (Looked (h ∷ hs) row col) (row_in_range row h.row_start h.row_end) _ _
      (λ e. cons-Looked h hs row col _ e l.1 (get_row-Read row col h l.0))
      (λ e. skip-Looked h hs row col _ e l.0 (on_row-Looked row col hs l.1))
