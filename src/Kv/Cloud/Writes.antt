-- ===== src/Kv/Cloud/Writes.antt =====
-- The three writes of a tablet without replicas, as changes of a cell.
use ncloud.Common.{
  ◌≡◌, refl, sym, ◌∙◌, inl, inr, Option, none, some, Bytes, codes, Bool, true, false, ◌&&◌,
  if◌then◌else◌, if_elim, Bool-cases, arith, bytes_eq_self,
}
use ncloud.Common.Search.{starts_with}
use ncloud.Rows.{cell}
use ncloud.Tablet.{Tablet, Outcome, put, cput, del}
use ncloud.Tablet.Cells.{IsIndexed, get-eq-cell}
use ncloud.Tablet.Calls.{is_cell, put-cell, put-IsIndexed, cput-IsIndexed, del-IsIndexed}
use ncloud.Tablet.Refine.{cput_refines, del_refines, cput-cell, del-cell}
use ncloud.Protocol.{ok_response, err_response, read_response, read_line}
use ncloud.Kv.Cloud.Changed.{Cells, Changed}
use ncloud.Kv.Cloud.Node.{Written, IsLocal, Succeeds, cells}
use ncloud.KvClient.{write_error, success_reply}
use ncloud.Server.{Env, HostedTablet, put_row, cput_row, delete_row, local_response}

-- The refusals of a node are read as such.
abbrev Refuses : Bytes → Type 0
Refuses text = success_reply (some (err_response text)) ≡ write_error

refused_put : Refuses (codes "PUT failed")
unfolding success_reply read_response read_line err_response starts_with
refused_put = refl

refused_cput : Refuses (codes "value mismatch")
unfolding success_reply read_response read_line err_response starts_with
refused_cput = refl

refused_delete : Refuses (codes "DELETE failed")
unfolding success_reply read_response read_line err_response starts_with
refused_delete = refl

module _ (row col : Bytes) (new : Option Bytes) (Old : Option Bytes → Type 0) where
  if-Changed :
      (b : Bool) (a c : Cells)
      → ((i j : Bytes) → c i j ≡ (if b && is_cell row col i j then new else a i j))
      → (b ≡ true → Old (a row col))
      → Changed row col new Old a c
  if-Changed b a c h o = record {
    either = elim (Bool-cases b) [
      | inl e ↦ inl (o e, h row col ∙ ground (arith, e, bytes_eq_self row, bytes_eq_self col))
      | inr e ↦ inr (h row col ∙ ground (arith, e))
    ];
    other = λ i j e. h i j ∙ ground (arith, e);
  }

  local_response-Written :
      (text : Bytes) (h : HostedTablet) (x : Outcome × Tablet)
      → Refuses text
      → h.replicated ≡ false
      → IsIndexed x.1
      → Changed row col new Old (cells h) (λ i j. cell i j x.1.rows)
      → (x.0.ok ≡ true → Old (cells h row col) × (cell row col x.1.rows ≡ new))
      → Written row col new Old h (local_response text x h)
  unfolding local_response
  local_response-Written text h x refused local v changed done = record {
    first = refl;
    last = refl;
    local = (local, v);
    changed = changed;
    success =
        if_elim (λ out. Succeeds out → Old (cells h row col) × (cell row col x.1.rows ≡ new)) x.0.ok
          ok_response (err_response text) (λ e _. done e) (λ _ s. cc (refused, s));
  }

module _ (env : Env) (row col : Bytes) (h : HostedTablet) (l : IsLocal h) where
  pub put_row-Written :
      (val : Bytes) → Written row col (some val) (λ _. Unit) h (put_row env row col val h)
  unfolding put_row
  put_row-Written val =
      let t = h.manager.tablet in
      if_elim (Written row col (some val) (λ _. Unit) h) h.replicated _ _ (λ e. cc (e, l.0))
        (λ _.
          local_response-Written row col (some val) (λ _. Unit) (codes "PUT failed") h
            (put env.log row col val t) refused_put l.0 (put-IsIndexed env.log row col val t l.1)
            (if-Changed row col (some val) (λ _. Unit) (put env.log row col val t).0.ok (cells h) _
              (λ i j. put-cell env.log row col val i j t) (λ _. tt))
            (λ e. (
              tt,
              put-cell env.log row col val row col t
                  ∙ ground (arith, e, bytes_eq_self row, bytes_eq_self col),
            )))

  pub cput_row-Written :
      (v1 v2 : Bytes)
      → Written row col (some v2) (λ o. o ≡ some v1) h (cput_row env row col v1 v2 h)
  unfolding cput_row
  cput_row-Written v1 v2 =
      let t = h.manager.tablet in
      let old : (cput env.log row col v1 v2 t).0.ok ≡ true → cell row col t.rows ≡ some v1 =
        λ e. sym (get-eq-cell row col t l.1) ∙ (cput_refines env.log row col v1 v2 t l.1).2 e in
      if_elim (Written row col (some v2) (λ o. o ≡ some v1) h) h.replicated _ _ (λ e. cc (e, l.0))
        (λ _.
          local_response-Written row col (some v2) (λ o. o ≡ some v1) (codes "value mismatch") h
            (cput env.log row col v1 v2 t) refused_cput l.0
            (cput-IsIndexed env.log row col v1 v2 t l.1)
            (if-Changed row col (some v2) (λ o. o ≡ some v1) (cput env.log row col v1 v2 t).0.ok
              (cells h) _ (λ i j. cput-cell env.log row col v1 v2 i j t) old)
            (λ e. (
              old e,
              cput-cell env.log row col v1 v2 row col t
                  ∙ ground (arith, e, bytes_eq_self row, bytes_eq_self col),
            )))

  pub delete_row-Written : Written row col none (λ _. Unit) h (delete_row env row col h)
  unfolding delete_row
  delete_row-Written =
      let t = h.manager.tablet in
      let v = del-IsIndexed env.log row col t l.1 in
      if_elim (Written row col none (λ _. Unit) h) h.replicated _ _ (λ e. cc (e, l.0))
        (λ _.
          local_response-Written row col none (λ _. Unit) (codes "DELETE failed") h
            (del env.log row col t) refused_delete l.0 v
            (if-Changed row col none (λ _. Unit) (del env.log row col t).0.deleted (cells h) _
              (λ i j. del-cell env.log row col i j t) (λ _. tt))
            (λ e. (tt, sym (get-eq-cell row col _ v) ∙ (del_refines env.log row col t l.1).2 e)))
