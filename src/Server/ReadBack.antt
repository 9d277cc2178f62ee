-- ===== src/Server/ReadBack.antt =====
-- What a client reads over the wire after a PUT that was answered with success.
use ncloud.Common.{
  ◌≡◌, ◌≢◌, refl, ap, ◌∙◌, sym, subst, some, none, Option, List, [], ◌∷◌, ◌++◌, Bytes, codes, All,
  true, false, arith, if_elim, Bool-cases, inl, inr, bytes_eq_self,
}
use ncloud.Tablet.{Tablet, Write, whole, put, get}
use ncloud.Tablet.Cells.{IsIndexed}
use ncloud.Tablet.Refine.{put_refines}
use ncloud.Replication.{Manager, Network}
use ncloud.Replication.Writes.{KvPutStatus, ok, quorum_unavailable, mismatch, error, replicated_put}
use ncloud.Replication.Writes.Rollback.{is_ok}
use ncloud.Replication.Writes.Client.{replicated_put_lem}
use ncloud.Protocol.{send_put, send_get, ok_response, ok_value_response, err_response}
use ncloud.Server.{
  Env, HostedTablet, answered, handle_request, on_row, row_in_range, put_row, get_row, get_response,
  status_response, local_response,
}
use ncloud.Server.Requests.{Fits, put_request, get_request}

-- Every tablet's filter covers its rows.
abbrev pub AllIndexed : List HostedTablet → Type 0
AllIndexed hs = All (λ h. IsIndexed h.manager.tablet) hs

err-ne-ok : (msg : Bytes) → err_response msg ≢ ok_response
unfolding err_response
err-ne-ok msg h = cc

get_response-some :
    (o : Option Bytes) (t : Tablet) (val : Bytes) (h : HostedTablet)
    → o ≡ some val
    → (get_response (o, t) h).0 ≡ ok_value_response val
unfolding get_response
get_response-some none t val h e = cc
get_response-some (some v) t val h e = ap ok_value_response (ground (arith, e))

-- A success among the answers to a replicated write.
status_response-ok :
    (text : Bytes) (s : KvPutStatus × Manager) (h : HostedTablet)
    → (status_response text s h).0 ≡ ok_response
    → is_ok s.0 ≡ true
unfolding status_response
status_response-ok text (ok, m) h e = refl
status_response-ok text (quorum_unavailable, m) h e = absurd (err-ne-ok _ e)
status_response-ok text (mismatch, m) h e = absurd (err-ne-ok _ e)
status_response-ok text (error, m) h e = absurd (err-ne-ok _ e)

status_response-tablet :
    (text : Bytes) (s : KvPutStatus × Manager) (h : HostedTablet)
    → (status_response text s h).1 ≡ record h { manager = s.1 }
unfolding status_response
status_response-tablet text (ok, m) h = refl
status_response-tablet text (quorum_unavailable, m) h = refl
status_response-tablet text (mismatch, m) h = refl
status_response-tablet text (error, m) h = refl

module _ (row col val : Bytes) (h : HostedTablet) (v : IsIndexed h.manager.tablet) where
  Reads : Bytes × HostedTablet → Type 0
  Reads r = r.0 ≡ ok_response → (get row col r.1.manager.tablet).0 ≡ some val

  replicated-Reads :
      (net : Network) (w : Write)
      → Reads (
          status_response (codes "PUT failed") (replicated_put net w whole row col val h.manager) h)
  unfolding Reads
  replicated-Reads net w e =
      let s = replicated_put net w whole row col val h.manager in
      let good = status_response-ok (codes "PUT failed") s h e in
      let read = (replicated_put_lem net w row col val h.manager v).1 row col in
      rw (status_response-tablet (codes "PUT failed") s h)
        (read ∙ ground (arith, good, bytes_eq_self row, bytes_eq_self col))

  local-Reads :
      (w : Write)
      → Reads (local_response (codes "PUT failed") (put w row col val h.manager.tablet) h)
  unfolding Reads local_response
  local-Reads w e =
      let s = put w row col val h.manager.tablet in
      let good : s.0.ok ≡ true = elim (Bool-cases s.0.ok) [
        | inl b ↦ b
        | inr b ↦ absurd (err-ne-ok _ (rw b at e))
      ] in
      (put_refines w row col val h.manager.tablet v).1 row col
      ∙ ground (arith, good, bytes_eq_self row, bytes_eq_self col)

  put_row-Reads : (env : Env) → env.undo_log ≡ whole → Reads (put_row env row col val h)
  unfolding put_row
  put_row-Reads env e =
      if_elim Reads h.replicated _ _
        (λ b.
          subst
            (λ wr. Reads (
              status_response (codes "PUT failed")
                (replicated_put env.net env.log wr row col val h.manager) h))
            (sym e) (replicated-Reads env.net env.log))
        λ b. local-Reads env.log

put_row-keeps :
    (env : Env) (row col val : Bytes) (h : HostedTablet)
    → let r = put_row env row col val h in (r.1.row_start ≡ h.row_start) × (r.1.row_end ≡ h.row_end)
unfolding put_row local_response
put_row-keeps env row col val h =
    if_elim
      (λ (r : Bytes × HostedTablet). (r.1.row_start ≡ h.row_start) × (r.1.row_end ≡ h.row_end))
      h.replicated _ _
      (λ b.
        let e =
          status_response-tablet (codes "PUT failed")
            (replicated_put env.net env.log env.undo_log row col val h.manager) h in
        (ap (λ (g : HostedTablet). g.row_start) e, ap (λ (g : HostedTablet). g.row_end) e))
      λ b. (refl, refl)

get_row-some :
    (row col val : Bytes) (h : HostedTablet)
    → (get row col h.manager.tablet).0 ≡ some val
    → (get_row row col h).0 ≡ ok_value_response val
unfolding get_row
get_row-some row col val h e =
    get_response-some (get row col h.manager.tablet).0 (get row col h.manager.tablet).1 val h e

on_row_nil :
    (row : Bytes) (f : HostedTablet → Bytes × HostedTablet)
    → (on_row row f []).0 ≡ ok_response
    → err_response (codes "row not hosted on this server") ≡ ok_response
unfolding on_row
on_row_nil row f e = e

on_row-found :
    (row : Bytes) (f : HostedTablet → Bytes × HostedTablet) (h : HostedTablet)
    (hs : List HostedTablet)
    → row_in_range row h.row_start h.row_end ≡ true
    → on_row row f (h ∷ hs) ≡ ((f h).0, (f h).1 ∷ hs)
unfolding on_row
on_row-found row f h hs e = rw (e, on_row) refl

on_row-later :
    (row : Bytes) (f : HostedTablet → Bytes × HostedTablet) (h : HostedTablet)
    (hs : List HostedTablet)
    → row_in_range row h.row_start h.row_end ≡ false
    → on_row row f (h ∷ hs) ≡ ((on_row row f hs).0, h ∷ (on_row row f hs).1)
unfolding on_row
on_row-later row f h hs e = rw (e, on_row) refl

put_get-on_row :
    (env : Env) (row col val : Bytes) (hs : List HostedTablet)
    → env.undo_log ≡ whole
    → AllIndexed hs
    → (on_row row (put_row env row col val) hs).0 ≡ ok_response
    → (on_row row (get_row row col) (on_row row (put_row env row col val) hs).1).0
      ≡ ok_value_response val
put_get-on_row env row col val [] u v e =
    absurd (err-ne-ok _ (on_row_nil row (put_row env row col val) e))
put_get-on_row env row col val (h ∷ hs) u v e =
    elim (Bool-cases (row_in_range row h.row_start h.row_end)) [
      | inl b ↦
          let first = on_row-found row (put_row env row col val) h hs b in
          let k = put_row-keeps env row col val h in
          rw
            (
              first,
              on_row-found row (get_row row col) (put_row env row col val h).1 hs (rw (k.0, k.1) b),
            )
            (get_row-some row col val (put_row env row col val h).1
              (unfold Reads in put_row-Reads row col val h v.0 env u (rw first at e)))
      | inr b ↦
          let first = on_row-later row (put_row env row col val) h hs b in
          rw (first, on_row-later row (get_row row col) h _ b)
            (put_get-on_row env row col val hs u v.1 (rw first at e))
    ]

-- A PUT over the wire that is answered with success is read back over the wire: a GET of the same
-- row and column, as the next request, is answered with the value. The filters cover the rows, and
-- a roll-back, if there is one, is logged.
pub put_then_get :
    (env env' : Env) (row col val rest rest' : Bytes) (hs hs' : List HostedTablet)
    → Fits row
    → Fits col
    → Fits val
    → env.undo_log ≡ whole
    → AllIndexed hs
    → handle_request env (send_put row col val ++ rest) hs ≡ answered ok_response rest hs'
    → handle_request env' (send_get row col ++ rest') hs'
      ≡ answered (ok_value_response val) rest' (on_row row (get_row row col) hs').1
put_then_get env env' row col val rest rest' hs hs' f0 f1 f2 u v e =
    let same : answered (on_row row (put_row env row col val) hs).0 rest
          (on_row row (put_row env row col val) hs).1
        ≡ answered ok_response rest hs' =
      sym (put_request env row col val rest hs f0 f1 f2) ∙ e in
    get_request env' row col rest' hs' f0 f1
    ∙ (let out : (on_row row (put_row env row col val) hs).0 ≡ ok_response = cc in
        let tablets : (on_row row (put_row env row col val) hs).1 ≡ hs' = cc in
        ap (λ x. answered x rest' (on_row row (get_row row col) hs').1)
          (subst (λ ts. (on_row row (get_row row col) ts).0 ≡ ok_value_response val) tablets
            (put_get-on_row env row col val hs u v out)))
