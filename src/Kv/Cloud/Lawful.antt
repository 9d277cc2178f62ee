-- ===== src/Kv/Cloud/Lawful.antt =====
-- The calls of the client over the network, on a node without replicas, meet what the frontend relies
-- on. A state is kept with the fact that the filters cover the rows.
use ncloud.Common.{◌≡◌, sym, ap, ◌∙◌, ◌⊎◌, inl, inr, Option, none, some, [], append-nil, Bytes}
use ncloud.Protocol.{send_put, send_cput, send_delete}
use ncloud.Server.{handle_request, on_row, put_row, cput_row, delete_row}
use ncloud.Server.Requests.{put_request}
use ncloud.Server.Wire.{cput_request, delete_request}
use ncloud.Kv.{Kv, IsLawful}
use ncloud.Kv.Cloud.{Cloud, Weather, network, Local, view}
use ncloud.Kv.Cloud.Node.{on_row-Stored}
use ncloud.Kv.Cloud.Writes.{put_row-Written, cput_row-Written, delete_row-Written}
use ncloud.Kv.Cloud.Calls.{Called, request-Wrote, exec_row-Called}
use ncloud.Kv.Cloud.Asked.{get_status-Told}
use ncloud.Kv.Cloud.Sizes.{send_put-Fits, send_cput-Fits, send_delete-Fits}
use ncloud.KvClient.{KvClient, success_reply, request, exec_put, exec_cput, exec_del, get_status}

module _ (W : Weather) where
  pub exec_put-Called :
      (row col val : Bytes) (c : KvClient) (s : Cloud)
      → Local s.hosted
      → Called W row col (some val) (λ _. Unit) s.hosted (exec_put (network W) row col val c s)
  unfolding exec_put
  exec_put-Called row col val =
      exec_row-Called W row col (some val) (λ _. Unit)
        (request (network W) (send_put row col val) success_reply)
        (request-Wrote W row col (some val) (λ _. Unit) (send_put row col val)
          (λ env hs. on_row row (put_row env row col val) hs)
          (λ env hs short.
            let fits = send_put-Fits row col val short in
            ap (λ b. handle_request env b hs) (sym (append-nil (send_put row col val)))
            ∙ put_request env row col val [] hs fits.0 fits.1 fits.2)
          (λ env hs l.
            on_row-Stored row col (some val) (λ _. Unit) (put_row env row col val) hs
              (λ h k. put_row-Written env row col h k val) l))

  pub exec_cput-Called :
      (row col v1 v2 : Bytes) (c : KvClient) (s : Cloud)
      → Local s.hosted
      → Called W row col
          (some v2)
          (λ o. o ≡ some v1)
          s.hosted
          (exec_cput (network W) row col v1 v2 c s)
  unfolding exec_cput
  exec_cput-Called row col v1 v2 =
      exec_row-Called W row col (some v2) (λ o. o ≡ some v1)
        (request (network W) (send_cput row col v1 v2) success_reply)
        (request-Wrote W row col (some v2) (λ o. o ≡ some v1) (send_cput row col v1 v2)
          (λ env hs. on_row row (cput_row env row col v1 v2) hs)
          (λ env hs short.
            let fits = send_cput-Fits row col v1 v2 short in
            ap (λ b. handle_request env b hs) (sym (append-nil (send_cput row col v1 v2)))
            ∙ cput_request env row col v1 v2 [] hs fits.0 fits.1 fits.2 fits.3)
          (λ env hs l.
            on_row-Stored row col (some v2) (λ o. o ≡ some v1) (cput_row env row col v1 v2) hs
              (λ h k. cput_row-Written env row col h k v1 v2) l))

  pub exec_del-Called :
      (row col : Bytes) (c : KvClient) (s : Cloud)
      → Local s.hosted
      → Called W row col none (λ _. Unit) s.hosted (exec_del (network W) row col c s)
  unfolding exec_del
  exec_del-Called row col =
      exec_row-Called W row col none (λ _. Unit)
        (request (network W) (send_delete row col) success_reply)
        (request-Wrote W row col none (λ _. Unit) (send_delete row col)
          (λ env hs. on_row row (delete_row env row col) hs)
          (λ env hs short.
            let fits = send_delete-Fits row col short in
            ap (λ b. handle_request env b hs) (sym (append-nil (send_delete row col)))
            ∙ delete_request env row col [] hs fits.0 fits.1)
          (λ env hs l.
            on_row-Stored row col none (λ _. Unit) (delete_row env row col) hs
              (λ h k. delete_row-Written env row col h k) l))

  abbrev pub Served : Type 0
  Served = (x : KvClient × Cloud) × Local x.1.hosted

  abbrev pub cloud : Kv
  cloud = record {
    State = Served;
    get_status = λ r c x.
        let g = get_status (network W) r c x.0.0 x.0.1 in
        (g.0, ((g.1, g.2), (get_status-Told W r c x.0.0 x.0.1 x.1).local));
    put = λ r c v x.
        let w = exec_put (network W) r c v x.0.0 x.0.1 in
        (w.0, ((w.1, w.2), (exec_put-Called r c v x.0.0 x.0.1 x.1).local));
    cput = λ r c v w x.
        let u = exec_cput (network W) r c v w x.0.0 x.0.1 in
        (u.0, ((u.1, u.2), (exec_cput-Called r c v w x.0.0 x.0.1 x.1).local));
    del = λ r c x.
        let w = exec_del (network W) r c x.0.0 x.0.1 in
        (w.0, ((w.1, w.2), (exec_del-Called r c x.0.0 x.0.1 x.1).local));
  }

  one_of :
      {new old now : Option Bytes}
      → (Unit {0} × (now ≡ new)) ⊎ (now ≡ old)
      → (now ≡ new) ⊎ (now ≡ old)
  one_of (inl x) = inl x.1
  one_of (inr x) = inr x

  -- The modelled client against the modelled node is such a storage, whatever the network loses.
  pub cloud-IsLawful : IsLawful cloud
  cloud-IsLawful = record {
    view = λ x. view x.0.1.hosted;
    get-view = λ r c i j x. (get_status-Told W r c x.0.0 x.0.1 x.1).same i j;
    get-Tells = λ r c x. (get_status-Told W r c x.0.0 x.0.1 x.1).tells;
    put_done = λ r c v x h. ((exec_put-Called r c v x.0.0 x.0.1 x.1).success h).1;
    put_either = λ r c v x. one_of (exec_put-Called r c v x.0.0 x.0.1 x.1).changed.either;
    put_other = λ r c v i j x h. (exec_put-Called r c v x.0.0 x.0.1 x.1).changed.other i j h;
    cput_done = λ r c v w x h. (exec_cput-Called r c v w x.0.0 x.0.1 x.1).success h;
    cput_either = λ r c v w x. (exec_cput-Called r c v w x.0.0 x.0.1 x.1).changed.either;
    cput_other = λ r c v w i j x h. (exec_cput-Called r c v w x.0.0 x.0.1 x.1).changed.other i j h;
    del_done = λ r c x h. ((exec_del-Called r c x.0.0 x.0.1 x.1).success h).1;
    del_either = λ r c x. one_of (exec_del-Called r c x.0.0 x.0.1 x.1).changed.either;
    del_other = λ r c i j x h. (exec_del-Called r c x.0.0 x.0.1 x.1).changed.other i j h;
  }
