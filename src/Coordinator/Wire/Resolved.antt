-- ===== src/Coordinator/Wire/Resolved.antt =====
-- What a client of the key-value store gets to know from the coordinator over the wire.
use ncloud.Common.{
  ℕ, zero, suc, ◌^◌, ◌<◌, ◌≡◌, refl, ap, sym, ◌∙◌, Option, some, [], ◌∷◌, ◌++◌, append_assoc,
  append-nil, Bool, Bytes, codes, length, arith, bytes_eq,
}
use ncloud.Common.Decimal.{to_string, read_word, extract, skip_space}
use ncloud.Common.Decimal.Printed.{length-to_string, extract-space}
use ncloud.Codec.{read_exact}
use ncloud.Codec.Laws.{read_exact-append}
use ncloud.Protocol.{read_line}
use ncloud.Protocol.Lines.{read_line-append, to_string-InLine}
use ncloud.Coordinator.Network.{State}
use ncloud.Coordinator.Lookup.{handle_lookup, lookup_response}
use ncloud.Coordinator.Wire.{
  Desk, handle_client, client_loop, replied, answer_line, answer_op, answer_row,
}
use ncloud.Coordinator.Wire.Replies.{named_node, Addressed, lookup_reply-lookup_response}
use ncloud.KvClient.{NodeInfo, Network, lookup_primary, lookup_reply}

request_shape :
    (row : Bytes)
    → codes "LOOKUP " ++ (to_string (length row) ++ (13 ∷ 10 ∷ row))
      ≡ (codes "LOOKUP" ++ (32 ∷ to_string (length row))) ++ (13 ∷ 10 ∷ row)
request_shape row = simp append_assoc

read_length :
    (row : Bytes)
    → length row < 2 ^ 32
    → read_exact (extract (2 ^ 32) (some (32 ∷ to_string (length row)))).0 row ≡ some (row, [])
read_length row h =
    ap (λ t. read_exact (extract (2 ^ 32) (some (32 ∷ t))).0 row)
      (sym (append-nil (to_string (length row))))
    ∙ ap (λ (r : ℕ × Option Bytes). read_exact r.0 row)
        (extract-space (2 ^ 32) (length row) [] h (omega arith) tt)
    ∙ ap (read_exact (length row)) (sym (append-nil row))
    ∙ read_exact-append row []

module _ (desk : Desk) where
  answer_op-lookup :
      (row : Bytes) (s : State)
      → length row < 2 ^ 32
      → answer_line desk (some (codes "LOOKUP" ++ (32 ∷ to_string (length row)), row)) s
        ≡ answer_row desk (some (row, [])) s
  unfolding answer_line answer_op bytes_eq read_word skip_space
  answer_op-lookup row s h = ap (λ o. answer_row desk o s) (read_length row h)

  answer_line-read_line :
      (row : Bytes) (s : State)
      → length row < 2 ^ 32
      → answer_line desk
          (read_line (codes "LOOKUP " ++ (to_string (length row) ++ (13 ∷ 10 ∷ row))))
          s
        ≡ (
          some (lookup_response (handle_lookup desk.net row s).0, []),
          (handle_lookup desk.net row s).1,
        )
  unfolding answer_row
  answer_line-read_line row s h =
      ap (λ b. answer_line desk (read_line b) s) (request_shape row)
      ∙ ap (λ l. answer_line desk l s)
          (read_line-append (codes "LOOKUP" ++ (32 ∷ to_string (length row))) row
            (refl, (refl, (refl, (refl, (refl, (refl, (refl, to_string-InLine (length row))))))))
            (omega (arith, length-to_string (length row))))
      ∙ answer_op-lookup row s h

  client_loop-nil : (fuel : ℕ) (s : State) → client_loop desk fuel [] s ≡ ([], s)
  unfolding client_loop replied answer_line read_line
  client_loop-nil zero s = refl
  client_loop-nil (suc fuel) s = refl

  client_loop-one :
      (fuel : ℕ) (bytes out : Bytes) (s s' : State)
      → answer_line desk (read_line bytes) s ≡ (some (out, []), s')
      → client_loop desk (suc fuel) bytes s ≡ (out, s')
  unfolding client_loop replied
  client_loop-one fuel bytes out s s' e =
      ap (replied (client_loop desk fuel)) e
      ∙ (ap (λ (m : Bytes × State). (out ++ m.0, m.1)) (client_loop-nil fuel s')
          ∙ ap (λ t. (t, s')) (append-nil out))

  -- A connection on which one request is sent.
  handle_client-lookup :
      (row : Bytes) (s : State)
      → length row < 2 ^ 32
      → handle_client desk (codes "LOOKUP " ++ (to_string (length row) ++ (13 ∷ 10 ∷ row))) s
        ≡ (lookup_response (handle_lookup desk.net row s).0, (handle_lookup desk.net row s).1)
  unfolding handle_client
  handle_client-lookup row s h =
      client_loop-one (length (codes "OOKUP " ++ (to_string (length row) ++ (13 ∷ 10 ∷ row)))) _ _ s
        _ (answer_line-read_line row s h)

  -- The nodes of the store are reached as they may be, and the coordinator answers on a new connection.
  abbrev pub served_by :
      (NodeInfo → State → Bool × State)
      → (NodeInfo → Bytes → State → Option Bytes × State)
      → Network
  served_by borrow ask = record {
    State = State;
    borrow = borrow;
    ask = ask;
    ask_coordinator =
        λ bytes s. (some (handle_client desk bytes s).0, (handle_client desk bytes s).1);
  }

  -- A client that asks the coordinator over the wire for the primary of a row gets the node that the
  -- coordinator's lookup ends with, or none if it ends with an error, where a node that is named has a
  -- host of one word of at most 8000 bytes and a positive port below 2 ^ 31.
  pub lookup_primary-handle_client :
      (borrow : NodeInfo → State → Bool × State)
      (ask : NodeInfo → Bytes → State → Option Bytes × State) (row : Bytes) (s : State)
      → length row < 2 ^ 32
      → Addressed (handle_lookup desk.net row s).0
      → lookup_primary (served_by borrow ask) row s
        ≡ (named_node (handle_lookup desk.net row s).0, (handle_lookup desk.net row s).1)
  unfolding lookup_primary
  lookup_primary-handle_client borrow ask row s h a =
      ap (λ (r : Bytes × State). (lookup_reply (some r.0), r.1)) (handle_client-lookup row s h)
      ∙ ap (λ o. (o, (handle_lookup desk.net row s).1)) (lookup_reply-lookup_response _ a)
