-- ===== src/Server/Control/Replicate.antt =====
-- A primary's message is handled by the replica as the write that it carries.
use ncloud.Common.{
  ℕ, ◌+◌, ◌≤◌, ◌<◌, ◌^◌, ◌≡◌, refl, ap, ◌∙◌, some, List, [], ◌∷◌, ◌++◌, append_assoc, append-nil,
  Bytes, codes, length, length-append, All, All-append, true, arith, bytes_eq, Option,
}
use ncloud.Codec.Laws.{read_exact-append}
use ncloud.Common.Decimal.{to_string, extract, extract_word}
use ncloud.Common.Decimal.Printed.{length-to_string, extract-space, extract_word-space, NoSpace}
use ncloud.Protocol.Lines.{InLine, read_line-append, to_string-InLine}
use ncloud.Replication.{make_repl_put}
use ncloud.Server.{HostedTablet}
use ncloud.Server.Requests.{
  Fits, spaced, spaced-InLine, length-spaced, length-spaced_nil, spaced-NoDigit,
}
use ncloud.Server.Control.{
  ControlEnv, handle_command, command_line, command, replicate, replicate_op, put_args, put_payload,
  finish, on_tablet, reaches, replicate_put,
}

pub InLine-NoSpace : (s : Bytes) → All NoSpace s → All InLine s
InLine-NoSpace [] h = tt
InLine-NoSpace (c ∷ s) h = (ground (arith, h.0), InLine-NoSpace s h.1)

-- The message's line, behind the command.
arguments : Bytes → ℕ → List Bytes → Bytes
arguments name lsn ss = 32 ∷ (name ++ (32 ∷ (to_string lsn ++ (codes " PUT" ++ spaced ss))))

message_shape :
    (name row col val rest : Bytes) (lsn : ℕ)
    → make_repl_put name lsn row col val ++ rest
      ≡ (codes "REPLICATE" ++ arguments name lsn (row ∷ col ∷ val ∷ []))
        ++ (13 ∷ 10 ∷ (row ++ (col ++ (val ++ rest))))
unfolding make_repl_put arguments spaced
message_shape name row col val rest lsn = simp (append_assoc, append-nil)

arguments-InLine :
    (name : Bytes) (lsn : ℕ) (ss : List Bytes)
    → All NoSpace name
    → All InLine (arguments name lsn ss)
unfolding arguments
arguments-InLine name lsn ss h = (
  refl,
  All-append InLine name _ (InLine-NoSpace name h) (
    refl,
    All-append InLine (to_string lsn) _ (to_string-InLine lsn)
        (refl, (refl, (refl, (refl, spaced-InLine ss)))),
  ),
)

length-arguments :
    (name : Bytes) (lsn : ℕ) (ss : List Bytes)
    → length (arguments name lsn ss) ≤ 26 + length name + length (spaced ss)
unfolding arguments
length-arguments name lsn ss = omega (
  arith,
  length-append name (32 ∷ (to_string lsn ++ (codes " PUT" ++ spaced ss))),
  length-append (to_string lsn) (codes " PUT" ++ spaced ss),
  length-to_string lsn,
)

extract-spaced :
    (s : Bytes) (ss : List Bytes)
    → Fits s
    → extract (2 ^ 32) (some (spaced (s ∷ ss))) ≡ (length s, some (spaced ss))
unfolding spaced
extract-spaced s ss h =
    extract-space (2 ^ 32) (length s) (spaced ss) h (omega arith) (spaced-NoDigit ss)

put_args_lem :
    (env : ControlEnv) (name row col val rest : Bytes) (lsn : ℕ) (hs : List HostedTablet)
    → Fits row
    → Fits col
    → Fits val
    → put_args env name lsn
        (some (spaced (row ∷ col ∷ val ∷ [])))
        (row ++ (col ++ (val ++ rest)))
        hs
      ≡ finish rest (on_tablet name (replicate_put env lsn row col val) hs)
unfolding put_args
put_args_lem env name row col val rest lsn hs f0 f1 f2 =
    rw
      (
        extract-spaced row (col ∷ val ∷ []) f0,
        extract-spaced col (val ∷ []) f1,
        extract-spaced val [] f2,
      )
      (rw
        (
          read_exact-append row (col ++ (val ++ rest)),
          read_exact-append col (val ++ rest),
          read_exact-append val rest,
        )
        (unfold put_payload in refl))

first_word :
    (name : Bytes) (lsn : ℕ) (ss : List Bytes)
    → extract_word (some (codes "REPLICATE" ++ arguments name lsn ss))
      ≡ (codes "REPLICATE", some (arguments name lsn ss))
unfolding extract_word arguments
first_word name lsn ss = refl

is_replicate :
    (env : ControlEnv) (ss : Option Bytes) (s : Bytes) (hs : List HostedTablet)
    → command env (codes "REPLICATE") ss s hs ≡ replicate env (extract_word ss) s hs
unfolding command bytes_eq
is_replicate env ss s hs = refl

second_word :
    (c : ℕ) (name : Bytes) (lsn : ℕ) (ss : List Bytes)
    → All NoSpace (c ∷ name)
    → extract_word (some (arguments (c ∷ name) lsn ss))
      ≡ (c ∷ name, some (32 ∷ (to_string lsn ++ (codes " PUT" ++ spaced ss))))
unfolding arguments
second_word c name lsn ss h = extract_word-space c name _ h

third_word :
    (s : Bytes) (ss : List Bytes)
    → extract_word (some (codes " PUT" ++ spaced (s ∷ ss))) ≡ (codes "PUT", some (spaced (s ∷ ss)))
unfolding extract_word spaced
third_word s ss = refl

is_put :
    (env : ControlEnv) (c : ℕ) (name row s : Bytes) (lsn : ℕ) (ss : List Bytes)
    (hs : List HostedTablet)
    → lsn < 2 ^ 64
    → reaches (c ∷ name) hs ≡ true
    → replicate env
        (c ∷ name, some (32 ∷ (to_string lsn ++ (codes " PUT" ++ spaced (row ∷ ss)))))
        s
        hs
      ≡ put_args env (c ∷ name) lsn (some (spaced (row ∷ ss))) s hs
unfolding replicate replicate_op bytes_eq
is_put env c name row s lsn ss hs b r =
    rw
      (
        extract-space (2 ^ 64) lsn (codes " PUT" ++ spaced (row ∷ ss)) b (omega arith) refl,
        third_word row ss,
      )
      (rw r refl)

on_words :
    (env : ControlEnv) (line s : Bytes) (hs : List HostedTablet)
    → command_line env (b'R' ∷ line) s hs
      ≡ command env (extract_word (some (b'R' ∷ line))).0 (extract_word (some (b'R' ∷ line))).1 s hs
unfolding command_line
on_words env line s hs = refl

pub handle_command-line :
    (env : ControlEnv) (line rest : Bytes) (hs : List HostedTablet)
    → All InLine line
    → length line + 1 ≤ 8192
    → handle_command env (line ++ (13 ∷ 10 ∷ rest)) hs ≡ command_line env line rest hs
unfolding handle_command
handle_command-line env line rest hs h le =
    rw (read_line-append line rest h le, handle_command) refl

-- The message that a primary sends for a PUT is handled as the replicated write with its LSN, row,
-- column and value, by the tablet that it names or else the only one, and what follows the message
-- is still unread. The name is one word, and the tablet has a replication manager.
pub handle_command-make_repl_put :
    (env : ControlEnv) (c : ℕ) (name row col val rest : Bytes) (lsn : ℕ) (hs : List HostedTablet)
    → All NoSpace (c ∷ name)
    → length (c ∷ name) ≤ 8000
    → Fits row
    → Fits col
    → Fits val
    → lsn < 2 ^ 64
    → reaches (c ∷ name) hs ≡ true
    → handle_command env (make_repl_put (c ∷ name) lsn row col val ++ rest) hs
      ≡ finish rest (on_tablet (c ∷ name) (replicate_put env lsn row col val) hs)
handle_command-make_repl_put env c name row col val rest lsn hs h short f0 f1 f2 b r =
    let ss = row ∷ col ∷ val ∷ [] in
    let payload = row ++ (col ++ (val ++ rest)) in
    ap (λ s. handle_command env s hs) (message_shape (c ∷ name) row col val rest lsn)
    ∙ handle_command-line env (codes "REPLICATE" ++ arguments (c ∷ name) lsn ss) payload hs
        (
          refl,
          (
            refl,
            (
              refl,
              (refl, (refl, (refl, (refl, (refl, (refl, arguments-InLine (c ∷ name) lsn ss h)))))),
            ),
          ),
        )
        (omega (
          arith,
          length-arguments (c ∷ name) lsn ss,
          length-spaced row (col ∷ val ∷ []),
          length-spaced col (val ∷ []),
          length-spaced val [],
          length-spaced_nil,
        ))
    ∙ on_words env (codes "EPLICATE" ++ arguments (c ∷ name) lsn ss) payload hs
    ∙ ap (λ (w : Bytes × Option Bytes). command env w.0 w.1 payload hs)
        (first_word (c ∷ name) lsn ss)
    ∙ is_replicate env (some (arguments (c ∷ name) lsn ss)) payload hs
    ∙ ap (λ w. replicate env w payload hs) (second_word c name lsn ss h)
    ∙ is_put env c name row payload lsn (col ∷ val ∷ []) hs b r
    ∙ put_args_lem env (c ∷ name) row col val rest lsn hs f0 f1 f2
