-- ===== src/Server/Control/Promote.antt =====
-- The coordinator's BECOME_PRIMARY, as coordinator/src/coordinator.cc sends it and
-- kvstore/src/server.cc takes it.
use ncloud.Common.{
  ℕ, ◌≤◌, ◌≡◌, refl, ap, ◌∙◌, some, List, [], ◌∷◌, ◌++◌, append_assoc, Bytes, codes, length,
  length-append, All, All-append, arith, bytes_eq,
}
use ncloud.Common.Decimal.{extract_word, word_found, read_until_space, skip_space}
use ncloud.Common.Decimal.Printed.{NoSpace}
use ncloud.Protocol.Lines.{InLine}
use ncloud.Coordinator.{StorageNode}
use ncloud.Coordinator.Network
use ncloud.Coordinator.Network.{command_text}
use ncloud.Server.{HostedTablet}
use ncloud.Server.Control.{
  ControlEnv, handle_command, command_line, command, finish, on_tablet, become_primary,
}
use ncloud.Server.Control.Replicate.{handle_command-line, InLine-NoSpace}

read_until_space-NoSpace : (w : Bytes) → All NoSpace w → read_until_space w ≡ (w, [])
unfolding read_until_space
read_until_space-NoSpace [] h = refl
read_until_space-NoSpace (c ∷ w) h = rw (h.0, read_until_space-NoSpace w h.1) refl

last_word :
    (c : ℕ) (name : Bytes)
    → All NoSpace (c ∷ name)
    → (extract_word (some (32 ∷ c ∷ name))).0 ≡ c ∷ name
unfolding extract_word skip_space word_found
last_word c name h = rw (h.0, read_until_space-NoSpace (c ∷ name) h) refl

command_line-promote :
    (env : ControlEnv) (name rest : Bytes) (hs : List HostedTablet)
    → command_line env (codes "BECOME_PRIMARY" ++ (32 ∷ name)) rest hs
      ≡ finish rest (on_tablet (extract_word (some (32 ∷ name))).0 become_primary hs)
unfolding command_line command bytes_eq extract_word
command_line-promote env name rest hs = refl

promotion_shape :
    (node : StorageNode) (name rest : Bytes)
    → command_text (Network.become_primary node name) ++ rest
      ≡ (codes "BECOME_PRIMARY" ++ (32 ∷ name)) ++ (13 ∷ 10 ∷ rest)
unfolding command_text
promotion_shape node name rest =
    ap (λ s. codes "BECOME_PRIMARY " ++ s) (append_assoc name (codes "\r\n") rest)

-- The coordinator's promotion is handled by the tablet that it names, or else the only one, which
-- forgets its replicas and is primary from then on; what follows is still unread. The name is one word.
pub handle_command-command_text :
    (env : ControlEnv) (node : StorageNode) (c : ℕ) (name rest : Bytes) (hs : List HostedTablet)
    → All NoSpace (c ∷ name)
    → length (c ∷ name) ≤ 8000
    → handle_command env (command_text (Network.become_primary node (c ∷ name)) ++ rest) hs
      ≡ finish rest (on_tablet (c ∷ name) become_primary hs)
handle_command-command_text env node c name rest hs h short =
    ap (λ s. handle_command env s hs) (promotion_shape node (c ∷ name) rest)
    ∙ handle_command-line env (codes "BECOME_PRIMARY" ++ (32 ∷ c ∷ name)) rest hs
        (All-append InLine (codes "BECOME_PRIMARY ") (c ∷ name)
          (
            refl,
            (
              refl,
              (
                refl,
                (
                  refl,
                  (
                    refl,
                    (
                      refl,
                      (refl, (refl, (refl, (refl, (refl, (refl, (refl, (refl, (refl, tt))))))))),
                    ),
                  ),
                ),
              ),
            ),
          )
          (InLine-NoSpace (c ∷ name) h))
        (omega (arith, short, length-append (codes "BECOME_PRIMARY ") (c ∷ name)))
    ∙ command_line-promote env (c ∷ name) rest hs
    ∙ ap (λ w. finish rest (on_tablet w become_primary hs)) (last_word c name h)
