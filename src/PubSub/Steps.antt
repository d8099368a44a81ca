-- ===== src/PubSub/Steps.antt =====
-- internal/modules/pubsub: every order of the commands and of the rounds of the goroutines.
use echo_vault.Base.{
  ℕ, String, Bool, not, inl, inr, Bool-cases, List, [], ◌++◌, if◌then◌else◌, ◌==◌, nat_eq, length,
  drop, is_empty, equal_fold,
}
use echo_vault.Acl.State.{Glob}
use echo_vault.Keyspace.State.{ok}
use echo_vault.Commands.Exec.{arg}
use echo_vault.PubSub.Channel.{Channel}
use echo_vault.PubSub.State.{
  PubSub, new_pub_sub, subscribe, leave_where, leave_names, leave_patterns, unsubscribe,
  run_channel,
}
use echo_vault.PubSub.Handlers.{handle_subscribe, handle_unsubscribe, handle_publish}
use echo_vault.PubSub.Validity.{
  IsValid, IsValid-Follows, leave_where-Follows, leave_names-Follows, publish-Follows,
  receive_at-Follows, subscribe_each-IsValid, leave_patterns-IsValid,
}

-- a command of a connection, also one that ends in an error or a panic, or a round of a channel's goroutine
pub data Step (globs : Glob) : PubSub → PubSub → Type 0 where
  subscribes :
      (conn : ℕ) (cmd : List String) (ps : PubSub)
      → Step globs ps (handle_subscribe globs conn cmd ps).1
  unsubscribes :
      (conn : ℕ) (cmd : List String) (ps : PubSub)
      → Step globs ps (handle_unsubscribe globs conn cmd ps).1
  publishes : (cmd : List String) (ps : PubSub) → Step globs ps (handle_publish globs cmd ps).1
  takes : (i : ℕ) (ps : PubSub) → Step globs ps (run_channel i ps)

-- what the steps lead to, from no channels
pub data Reachable (globs : Glob) : PubSub → Type 0 where
  start : Reachable globs new_pub_sub
  after : {ps ps' : PubSub} → Reachable globs ps → Step globs ps ps' → Reachable globs ps'

unsubscribe-IsValid :
    (globs : Glob) (p : Bool) (conn : ℕ) (given : List String) (cs : List Channel)
    → IsValid cs
    → IsValid (unsubscribe globs p conn given cs).1
unfolding unsubscribe
unsubscribe-IsValid globs p conn given cs v =
    let picked : Channel → Bool = λ c. if p then c.is_pattern else not c.is_pattern in
    let from : (cs1 : List Channel) (left : List String)
        → IsValid cs1
        → IsValid
            (if p
              then leave_patterns globs conn given (leave_names conn given cs1).0
                  (left ++ (leave_names conn given cs1).1)
              else (
                ok (left ++ (leave_names conn given cs1).1),
                (leave_names conn given cs1).0,
              )).1 =
      λ cs1 left v1.
        let v2 = IsValid-Follows cs1 _ (leave_names-Follows conn given cs1) v1 in
        elim (Bool-cases p) [
          | inl with_pattern ↦ rw with_pattern (
              leave_patterns-IsValid globs conn given (leave_names conn given cs1).0
                (left ++ (leave_names conn given cs1).1) v2)
          | inr plain ↦ rw plain v2
        ] in
    elim (Bool-cases (is_empty given)) [
      | inl none_given ↦ rw none_given (
          from (leave_where picked conn cs).0 (leave_where picked conn cs).1
            (IsValid-Follows cs _ (leave_where-Follows picked conn cs) v))
      | inr some_given ↦ rw some_given (from cs [] v)
    ]

Step-IsValid :
    (globs : Glob) (ps ps' : PubSub)
    → Step globs ps ps'
    → IsValid ps.channels
    → IsValid ps'.channels
unfolding handle_subscribe subscribe handle_unsubscribe handle_publish run_channel
Step-IsValid globs _ _ (subscribes conn cmd ps) v = elim (Bool-cases (is_empty (drop 1 cmd))) [
  | inl none_given ↦ rw none_given v
  | inr given ↦
      rw given (
        subscribe_each-IsValid globs (equal_fold (arg cmd 0) "psubscribe") conn 0 (drop 1 cmd) ps v)
]
Step-IsValid globs _ _ (unsubscribes conn cmd ps) v =
    unsubscribe-IsValid globs (equal_fold (arg cmd 0) "punsubscribe") conn (drop 1 cmd) ps.channels
      v
Step-IsValid globs _ _ (publishes cmd ps) v = elim (Bool-cases (length cmd == 3)) [
  | inl three ↦
      rw three (
        IsValid-Follows ps.channels _ (publish-Follows globs (arg cmd 2) (arg cmd 1) ps.channels) v)
  | inr other ↦ rw other v
]
Step-IsValid globs _ _ (takes i ps) v =
    IsValid-Follows ps.channels _ (receive_at-Follows i ps.channels) v

-- After any commands and rounds, in any order, no two channels have one name, no connection is twice among
-- the subscribers of a channel, and no channel holds more than the 4096 messages that its buffer takes.
pub Reachable-IsValid : (globs : Glob) (ps : PubSub) → Reachable globs ps → IsValid ps.channels
Reachable-IsValid globs _ start = record { named = tt; every = tt }
Reachable-IsValid globs _ (after {ps} {ps'} reached step) =
    Step-IsValid globs ps ps' step (Reachable-IsValid globs ps reached)
