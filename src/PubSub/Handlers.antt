-- ===== src/PubSub/Handlers.antt =====
-- internal/modules/pubsub/commands.go: the handlers and the key functions.
use echo_vault.Base.{
  ℕ, String, List, [], if◌then◌else◌, ◌==◌, nat_eq, string_eq, ltb, length, map, take, drop,
  is_empty, equal_fold,
}
use echo_vault.Keyspace.State.{Result, ok, err, panic}
use echo_vault.Commands.Exec.{arg, wrong_args, Keys}
use echo_vault.Acl.State.{Glob}
use echo_vault.PubSub.State.{
  PubSub, subscribe, unsubscribe, publish, channels_like, num_pat, num_sub,
}

-- the replies of the handlers; `nothing` is no bytes, and a message that waits has no reply yet
pub data Reply : Type 0 where
  nothing : Reply
  okay : Reply
  waits : Reply
  left_channels : String → List String → Reply
  channel_names : List String → Reply
  count : ℕ → Reply
  counts : List (String × ℕ) → Reply

-- the names of the channels that a command is about, from a place on
abbrev pub about : ℕ → List String → Result Keys
about n cmd = ok (record { channels = drop n cmd; read_keys = []; write_keys = [] })

-- the key functions of SUBSCRIBE and PSUBSCRIBE
abbrev pub subscribe_key_func : List String → Result Keys
subscribe_key_func cmd = if ltb (length cmd) 2 then err wrong_args else about 1 cmd

-- the key function of PUBLISH
abbrev pub publish_key_func : List String → Result Keys
publish_key_func cmd =
    if length cmd == 3
    then ok (record { channels = take 1 (drop 1 cmd); read_keys = []; write_keys = [] })
    else err wrong_args

-- the key functions of UNSUBSCRIBE and PUNSUBSCRIBE
abbrev pub unsubscribe_key_func : List String → Result Keys
unsubscribe_key_func cmd = about 1 cmd

-- the key function of PUBSUB NUMSUB
abbrev pub numsub_key_func : List String → Result Keys
numsub_key_func cmd = about 2 cmd

module _ (globs : Glob) where
  -- `handleSubscribe`
  unfoldable pub handle_subscribe : ℕ → List String → PubSub → Result Reply × PubSub
  unfolding subscribe
  handle_subscribe conn cmd ps =
      if is_empty (drop 1 cmd)
      then (err wrong_args, ps)
      else let (res, ps') =
          subscribe globs (equal_fold (arg cmd 0) "psubscribe") conn (drop 1 cmd) ps in
        (elim res [ ok t ↦ ok nothing | err e ↦ err e | panic ↦ panic ], ps')

  -- `handleUnsubscribe`
  unfoldable pub handle_unsubscribe : ℕ → List String → PubSub → Result Reply × PubSub
  unfolding unsubscribe
  handle_unsubscribe conn cmd ps =
      let with_pattern = equal_fold (arg cmd 0) "punsubscribe" in
      let (res, cs) = unsubscribe globs with_pattern conn (drop 1 cmd) ps.channels in
      let action = if with_pattern then "punsubscribe" else "unsubscribe" in
      (
        elim res [ ok names ↦ ok (left_channels action names) | err e ↦ err e | panic ↦ panic ],
        record ps { channels = cs },
      )

  -- `handlePublish`
  unfoldable pub handle_publish : List String → PubSub → Result Reply × PubSub
  unfolding publish
  handle_publish cmd ps =
      if length cmd == 3
      then (let (cs, done) = publish globs (arg cmd 2) (arg cmd 1) ps.channels in
          (ok (if done then okay else waits), record ps { channels = cs }))
      else (err wrong_args, ps)

  -- `handlePubSubChannels`
  unfoldable pub handle_channels : List String → PubSub → Result Reply
  unfolding channels_like
  handle_channels cmd ps =
      if ltb 3 (length cmd)
      then err wrong_args
      else let pattern = if length cmd == 3 then arg cmd 2 else "" in
        elim (channels_like globs pattern ps.channels) [
          | ok names ↦ ok (channel_names names)
          | err e ↦ err e
          | panic ↦ panic
        ]

-- `handlePubSubNumPat`
unfoldable pub handle_num_pat : PubSub → Result Reply
unfolding num_pat
handle_num_pat ps = ok (count (num_pat ps.channels))

-- `handlePubSubNumSubs`
unfoldable pub handle_num_subs : List String → PubSub → Result Reply
unfolding num_sub
handle_num_subs cmd ps = ok (counts (map (λ name. (name, num_sub name ps.channels)) (drop 2 cmd)))
