-- ===== src/PubSub/State.antt =====
-- internal/modules/pubsub: pubsub.go, the channels and the operations on them, and the handlers of
-- commands.go.
use echo_vault.Base.{
  ℕ, zero, suc, ◌+◌, String, Bool, true, false, ◌&&◌, ◌||◌, not, Option, none, some, List, [], ◌∷◌,
  ◌++◌, if◌then◌else◌, ◌==◌, nat_eq, string_eq, is_empty,
}
use echo_vault.Keyspace.State.{Result, ok, panic}
use echo_vault.Acl.State.{Glob}
use echo_vault.PubSub.Channel.{
  Channel, Push, confirmation, new_channel, join, leave, is_full, send, is_active, num_subs,
  receive,
}

-- `PubSub`. `started` lists the writes to connections that were started. Those of a message run in goroutines, so that they
-- may end in any order.
pub record PubSub : Type 0 where
  pub channels : List Channel
  pub started : List (ℕ × Push)

-- `NewPubSub`
abbrev pub new_pub_sub : PubSub
new_pub_sub = record { channels = []; started = [] }

-- a channel that the test picks is left; the names of those that the connection was subscribed to
unfoldable pub leave_where : (Channel → Bool) → ℕ → List Channel → List Channel × List String
unfolding leave
leave_where picked conn [] = ([], [])
leave_where picked conn (c ∷ cs) =
    let (cs', names) = leave_where picked conn cs in
    if not (picked c)
    then (c ∷ cs', names)
    else let (c', left) = leave conn c in (c' ∷ cs', if left then c.name ∷ names else names)

-- the loop over the names given, for one channel
unfoldable pub leave_named : ℕ → List String → Channel → Channel × List String
unfolding leave
leave_named conn [] c = (c, [])
leave_named conn (name ∷ names) c =
    if not (c.name == name)
    then leave_named conn names c
    else let (c', left) = leave conn c in
      let (c'', more) = leave_named conn names c' in (c'', if left then c.name ∷ more else more)

unfoldable pub leave_names : ℕ → List String → List Channel → List Channel × List String
unfolding leave_named
leave_names conn names [] = ([], [])
leave_names conn names (c ∷ cs) =
    let (c', here) = leave_named conn names c in
    let (cs', more) = leave_names conn names cs in (c' ∷ cs', here ++ more)

-- the loop of `Channels` over the channels
unfoldable pub active_names : (Channel → Bool) → List Channel → List String
active_names listed [] = []
active_names listed (c ∷ cs) =
    let rest = active_names listed cs in if listed c && is_active c then c.name ∷ rest else rest

module _ (globs : Glob) where
  -- One round of `Subscribe`: the first channel of the name, or a new one. `none` is the panic of
  -- `MustCompile`.
  unfoldable pub subscribe_to : Bool → ℕ → String → List Channel → Option (List Channel)
  unfolding join
  subscribe_to with_pattern conn name [] =
      if with_pattern && not (globs.compiles name)
      then none
      else some (join conn (new_channel with_pattern name) ∷ [])
  subscribe_to with_pattern conn name (c ∷ cs) =
      let rest = subscribe_to with_pattern conn name cs in
      if c.name == name
      then some (join conn c ∷ cs)
      else elim rest [ none ↦ none | some cs' ↦ some (c ∷ cs') ]

  -- the loop of `Subscribe`, from the round `i`
  unfoldable pub subscribe_each : Bool → ℕ → ℕ → List String → PubSub → Result (Unit {0}) × PubSub
  unfolding subscribe_to
  subscribe_each with_pattern conn i [] ps = (ok tt, ps)
  subscribe_each with_pattern conn i (name ∷ names) ps =
      elim (subscribe_to with_pattern conn name ps.channels) [
        | none ↦ (panic, ps)
        | some cs ↦ subscribe_each with_pattern conn (i + 1) names (record {
          channels = cs;
          started =
              ps.started
              ++ (
                conn,
                confirmation (if with_pattern then "psubscribe" else "subscribe") name (i + 1),
              )
                ∷ [];
        })
      ]

  -- `Subscribe`
  unfoldable pub subscribe : Bool → ℕ → List String → PubSub → Result (Unit {0}) × PubSub
  unfolding subscribe_each
  subscribe with_pattern conn names ps = subscribe_each with_pattern conn 0 names ps

  -- the channels that `PUNSUBSCRIBE` with this pattern leaves
  abbrev pub fits : String → Channel → Bool
  fits pattern c = c.is_pattern && c.name == pattern || globs.matches pattern c.name

  -- the loop over the patterns given
  unfoldable pub leave_patterns :
      ℕ → List String → List Channel → List String → Result (List String) × List Channel
  unfolding leave_where
  leave_patterns conn [] cs names = (ok names, cs)
  leave_patterns conn (pattern ∷ patterns) cs names =
      if not (globs.compiles pattern)
      then (panic, cs)
      else let (cs', more) = leave_where (fits pattern) conn cs in
        leave_patterns conn patterns cs' (names ++ more)

  -- `Unsubscribe`; the reply numbers the names from 1
  unfoldable pub unsubscribe :
      Bool → ℕ → List String → List Channel → Result (List String) × List Channel
  unfolding leave_where leave_names leave_patterns
  unsubscribe with_pattern conn names cs =
      let (cs1, all_left) =
        if is_empty names
        then leave_where (λ c. if with_pattern then c.is_pattern else not c.is_pattern) conn cs
        else (cs, []) in
      let (cs2, named_left) = leave_names conn names cs1 in
      if with_pattern
      then leave_patterns conn names cs2 (all_left ++ named_left)
      else (ok (all_left ++ named_left), cs2)

  -- the channels that a message is for
  abbrev pub receives : String → Channel → Bool
  receives name c = if not c.is_pattern then c.name == name else globs.matches c.name name

  -- `Publish`. With `false` it waits at a channel that is full; the channels before have the message.
  unfoldable pub publish : String → String → List Channel → List Channel × Bool
  publish text name [] = ([], true)
  publish text name (c ∷ cs) =
      let (cs', done) = publish text name cs in
      if not (receives name c)
      then (c ∷ cs', done)
      else if is_full c
      then (c ∷ cs, false)
      else (send text c ∷ cs', done)

  -- `Channels`
  unfoldable pub channels_like : String → List Channel → Result (List String)
  unfolding active_names
  channels_like pattern cs =
      if pattern == ""
      then ok (active_names (λ c. true) cs)
      else if not (globs.compiles pattern)
      then panic
      else ok (active_names (fits pattern) cs)

-- `NumPat`
unfoldable pub num_pat : List Channel → ℕ
num_pat [] = 0
num_pat (c ∷ cs) = let rest = num_pat cs in if c.is_pattern && is_active c then rest + 1 else rest

-- the number that `NumSub` prints for one channel
unfoldable pub num_sub : String → List Channel → ℕ
num_sub name [] = 0
num_sub name (c ∷ cs) = let rest = num_sub name cs in if c.name == name then num_subs c else rest

-- One round of the goroutine of the channel at a place.
unfoldable pub receive_at : ℕ → List Channel → List Channel × List (ℕ × Push)
unfolding receive
receive_at i [] = ([], [])
receive_at zero (c ∷ cs) = let (c', pushes) = receive c in (c' ∷ cs, pushes)
receive_at (suc i) (c ∷ cs) = let (cs', pushes) = receive_at i cs in (c ∷ cs', pushes)

-- `receive_at` on the whole state
unfoldable pub run_channel : ℕ → PubSub → PubSub
unfolding receive_at
run_channel i ps =
    let (cs, pushes) = receive_at i ps.channels in
    record { channels = cs; started = ps.started ++ pushes }
