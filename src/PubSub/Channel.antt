-- ===== src/PubSub/Channel.antt =====
-- internal/modules/pubsub/channel.go. A connection is its number; the map of subscribers is the list of its
-- keys. The compiled pattern of a channel is the one of its name.
use echo_vault.Base.{
  ℕ, String, Bool, true, false, List, [], ◌∷◌, ◌++◌, map, if◌then◌else◌, nat_eq, leb, length,
  is_empty, contains, erase, not,
}

-- what is written to a connection: the confirmation of a subscription, or a message
pub data Push : Type 0 where
  confirmation : String → String → ℕ → Push
  message : String → String → Push

-- `Channel`. `is_pattern` is `pattern != nil`, and `queue` is what the Go channel holds.
pub record Channel : Type 0 where
  pub name : String
  pub is_pattern : Bool
  pub subscribers : List ℕ
  pub queue : List String

-- `NewChannel` with `WithPattern` or `WithName`
abbrev pub new_channel : Bool → String → Channel
new_channel with_pattern name = record {
  name = name;
  is_pattern = with_pattern;
  subscribers = [];
  queue = [];
}

-- `Channel.Subscribe`, which always answers true
unfoldable pub join : ℕ → Channel → Channel
join conn c =
    if contains c.subscribers conn then c else record c { subscribers = c.subscribers ++ conn ∷ [] }

-- `Channel.Unsubscribe`, with its answer
unfoldable pub leave : ℕ → Channel → Channel × Bool
leave conn c =
    if not (contains c.subscribers conn)
    then (c, false)
    else (record c { subscribers = erase conn c.subscribers }, true)

-- the buffer of `messageChan`
abbrev pub capacity : ℕ
capacity = 4096

-- A send on a full Go channel waits.
abbrev pub is_full : Channel → Bool
is_full c = leb capacity (length c.queue)

-- `Channel.Publish`, where the Go channel has room
abbrev pub send : String → Channel → Channel
send text c = record c { queue = c.queue ++ text ∷ [] }

-- `Channel.IsActive`
abbrev pub is_active : Channel → Bool
is_active c = not (is_empty c.subscribers)

-- `Channel.NumSubs`
abbrev pub num_subs : Channel → ℕ
num_subs c = length c.subscribers

-- One round of `Start`: the first message, and the writes that are started for it, each in a goroutine of its
-- own. The list gives them no order: they reach the connections in any order.
unfoldable pub receive : Channel → Channel × List (ℕ × Push)
receive c = elim c.queue [
  | [] ↦ (c, [])
  | text ∷ rest ↦
      (record c { queue = rest }, map (λ conn. (conn, message c.name text)) c.subscribers)
]
