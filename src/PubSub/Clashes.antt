-- ===== src/PubSub/Clashes.antt =====
-- internal/modules/pubsub: PSUBSCRIBE with a pattern that is the name of a plain channel.
use echo_vault.Base.{
  ℕ, ◌≡◌, refl, ◌∙◌, String, Bool, true, false, ◌&&◌, some, List, [], ◌∷◌, arith, inl, inr,
  Bool-cases, ◌==◌, nat_eq, string_eq, eq_iff, nat_beq_iff, any, contains, equal_fold,
}
use echo_vault.Keyspace.State.{ok}
use echo_vault.Acl.State.{Glob}
use echo_vault.PubSub.Channel.{Channel, join}
use echo_vault.PubSub.State.{PubSub, subscribe_to, subscribe_each, subscribe, receives}
use echo_vault.PubSub.Handlers.{nothing, handle_subscribe}
use echo_vault.PubSub.Subscriptions.{
  subscribed, after_round, subscribe_each_step, contains-join, name-join,
}

-- the connection's commands see the channel by its name alone
abbrev named : String → Channel → Bool
named name c = c.name == name

abbrev pattern_named : String → Channel → Bool
pattern_named name c = c.name == name && c.is_pattern

is_pattern-join : (conn : ℕ) (c : Channel) → (join conn c).is_pattern ≡ c.is_pattern
unfolding join
is_pattern-join conn c = elim (Bool-cases (contains c.subscribers conn)) [
  | inl old ↦ rw old
  | inr out ↦ rw out
]

-- A channel of the name is used as it is.
subscribe_to_plain :
    (globs : Glob) (p : Bool) (conn : ℕ) (name : String) (cs : List Channel)
    → any (named name) cs ≡ true
    → any (pattern_named name) cs ≡ false
    → (cs' : List Channel) × (subscribe_to globs p conn name cs ≡ some cs')
      × (subscribed conn name cs' ≡ true)
      × (any (pattern_named name) cs' ≡ false)
unfolding subscribe_to any subscribed
subscribe_to_plain globs p conn name [] there plain = absurd (ground (arith, there))
subscribe_to_plain globs p conn name (c ∷ cs) there plain = elim (Bool-cases (c.name == name)) [
  | inl same ↦ (
    join conn c ∷ cs,
    rw same,
    ground (arith, name-join conn c, contains-join conn c conn, nat_beq_iff conn conn, same),
    ground (arith, plain, name-join conn c, is_pattern-join conn c, same),
  )
  | inr other ↦
      let (cs', run, in_it, kept) =
        subscribe_to_plain globs p conn name cs (ground (arith, there, other))
          (ground (arith, plain)) in
      (c ∷ cs', rw (other, run), ground (arith, in_it), ground (arith, kept, other))
]

deaf :
    (globs : Glob) (name z : String) (cs : List Channel)
    → any (pattern_named name) cs ≡ false
    → (name == z) ≡ false
    → any (λ c. c.name == name && receives globs z c) cs ≡ false
unfolding any
deaf globs name z [] plain other = refl
deaf globs name z (c ∷ cs) plain other = ground (
  arith,
  deaf globs name z cs (ground (arith, plain)) other,
  plain,
  other,
  eq_iff c.name name,
  eq_iff c.name z,
  eq_iff name z,
)

-- PSUBSCRIBE (and SUBSCRIBE) with one name or pattern, when there are channels with it as their name and all of
-- them are plain: the command succeeds and the connection is a subscriber of the name, but no channel of the
-- name takes a message for any other channel, whether the name fits as a pattern or not.
pub handle_subscribe_clash :
    (globs : Glob) (conn : ℕ) (word name z : String) (ps : PubSub)
    → any (λ c. c.name == name) ps.channels ≡ true
    → any (λ c. c.name == name && c.is_pattern) ps.channels ≡ false
    → (name == z) ≡ false
    → (ps' : PubSub) × (handle_subscribe globs conn (word ∷ name ∷ []) ps ≡ (ok nothing, ps'))
      × (subscribed conn name ps'.channels ≡ true)
      × (any (λ c. c.name == name && receives globs z c) ps'.channels ≡ false)
unfolding handle_subscribe subscribe
handle_subscribe_clash globs conn word name z ps there plain other =
    let p = equal_fold word "psubscribe" in
    let (cs', run, in_it, kept) = subscribe_to_plain globs p conn name ps.channels there plain in
    let done : subscribe_each globs p conn 0 (name ∷ []) ps
        ≡ (ok tt, after_round p conn 0 name ps cs') =
      subscribe_each_step globs p conn 0 name [] ps cs' run ∙ (unfold subscribe_each in refl) in
    (after_round p conn 0 name ps cs', rw done, in_it, deaf globs name z cs' kept other)
