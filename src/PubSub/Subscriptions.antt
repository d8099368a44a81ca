-- ===== src/PubSub/Subscriptions.antt =====
-- internal/modules/pubsub/pubsub.go: who is subscribed after `Subscribe`.
use echo_vault.Base.{
  ℕ, ◌+◌, ◌≡◌, refl, ◌∙◌, sym, String, Bool, true, false, not, ◌&&◌, ◌||◌, some, List, [], ◌∷◌,
  ◌++◌, append-nil, append_assoc, arith, inl, inr, Bool-cases, if◌then◌else◌, ◌==◌, nat_eq,
  string_eq, eq_iff, nat_beq_iff, any, all, contains, contains-append, equal_fold,
}
use echo_vault.Keyspace.State.{ok}
use echo_vault.Acl.State.{Glob}
use echo_vault.PubSub.Channel.{Channel, Push, confirmation, new_channel, join}
use echo_vault.PubSub.Handlers.{nothing, handle_subscribe}
use echo_vault.PubSub.State.{PubSub, subscribe_to, subscribe_each, subscribe}

-- the connection is a subscriber of a channel with the name
unfoldable pub subscribed : ℕ → String → List Channel → Bool
subscribed conn name cs = any (λ c. c.name == name && contains c.subscribers conn) cs

pub contains-join :
    (conn : ℕ) (c : Channel) (x : ℕ)
    → contains (join conn c).subscribers x ≡ (contains c.subscribers x || conn == x)
unfolding join contains
contains-join conn c x = elim (Bool-cases (contains c.subscribers conn)) [
  | inl old ↦ rw old (ground (arith, nat_beq_iff conn x))
  | inr out ↦ rw (out, contains-append) (ground arith)
]

pub name-join : (conn : ℕ) (c : Channel) → (join conn c).name ≡ c.name
unfolding join
name-join conn c = elim (Bool-cases (contains c.subscribers conn)) [
  | inl old ↦ rw old
  | inr out ↦ rw out
]

-- A plain channel never fails, and a pattern does not when it compiles.
abbrev pub may_subscribe : Glob → Bool → String → Bool
may_subscribe globs with_pattern name = not with_pattern || globs.compiles name

subscribe_to_done :
    (globs : Glob) (p : Bool) (conn : ℕ) (name : String) (cs : List Channel)
    → may_subscribe globs p name ≡ true
    → (cs' : List Channel) × (subscribe_to globs p conn name cs ≡ some cs')
      × ((x : ℕ) (y : String) → subscribed x y cs' ≡ (subscribed x y cs || conn == x && name == y))
unfolding subscribe_to subscribed any contains
subscribe_to_done globs p conn name [] may =
    let fine : (p && not (globs.compiles name)) ≡ false = ground arith in
    (
      join conn (new_channel p name) ∷ [],
      rw fine,
      λ x y.
          ground
            (arith, name-join conn (new_channel p name), contains-join conn (new_channel p name) x),
    )
subscribe_to_done globs p conn name (c ∷ cs) may = elim (Bool-cases (c.name == name)) [
  | inl same ↦ (
    join conn c ∷ cs,
    rw same,
    λ x y. ground (
      arith,
      name-join conn c,
      contains-join conn c x,
      eq_iff c.name name,
      eq_iff c.name y,
      eq_iff name y,
    ),
  )
  | inr other ↦
      let (cs', done, who) = subscribe_to_done globs p conn name cs may in
      (c ∷ cs', rw (other, done), λ x y. ground (arith, who x y))
]

-- the confirmations of `Subscribe`, from the round `i`
pub confirmations : Bool → ℕ → ℕ → List String → List (ℕ × Push)
confirmations p conn i [] = []
confirmations p conn i (name ∷ names) =
    (conn, confirmation (if p then "psubscribe" else "subscribe") name (i + 1))
    ∷ confirmations p conn (i + 1) names

-- the state after a round
abbrev pub after_round : Bool → ℕ → ℕ → String → PubSub → List Channel → PubSub
after_round p conn i name ps cs = record {
  channels = cs;
  started =
      ps.started
      ++ (conn, confirmation (if p then "psubscribe" else "subscribe") name (i + 1)) ∷ [];
}

pub subscribe_each_step :
    (globs : Glob) (p : Bool) (conn i : ℕ) (name : String) (names : List String) (ps : PubSub)
    (cs : List Channel)
    → subscribe_to globs p conn name ps.channels ≡ some cs
    → subscribe_each globs p conn i (name ∷ names) ps
      ≡ subscribe_each globs p conn (i + 1) names (after_round p conn i name ps cs)
unfolding subscribe_each
subscribe_each_step globs p conn i name names ps cs done = rw (done, subscribe_each) refl

subscribe_each_done :
    (globs : Glob) (p : Bool) (conn i : ℕ) (names : List String) (ps : PubSub)
    → all (may_subscribe globs p) names ≡ true
    → (ps' : PubSub) × (subscribe_each globs p conn i names ps ≡ (ok tt, ps'))
      × ((x : ℕ) (y : String)
          → subscribed x y ps'.channels
            ≡ (subscribed x y ps.channels || conn == x && contains names y))
      × (ps'.started ≡ ps.started ++ confirmations p conn i names)
unfolding all contains confirmations
subscribe_each_done globs p conn i [] ps may =
    (ps, unfold subscribe_each in refl, λ x y. ground arith, sym (append-nil ps.started))
subscribe_each_done globs p conn i (name ∷ names) ps may =
    let (cs, done, who) = subscribe_to_done globs p conn name ps.channels (ground arith) in
    let ps1 = after_round p conn i name ps cs in
    let (ps', run, who', wrote) =
      subscribe_each_done globs p conn (i + 1) names ps1 (ground arith) in
    (
      ps',
      subscribe_each_step globs p conn i name names ps cs done ∙ run,
      λ x y. ground (arith, who x y, who' x y),
      wrote ∙ append_assoc ps.started (_ ∷ []) (confirmations p conn (i + 1) names),
    )

-- SUBSCRIBE and PSUBSCRIBE with at least one name, where each pattern compiles: the reply is empty, and a
-- connection is a subscriber of a name afterwards if it was before, or if it is the one that asks and the name
-- is among those given. There is one confirmation for each name given, in their order, numbered from 1.
pub handle_subscribe-subscribed :
    (globs : Glob) (conn : ℕ) (word n : String) (names : List String) (ps : PubSub)
    → all (may_subscribe globs (equal_fold word "psubscribe")) (n ∷ names) ≡ true
    → (ps' : PubSub) × (handle_subscribe globs conn (word ∷ n ∷ names) ps ≡ (ok nothing, ps'))
      × ((x : ℕ) (y : String)
          → subscribed x y ps'.channels
            ≡ (subscribed x y ps.channels || conn == x && contains (n ∷ names) y))
      × (ps'.started
          ≡ ps.started ++ confirmations (equal_fold word "psubscribe") conn 0 (n ∷ names))
unfolding handle_subscribe subscribe
handle_subscribe-subscribed globs conn word n names ps may =
    let (ps', run, who, wrote) =
      subscribe_each_done globs (equal_fold word "psubscribe") conn 0 (n ∷ names) ps may in
    (ps', rw run, who, wrote)
