-- ===== src/PubSub/Leaving.antt =====
-- internal/modules/pubsub/pubsub.go: who is subscribed after `Unsubscribe` with names.
use echo_vault.Base.{
  ℕ, ◌≡◌, refl, ◌∙◌, ap, String, Bool, true, false, not, ◌&&◌, ◌||◌, List, [], ◌∷◌, arith, inl, inr,
  Bool-cases, if◌then◌else◌, ◌==◌, nat_eq, string_eq, eq_iff, nat_beq_iff, any, contains,
  contains-append, contains-erase, equal_fold,
}
use echo_vault.Keyspace.State.{ok}
use echo_vault.Acl.State.{Glob}
use echo_vault.PubSub.Channel.{Channel, leave}
use echo_vault.PubSub.Handlers.{left_channels, handle_unsubscribe}
use echo_vault.PubSub.State.{PubSub, leave_named, leave_names, unsubscribe}
use echo_vault.PubSub.Subscriptions.{subscribed}

leave_lem :
    (conn : ℕ) (c : Channel)
    → ((leave conn c).0.name ≡ c.name)
      × ((leave conn c).1 ≡ contains c.subscribers conn)
      × ((x : ℕ)
          → contains (leave conn c).0.subscribers x ≡ (contains c.subscribers x && not (conn == x)))
unfolding leave
leave_lem conn c = elim (Bool-cases (contains c.subscribers conn)) [
  | inl old ↦ rw old (refl, refl, λ x. ground (arith, contains-erase conn c.subscribers x))
  | inr out ↦ rw out (refl, refl, λ x. ground (arith, nat_beq_iff conn x))
]

contains-optional :
    (b : Bool) (k : String) (ks : List String) (y : String)
    → contains (if b then k ∷ ks else ks) y ≡ (b && k == y || contains ks y)
unfolding contains
contains-optional true k ks y = refl
contains-optional false k ks y = refl

leave_named_lem :
    (conn : ℕ) (names : List String) (c : Channel)
    → ((leave_named conn names c).0.name ≡ c.name)
      × ((x : ℕ)
          → contains (leave_named conn names c).0.subscribers x
            ≡ (contains c.subscribers x && not (conn == x && contains names c.name)))
      × ((y : String)
          → contains (leave_named conn names c).1 y
            ≡ (contains c.subscribers conn && contains names c.name && c.name == y))
unfolding leave_named contains
leave_named_lem conn [] c = (refl, λ x. ground arith, λ y. ground arith)
leave_named_lem conn (name ∷ names) c = elim (Bool-cases (c.name == name)) [
  | inr other ↦
      let (named, who, left) = leave_named_lem conn names c in
      (
        rw other named,
        λ x. rw other (ground (arith, who x, eq_iff c.name name, eq_iff name c.name)),
        λ y. rw other (ground (arith, left y, eq_iff c.name name, eq_iff name c.name)),
      )
  | inl same ↦
      let (n1, was, w1) = leave_lem conn c in
      let (n2, w2, l2) = leave_named_lem conn names (leave conn c).0 in
      let e : contains names (leave conn c).0.name ≡ contains names c.name =
        ap (λ n. contains names n) n1 in
      let f : (y : String) → ((leave conn c).0.name == y) ≡ (c.name == y) =
        λ y. ap (λ n. n == y) n1 in
      let turned : (name == c.name) ≡ true =
        ground (arith, same, eq_iff c.name name, eq_iff name c.name) in
      (
        rw same (n2 ∙ n1),
        λ x. rw same (ground (arith, w2 x, w1 x, e, turned)),
        λ y.
            rw (same, was)
              (ground (
                arith,
                l2 y,
                w1 conn,
                e,
                f y,
                turned,
                contains-optional (contains c.subscribers conn) c.name
                    (leave_named conn names (leave conn c).0).1 y,
              )),
      )
]

leave_names_lem :
    (conn : ℕ) (names : List String) (cs : List Channel)
    → ((x : ℕ) (y : String)
        → subscribed x y (leave_names conn names cs).0
          ≡ (subscribed x y cs && not (conn == x && contains names y)))
      × ((y : String)
          → contains (leave_names conn names cs).1 y ≡ (subscribed conn y cs && contains names y))
unfolding leave_names subscribed any contains
leave_names_lem conn names [] = (λ x y. refl, λ y. refl)
leave_names_lem conn names (c ∷ cs) =
    let (named, who, left) = leave_named_lem conn names c in
    let (who', left') = leave_names_lem conn names cs in
    let same : (y : String) → ((leave_named conn names c).0.name == y) ≡ (c.name == y) =
      λ y. ap (λ n. n == y) named in
    (
      λ x y. elim (Bool-cases (c.name == y)) [
        | inl e ↦
            rw (same y, e)
              (ground (arith, who x, who' x y, ap (contains names) ((eq_iff c.name y).0 e)))
        | inr e ↦ rw (same y, e) (who' x y)
      ],
      λ y. elim (Bool-cases (c.name == y)) [
        | inl e ↦ rw e (
            contains-append (leave_named conn names c).1 (leave_names conn names cs).1 y
            ∙ ground (arith, left y, left' y, e, ap (contains names) ((eq_iff c.name y).0 e)))
        | inr e ↦ rw e (
            contains-append (leave_named conn names c).1 (leave_names conn names cs).1 y
            ∙ ground (arith, left y, left' y, e))
      ],
    )

-- UNSUBSCRIBE with at least one name: afterwards the connection is a subscriber of none of the names given, and
-- every other subscription, of this connection or of another, is as it was. The reply has a name exactly if it
-- is given and the connection was subscribed to it.
pub handle_unsubscribe-subscribed :
    (globs : Glob) (conn : ℕ) (word n : String) (names : List String) (ps : PubSub)
    → equal_fold word "punsubscribe" ≡ false
    → (cs : List Channel) × (left : List String) × (handle_unsubscribe globs conn
          (word ∷ n ∷ names)
          ps
        ≡ (ok (left_channels "unsubscribe" left), record ps { channels = cs }))
      × ((x : ℕ) (y : String)
          → subscribed x y cs
            ≡ (subscribed x y ps.channels && not (conn == x && contains (n ∷ names) y)))
      × ((y : String) → contains left y ≡ (subscribed conn y ps.channels && contains (n ∷ names) y))
unfolding handle_unsubscribe unsubscribe
handle_unsubscribe-subscribed globs conn word n names ps plain =
    let (who, left) = leave_names_lem conn (n ∷ names) ps.channels in
    (
      (leave_names conn (n ∷ names) ps.channels).0,
      (leave_names conn (n ∷ names) ps.channels).1,
      rw (plain, plain),
      who,
      left,
    )
