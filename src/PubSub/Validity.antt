-- ===== src/PubSub/Validity.antt =====
-- internal/modules/pubsub/pubsub.go: channels that are valid stay so.
use echo_vault.Base.{
  ℕ, zero, suc, ◌+◌, ◌≤◌, ◌≡◌, refl, ◌∙◌, ap, String, Bool, not, ◌&&◌, ◌||◌, Option, some, none,
  List, [], ◌∷◌, ◌++◌, map, arith, inl, inr, Bool-cases, Option-cases, ◌==◌, nat_eq, string_eq,
  eq_iff, length, length-append, All, contains, IsDistinct, IsDistinct-snoc, IsDistinct-erase,
}
use mathlib.Core.Path.{subst}
use echo_vault.Acl.State.{Glob}
use echo_vault.PubSub.Channel.{Channel, new_channel, join, leave, is_full, capacity, receive}
use echo_vault.PubSub.State.{
  PubSub, subscribe_to, subscribe_each, leave_where, leave_named, leave_names, leave_patterns, fits,
  receives, publish, receive_at,
}
use echo_vault.PubSub.Subscriptions.{name-join, after_round, subscribe_each_step}

-- No connection is there twice, and the Go channel holds at most what its buffer takes.
pub record IsFit (c : Channel) : Type 0 where
  pub once : IsDistinct c.subscribers
  pub bounded : length c.queue ≤ capacity

abbrev pub names : List Channel → List String
names cs = map (λ c. c.name) cs

-- No two channels have one name, and every channel is fit.
pub record IsValid (cs : List Channel) : Type 0 where
  pub named : IsDistinct (names cs)
  pub every : All IsFit cs

IsFit-join : (conn : ℕ) (c : Channel) → IsFit c → IsFit (join conn c)
unfolding join
IsFit-join conn c f = elim (Bool-cases (contains c.subscribers conn)) [
  | inl old ↦ rw old f
  | inr out ↦
      rw out (record { once = IsDistinct-snoc c.subscribers conn f.once out; bounded = f.bounded })
]

IsFit-leave : (conn : ℕ) (c : Channel) → IsFit c → IsFit (leave conn c).0
unfolding leave
IsFit-leave conn c f = elim (Bool-cases (contains c.subscribers conn)) [
  | inl old ↦
      rw old (record { once = IsDistinct-erase conn c.subscribers f.once; bounded = f.bounded })
  | inr out ↦ rw out f
]

name-leave : (conn : ℕ) (c : Channel) → (leave conn c).0.name ≡ c.name
unfolding leave
name-leave conn c = elim (Bool-cases (contains c.subscribers conn)) [
  | inl old ↦ rw old
  | inr out ↦ rw out
]

-- The channels of `cs'` are those of `cs`, and as fit.
abbrev pub Follows : List Channel → List Channel → Type 0
Follows cs cs' = (names cs' ≡ names cs) × (All IsFit cs → All IsFit cs')

pub IsValid-Follows : (cs cs' : List Channel) → Follows cs cs' → IsValid cs → IsValid cs'
IsValid-Follows cs cs' (same, fit) v = record { named = rw same v.named; every = fit v.every }

pub leave_where-Follows :
    (picked : Channel → Bool) (conn : ℕ) (cs : List Channel)
    → Follows cs (leave_where picked conn cs).0
unfolding leave_where
leave_where-Follows picked conn [] = (refl, λ h. h)
leave_where-Follows picked conn (c ∷ cs) =
    let (same, fit) = leave_where-Follows picked conn cs in
    elim (Bool-cases (picked c)) [
      | inl taken ↦ (
        rw (taken, name-leave conn c) (ap (◌∷◌ c.name) same),
        λ h. rw taken (IsFit-leave conn c h.0, fit h.1),
      )
      | inr other ↦ (rw other (ap (◌∷◌ c.name) same), λ h. rw other (h.0, fit h.1))
    ]

leave_named_kept :
    (conn : ℕ) (given : List String) (c : Channel)
    → ((leave_named conn given c).0.name ≡ c.name) × (IsFit c → IsFit (leave_named conn given c).0)
unfolding leave_named
leave_named_kept conn [] c = (refl, λ f. f)
leave_named_kept conn (name ∷ given) c = elim (Bool-cases (c.name == name)) [
  | inl same ↦
      let (named, fit) = leave_named_kept conn given (leave conn c).0 in
      (rw same (named ∙ name-leave conn c), λ f. rw same (fit (IsFit-leave conn c f)))
  | inr other ↦
      let (named, fit) = leave_named_kept conn given c in (rw other named, λ f. rw other (fit f))
]

pub leave_names-Follows :
    (conn : ℕ) (given : List String) (cs : List Channel) → Follows cs (leave_names conn given cs).0
unfolding leave_names
leave_names-Follows conn given [] = (refl, λ h. h)
leave_names-Follows conn given (c ∷ cs) =
    let (named, fit) = leave_named_kept conn given c in
    let (same, fit') = leave_names-Follows conn given cs in
    (rw named (ap (◌∷◌ c.name) same), λ h. (fit h.0, fit' h.1))

pub publish-Follows :
    (globs : Glob) (text name : String) (cs : List Channel)
    → Follows cs (publish globs text name cs).0
unfolding publish
publish-Follows globs text name [] = (refl, λ h. h)
publish-Follows globs text name (c ∷ cs) =
    let (same, fit) = publish-Follows globs text name cs in
    elim (Bool-cases (receives globs name c)) [
      | inr other ↦ (rw other (ap (◌∷◌ c.name) same), λ h. rw other (h.0, fit h.1))
      | inl taken ↦ elim (Bool-cases (is_full c)) [
        | inl full ↦ (rw (taken, full) refl, λ h. rw (taken, full) h)
        | inr room ↦ (
          rw (taken, room) (ap (◌∷◌ c.name) same),
          λ h.
              rw (taken, room)
                (
                  record {
                    once = h.0.once;
                    bounded = ground (arith, room, length-append c.queue (text ∷ []));
                  },
                  fit h.1,
                ),
        )
      ]
    ]

receive_kept : (c : Channel) → ((receive c).0.name ≡ c.name) × (IsFit c → IsFit (receive c).0)
unfolding receive
receive_kept c = kept_by c.queue refl
  where
    kept_by :
        (q : List String)
        → c.queue ≡ q
        → ((receive c).0.name ≡ c.name) × (IsFit c → IsFit (receive c).0)
    kept_by [] e = rw e (refl, λ f. f)
    kept_by (text ∷ rest) e =
        rw e (refl, λ f. record { once = f.once; bounded = omega (arith, f.bounded, ap length e) })

pub receive_at-Follows : (i : ℕ) (cs : List Channel) → Follows cs (receive_at i cs).0
unfolding receive_at
receive_at-Follows i [] = (refl, λ h. h)
receive_at-Follows zero (c ∷ cs) =
    let (named, fit) = receive_kept c in (rw named refl, λ h. (fit h.0, h.1))
receive_at-Follows (suc i) (c ∷ cs) =
    let (same, fit) = receive_at-Follows i cs in (ap (◌∷◌ c.name) same, λ h. (h.0, fit h.1))

-- A round of `Subscribe`: the channels are valid, and there is no new name but the one given.
abbrev Added : String → List Channel → Option (List Channel) → Type 0
Added name cs none = Unit
Added name cs (some cs') =
    IsValid cs' × ((y : String) → contains (names cs') y ≡ (contains (names cs) y || name == y))

subscribe_to-Added :
    (globs : Glob) (p : Bool) (conn : ℕ) (name : String) (cs : List Channel)
    → IsValid cs
    → Added name cs (subscribe_to globs p conn name cs)
unfolding subscribe_to contains
subscribe_to-Added globs p conn name [] v = elim (Bool-cases (p && not (globs.compiles name))) [
  | inl bad ↦ rw bad tt
  | inr fine ↦ rw fine (
    record {
      named = (refl, tt);
      every =
          (IsFit-join conn (new_channel p name) (record { once = tt; bounded = omega arith }), tt);
    },
    λ y. rw (name-join conn (new_channel p name)) (ground arith),
  )
]
subscribe_to-Added globs p conn name (c ∷ cs) v = elim (Bool-cases (c.name == name)) [
  | inl same ↦ rw same (
    record {
      named = rw (name-join conn c) v.named;
      every = (IsFit-join conn c v.every.0, v.every.1);
    },
    λ y.
        rw (name-join conn c)
          (ground (arith, same, eq_iff c.name name, eq_iff c.name y, eq_iff name y)),
  )
  | inr other ↦
      let ih =
        subscribe_to-Added globs p conn name cs (record { named = v.named.1; every = v.every.1 }) in
      elim (Option-cases (subscribe_to globs p conn name cs)) [
        | inl bad ↦ rw (other, bad) tt
        | inr (cs', done) ↦
            let (v', there) : Added name cs (some cs') = subst (Added name cs) done ih in
            rw (other, done)
              (
                record {
                  named = (
                    ground (
                      arith,
                      there c.name,
                      v.named.0,
                      other,
                      eq_iff name c.name,
                      eq_iff c.name name,
                    ),
                    v'.named,
                  );
                  every = (v.every.0, v'.every);
                },
                λ y. ground (arith, there y),
              )
      ]
]

pub subscribe_each-IsValid :
    (globs : Glob) (p : Bool) (conn i : ℕ) (given : List String) (ps : PubSub)
    → IsValid ps.channels
    → IsValid (subscribe_each globs p conn i given ps).1.channels
unfolding subscribe_each
subscribe_each-IsValid globs p conn i [] ps v = v
subscribe_each-IsValid globs p conn i (name ∷ given) ps v =
    let one = subscribe_to-Added globs p conn name ps.channels v in
    elim (Option-cases (subscribe_to globs p conn name ps.channels)) [
      | inl bad ↦ rw (bad, subscribe_each) v
      | inr (cs, done) ↦
          let (v', there) : Added name ps.channels (some cs) =
            subst (Added name ps.channels) done one in
          rw (subscribe_each_step globs p conn i name given ps cs done)
            (subscribe_each-IsValid globs p conn (i + 1) given (after_round p conn i name ps cs) v')
    ]

pub leave_patterns-IsValid :
    (globs : Glob) (conn : ℕ) (patterns : List String) (cs : List Channel) (given : List String)
    → IsValid cs
    → IsValid (leave_patterns globs conn patterns cs given).1
unfolding leave_patterns
leave_patterns-IsValid globs conn [] cs given v = v
leave_patterns-IsValid globs conn (pattern ∷ patterns) cs given v =
    let one = leave_where-Follows (fits globs pattern) conn cs in
    elim (Bool-cases (globs.compiles pattern)) [
      | inl good ↦ rw good (
          leave_patterns-IsValid globs conn patterns (leave_where (fits globs pattern) conn cs).0
            (given ++ (leave_where (fits globs pattern) conn cs).1)
            (IsValid-Follows cs (leave_where (fits globs pattern) conn cs).0 one v))
      | inr bad ↦ rw bad v
    ]
