-- ===== src/Acl/Globs.antt =====
-- internal/modules/acl/acl.go, `CompileGlobs`: which patterns are compiled, so that no check of a key or a
-- channel meets one that is not.
use echo_vault.Base.{
  ℕ, ◌≡◌, refl, String, Bool, true, false, ◌||◌, none, some, List, [], ◌∷◌, ◌++◌, arith, inl, inr,
  Bool-cases, Option-cases, ◌==◌, nat_eq, string_eq, eq_iff, contains, contains-append, any,
}
use echo_vault.Keyspace.State.{ok}
use echo_vault.Acl.User.{User, create_user, normalise, update_user}
use echo_vault.Acl.State.{
  Glob, Acl, put, append_user, user_globs, add_globs, collect_globs, compile_each, compile_globs,
  find_user, set_user,
}
use echo_vault.Acl.Rights.{Within, HasGlobs}

contains-add_globs :
    (gs all_globs : List String) (g : String)
    → contains (add_globs gs all_globs) g ≡ (contains all_globs g || contains gs g)
unfolding add_globs contains
contains-add_globs [] all_globs g = ground arith
contains-add_globs (x ∷ gs) all_globs g = elim (Bool-cases (contains all_globs x)) [
  | inl old ↦ rw old (ground (arith, contains-add_globs gs all_globs g, eq_iff x g))
  | inr new ↦ rw new (
      ground (
        arith,
        contains-add_globs gs (all_globs ++ x ∷ []) g,
        contains-append all_globs (x ∷ []) g,
      ))
]

contains-collect_globs :
    (cell : ℕ → User) (ps : List ℕ) (all_globs : List String) (g : String)
    → contains (collect_globs cell ps all_globs) g
      ≡ (contains all_globs g || any (λ p. contains (user_globs (cell p)) g) ps)
unfolding collect_globs any
contains-collect_globs cell [] all_globs g = ground arith
contains-collect_globs cell (p ∷ ps) all_globs g = ground (
  arith,
  contains-collect_globs cell ps (add_globs (user_globs (cell p)) all_globs) g,
  contains-add_globs (user_globs (cell p)) all_globs g,
)

module _ (glob : Glob) where
  contains-compile_each :
      (gs globs globs' : List String) (g : String)
      → compile_each glob gs globs ≡ some globs'
      → contains globs' g ≡ (contains globs g || contains gs g)
  unfolding compile_each contains
  contains-compile_each [] globs globs' g h = ground arith
  contains-compile_each (x ∷ gs) globs globs' g h = elim (Bool-cases (contains globs x)) [
    | inl old ↦ ground (arith, contains-compile_each gs globs globs' g, eq_iff x g)
    | inr new ↦ ground (
      arith,
      contains-compile_each gs (globs ++ x ∷ []) globs' g,
      contains-append globs (x ∷ []) g,
    )
  ]

  -- What `CompileGlobs` leaves: the patterns of before, and those of every user in the list.
  pub record Compiles (a a' : Acl) : Type 0 where
    pub kept : a' ≡ record a { globs = a'.globs }
    pub globs :
        (g : String)
        → contains a'.globs g
          ≡ (contains a.globs g || any (λ p. contains (user_globs (a.cell p)) g) a.users)

  pub compile_globs-Compiles : (a a' : Acl) → compile_globs glob a ≡ ok a' → Compiles a a'
  unfolding compile_globs
  compile_globs-Compiles a a' h =
      elim (Option-cases (compile_each glob (collect_globs a.cell a.users []) a.globs)) [
        | inl broken ↦ absurd (ground arith)
        | inr (globs, done) ↦ record {
          kept = ground arith;
          globs = λ g. ground (
            arith,
            contains-compile_each (collect_globs a.cell a.users []) a.globs globs g done,
            contains-collect_globs a.cell a.users [] g,
            contains-nil g,
          );
        }
      ]
    where
      contains-nil : (g : String) → contains [] g ≡ false
      contains-nil g = unfold contains in refl

any_member :
    (f : ℕ → Bool) (ps : List ℕ) (p : ℕ) → contains ps p ≡ true → f p ≡ true → any f ps ≡ true
unfolding any contains
any_member f [] p h k = cc
any_member f (q ∷ ps) p h k = ground (arith, any_member f ps p)

pub find_user_member :
    (cell : ℕ → User) (name : String) (ps : List ℕ) (p : ℕ)
    → find_user cell name ps ≡ some p
    → (contains ps p ≡ true) × ((cell p).username ≡ name)
unfolding find_user contains
find_user_member cell name [] p h = cc
find_user_member cell name (q ∷ ps) p h = elim (Bool-cases ((cell q).username == name)) [
  | inl same ↦ (ground arith, ground (arith, eq_iff (cell q).username name))
  | inr other ↦
      let (inside, named) = find_user_member cell name ps p (ground arith) in
      (ground (arith, inside), named)
]

member_one : (q p : ℕ) → contains (p ∷ []) q ≡ (p == q)
unfolding contains
member_one q p = ground arith

-- What `SetUser` does when it ends: an update of the user with the name, or of a new one.
pub data SetsUser (name : String) (rules : List String) (a : Acl) : Acl → Type 0 where
  updates :
      (p : ℕ) (u : User)
      → find_user a.cell name a.users ≡ some p
      → update_user (name ∷ rules) (a.cell p) ≡ some u
      → SetsUser name rules a (put p u a)
  creates :
      (u : User)
      → find_user a.cell name a.users ≡ none
      → update_user (name ∷ rules) (create_user name) ≡ some u
      → SetsUser name rules a (append_user (normalise u) a)

module _ (glob : Glob) where
  pub set_user-SetsUser :
      (name : String) (rules : List String) (a a' : Acl)
      → set_user glob name rules a ≡ ok a'
      → (b : Acl) × SetsUser name rules a b × (compile_globs glob b ≡ ok a')
  unfolding set_user
  set_user-SetsUser name rules a a' h = elim (Option-cases (find_user a.cell name a.users)) [
    | inl absent ↦ elim (Option-cases (update_user (name ∷ rules) (create_user name))) [
      | inl broken ↦ absurd (ground arith)
      | inr (u, done) ↦ (append_user (normalise u) a, creates u absent done, ground arith)
    ]
    | inr (p, found) ↦ elim (Option-cases (update_user (name ∷ rules) (a.cell p))) [
      | inl broken ↦ absurd (ground arith)
      | inr (u, done) ↦ (put p u a, updates p u found done, ground arith)
    ]
  ]

  -- Every pattern of every user is compiled.
  pub record AllCompiled (a : Acl) : Type 0 where
    pub every : (p : ℕ) → Within a.globs (user_globs (a.cell p))

  pub HasGlobs-user_globs :
      (globs : List String) (u : User) → Within globs (user_globs u) → HasGlobs glob globs u
  unfolding user_globs
  HasGlobs-user_globs globs u h = record {
    channels = λ g k. h g (ground (arith, split g));
    hidden_channels = λ g k. h g (ground (arith, split g));
    read_keys = λ g k. h g (ground (arith, split g));
    write_keys = λ g k. h g (ground (arith, split g));
  }
    where
      split :
          (g : String)
          → contains
              (((u.included_pubsub_channels ++ u.excluded_pubsub_channels) ++ u.included_read_keys)
                ++ u.included_write_keys)
              g
            ≡ (((contains u.included_pubsub_channels g || contains u.excluded_pubsub_channels g)
                  || contains u.included_read_keys g)
                || contains u.included_write_keys g)
      split g = ground (
        arith,
        contains-append
            ((u.included_pubsub_channels ++ u.excluded_pubsub_channels) ++ u.included_read_keys)
            u.included_write_keys g,
        contains-append (u.included_pubsub_channels ++ u.excluded_pubsub_channels)
            u.included_read_keys g,
        contains-append u.included_pubsub_channels u.excluded_pubsub_channels g,
      )

  -- The patterns of a user in the list are compiled, and those of before stay.
  pub Compiles-Within :
      (a a' : Acl) (p : ℕ)
      → Compiles glob a a'
      → contains a.users p ≡ true
      → Within a'.globs (user_globs (a.cell p))
  Compiles-Within a a' p c inside g h =
      ground
        (arith, c.globs g, any_member (λ q. contains (user_globs (a.cell q)) g) a.users p inside h)

  Compiles-AllCompiled :
      (name : String) (rules : List String) (a b a' : Acl)
      → AllCompiled a
      → SetsUser name rules a b
      → Compiles glob b a'
      → (p : ℕ) → Within a'.globs (user_globs (b.cell p))
  unfolding put append_user
  Compiles-AllCompiled name rules a b a' v (updates p u found done) c q =
      elim (Bool-cases (q == p)) [
        | inl same ↦
            Compiles-Within b a' q c
              (ground (arith, (find_user_member a.cell name a.users p found).0))
        | inr other ↦ λ g h. ground (arith, c.globs g, v.every q g (rw other at h))
      ]
  Compiles-AllCompiled name rules a b a' v (creates u absent done) c q =
      elim (Bool-cases (q == a.next)) [
        | inl same ↦
            Compiles-Within b a' q c
              (ground (arith, contains-append a.users (a.next ∷ []) q, member_one q a.next))
        | inr other ↦ λ g h. ground (arith, c.globs g, v.every q g (rw other at h))
      ]

  -- `SetUser`, when it ends: if every pattern of every user is compiled, that is so again, also where it
  -- adds patterns or a user.
  pub set_user-AllCompiled :
      (name : String) (rules : List String) (a a' : Acl)
      → AllCompiled a
      → set_user glob name rules a ≡ ok a'
      → AllCompiled a'
  set_user-AllCompiled name rules a a' v h =
      let (b, sets, done) = set_user-SetsUser name rules a a' h in
      let c = compile_globs-Compiles glob b a' done in
      record { every = λ p. rw c.kept (Compiles-AllCompiled name rules a b a' v sets c p) }
