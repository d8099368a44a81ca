-- ===== src/Acl/Users.antt =====
-- internal/modules/acl/acl.go: which users there are after `SetUser` and `DeleteUser`.
use echo_vault.Base.{
  ℕ, ◌≡◌, refl, ◌∙◌, sym, String, Bool, true, false, not, ◌&&◌, ◌||◌, Option, none, some, List, [],
  ◌∷◌, arith, inl, inr, ◌⊎◌, Bool-cases, if◌then◌else◌, ◌==◌, nat_eq, string_eq, eq_iff, contains,
  any, delete_func,
}
use echo_vault.Acl.User.{User}
use echo_vault.Acl.State.{Acl, last_user, drop_user, delete_each, delete_user}

-- a user with the name is in the list
unfoldable pub has_user : Acl → String → Bool
has_user a name = any (λ p. (a.cell p).username == name) a.users

any-delete_func :
    (cell : ℕ → User) (name : String) (ps : List ℕ) (x : String)
    → any (λ p. (cell p).username == x) (delete_func (λ q. (cell q).username == name) ps)
      ≡ (any (λ p. (cell p).username == x) ps && not (name == x))
unfolding any delete_func
any-delete_func cell name [] x = refl
any-delete_func cell name (p ∷ ps) x = ground (
  arith,
  any-delete_func cell name ps x,
  eq_iff (cell p).username name,
  eq_iff (cell p).username x,
  eq_iff name x,
)

has_user-drop_user :
    (p : ℕ) (a : Acl) (x : String)
    → has_user (drop_user p a) x ≡ (has_user a x && not ((a.cell p).username == x))
unfolding has_user drop_user
has_user-drop_user p a x = any-delete_func a.cell (a.cell p).username a.users x

-- The search gives a user of the name, or what it started from where there is none.
last_user_named :
    (cell : ℕ → User) (name : String) (ps : List ℕ) (user : Option ℕ)
    → ((any (λ p. (cell p).username == name) ps ≡ false) × (last_user cell name ps user ≡ user))
      ⊎ ((p : ℕ) × (last_user cell name ps user ≡ some p) × ((cell p).username ≡ name))
unfolding last_user any
last_user_named cell name [] user = inl (refl, refl)
last_user_named cell name (q ∷ ps) user = elim (Bool-cases (name == (cell q).username)) [
  | inl same ↦ elim (last_user_named cell name ps (some q)) [
    | inl (gone, kept) ↦ inr (q, rw same kept, sym ((eq_iff name (cell q).username).0 same))
    | inr (p, found, named) ↦ inr (p, rw same found, named)
  ]
  | inr other ↦ elim (last_user_named cell name ps user) [
    | inl (gone, kept) ↦ inl (
      ground (arith, gone, eq_iff name (cell q).username, eq_iff (cell q).username name),
      rw other kept,
    )
    | inr (p, found, named) ↦ inr (p, rw other found, named)
  ]
]

-- The user that a round of `DeleteUser` hands on is not the default one, and is gone.
Gone : Acl → Option ℕ → Type 0
Gone a none = Unit
Gone a (some p) =
    (((a.cell p).username == "default") ≡ false) × (has_user a (a.cell p).username ≡ false)

kept_names : (names : List String) → String → Bool
kept_names names x = x == "default" || not (contains names x)

cell-drop_user : (p : ℕ) (a : Acl) → (drop_user p a).cell ≡ a.cell
unfolding drop_user
cell-drop_user p a = refl

Gone-drop_user :
    (p : ℕ) (a : Acl) → ((a.cell p).username == "default") ≡ false → Gone (drop_user p a) (some p)
unfolding Gone drop_user
Gone-drop_user p a other = (
  other,
  has_user-drop_user p a (a.cell p).username
      ∙ ground (arith, eq_iff (a.cell p).username (a.cell p).username),
)

-- Dropping a user that is gone changes the users of no name, and the user stays gone.
drop_user_again-Gone :
    (p : ℕ) (a : Acl)
    → Gone a (some p)
    → ((x : String) → has_user (drop_user p a) x ≡ has_user a x) × Gone (drop_user p a) (some p)
unfolding Gone
drop_user_again-Gone p a g = (
  λ x. ground (arith, has_user-drop_user p a x, g.1, eq_iff (a.cell p).username x),
  Gone-drop_user p a g.0,
)

kept_names-cons :
    (name : String) (names : List String) (x : String)
    → kept_names (name ∷ names) x ≡ (
        if name == "default"
        then kept_names names x
        else (not (name == x) || x == "default") && kept_names names x)
unfolding kept_names contains
kept_names-cons name names x =
    ground (arith, eq_iff name "default", eq_iff x "default", eq_iff name x)

no_name :
    (a : Acl) (name x : String)
    → any (λ p. (a.cell p).username == name) a.users ≡ false
    → (name == x) ≡ true
    → has_user a x ≡ false
unfolding has_user
no_name a name x gone same = rw ((eq_iff name x).0 same) at gone

-- A round for a name that nobody has drops the user of the round before once more.
drop_again :
    (names : List String) (user : Option ℕ) (a : Acl) (x : String)
    → ((u : Option ℕ) (b : Acl)
        → Gone b u
        → has_user (delete_each names u b) x ≡ (has_user b x && kept_names names x))
    → Gone a user
    → has_user
        (elim user [
          | none ↦ delete_each names none a
          | some p ↦ delete_each names (some p) (drop_user p a)
        ])
        x
      ≡ (has_user a x && kept_names names x)
drop_again names none a x ih g = ih none a g
drop_again names (some p) a x ih g =
    let (same, still) = drop_user_again-Gone p a g in
    ih (some p) (drop_user p a) still ∙ ground (arith, same x)

has_user-delete_each :
    (names : List String) (user : Option ℕ) (a : Acl) (x : String)
    → Gone a user
    → has_user (delete_each names user a) x ≡ (has_user a x && kept_names names x)
unfolding delete_each
has_user-delete_each [] user a x g = unfold kept_names contains in ground arith
has_user-delete_each (name ∷ names) user a x g = elim (Bool-cases (name == "default")) [
  | inl default ↦
      rw default
        (has_user-delete_each names user a x g ∙ ground (arith, kept_names-cons name names x))
  | inr other ↦ elim (last_user_named a.cell name a.users user) [
    | inl (gone, kept) ↦
        rw (other, kept, delete_each)
          (drop_again names user a x (λ u b. has_user-delete_each names u b x) g
            ∙ ground (arith, kept_names-cons name names x, no_name a name x gone, eq_iff name x))
    | inr (p, found, named) ↦
        rw (other, found, delete_each)
          (has_user-delete_each names (some p) (drop_user p a) x
              (Gone-drop_user p a (rw named other))
            ∙ ground (
              arith,
              has_user-drop_user p a x,
              kept_names-cons name names x,
              eq_iff name x,
              eq_iff x "default",
              eq_iff name "default",
              named,
            ))
  ]
]

-- `DeleteUser`: a user with a name is in the list afterwards exactly if one was, and the name is `default`
-- or not among those given. A name that nobody has, and one given twice, do no harm to other users.
pub has_user-delete_user :
    (names : List String) (a : Acl) (x : String)
    → has_user (delete_user names a) x
      ≡ (has_user a x && (x == "default" || not (contains names x)))
unfolding delete_user
has_user-delete_user names a x =
    has_user-delete_each names none a x (unfold Gone in tt) ∙ unfold kept_names in refl
