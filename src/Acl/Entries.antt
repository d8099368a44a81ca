-- ===== src/Acl/Entries.antt =====
-- internal/modules/acl/user.go, `RemoveDuplicateEntries`: what is left of a list of entries.
use echo_vault.Base.{
  ◌≡◌, refl, ◌∙◌, ap, sym, String, Bool, true, false, not, ◌&&◌, ◌||◌, List, [], ◌∷◌, ◌++◌, arith,
  inl, inr, Bool-cases, if◌then◌else◌, ◌==◌, string_eq, eq_iff, contains, contains-append, any, all,
  is_empty, IsDistinct, IsDistinct-snoc,
}
use echo_vault.Acl.User.{entry_keys, without_star, remove_duplicate_entries}
use echo_vault.Acl.Categories.{all-contains, all_fails}

-- `*`, or its other spelling
abbrev pub is_star : String → String → Bool
is_star all_alias e = e == "*" || e == all_alias

contains-entry_keys :
    (es : List String) (all_alias : String) (keys : List String) (x : String)
    → contains (entry_keys es all_alias keys) x
      ≡ (contains keys x || any (λ e. (if e == all_alias then "*" else e) == x) es)
unfolding entry_keys any
contains-entry_keys [] all_alias keys x = ground arith
contains-entry_keys (e ∷ es) all_alias keys x =
    let key = if e == all_alias then "*" else e in
    elim (Bool-cases (contains keys key)) [
      | inl old ↦ rw old (ground (arith, contains-entry_keys es all_alias keys x, eq_iff key x))
      | inr new ↦ rw new (
          ground (
            arith,
            contains-entry_keys es all_alias (keys ++ key ∷ []) x,
            contains-append keys (key ∷ []) x,
            contains-one key x,
          ))
    ]
  where
    contains-one : (k y : String) → contains (k ∷ []) y ≡ (k == y)
    contains-one k y = unfold contains in ground arith

IsDistinct-entry_keys :
    (es : List String) (all_alias : String) (keys : List String)
    → IsDistinct keys
    → IsDistinct (entry_keys es all_alias keys)
unfolding entry_keys
IsDistinct-entry_keys [] all_alias keys d = d
IsDistinct-entry_keys (e ∷ es) all_alias keys d =
    let key = if e == all_alias then "*" else e in
    elim (Bool-cases (contains keys key)) [
      | inl old ↦ rw old (IsDistinct-entry_keys es all_alias keys d)
      | inr new ↦
          rw new
            (IsDistinct-entry_keys es all_alias (keys ++ key ∷ []) (IsDistinct-snoc keys key d new))
    ]

contains-without_star :
    (ks : List String) (x : String)
    → contains (without_star ks) x ≡ (contains ks x && not (x == "*"))
unfolding contains without_star
contains-without_star [] x = refl
contains-without_star (k ∷ ks) x =
    ground (arith, contains-without_star ks x, eq_iff k "*", eq_iff k x, eq_iff x "*")

-- A key other than `*` comes from the entry that it is.
any_entry :
    (es : List String) (all_alias x : String)
    → (x == "*") ≡ false
    → any (λ e. (if e == all_alias then "*" else e) == x) es
      ≡ (contains es x && not (x == all_alias))
unfolding any contains
any_entry [] all_alias x h = refl
any_entry (e ∷ es) all_alias x h = ground (
  arith,
  any_entry es all_alias x h,
  eq_iff e all_alias,
  eq_iff "*" x,
  eq_iff x "*",
  eq_iff e x,
  eq_iff x all_alias,
)

any_star :
    (es : List String) (all_alias : String)
    → any (λ e. (if e == all_alias then "*" else e) == "*") es ≡ true
    → is_empty es ≡ false
unfolding any
any_star [] all_alias h = absurd (cc h)
any_star (e ∷ es) all_alias h = refl

-- The end of the function, from the keys on.
abbrev kept : List String → List String
kept [] = []
kept (k ∷ ks) = if k == "*" && is_empty ks then "*" ∷ [] else without_star (k ∷ ks)

kept_lem :
    (keys : List String)
    → (elim keys [
      | [] ↦ []
      | k ∷ ks ↦ if k == "*" && is_empty ks then "*" ∷ [] else without_star (k ∷ ks)
    ])
      ≡ kept keys
kept_lem [] = refl
kept_lem (k ∷ ks) = refl

contains-kept :
    (keys : List String) (x : String)
    → (x == "*") ≡ false
    → contains (kept keys) x ≡ contains keys x
unfolding contains
contains-kept [] x h = refl
contains-kept (k ∷ []) x h =
    ground (arith, contains-without_star (k ∷ []) x, eq_iff k "*", eq_iff "*" x, eq_iff x "*")
contains-kept (k ∷ j ∷ ks) x h = ground (arith, contains-without_star (k ∷ j ∷ ks) x)

contains-kept_star :
    (keys : List String)
    → IsDistinct keys
    → contains (kept keys) "*" ≡ (not (is_empty keys) && all (λ k. k == "*") keys)
unfolding contains all
contains-kept_star [] d = refl
contains-kept_star (k ∷ []) d =
    ground (arith, contains-without_star (k ∷ []) "*", eq_iff k "*", eq_iff "*" "*")
contains-kept_star (k ∷ j ∷ ks) d = ground (
  arith,
  contains-without_star (k ∷ j ∷ ks) "*",
  eq_iff k "*",
  eq_iff j "*",
  eq_iff "*" "*",
  eq_iff j k,
  d.0,
)

module _ (es : List String) (all_alias : String) where
  private_keys : List String
  private_keys = entry_keys es all_alias []

  contains-private_keys :
      (x : String)
      → contains private_keys x ≡ any (λ e. (if e == all_alias then "*" else e) == x) es
  unfolding private_keys
  contains-private_keys x = contains-entry_keys es all_alias [] x ∙ unfold contains in refl

  is_star_keys : all (λ k. k == "*") private_keys ≡ all (is_star all_alias) es
  is_star_keys = elim (Bool-cases (all (is_star all_alias) es)) [
    | inl every ↦ elim (Bool-cases (all (λ k. k == "*") private_keys)) [
      | inl stars ↦ stars ∙ sym every
      | inr other ↦
          let (k, inside, out) = all_fails (λ k. k == "*") private_keys other in
          absurd (
            ground (
              arith,
              contains-private_keys k,
              any_entry es all_alias k out,
              all-contains (is_star all_alias) es k every,
            ))
    ]
    | inr some_fail ↦
        let (y, inside, out) = all_fails (is_star all_alias) es some_fail in
        elim (Bool-cases (all (λ k. k == "*") private_keys)) [
          | inl stars ↦ absurd (
              ground (
                arith,
                contains-private_keys y,
                any_entry es all_alias y,
                all-contains (λ k. k == "*") private_keys y stars,
              ))
          | inr other ↦ other ∙ sym some_fail
        ]
  ]

contains-nil : (x : String) → contains [] x ≡ false
unfolding contains
contains-nil x = refl

is_empty-private_keys :
    (es : List String) (all_alias : String) → is_empty (private_keys es all_alias) ≡ is_empty es
unfolding any
is_empty-private_keys [] all_alias = unfold private_keys entry_keys in refl
is_empty-private_keys (e ∷ es) all_alias =
    let key = if e == all_alias then "*" else e in
    go (private_keys (e ∷ es) all_alias)
      (contains-private_keys (e ∷ es) all_alias key ∙ ground (arith, eq_iff key key))
  where
    go :
        (keys : List String)
        → contains keys (if e == all_alias then "*" else e) ≡ true
        → is_empty keys ≡ false
    go [] h = absurd (ground (arith, contains-nil (if e == all_alias then "*" else e)))
    go (k ∷ keys) h = refl

-- `RemoveDuplicateEntries`: an entry other than `*` is left exactly if it was there and is not the other
-- spelling of `*`. `*` is left only where every entry is `*` or that spelling, and there is one: beside
-- any other entry it is dropped.
pub contains-remove_duplicate_entries :
    (es : List String) (all_alias x : String)
    → contains (remove_duplicate_entries es all_alias) x ≡ (
        if x == "*"
        then not (is_empty es) && all (is_star all_alias) es
        else contains es x && not (x == all_alias))
unfolding remove_duplicate_entries
contains-remove_duplicate_entries es all_alias x = elim (Bool-cases (x == "*")) [
  | inl same ↦ rw ((eq_iff x "*").0 same) (
      kept_keys "*"
      ∙ (contains-kept_star (private_keys es all_alias) distinct
          ∙ ground (
            arith,
            is_star_keys es all_alias,
            is_empty-private_keys es all_alias,
            eq_iff "*" "*",
          )))
  | inr other ↦ rw other (
      kept_keys x
      ∙ (contains-kept (private_keys es all_alias) x other
          ∙ (contains-private_keys es all_alias x ∙ any_entry es all_alias x other)))
]
  where
    distinct : IsDistinct (private_keys es all_alias)
    distinct = unfold private_keys in IsDistinct-entry_keys es all_alias [] tt

    kept_keys :
        (y : String)
        → contains (remove_duplicate_entries es all_alias) y
          ≡ contains (kept (private_keys es all_alias)) y
    kept_keys y =
        unfold private_keys in ap (λ ks. contains ks y) (kept_lem (entry_keys es all_alias []))
