-- ===== src/Acl/Categories.antt =====
-- internal/modules/acl/acl.go, step 2 of `AuthorizeConnection` with `getUnauthorized`: what the map of
-- counts and its sorted keys come to.
use echo_vault.Base.{
  ℕ, ◌+◌, ◌≡◌, refl, ◌∙◌, sym, String, Bool, true, false, not, ◌&&◌, ◌||◌, none, some, List, [],
  ◌∷◌, arith, inl, inr, Bool-cases, Option-cases, ◌==◌, nat_eq, string_eq, eq_iff, contains,
  IsDistinct, all, is_empty, Assoc, lookup, insert,
}
use echo_vault.Acl.User.{insert_stable, sort_stable}
use echo_vault.Acl.Authorize.{
  zero_counts, count_included, zero_keys, prefixed, get_unauthorized, lex_before,
}

members : Assoc String ℕ → List String
members [] = []
members ((k, n) ∷ m) = k ∷ members m

contains-members-insert :
    (k : String) (n : ℕ) (m : Assoc String ℕ) (x : String)
    → contains (members (insert k n m)) x ≡ (k == x || contains (members m) x)
unfolding members insert contains
contains-members-insert k n [] x = refl
contains-members-insert k n ((j, i) ∷ m) x =
    ground (arith, contains-members-insert k n m x, eq_iff j k, eq_iff j x, eq_iff k x)

IsDistinct-members-insert :
    (k : String) (n : ℕ) (m : Assoc String ℕ)
    → IsDistinct (members m)
    → IsDistinct (members (insert k n m))
unfolding members insert contains
IsDistinct-members-insert k n [] d = (refl, tt)
IsDistinct-members-insert k n ((j, i) ∷ m) d = elim (Bool-cases (j == k)) [
  | inl same ↦ rw same (ground (arith, d.0, eq_iff j k), d.1)
  | inr other ↦ rw other (
    ground (arith, d.0, contains-members-insert k n m j, eq_iff j k, eq_iff k j),
    IsDistinct-members-insert k n m d.1,
  )
]

contains-zero_keys_absent :
    (m : Assoc String ℕ) (x : String)
    → contains (members m) x ≡ false
    → contains (zero_keys m) x ≡ false
unfolding members zero_keys contains
contains-zero_keys_absent [] x h = refl
contains-zero_keys_absent ((j, i) ∷ m) x h = ground (arith, contains-zero_keys_absent m x)

lookup_absent :
    (k : String) (m : Assoc String ℕ) → lookup k m ≡ none → contains (members m) k ≡ false
unfolding members lookup contains
lookup_absent k [] h = refl
lookup_absent k ((j, i) ∷ m) h = ground (arith, lookup_absent k m)

contains-zero_keys_reset :
    (k : String) (m : Assoc String ℕ) (x : String)
    → contains (zero_keys (insert k 0 m)) x ≡ (k == x || contains (zero_keys m) x)
unfolding zero_keys insert contains
contains-zero_keys_reset k [] x = refl
contains-zero_keys_reset k ((j, i) ∷ m) x =
    ground (arith, contains-zero_keys_reset k m x, eq_iff j k, eq_iff j x, eq_iff k x)

-- A count that goes up takes its key out of the keys that have a count of zero.
contains-zero_keys_raise :
    (k : String) (n : ℕ) (m : Assoc String ℕ) (x : String)
    → IsDistinct (members m)
    → lookup k m ≡ some n
    → contains (zero_keys (insert k (n + 1) m)) x ≡ (contains (zero_keys m) x && not (k == x))
unfolding zero_keys insert contains lookup members
contains-zero_keys_raise k n [] x d h = cc
contains-zero_keys_raise k n ((j, i) ∷ m) x d h = ground (
  arith,
  contains-zero_keys_raise k n m x d.1,
  contains-zero_keys_absent m k,
  d.0,
  eq_iff j k,
  eq_iff j x,
  eq_iff k x,
)

contains-zero_counts :
    (cs : List String) (m : Assoc String ℕ) (x : String)
    → contains (zero_keys (zero_counts cs m)) x ≡ (contains cs x || contains (zero_keys m) x)
unfolding zero_counts contains
contains-zero_counts [] m x = refl
contains-zero_counts (c ∷ cs) m x =
    ground (arith, contains-zero_counts cs (insert c 0 m) x, contains-zero_keys_reset c m x)

IsDistinct-zero_counts :
    (cs : List String) (m : Assoc String ℕ)
    → IsDistinct (members m)
    → IsDistinct (members (zero_counts cs m))
unfolding zero_counts
IsDistinct-zero_counts [] m d = d
IsDistinct-zero_counts (c ∷ cs) m d =
    IsDistinct-zero_counts cs (insert c 0 m) (IsDistinct-members-insert c 0 m d)

contains-count_included :
    (inc : List String) (m : Assoc String ℕ) (x : String)
    → IsDistinct (members m)
    → contains (zero_keys (count_included inc m)) x
      ≡ (contains (zero_keys m) x && not (contains inc x))
unfolding count_included contains
contains-count_included [] m x d = ground arith
contains-count_included (c ∷ inc) m x d = elim (Option-cases (lookup c m)) [
  | inl gone ↦ rw gone (
      ground (
        arith,
        contains-count_included inc m x d,
        contains-zero_keys_absent m c (lookup_absent c m gone),
        eq_iff c x,
      ))
  | inr (n, found) ↦ rw found (
      ground (
        arith,
        contains-count_included inc (insert c (n + 1) m) x
            (IsDistinct-members-insert c (n + 1) m d),
        contains-zero_keys_raise c n m x d found,
      ))
]

is_empty-insert_stable :
    (a : String) (xs : List String) → is_empty (insert_stable lex_before a xs) ≡ false
unfolding insert_stable
is_empty-insert_stable a [] = refl
is_empty-insert_stable a (x ∷ xs) = ground arith

is_empty-sort_stable : (xs : List String) → is_empty (sort_stable lex_before xs) ≡ is_empty xs
unfolding sort_stable
is_empty-sort_stable [] = refl
is_empty-sort_stable (x ∷ xs) = is_empty-insert_stable x (sort_stable lex_before xs)

is_empty-prefixed : (p : String) (xs : List String) → is_empty (prefixed p xs) ≡ is_empty xs
is_empty-prefixed p [] = refl
is_empty-prefixed p (x ∷ xs) = refl

pub all-contains :
    (p : String → Bool) (xs : List String) (x : String)
    → all p xs ≡ true
    → contains xs x ≡ true
    → p x ≡ true
unfolding all contains
all-contains p [] x h k = cc
all-contains p (y ∷ xs) x h k = ground (arith, all-contains p xs x, eq_iff y x)

pub all_fails :
    (p : String → Bool) (xs : List String)
    → all p xs ≡ false
    → (x : String) × (contains xs x ≡ true) × (p x ≡ false)
unfolding all contains
all_fails p [] h = absurd (cc h)
all_fails p (y ∷ xs) h = elim (Bool-cases (p y)) [
  | inl fits ↦ let (x, inside, out) = all_fails p xs (ground arith) in (x, ground arith, out)
  | inr out ↦ (y, ground (arith, eq_iff y y), out)
]

-- A list that holds the members of another that fail a test is empty if all pass it.
is_empty-all :
    (p : String → Bool) (xs cs : List String)
    → ((x : String) → contains xs x ≡ (contains cs x && not (p x)))
    → is_empty xs ≡ all p cs
unfolding contains
is_empty-all p [] cs h = elim (Bool-cases (all p cs)) [
  | inl every ↦ sym every
  | inr some_fail ↦ let (x, inside, out) = all_fails p cs some_fail in ground (arith, h x)
]
is_empty-all p (y ∷ xs) cs h = elim (Bool-cases (all p cs)) [
  | inl every ↦ ground (arith, h y, all-contains p cs y every, eq_iff y y)
  | inr some_fail ↦ sym some_fail
]

contains-zero_keys-nil : (x : String) → contains (zero_keys []) x ≡ false
unfolding zero_keys contains
contains-zero_keys-nil x = refl

-- Nothing is unauthorized exactly if every category is among those included.
pub is_empty-get_unauthorized :
    (inc categories : List String) (prefix : String)
    → is_empty (get_unauthorized (count_included inc (zero_counts categories [])) prefix)
      ≡ all (contains inc) categories
unfolding get_unauthorized
is_empty-get_unauthorized inc categories prefix =
    let counts = count_included inc (zero_counts categories []) in
    is_empty-sort_stable (prefixed prefix (zero_keys counts))
    ∙ (is_empty-prefixed prefix (zero_keys counts)
        ∙ is_empty-all (contains inc) (zero_keys counts) categories λ x. ground (
          arith,
          contains-count_included inc (zero_counts categories []) x
              (IsDistinct-zero_counts categories [] (unfold members in tt)),
          contains-zero_counts categories [] x,
          contains-zero_keys-nil x,
        ))
