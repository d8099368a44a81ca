-- ===== src/Commands/Hashes/Fields.antt =====
-- internal/modules/hash/commands.go: the loops of HSET and HDEL over the fields of a hash.
use echo_vault.Base.{
  suc, ◌+◌, ◌≡◌, refl, ◌∙◌, sym, ap, String, true, false, not, ◌&&◌, Option, some, none, List, [],
  ◌∷◌, map, arith, inl, inr, Bool-cases, if◌then◌else◌, ◌==◌, nat_eq, string_eq, int_eq, eq_iff,
  length, contains, IsDistinct, IsDistinct-erase, erase, length-erase, lookup, insert, without,
  lookup-insert, lookup-without,
}
use echo_vault.Keyspace.State.{Scalar}
use echo_vault.Commands.Hashes.{Fields, is_nil, keep_missing, delete_fields}

abbrev pub keys_of : Fields → List String
keys_of h = map (λ e. e.0) h

lookup_absent : (f : String) (h : Fields) → contains (keys_of h) f ≡ false → lookup f h ≡ none
unfolding lookup contains
lookup_absent f [] out = refl
lookup_absent f ((k, v) ∷ h) out = ground (arith, lookup_absent f h (ground (arith, out)), out)

lookup_present :
    (f : String) (h : Fields) → is_nil (lookup f h) ≡ false → contains (keys_of h) f ≡ true
unfolding lookup contains
lookup_present f [] there = sym there
lookup_present f ((k, v) ∷ h) there = elim (Bool-cases (k == f)) [
  | inl same ↦ rw same refl
  | inr other ↦
      let rest : is_nil (lookup f h) ≡ false = sym (rw other refl) ∙ there in
      rw other (lookup_present f h rest)
]

-- the value that was given, or else the one that was there
abbrev pub given_or_kept : Option Scalar → Option Scalar → Option Scalar
given_or_kept given kept =
    if is_nil given then (elim kept [ none ↦ given | some v ↦ some v ]) else given

pub lookup-keep_missing :
    (h entries : Fields) (f : String)
    → IsDistinct (keys_of h)
    → lookup f (keep_missing h entries) ≡ given_or_kept (lookup f entries) (lookup f h)
unfolding keep_missing lookup
lookup-keep_missing [] entries f d = ground arith
lookup-keep_missing ((k, v) ∷ h) entries f d =
    let e' = if is_nil (lookup k entries) then insert k v entries else entries in
    lookup-keep_missing h e' f d.1 ∙ elim (Bool-cases (k == f)) [
      | inl same ↦
          let at : lookup f entries ≡ lookup k entries =
            ap (λ x. lookup x entries) (sym ((eq_iff k f).0 same)) in
          let gone : lookup f h ≡ none =
            ap (λ x. lookup x h) (sym ((eq_iff k f).0 same)) ∙ lookup_absent k h d.0 in
          elim (Bool-cases (is_nil (lookup k entries))) [
            | inl missing ↦
                rw (missing, lookup-insert k v entries f, same, gone, at, missing)
                  (ground (arith, lookup-insert k v entries f, same))
            | inr there ↦ rw (there, gone, same, at, there) refl
          ]
      | inr other ↦
          let kept : lookup f e' ≡ lookup f entries =
            elim (Bool-cases (is_nil (lookup k entries))) [
              | inl missing ↦ rw missing (ground (arith, lookup-insert k v entries f, other))
              | inr there ↦ rw there
            ] in
          ap (λ o. given_or_kept o (lookup f h)) kept ∙ rw other
    ]

keys_of-without : (k : String) (h : Fields) → keys_of (without k h) ≡ erase k (keys_of h)
unfolding without erase
keys_of-without k [] = refl
keys_of-without k ((j, v) ∷ h) = elim (Bool-cases (j == k)) [
  | inl same ↦ rw same (keys_of-without k h)
  | inr other ↦ rw other (ap (◌∷◌ j) (keys_of-without k h))
]

length-keys_of : (h : Fields) → length (keys_of h) ≡ length h
length-keys_of [] = refl
length-keys_of (e ∷ h) = ap suc (length-keys_of h)

pub delete_fields_lem :
    (fields : List String) (h : Fields)
    → IsDistinct (keys_of h)
    → (length (delete_fields fields h).0 + (delete_fields fields h).1 ≡ length h)
      × ((f : String)
          → lookup f (delete_fields fields h).0
            ≡ (if contains fields f && not (is_nil (lookup f h)) then none else lookup f h))
unfolding delete_fields contains
delete_fields_lem [] h d = (omega arith, λ f. refl)
delete_fields_lem (k ∷ fields) h d = elim (Bool-cases (is_nil (lookup k h))) [
  | inl missing ↦
      let (n, look) = delete_fields_lem fields h d in
      (
        rw missing n,
        λ f. rw missing (elim (Bool-cases (k == f)) [
          | inl same ↦
              let at : is_nil (lookup f h) ≡ true =
                ap (λ x. is_nil (lookup x h)) (sym ((eq_iff k f).0 same)) ∙ missing in
              look f ∙ rw (same, at) (ground arith)
          | inr other ↦ look f ∙ rw other
        ]),
      )
  | inr there ↦
      let d' : IsDistinct (keys_of (without k h)) =
        rw (keys_of-without k h) (IsDistinct-erase k (keys_of h) d) in
      let (n, look) = delete_fields_lem fields (without k h) d' in
      (
        rw there (
            let shorter : length (erase k (keys_of h)) + 1 ≡ length (keys_of h) =
              length-erase k (keys_of h) d (lookup_present k h there) in
            omega (
              arith,
              n,
              shorter,
              length-keys_of h,
              length-keys_of (without k h),
              ap length (keys_of-without k h),
            )),
        λ f. rw there (
            look f ∙ elim (Bool-cases (k == f)) [
              | inl same ↦
                  let at : is_nil (lookup f h) ≡ false =
                    ap (λ x. is_nil (lookup x h)) (sym ((eq_iff k f).0 same)) ∙ there in
                  rw (lookup-without k h f, same, at) (ground arith)
              | inr other ↦ rw (lookup-without k h f, other)
            ]),
      )
]
