-- ===== src/Commands/Generic/Refinement.antt =====
-- internal/modules/generic/commands.go: the handlers against a plain map of keys to data.
use echo_vault.Base.{
  ℕ, ◌≡◌, refl, ap, sym, ◌∙◌, fun_ext, String, false, Option, none, some, List, [], ◌∷◌, arith, inl,
  inr, Option-cases, Bool-cases, if◌then◌else◌, int_eq, string_eq, ℤ, contains,
}
use echo_vault.Keyspace.State.{
  Server, Value, KeyData, scalar, Result, ok, err, entry, expired, nil_value,
}
use echo_vault.Keyspace.Access.{get_expiry}
use echo_vault.Keyspace.Laws.{shows}
use echo_vault.Commands.Numbers.{Number, Formats, adapt_type}
use echo_vault.Commands.Exec.{Reply, number, ok_response, expiry_of}
use echo_vault.Commands.Steady.{View, put_view, drop_view, IsSteady, Leads, put_expiry-Leads}
use echo_vault.Commands.Steady.Reads.{Leads-refl}
use echo_vault.Commands.Generic.{handle_set, handle_del, handle_rename, is_nil}
use echo_vault.Commands.Generic.Options.{no_options, set_options}
use echo_vault.Commands.Generic.Expiry.{handle_persist}
use echo_vault.Commands.Generic.Removal.{count_there, drop_all, handle_del-Leads}
use echo_vault.Commands.Generic.Laws.{
  key_exists-entry, handle_set-Leads, handle_rename-Leads, handle_rename_missing, Leads-trans,
}

-- The commands of the abstract map.
pub data Command : Type 0 where
  set : String → String → Command
  del : String → List String → Command
  rename : String → String → Command
  persist : String → Command

-- the value of a key for a reader
abbrev pub visible : ℕ → Option KeyData → Value
visible now none = nil_value
visible now (some d) = if expired now d then nil_value else d.value

abbrev pub expiry : Option KeyData → Option ℕ
expiry none = none
expiry (some d) = d.expire_at

-- a key that has expired leaves the map when it is read
abbrev pub settle : ℕ → ℤ → String → View → View
settle now db key f = elim (f db key) [
  | none ↦ f
  | some d ↦ if expired now d then drop_view db key f else f
]

abbrev pub without_expiry : ℤ → String → View → Result Reply × View
without_expiry db key f = elim (f db key) [
  | none ↦ (ok (number 0), f)
  | some d ↦ elim d.expire_at [
    | none ↦ (ok (number 0), f)
    | some t ↦ (ok (number 1), put_view db key (record { value = d.value; expire_at = none }) f)
  ]
]

module _ (parse : String → Option Number) (now : ℕ) (db : ℤ) where
  -- What a command answers and leaves, as a function of the map alone.
  unfoldable pub spec : Command → View → Result Reply × View
  spec (set key t) f = (
    ok ok_response,
    put_view db key (record { value = scalar (adapt_type parse t); expire_at = expiry (f db key) })
        f,
  )
  spec (del key keys) f =
      (ok (number (count_there f db (key ∷ keys))), drop_all db (contains (key ∷ keys)) f)
  spec (rename old new) f =
      if is_nil (visible now (f db old)) then (err "no such key", settle now db old f) else (
        ok ok_response,
        drop_view db old (
            put_view db new
              (record { value = visible now (f db old); expire_at = expiry (f db new) }) f),
      )
  spec (persist key) f = without_expiry db key f

  unfoldable pub spec_run : List Command → View → List (Result Reply) × View
  spec_run [] f = ([], f)
  spec_run (c ∷ cs) f = let (r, g) = spec c f in let (rs, h) = spec_run cs g in (r ∷ rs, h)

module _ (fmt : Formats) (parse : String → Option Number) (db : ℤ) where
  -- the handler of a command
  unfoldable pub execute : Command → Server → Result Reply × Server
  execute (set key t) = handle_set fmt db parse ("SET" ∷ key ∷ t ∷ [])
  execute (del key keys) = handle_del db ("DEL" ∷ key ∷ keys)
  execute (rename old new) = handle_rename db ("RENAME" ∷ old ∷ new ∷ [])
  execute (persist key) = handle_persist db ("PERSIST" ∷ key ∷ [])

  unfoldable pub execute_run : List Command → Server → List (Result Reply) × Server
  execute_run [] s = ([], s)
  execute_run (c ∷ cs) s =
      let (r, s1) = execute c s in let (rs, s2) = execute_run cs s1 in (r ∷ rs, s2)

-- One command: the same answer, and a server that holds the map that is left.
record Simulates (s : Server) (outcome : Result Reply × Server) (r : Result Reply) (f : View)
    : Type 0 where
  answer : outcome.0 ≡ r
  leads : Leads s f outcome.1

outcome-Simulates :
    (s s' : Server) (outcome : Result Reply × Server) (r : Result Reply) (f : View)
    → outcome ≡ (r, s')
    → Leads s f s'
    → Simulates s outcome r f
outcome-Simulates s s' outcome r f done leads = rw done (record { answer = refl; leads = leads })

Leads-same :
    (s s' : Server) (f g : View)
    → Leads s f s'
    → ((db : ℤ) (key : String) → f db key ≡ g db key)
    → Leads s g s'
Leads-same s s' f g leads same = record {
  steady = leads.steady;
  clock = leads.clock;
  look = λ db key. leads.look db key ∙ same db key;
}

get_expiry-expiry :
    (db : ℤ) (key : String) (s : Server) → get_expiry s db key ≡ expiry (entry s db key)
unfolding get_expiry
get_expiry-expiry db key s = ground arith

shows-visible :
    (db : ℤ) (key : String) (s : Server) → shows s db key ≡ visible s.now (entry s db key)
unfolding shows
shows-visible db key s = ground arith

visible_data :
    (now : ℕ) (o : Option KeyData)
    → is_nil (visible now o) ≡ false
    → (d : KeyData) × (o ≡ some d) × (expired now d ≡ false) × (visible now o ≡ d.value)
visible_data now none h = absurd (ground arith)
visible_data now (some d) h = elim (Bool-cases (expired now d)) [
  | inl old ↦ absurd (ground arith)
  | inr fresh ↦ (d, refl, fresh, rw fresh)
]

execute-rename :
    (db : ℤ) (old new : String) (parse : String → Option Number) (s : Server)
    → IsSteady s
    → Simulates s
        (handle_rename db ("RENAME" ∷ old ∷ new ∷ []) s)
        (spec parse s.now db (rename old new) (entry s)).0
        (spec parse s.now db (rename old new) (entry s)).1
unfolding spec
execute-rename db old new parse s steady =
    elim (Bool-cases (is_nil (visible s.now (entry s db old)))) [
      | inl empty ↦
          let (s', done, leads) =
            handle_rename_missing db "RENAME" old new s steady
              (ap is_nil (shows-visible db old s) ∙ empty) in
          rw (empty, spec) (outcome-Simulates s s' _ _ _ done leads)
      | inr full ↦
          let (d, found, fresh, same) = visible_data s.now (entry s db old) full in
          let (s', done, leads) =
            handle_rename-Leads db "RENAME" old new d s steady found fresh
              (ap is_nil (sym same) ∙ full) in
          rw (full, spec)
            (outcome-Simulates s s' _ _ _ done (
              Leads-same s s' _ _ leads
                (λ db' key'. ground (arith, same, get_expiry-expiry db new s))))
    ]

execute-persist :
    (db : ℤ) (key : String) (s : Server)
    → IsSteady s
    → Simulates s
        (handle_persist db ("PERSIST" ∷ key ∷ []) s)
        (without_expiry db key (entry s)).0
        (without_expiry db key (entry s)).1
unfolding handle_persist expiry_of
execute-persist db key s steady = elim (Option-cases (entry s db key)) [
  | inl gone ↦
      rw (gone, without_expiry)
        (outcome-Simulates s s _ _ _ (ground (arith, key_exists-entry db key s, gone))
          (Leads-refl s steady))
  | inr (d, found) ↦ elim (Option-cases d.expire_at) [
    | inl timeless ↦
        rw (found, timeless, without_expiry)
          (outcome-Simulates s s _ _ _
            (ground (arith, key_exists-entry db key s, found, get_expiry-expiry db key s))
            (Leads-refl s steady))
    | inr (at, timed) ↦
        let (s', done, leads) = put_expiry-Leads db key none false d s steady found in
        rw (found, timed, without_expiry)
          (outcome-Simulates s s' _ _ _
            (ground (arith, key_exists-entry db key s, found, get_expiry-expiry db key s, done))
            leads)
  ]
]

execute-spec :
    (fmt : Formats) (parse : String → Option Number) (db : ℤ) (c : Command) (s : Server)
    → IsSteady s
    → Simulates s
        (execute fmt parse db c s)
        (spec parse s.now db c (entry s)).0
        (spec parse s.now db c (entry s)).1
unfolding execute spec get_expiry
execute-spec fmt parse db (set key t) s steady =
    let (s', done, leads) =
      handle_set-Leads fmt parse db "SET" key t [] no_options s steady (omega arith)
        (unfold set_options in refl) refl refl in
    outcome-Simulates s s' _ _ _ done
      (Leads-same s s' _ _ leads (λ db' key'. ground (arith, get_expiry-expiry db key s)))
execute-spec fmt parse db (del key keys) s steady =
    let (s', done, leads) = handle_del-Leads db "DEL" key keys s steady in
    outcome-Simulates s s' _ _ _ done leads
execute-spec fmt parse db (rename old new) s steady = execute-rename db old new parse s steady
execute-spec fmt parse db (persist key) s steady = execute-persist db key s steady

-- Any sequence of SET without options, DEL, RENAME and PERSIST, on a standalone server without caches
-- whose memory is not limited, does what it does on a plain map from databases and keys to values with an
-- expiry time: the replies are those of the map, and the server ends with the entries of the
-- map, at the same time. On the map SET stores the value of the text and keeps the expiry time, DEL takes
-- all given keys away and counts the different ones that were there, RENAME moves a visible value under the expiry time of the
-- new key and takes the old key away, or reports that there is no such key, after which an expired key is gone, and PERSIST clears an expiry time and answers
-- whether there was one.
pub execute_run-spec_run :
    (fmt : Formats) (parse : String → Option Number) (db : ℤ) (cs : List Command) (s : Server)
    → IsSteady s
    → ((execute_run fmt parse db cs s).0 ≡ (spec_run parse s.now db cs (entry s)).0)
      × Leads s (spec_run parse s.now db cs (entry s)).1 (execute_run fmt parse db cs s).1
unfolding execute_run spec_run
execute_run-spec_run fmt parse db [] s steady = (refl, Leads-refl s steady)
execute_run-spec_run fmt parse db (c ∷ cs) s steady =
    let step = execute-spec fmt parse db c s steady in
    let s1 = (execute fmt parse db c s).1 in
    let (answers, leads) = execute_run-spec_run fmt parse db cs s1 step.leads.steady in
    let f1 = (spec parse s.now db c (entry s)).1 in
    let seen : entry s1 ≡ f1 = fun_ext (λ db'. fun_ext (λ key. step.leads.look db' key)) in
    let same : spec_run parse s1.now db cs (entry s1) ≡ spec_run parse s.now db cs f1 =
      ap (λ w. spec_run parse w db cs (entry s1)) step.leads.clock
      ∙ ap (λ f. spec_run parse s.now db cs f) seen in
    (
      rw step.answer
          (ap (λ rs. (spec parse s.now db c (entry s)).0 ∷ rs) (answers ∙ ap (λ p. p.0) same)),
      Leads-trans _ step.leads leads (λ db' key. ap (λ p. p.1 db' key) same),
    )
