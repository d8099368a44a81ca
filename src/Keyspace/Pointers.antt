-- ===== src/Keyspace/Pointers.antt =====
-- sugardb/keyspace.go, `setValues`: it changes no set in memory, whatever it stores.
use echo_vault.Base.{
  ◌≡◌, refl, ◌∙◌, String, true, false, ◌&&◌, none, [], ◌∷◌, arith, inl, inr, Option-cases, All, ℤ,
  Assoc, int_eq, nat_eq,
}
use echo_vault.Keyspace.State.{Value, Server, is_max_memory_exceeded, refuses}
use echo_vault.Keyspace.Access.{create_database}
use echo_vault.Keyspace.Write.{set_value, set_each, ensure_database, set_values}
use echo_vault.Keyspace.Writes.{
  set_each-cons, set_each-fails, set_each-succeeds, set_value_keeps, IsSupported, has_room,
}

memory-set_each :
    (db : ℤ) (entries : Assoc String Value) (s : Server)
    → (set_each db entries s).1 ≡ none
    → (set_each db entries s).0.memory ≡ s.memory
memory-set_each db [] s h = unfold set_each in refl
memory-set_each db ((k, v) ∷ entries) s h = elim (Option-cases (set_value db k v s).1) [
  | inr (m, failed) ↦ absurd (ground (arith, set_each-fails db k v entries s m failed))
  | inl done ↦
      let step = set_each-cons db k v entries s done in
      rw step (
        memory-set_each db entries (set_value db k v s).0 (rw step at h)
        ∙ (set_value_keeps db k v s).0)
]

memory-ensure_database : (db : ℤ) (s : Server) → (ensure_database db s).memory ≡ s.memory
unfolding ensure_database create_database
memory-ensure_database db s = ground arith

memory_through :
    (db : ℤ) (entries : Assoc String Value) (s : Server)
    → has_room s ≡ true
    → (set_each db entries (ensure_database db s)).1 ≡ none
    → (set_values db entries s).0.memory ≡ (set_each db entries (ensure_database db s)).0.memory
unfolding set_values
memory_through db entries s room done =
    let refused : (is_max_memory_exceeded s.mem_used s.config.max_memory && refuses s.config)
        ≡ false =
      ground arith in
    rw (refused, done, set_values)

-- A write of values with a size, when there is room, leaves all sets as they are.
pub memory-set_values :
    (db : ℤ) (entries : Assoc String Value) (s : Server)
    → All (λ e. IsSupported e.1) entries
    → has_room s ≡ true
    → (set_values db entries s).0.memory ≡ s.memory
memory-set_values db entries s known room =
    let done = set_each-succeeds db entries (ensure_database db s) known in
    memory_through db entries s room done
    ∙ (memory-set_each db entries (ensure_database db s) done ∙ memory-ensure_database db s)
