-- ===== src/Keyspace/Counter.antt =====
-- sugardb/keyspace.go: the memory counter over writes and deletions.
use Prim.Native.String.{len}
use echo_vault.Base.{
  ℕ, ◌+◌, ◌<◌, ◌≡◌, refl, ◌∙◌, ◌*◌, ◌%◌, String, none, some, arith, nat_eq, string_eq, int_eq, ℤ,
  eq_iff, ◌∙◌,
}
use echo_vault.Keyspace.State.{ok, Value, get_mem, Server, word, header, add64, sub64, entry}
use echo_vault.Keyspace.Access.{get_expiry, remove_key, data_or_zero, delete_key}
use echo_vault.Keyspace.Write.{set_value}
use echo_vault.Keyspace.Laws.{HasNoCache, uncache_none, config-remove_key, entry-remove_key}
use echo_vault.Keyspace.Writes.{
  set_value_fits, set_value_keeps, expiry-set_value, entry-set_value, get_mem_of_supported,
  kept_data, IsSupported,
}

-- Modulo 2 ^ 64 what was added comes off again.
add64-sub64 :
    (u a b c : ℕ) → u < word → sub64 (sub64 (sub64 (add64 (add64 (add64 u a) b) c) a) b) c ≡ u
add64-sub64 u a b c h = omega arith

size-remove_key :
    (db : ℤ) (key : String) (mem : ℕ) (s : Server)
    → (remove_key db key mem s).mem_used ≡ sub64 (sub64 (sub64 s.mem_used mem) header) (len key)
unfolding remove_key
size-remove_key db key mem s = refl

-- Under a policy without caches, a key that is set where the database has no such key and is then deleted leaves the memory counter as it was before.
pub delete-set_mem :
    (db : ℤ) (key : String) (v : Value) (s : Server)
    → HasNoCache s
    → s.mem_used < word
    → entry s db key ≡ none
    → IsSupported v
    → (s' : Server) × (delete_key db key (set_value db key v s).0 ≡ ok s')
      × (s'.mem_used ≡ s.mem_used)
      × (entry s' db key ≡ none)
unfolding delete_key
delete-set_mem db key v s quiet small fresh known =
    let (mem, fits) = get_mem_of_supported s.memory v (get_expiry s db key) known in
    let s1 = (set_value db key v s).0 in
    let (keeps, settings, _) = set_value_keeps db key v s in
    let found : entry s1 db key ≡ some (kept_data db key v s) =
      ground (arith, entry-set_value db key v s db key, eq_iff key key) in
    let sized : get_mem s1.memory (data_or_zero (entry s1 db key)) ≡ ok mem =
      rw (found, keeps) fits in
    (
      remove_key db key mem s1,
      rw (sized, delete_key)
          (uncache_none db key (remove_key db key mem s1) (rw (config-remove_key, settings) quiet)),
      size-remove_key db key mem s1
          ∙ rw (set_value_fits db key v s mem fits).1
              (add64-sub64 s.mem_used mem header (len key) small),
      ground (arith, entry-remove_key db key mem s1 db key, eq_iff key key),
    )

-- Writing a key twice adds the size of both values to the memory counter, and the header and the
-- length of the key twice: what the first write added does not come off.
pub overwrite_mem :
    (db : ℤ) (key : String) (v w : Value) (s : Server) (a b : ℕ)
    → get_mem s.memory (kept_data db key v s) ≡ ok a
    → get_mem s.memory (kept_data db key w s) ≡ ok b
    → (set_value db key w (set_value db key v s).0).0.mem_used
      ≡ (s.mem_used + (a + b + 2 * header + 2 * len key)) % word
overwrite_mem db key v w s a b fits fits' =
    let s1 = (set_value db key v s).0 in
    let (keeps, _, _) = set_value_keeps db key v s in
    let one = (set_value_fits db key v s a fits).1 in
    let two = (set_value_fits db key w s1 b (rw (keeps, expiry-set_value) fits')).1 in
    omega (arith, one, two)
