-- ===== src/Tests/Generic.antt =====
-- internal/modules/generic on a small server.
use echo_vault.Base.{
  ◌≡◌, refl, String, List, [], ◌∷◌, none, some, false, true, arith, mul_int64, Option, pos, negsuc,
  atoi, print_int, digits_onto, lookup, string_eq, add_int64, equal_fold, contains,
}
use echo_vault.Keyspace.State.{
  Server, KeyData, scalar, text, ok, panic, entry, no_eviction, standalone,
}
use echo_vault.Keyspace.Access.{get_expiry}
use echo_vault.Keyspace.Laws.{shows}
use echo_vault.Commands.Numbers.{Number, Formats, print_value}
use echo_vault.Commands.Exec.{ok_response, number, signed_number, simple}
use echo_vault.Commands.Steady.{put_view, drop_view, put_view-IsKnown, IsSteady, Leads}
use echo_vault.Commands.Steady.Reads.{read_view}
use echo_vault.Commands.Generic.{handle_set, handle_rename, handle_del, handle_get, handle_type}
use echo_vault.Commands.Generic.Options.{if_new, set_options, no_options}
use echo_vault.Commands.Generic.Expiry.{
  handle_expire, handle_ttl, handle_expireat, handle_expiretime,
}
use echo_vault.Commands.Generic.Counters.{handle_incr}
use echo_vault.Commands.Generic.Laws.{handle_rename-Leads}
use echo_vault.Commands.Generic.Setting.{handle_set-deadline}
use echo_vault.Commands.Generic.Options.{if_there, px}
use echo_vault.Commands.Generic.Removal.{handle_del-Leads, drop_all, count_there}
use echo_vault.Commands.Generic.Counting.{counter, incr_each, incr_each-counts}
use echo_vault.Commands.Generic.Deadlines.{
  handle_ttl-handle_expire, handle_expiretime-handle_expireat,
}
use echo_vault.Commands.Generic.Refinement.{
  Command, set, del, rename, persist, execute_run, spec_run, execute_run-spec_run,
}
use echo_vault.Commands.Generic.Reads.{handle_get-Leads, handle_type_panics}

abbrev fmt : Formats
fmt = record {
  parse_float = λ t. none;
  add_float = λ a b. a;
  of_int = λ i. 0;
  print_float = λ f. "0";
  print_other = λ s v. "";
  print_type = λ v. "";
}

abbrev no_numbers : String → Option Number
no_numbers t = none

abbrev count_data : KeyData
count_data = record { value = scalar (text "41"); expire_at = some 100 }

abbrev old_data : KeyData
old_data = record { value = scalar (text "x"); expire_at = some 5 }

-- A counter that expires at time 100, and a text that expired at time 5; the time is 9.
abbrev server : Server
server = record {
  config = record {
    max_memory = 0;
    policy = no_eviction;
    lower_case = true;
    eviction_sample = 20;
    mode = standalone;
  };
  store = (pos 0, ("n", count_data) ∷ ("old", old_data) ∷ []) ∷ [];
  volatile = (pos 0, "n" ∷ "old" ∷ []) ∷ [];
  lfu = [];
  lru = [];
  memory = record { cell = λ p. record { members = []; length = 0 }; next = 0 };
  mem_used = 200;
  changes = 0;
  now = 9;
  sent = [];
  tasks = [];
}

server-IsSteady : IsSteady server
unfolding entry lookup
server-IsSteady = record {
  no_caches = refl;
  unlimited = refl;
  alone = refl;
  known = λ db key d found.
      put_view-IsKnown (pos 0) "n" count_data (put_view (pos 0) "old" old_data (λ db key. none))
        (put_view-IsKnown (pos 0) "old" old_data (λ db key. none)
          (λ db key d none_there. absurd (ground arith)) tt)
        tt db key d (ground (arith, found));
}

options_run :
    set_options 9 ("EX" ∷ "2" ∷ "nx" ∷ []) no_options
    ≡ ok (record { exists = if_new; get = false; expire_at = some 2000000009 })
unfolding set_options equal_fold atoi mul_int64
options_run = refl

print_int_run : print_int (negsuc 41) ≡ "-42"
unfolding print_int digits_onto
print_int_run = refl

incr_wraps : add_int64 (pos 9223372036854775807) (pos 1) ≡ negsuc 9223372036854775807
unfolding add_int64
incr_wraps = refl

handle_set-deadline_example :
    (s' : Server) × (handle_set fmt
        (pos 0)
        no_numbers
        ("SET" ∷ "n" ∷ "v" ∷ "xx" ∷ "Px" ∷ "2000" ∷ [])
        server
      ≡ (ok ok_response, s'))
    × Leads server
        (put_view
          (pos 0)
          "n"
          (record { value = scalar (text "v"); expire_at = some 2000000009 })
          (entry server))
        s'
unfolding equal_fold atoi entry lookup
handle_set-deadline_example =
    handle_set-deadline fmt no_numbers (pos 0) "SET" "n" "v" if_there "xx" (some (px, 2000)) "Px"
      "2000" server server-IsSteady refl refl refl (omega arith) refl

handle_rename-Leads_example :
    (s' : Server) × (handle_rename (pos 0) ("RENAME" ∷ "n" ∷ "old" ∷ []) server
      ≡ (ok ok_response, s'))
    × Leads server
        (drop_view (pos 0) "n" (
          put_view
            (pos 0)
            "old"
            (record { value = scalar (text "41"); expire_at = get_expiry server (pos 0) "old" })
            (entry server)))
        s'
unfolding entry lookup
handle_rename-Leads_example =
    handle_rename-Leads (pos 0) "RENAME" "n" "old" count_data server server-IsSteady refl refl refl

handle_del-Leads_example :
    (s' : Server) × (handle_del (pos 0) ("DEL" ∷ "n" ∷ "n" ∷ "no" ∷ []) server
      ≡ (ok (number (count_there (entry server) (pos 0) ("n" ∷ "n" ∷ "no" ∷ []))), s'))
    × Leads server (drop_all (pos 0) (contains ("n" ∷ "n" ∷ "no" ∷ [])) (entry server)) s'
handle_del-Leads_example =
    handle_del-Leads (pos 0) "DEL" "n" ("n" ∷ "no" ∷ []) server server-IsSteady

incr_each-counts_example :
    Leads server
      (put_view (pos 0) "n" (counter (pos 43) (some 100)) (entry server))
      (incr_each 2 (pos 0) ("INCR" ∷ "n" ∷ []) server)
    × ((handle_incr (pos 0) ("INCR" ∷ "n" ∷ []) (incr_each 2 (pos 0) ("INCR" ∷ "n" ∷ []) server)).0
        ≡ ok (signed_number (pos 44)))
unfolding entry lookup print_int digits_onto
incr_each-counts_example =
    incr_each-counts 2 (pos 0) "INCR" "n" 41 (some 100) server server-IsSteady refl refl
      (omega arith)

handle_ttl-handle_expire_example :
    (s' : Server) × (handle_expire (pos 0) ("EXPIRE" ∷ "n" ∷ "60" ∷ []) server
      ≡ (ok (number 1), s'))
    × (handle_ttl (pos 0) ("TTL" ∷ "n" ∷ []) s' ≡ (ok (signed_number (pos 60)), s'))
unfolding entry lookup equal_fold atoi
handle_ttl-handle_expire_example =
    handle_ttl-handle_expire (pos 0) "EXPIRE" "TTL" "n" "60" 60 count_data server server-IsSteady
      refl refl refl (omega arith) refl

handle_expiretime-handle_expireat_example :
    (s' : Server) × (handle_expireat (pos 0) ("EXPIREAT" ∷ "n" ∷ "-7" ∷ []) server
      ≡ (ok (number 1), s'))
    × (handle_expiretime (pos 0) ("EXPIRETIME" ∷ "n" ∷ []) s' ≡ (ok (signed_number (negsuc 6)), s'))
unfolding entry lookup equal_fold atoi
handle_expiretime-handle_expireat_example =
    handle_expiretime-handle_expireat (pos 0) "EXPIREAT" "EXPIRETIME" "n" "-7" (negsuc 6) count_data
      server server-IsSteady refl refl refl (omega arith) refl

abbrev commands : List Command
commands = set "n" "v" ∷ rename "n" "m" ∷ persist "m" ∷ rename "old" "m" ∷ del "n" ("m" ∷ []) ∷ []

execute_run-spec_run_example :
    ((execute_run fmt no_numbers (pos 0) commands server).0
      ≡ (spec_run no_numbers 9 (pos 0) commands (entry server)).0)
    × Leads server
        (spec_run no_numbers 9 (pos 0) commands (entry server)).1
        (execute_run fmt no_numbers (pos 0) commands server).1
execute_run-spec_run_example =
    execute_run-spec_run fmt no_numbers (pos 0) commands server server-IsSteady

handle_get-Leads_example :
    (s' : Server) × (handle_get fmt (pos 0) ("GET" ∷ "old" ∷ []) server
      ≡ (ok (simple (print_value fmt s' (shows server (pos 0) "old"))), s'))
    × Leads server (read_view server (pos 0) "old") s'
unfolding entry lookup
handle_get-Leads_example = handle_get-Leads fmt (pos 0) "GET" "old" server server-IsSteady

handle_type_panics_example : (handle_type fmt (pos 0) ("TYPE" ∷ "old" ∷ []) server).0 ≡ panic
unfolding entry lookup
handle_type_panics_example =
    handle_type_panics fmt (pos 0) "TYPE" "old" old_data server server-IsSteady refl refl
