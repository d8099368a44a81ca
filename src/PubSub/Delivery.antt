-- ===== src/PubSub/Delivery.antt =====
-- internal/modules/pubsub: what `Publish` sends, and the writes that the goroutines of the channels start.
use echo_vault.Base.{
  ℕ, zero, suc, ◌+◌, ◌≡◌, refl, ◌∙◌, sym, ap, String, Bool, true, false, ◌&&◌, some, none, List, [],
  ◌∷◌, ◌++◌, append-nil, append_assoc, map, arith, inl, inr, Bool-cases, if◌then◌else◌, nat_eq, any,
  get_elem?, set, length, length-append,
}
use echo_vault.Acl.State.{Glob}
use echo_vault.Keyspace.State.{ok}
use echo_vault.PubSub.Channel.{Channel, Push, message, is_full, send, receive}
use echo_vault.PubSub.State.{PubSub, receives, publish, receive_at, run_channel}
use echo_vault.PubSub.Handlers.{okay, handle_publish}

-- no channel that the message is for is full
abbrev pub blocked : Glob → String → List Channel → Bool
blocked globs name cs = any (λ c. receives globs name c && is_full c) cs

abbrev pub sent : Glob → String → String → Channel → Channel
sent globs text name c = if receives globs name c then send text c else c

publish_done :
    (globs : Glob) (text name : String) (cs : List Channel)
    → blocked globs name cs ≡ false
    → publish globs text name cs ≡ (map (sent globs text name) cs, true)
unfolding publish any
publish_done globs text name [] free = refl
publish_done globs text name (c ∷ cs) free =
    let rest = publish_done globs text name cs (ground (arith, free)) in
    elim (Bool-cases (receives globs name c)) [
      | inl for_it ↦
          let room : is_full c ≡ false = ground (arith, free, for_it) in rw (rest, for_it, room)
      | inr other ↦ rw (rest, other)
    ]

get_elem?-map :
    (f : Channel → Channel) (cs : List Channel) (i : ℕ) (c : Channel)
    → get_elem? cs i ≡ some c
    → get_elem? (map f cs) i ≡ some (f c)
get_elem?-map f [] i c h = absurd (ground (arith, h))
get_elem?-map f (d ∷ cs) zero c h = ap (λ o. elim o [ none ↦ none | some x ↦ some (f x) ]) h
get_elem?-map f (d ∷ cs) (suc i) c h = get_elem?-map f cs i c h

-- the writes that the goroutine of a channel starts for a queue of messages
unfoldable pub writes : String → List ℕ → List String → List (ℕ × Push)
writes name subscribers [] = []
writes name subscribers (text ∷ texts) =
    map (λ conn. (conn, message name text)) subscribers ++ writes name subscribers texts

-- some rounds of the goroutine of one channel, with no other step between
pub rounds : ℕ → ℕ → PubSub → PubSub
rounds i zero ps = ps
rounds i (suc n) ps = rounds i n (run_channel i ps)

receive_at_lem :
    (i : ℕ) (cs : List Channel) (c : Channel)
    → get_elem? cs i ≡ some c
    → receive_at i cs ≡ (set cs i (receive c).0, (receive c).1)
unfolding receive_at
receive_at_lem i [] c h = absurd (ground (arith, h))
receive_at_lem zero (d ∷ cs) c h =
    ap (λ o. elim o [ none ↦ (d ∷ cs, []) | some x ↦ ((receive x).0 ∷ cs, (receive x).1) ]) h
receive_at_lem (suc i) (d ∷ cs) c h = rw (receive_at_lem i cs c h)

module _ {A : Type 0} where
  get_elem?-set :
      (xs : List A) (i : ℕ) (a b : A) → get_elem? xs i ≡ some a → get_elem? (set xs i b) i ≡ some b
  get_elem?-set [] i a b h = absurd (ground (arith, h))
  get_elem?-set (x ∷ xs) zero a b h = refl
  get_elem?-set (x ∷ xs) (suc i) a b h = get_elem?-set xs i a b h

  set-set : (xs : List A) (i : ℕ) (a b : A) → set (set xs i a) i b ≡ set xs i b
  set-set [] i a b = refl
  set-set (x ∷ xs) zero a b = refl
  set-set (x ∷ xs) (suc i) a b = ap (◌∷◌ x) (set-set xs i a b)

  set_same : (xs : List A) (i : ℕ) (a : A) → get_elem? xs i ≡ some a → set xs i a ≡ xs
  set_same [] i a h = refl
  set_same (x ∷ xs) zero a h = ap (λ o. elim o [ none ↦ x ∷ xs | some y ↦ y ∷ xs ]) (sym h)
  set_same (x ∷ xs) (suc i) a h = ap (◌∷◌ x) (set_same xs i a h)

-- the state when the goroutine of a channel has taken its queue
abbrev pub drained : ℕ → Channel → PubSub → PubSub
drained i c ps = record {
  channels = set ps.channels i (record c { queue = [] });
  started = ps.started ++ writes c.name c.subscribers c.queue;
}

abbrev channel : String → Bool → List ℕ → List String → Channel
channel name is_pattern subscribers queue = record {
  name = name;
  is_pattern = is_pattern;
  subscribers = subscribers;
  queue = queue;
}

-- the state after a round on a channel that has a message
abbrev after_receive : ℕ → String → Bool → List ℕ → String → List String → PubSub → PubSub
after_receive i n p s text q ps = record {
  channels = set ps.channels i (channel n p s q);
  started = ps.started ++ map (λ conn. (conn, message n text)) s;
}

run_channel_lem :
    (i : ℕ) (n : String) (p : Bool) (s : List ℕ) (text : String) (q : List String) (ps : PubSub)
    → get_elem? ps.channels i ≡ some (channel n p s (text ∷ q))
    → run_channel i ps ≡ after_receive i n p s text q ps
unfolding run_channel receive
run_channel_lem i n p s text q ps at =
    rw (receive_at_lem i ps.channels (channel n p s (text ∷ q)) at)

rounds_lem :
    (q : List String) (i : ℕ) (n : String) (p : Bool) (s : List ℕ) (ps : PubSub)
    → get_elem? ps.channels i ≡ some (channel n p s q)
    → rounds i (length q) ps ≡ drained i (channel n p s q) ps
unfolding rounds writes
rounds_lem [] i n p s ps at =
    rw (set_same ps.channels i (channel n p s []) at, append-nil ps.started)
rounds_lem (text ∷ q) i n p s ps at =
    let ps1 = after_receive i n p s text q ps in
    let at1 = get_elem?-set ps.channels i (channel n p s (text ∷ q)) (channel n p s q) at in
    ap (rounds i (length q)) (run_channel_lem i n p s text q ps at)
    ∙ rounds_lem q i n p s ps1 at1
    ∙ rw (
      set-set ps.channels i (channel n p s q) (channel n p s []),
      append_assoc ps.started (map (λ conn. (conn, message n text)) s) (writes n s q),
    )

-- PUBLISH, where no channel that the message is for is full: the reply is OK, and every such channel has the
-- message at the end of its queue, while the others are as they were. In as many rounds as there are messages, the
-- goroutine of such a channel, at `i`, then starts one write of each message of its queue to each subscriber, and
-- the queue is empty. Each write has a goroutine of its own, and nothing is said of the order in which they reach a
-- subscriber.
pub handle_publish-delivered :
    (globs : Glob) (word name text : String) (ps : PubSub) (i : ℕ) (c : Channel)
    → blocked globs name ps.channels ≡ false
    → get_elem? ps.channels i ≡ some c
    → receives globs name c ≡ true
    → (ps' : PubSub) × (handle_publish globs (word ∷ name ∷ text ∷ []) ps ≡ (ok okay, ps'))
      × (ps' ≡ record ps { channels = map (sent globs text name) ps.channels })
      × (rounds i (length c.queue + 1) ps' ≡ record {
        channels = set ps'.channels i (record c { queue = [] });
        started = ps.started ++ writes c.name c.subscribers (c.queue ++ text ∷ []);
      })
unfolding handle_publish
handle_publish-delivered globs word name text ps i c free at for_it =
    let ps' : PubSub = record ps { channels = map (sent globs text name) ps.channels } in
    let at' : get_elem? ps'.channels i ≡ some (send text c) =
      get_elem?-map (sent globs text name) ps.channels i c at ∙ rw for_it in
    (
      ps',
      rw (publish_done globs text name ps.channels free),
      refl,
      rw (sym (length-append c.queue (text ∷ [])))
          (rounds_lem (c.queue ++ text ∷ []) i c.name c.is_pattern c.subscribers ps' at'),
    )
