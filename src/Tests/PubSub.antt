-- ===== src/Tests/PubSub.antt =====
-- internal/modules/pubsub with two connections.
use echo_vault.Base.{
  ℕ, ◌≡◌, refl, String, true, false, not, ◌&&◌, ◌||◌, List, [], ◌∷◌, ◌++◌, map, ◌==◌, nat_eq,
  string_eq, contains, any, all, equal_fold, set,
}
use echo_vault.Keyspace.State.{ok}
use echo_vault.Acl.State.{Glob}
use echo_vault.PubSub.Channel.{Channel, message}
use echo_vault.PubSub.State.{PubSub, new_pub_sub}
use echo_vault.PubSub.Handlers.{
  nothing, okay, left_channels, handle_subscribe, handle_unsubscribe, handle_publish,
}
use echo_vault.PubSub.Subscriptions.{subscribed, confirmations, handle_subscribe-subscribed}
use echo_vault.PubSub.Leaving.{handle_unsubscribe-subscribed}
use echo_vault.PubSub.Delivery.{sent, writes, rounds, handle_publish-delivered}
use echo_vault.PubSub.Validity.{IsValid}
use echo_vault.PubSub.Steps.{subscribes, publishes, start, after, Reachable-IsValid}

-- `*` fits every name
abbrev stars : Glob
stars = record { compiles = λ g. true; matches = λ g x. g == "*" || g == x }

-- the plain channel "*", with the subscribers 1 and 2 and one message
abbrev plain_star : Channel
plain_star = record { name = "*"; is_pattern = false; subscribers = 1 ∷ 2 ∷ []; queue = "old" ∷ [] }

abbrev one_channel : PubSub
one_channel = record { channels = plain_star ∷ []; started = [] }

handle_subscribe-subscribed_example :
    (ps' : PubSub) × (handle_subscribe stars 1 ("PSUBSCRIBE" ∷ "a" ∷ "b" ∷ []) one_channel
      ≡ (ok nothing, ps'))
    × ((x : ℕ) (y : String)
        → subscribed x y ps'.channels
          ≡ (subscribed x y (plain_star ∷ []) || 1 == x && contains ("a" ∷ "b" ∷ []) y))
    × (ps'.started
        ≡ [] ++ confirmations (equal_fold "PSUBSCRIBE" "psubscribe") 1 0 ("a" ∷ "b" ∷ []))
unfolding all equal_fold
handle_subscribe-subscribed_example =
    handle_subscribe-subscribed stars 1 "PSUBSCRIBE" "a" ("b" ∷ []) one_channel refl

handle_unsubscribe-subscribed_example :
    (cs : List Channel) × (left : List String) × (handle_unsubscribe stars 1
        ("UNSUBSCRIBE" ∷ "*" ∷ [])
        one_channel
      ≡ (ok (left_channels "unsubscribe" left), record one_channel { channels = cs }))
    × ((x : ℕ) (y : String)
        → subscribed x y cs
          ≡ (subscribed x y (plain_star ∷ []) && not (1 == x && contains ("*" ∷ []) y)))
    × ((y : String) → contains left y ≡ (subscribed 1 y (plain_star ∷ []) && contains ("*" ∷ []) y))
unfolding equal_fold
handle_unsubscribe-subscribed_example =
    handle_unsubscribe-subscribed stars 1 "UNSUBSCRIBE" "*" [] one_channel refl

handle_publish-delivered_example :
    (ps' : PubSub) × (handle_publish stars ("PUBLISH" ∷ "*" ∷ "new" ∷ []) one_channel
      ≡ (ok okay, ps'))
    × (ps' ≡ record one_channel { channels = map (sent stars "new" "*") (plain_star ∷ []) })
    × (rounds 0 2 ps' ≡ record {
      channels = set ps'.channels 0 (record plain_star { queue = [] });
      started = [] ++ writes "*" (1 ∷ 2 ∷ []) ("old" ∷ "new" ∷ []);
    })
unfolding any
handle_publish-delivered_example =
    handle_publish-delivered stars "PUBLISH" "*" "new" one_channel 0 plain_star refl refl refl

writes_run :
    writes "*" (1 ∷ 2 ∷ []) ("old" ∷ "new" ∷ [])
    ≡ (1, message "*" "old")
      ∷ (2, message "*" "old")
      ∷ (1, message "*" "new")
      ∷ (2, message "*" "new")
      ∷ []
unfolding writes
writes_run = refl

abbrev after_subscribe : PubSub
after_subscribe = (handle_subscribe stars 1 ("SUBSCRIBE" ∷ "a" ∷ "b" ∷ []) new_pub_sub).1

abbrev after_publish : PubSub
after_publish = (handle_publish stars ("PUBLISH" ∷ "b" ∷ "hello" ∷ []) after_subscribe).1

Reachable-IsValid_example : IsValid after_publish.channels
Reachable-IsValid_example = Reachable-IsValid stars after_publish (
    after (after start (subscribes 1 ("SUBSCRIBE" ∷ "a" ∷ "b" ∷ []) new_pub_sub))
      (publishes ("PUBLISH" ∷ "b" ∷ "hello" ∷ []) after_subscribe))
