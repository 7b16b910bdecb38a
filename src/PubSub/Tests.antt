-- ===== src/PubSub/Tests.antt =====
-- A hub with one subscriber that has cancelled and one that has not.
use mathlib.Core.List.{Memᴰ}
use jimm.Prelude.{String, ℕ, ◌≡◌, ◌↔◌, refl, true, some, List, [], ◌∷◌, string_eq, nat_eq, select}
use jimm.PubSub.{
  Subscriber, HandlerCall, publish, model_matches, subscribe_match, unsubscribe, notified,
  set_message, set_subscriber, replayed,
}
use jimm.PubSub.Late.{last_published, hub_delivers}
use jimm.PubSub.Delivery.{Operation, published, subscription, cancelled, after, Standing, call_of}

abbrev history : List Operation
history =
    cancelled 0
    ∷ subscription (some (model_matches "m1")) (some 8)
    ∷ published "m1" "old"
    ∷ subscription (some (λ model. true)) (some 7)
    ∷ []

abbrev call : HandlerCall
call = record { handler = 8; model = "m1"; content = "new" }

-- What a Publish calls, and what a new subscriber to every model is told.
hub_delivers_example :
    (Memᴰ call (publish "m1" "new" (after history)).1 ↔ (
      (i : ℕ) × (s : Subscriber) × Standing i s history
      × (s.matcher "m1" ≡ true)
      × (call ≡ call_of s "m1" "new")))
    × (Memᴰ call (subscribe_match (some (λ model. true)) (some 9) (after history)).2 ↔ (
        (m : String) × (last : String) × (last_published m history ≡ some last)
        × (true ≡ true)
        × (call ≡ record { handler = 9; model = m; content = last })))
hub_delivers_example = hub_delivers history (λ model. true) 9 "m1" "new" call

-- A late subscriber is told the last message.
told :
    (subscribe_match (some (λ model. true)) (some 9) (after history)).2
    ≡ record { handler = 9; model = "m1"; content = "old" } ∷ []
unfolding after publish subscribe_match unsubscribe set_message set_subscriber replayed select
told = refl

-- Only the subscriber that is left is called.
one_call : (publish "m1" "new" (after history)).1 ≡ call ∷ []
unfolding after publish subscribe_match unsubscribe notified set_subscriber select
one_call = refl
