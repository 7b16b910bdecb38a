-- ===== src/PubSub.antt =====
-- internal/pubsub/hub.go: messages about models, handed from publishers to subscribers. The hub holds its
-- lock during each operation, so that a run is a sequence of operations.
mod Members
pub mod Delivery
pub mod Late
mod Tests
use jimm.Prelude.{
  ℕ, suc, String, Bool, true, false, not, Option, none, some, List, [], ◌∷◌, ◌++◌, map, ◌==◌,
  string_eq, nat_eq, select, if◌then◌else◌,
}

-- A HandlerFunc, told from the others by a number.
abbrev pub Handler : Type 0
Handler = ℕ

-- A handler is called with the model and the content.
pub record HandlerCall : Type 0 where
  pub handler : Handler
  pub model : String
  pub content : String

pub record Subscriber : Type 0 where
  pub matcher : String → Bool
  pub handler : Handler

-- The maps of the hub, each key once.
pub record Hub : Type 0 where
  pub idx : ℕ
  pub subscribers : List (ℕ × Subscriber)
  pub messages : List (String × String)

abbrev pub new_hub : Hub
new_hub = record { idx = 0; subscribers = []; messages = [] }

-- h.messages[model] = content; the map is ranged over in no particular order.
unfoldable pub set_message : String → String → List (String × String) → List (String × String)
unfolding select
set_message model content ms =
    (model, content) ∷ select (λ (e : String × String). not (e.0 == model)) ms

-- The calls of a range over the subscribers, in the order of the map.
unfoldable pub notified : String → String → List (ℕ × Subscriber) → List HandlerCall
notified model content [] = []
notified model content ((i, s) ∷ ss) =
    let rest = notified model content ss in
    if s.matcher model
    then record { handler = s.handler; model = model; content = content } ∷ rest
    else rest

-- Publish: the hub afterwards, and the calls after which its channel is closed.
unfoldable pub publish : String → String → Hub → Hub × List HandlerCall
unfolding set_message notified
publish model content h = (
  record h { messages = set_message model content h.messages },
  notified model content h.subscribers,
)

-- h.subscribers[idx] = s; a subscriber under the same index is written over.
unfoldable pub set_subscriber : ℕ → Subscriber → List (ℕ × Subscriber) → List (ℕ × Subscriber)
unfolding select
set_subscriber idx s ss = (idx, s) ∷ select (λ (e : ℕ × Subscriber). not (e.0 == idx)) ss

-- The calls of a range over the messages, in the order of the map.
unfoldable pub replayed : (String → Bool) → Handler → List (String × String) → List HandlerCall
replayed matcher handler [] = []
replayed matcher handler ((m, c) ∷ ms) =
    let rest = replayed matcher handler ms in
    if matcher m then record { handler = handler; model = m; content = c } ∷ rest else rest

-- What SubscribeMatch returns: the index that its unsubscribe function deletes, or an error.
pub data Subscription : Type 0 where
  subscribed : ℕ → Subscription
  handler_not_specified : Subscription
  model_matcher_not_specified : Subscription

-- A nil function is `none`.
unfoldable pub subscribe_match :
    Option (String → Bool) → Option Handler → Hub → Subscription × Hub × List HandlerCall
unfolding set_subscriber replayed
subscribe_match matcher none h = (handler_not_specified, h, [])
subscribe_match none (some handler) h = (model_matcher_not_specified, h, [])
subscribe_match (some matcher) (some handler) h = (
  subscribed h.idx,
  record h {
    idx = suc h.idx;
    subscribers =
        set_subscriber h.idx (record { matcher = matcher; handler = handler }) h.subscribers;
  },
  replayed matcher handler h.messages,
)

abbrev pub model_matches : String → String → Bool
model_matches match_model model = match_model == model

unfoldable pub subscribe : String → Option Handler → Hub → Subscription × Hub × List HandlerCall
unfolding subscribe_match
subscribe model = subscribe_match (some (model_matches model))

-- The function that SubscribeMatch returns.
unfoldable pub unsubscribe : ℕ → Hub → Hub
unfolding select
unsubscribe idx h = record h {
  subscribers = select (λ (s : ℕ × Subscriber). not (s.0 == idx)) h.subscribers;
}
