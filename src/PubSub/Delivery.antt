-- ===== src/PubSub/Delivery.antt =====
-- internal/pubsub/hub.go: which handlers a message comes to, whatever has been done with the hub before.
use mathlib.Core.List.{Memᴰ}
use mathlib.Core.List.Memᴰ.{head, tail}
use jimm.Prelude.{
  ℕ, ◌≡◌, ◌≢◌, refl, sym, ap, subst, ◌∙◌, String, Bool, true, not, Option, none, some, List, [],
  ◌∷◌, ◌==◌, string_eq, nat_eq, ==_refl, ==_apart, inl, inr, ◌↔◌, ◌⊎◌, ◌<◌, arith, false≢true,
}
use jimm.PubSub.Members.{Mem-if_tail, Mem-if_head, if-Mem, select-Mem, Mem-select}
use jimm.PubSub.{
  Handler, HandlerCall, Subscriber, Hub, Subscription, subscribed, handler_not_specified,
  model_matcher_not_specified, new_hub, set_subscriber, notified, publish, subscribe_match,
  unsubscribe,
}

-- What is done with a hub.
pub data Operation : Type 0 where
  published : String → String → Operation
  subscription : Option (String → Bool) → Option Handler → Operation
  cancelled : ℕ → Operation

-- The hub after the operations, of which the first is the latest.
unfoldable pub after : List Operation → Hub
unfolding publish subscribe_match unsubscribe
after [] = new_hub
after (published model content ∷ ops) = (publish model content (after ops)).0
after (subscription matcher handler ∷ ops) = (subscribe_match matcher handler (after ops)).1
after (cancelled idx ∷ ops) = unsubscribe idx (after ops)

-- The subscription of the subscriber returned the index `i`, and that index has not been cancelled since.
pub data Standing (i : ℕ) (s : Subscriber) : List Operation → Type 0 where
  made :
      {older : List Operation}
      → (subscribe_match (some s.matcher) (some s.handler) (after older)).0 ≡ subscribed i
      → Standing i s (subscription (some s.matcher) (some s.handler) ∷ older)
  past_publication :
      {ops : List Operation} (model content : String)
      → Standing i s ops
      → Standing i s (published model content ∷ ops)
  past_subscription :
      {older : List Operation} (matcher : Option (String → Bool)) (handler : Option Handler)
      → Standing i s older
      → Standing i s (subscription matcher handler ∷ older)
  past_cancellation :
      {ops : List Operation} (j : ℕ) → i ≢ j → Standing i s ops → Standing i s (cancelled j ∷ ops)

other : (i j : ℕ) → not (i == j) ≡ true → i ≢ j
other i j kept e = false≢true (sym (ap not (ap (λ k. k == j) e ∙ ==_refl j)) ∙ kept)

index-injective : {i j : ℕ} → subscribed i ≡ subscribed j → i ≡ j
index-injective {i} e = ap index e
  where
    index : Subscription → ℕ
    index (subscribed k) = k
    index handler_not_specified = 0
    index model_matcher_not_specified = 0

-- What a write to the map of subscribers leaves there.
set-Mem :
    (j : ℕ) (s : Subscriber) (ss : List (ℕ × Subscriber)) {x : ℕ × Subscriber}
    → Memᴰ x (set_subscriber j s ss)
    → (x ≡ (j, s)) ⊎ (Memᴰ x ss × (x.0 ≢ j))
unfolding set_subscriber
set-Mem j s ss (head e) = inl e
set-Mem j s ss {x} (tail m) =
    let (n, kept) = Mem-select (λ (e : ℕ × Subscriber). not (e.0 == j)) x ss m in
    inr (n, other x.0 j kept)

written :
    (j i : ℕ) (s : Subscriber) (ss : List (ℕ × Subscriber))
    → i ≡ j
    → Memᴰ (i, s) (set_subscriber j s ss)
unfolding set_subscriber
written j i s ss e = head (ap (λ k. (k, s)) e)

left :
    (j : ℕ) (t : Subscriber) (i : ℕ) (s : Subscriber) (ss : List (ℕ × Subscriber))
    → i ≢ j
    → Memᴰ (i, s) ss
    → Memᴰ (i, s) (set_subscriber j t ss)
unfolding set_subscriber
left j t i s ss apart m =
    tail (
      select-Mem (λ (x : ℕ × Subscriber). not (x.0 == j)) (i, s) ss (ap not (==_apart i j apart)) m)

-- The next index is above every index in the map.
fresh :
    (ops : List Operation) (i : ℕ) (s : Subscriber)
    → Memᴰ (i, s) (after ops).subscribers
    → i < (after ops).idx
unfolding after
fresh [] i s m = elim m [ ]
fresh (published model content ∷ ops) i s m = fresh ops i s m
fresh (subscription none none ∷ ops) i s m = fresh ops i s m
fresh (subscription (some f) none ∷ ops) i s m = fresh ops i s m
fresh (subscription none (some h) ∷ ops) i s m = fresh ops i s m
fresh (subscription (some f) (some h) ∷ ops) i s m = elim (set-Mem _ _ _ m) [
  | inl e ↦ omega (arith, ap (λ (q : ℕ × Subscriber). q.0) e)
  | inr (n, apart) ↦ omega (arith, fresh ops i s n)
]
fresh (cancelled j ∷ ops) i s m =
    fresh ops i s (Mem-select (λ (x : ℕ × Subscriber). not (x.0 == j)) (i, s) _ m).0

-- A standing subscription is in the map.
Standing-Mem :
    (i : ℕ) (s : Subscriber) (ops : List Operation)
    → Standing i s ops
    → Memᴰ (i, s) (after ops).subscribers
unfolding after subscribe_match
Standing-Mem i s ops (made e) = written _ i s _ (index-injective (sym e))
Standing-Mem i s ops (past_publication m c st) = Standing-Mem i s _ st
Standing-Mem i s ops (past_subscription none none st) = Standing-Mem i s _ st
Standing-Mem i s ops (past_subscription (some f) none st) = Standing-Mem i s _ st
Standing-Mem i s ops (past_subscription none (some h) st) = Standing-Mem i s _ st
Standing-Mem i s ops (past_subscription {older} (some f) (some h) st) =
    let m = Standing-Mem i s older st in
    left (after older).idx _ i s _ (λ e. omega (arith, fresh older i s m, e)) m
Standing-Mem i s ops (past_cancellation j apart st) =
    select-Mem (λ (x : ℕ × Subscriber). not (x.0 == j)) (i, s) _ (ap not (==_apart i j apart))
      (Standing-Mem i s _ st)

-- What is in the map is a standing subscription.
Mem-Standing :
    (ops : List Operation) (i : ℕ) (s : Subscriber)
    → Memᴰ (i, s) (after ops).subscribers
    → Standing i s ops
unfolding after subscribe_match
Mem-Standing [] i s m = elim m [ ]
Mem-Standing (published model content ∷ ops) i s m =
    past_publication model content (Mem-Standing ops i s m)
Mem-Standing (subscription none none ∷ ops) i s m =
    past_subscription none none (Mem-Standing ops i s m)
Mem-Standing (subscription (some f) none ∷ ops) i s m =
    past_subscription (some f) none (Mem-Standing ops i s m)
Mem-Standing (subscription none (some h) ∷ ops) i s m =
    past_subscription none (some h) (Mem-Standing ops i s m)
Mem-Standing (subscription (some f) (some h) ∷ ops) i s m = elim (set-Mem _ _ _ m) [
  | inl e ↦
      subst
        (λ (x : Subscriber). Standing i s (subscription (some x.matcher) (some x.handler) ∷ ops))
        (ap (λ (q : ℕ × Subscriber). q.1) e)
        (made (ap (λ (q : ℕ × Subscriber). subscribed q.0) (sym e)))
  | inr (n, apart) ↦ past_subscription (some f) (some h) (Mem-Standing ops i s n)
]
Mem-Standing (cancelled j ∷ ops) i s m =
    let (n, kept) = Mem-select (λ (x : ℕ × Subscriber). not (x.0 == j)) (i, s) _ m in
    past_cancellation j (other i j kept) (Mem-Standing ops i s n)

abbrev pub call_of : Subscriber → String → String → HandlerCall
call_of s model content = record { handler = s.handler; model = model; content = content }

notified-Mem :
    (model content : String) (i : ℕ) (s : Subscriber) (ss : List (ℕ × Subscriber))
    → s.matcher model ≡ true
    → Memᴰ (i, s) ss
    → Memᴰ (call_of s model content) (notified model content ss)
unfolding notified
notified-Mem model content i s [] q m = elim m [ ]
notified-Mem model content i s ((j, t) ∷ ss) q (head e) =
    let same : s ≡ t = ap (λ (x : ℕ × Subscriber). x.1) e in
    Mem-if_head (t.matcher model) _ _ (ap (λ (x : Subscriber). x.matcher model) (sym same) ∙ q)
      (ap (λ x. call_of x model content) same)
notified-Mem model content i s ((j, t) ∷ ss) q (tail m) =
    Mem-if_tail (t.matcher model) _ _ (notified-Mem model content i s ss q m)

-- A call is one of a subscriber in the map whose matcher accepts the model.
abbrev Caused : String → String → List (ℕ × Subscriber) → HandlerCall → Type 0
Caused model content ss c =
    (i : ℕ) × (s : Subscriber) × Memᴰ (i, s) ss
    × (s.matcher model ≡ true)
    × (c ≡ call_of s model content)

Mem-notified :
    (model content : String) (c : HandlerCall) (ss : List (ℕ × Subscriber))
    → Memᴰ c (notified model content ss)
    → Caused model content ss c
unfolding notified
Mem-notified model content c [] m = elim m [ ]
Mem-notified model content c ((j, t) ∷ ss) m =
    elim (if-Mem (t.matcher model) (call_of t model content) (notified model content ss) m) [
      | inl (q, e) ↦ (j, t, head refl, q, e)
      | inr n ↦
          let (i, s, listed, q, e) = Mem-notified model content c ss n in (i, s, tail listed, q, e)
    ]

-- However the hub has been used before: a Publish calls a handler, with the model and the content
-- that were published, exactly where there is a subscription with that handler whose matcher accepts
-- the model and whose index, which SubscribeMatch returned for it, has not been cancelled since.
pub publish_reaches :
    (ops : List Operation) (model content : String) (c : HandlerCall)
    → Memᴰ c (publish model content (after ops)).1 ↔ (
        (i : ℕ) × (s : Subscriber) × Standing i s ops
        × (s.matcher model ≡ true)
        × (c ≡ call_of s model content))
unfolding publish
publish_reaches ops model content c = (
  λ m.
      let (i, s, listed, q, e) = Mem-notified model content c (after ops).subscribers m in
      (i, s, Mem-Standing ops i s listed, q, e),
  λ (i, s, st, q, e).
      subst (λ x. Memᴰ x (notified model content (after ops).subscribers)) (sym e)
        (notified-Mem model content i s (after ops).subscribers q (Standing-Mem i s ops st)),
)
