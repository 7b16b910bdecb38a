-- ===== src/PubSub/Late.antt =====
-- internal/pubsub/hub.go: what a new subscriber is told about messages from before.
use mathlib.Core.List.{Memᴰ}
use mathlib.Core.List.Memᴰ as Memᴰ
use mathlib.Core.List.Memᴰ.{head, tail}
use jimm.Prelude.{
  ◌≡◌, ◌↔◌, inl, inr, refl, sym, ap, ap₂, ◌∙◌, subst, String, Bool, true, false, not, false≢true,
  Option, none, some, List, [], ◌∷◌, ℕ, ◌==◌, string_eq, eq_iff, ==_apart, ==_refl, if◌then◌else◌,
}
use jimm.PubSub.{Handler, HandlerCall, Subscriber, set_message, replayed, publish, subscribe_match}
use jimm.PubSub.Members.{Mem-if_tail, Mem-if_head, if-Mem, select-Mem, Mem-select}
use jimm.PubSub.Delivery.{
  Operation, published, subscription, cancelled, after, Standing, call_of, publish_reaches,
}

-- The content that was published last about a model.
unfoldable pub last_published : String → List Operation → Option String
last_published model [] = none
last_published model (published m content ∷ ops) =
    let earlier = last_published model ops in if m == model then some content else earlier
last_published model (subscription matcher handler ∷ ops) = last_published model ops
last_published model (cancelled i ∷ ops) = last_published model ops

-- The messages hold a content of a model exactly where `o` is it.
abbrev Holds : List (String × String) → String → Option String → Type 0
Holds ms m o = (c : String) → Memᴰ (m, c) ms ↔ (o ≡ some c)

some-injective : {x y : String} → some x ≡ some y → x ≡ y
some-injective {x} e = ap (or x) e
  where
    or : String → Option String → String
    or d (some y) = y
    or d none = d

set-Holds :
    (k content m : String) (ms : List (String × String)) (o : Option String)
    → Holds ms m o
    → Holds (set_message k content ms) m (if k == m then some content else o)
unfolding set_message
set-Holds k content m ms o h c = go (k == m) refl
  where
    go :
        (b : Bool)
        → (k == m) ≡ b
        → Memᴰ (m, c) (set_message k content ms) ↔ ((if b then some content else o) ≡ some c)
    go true q =
        let same : k ≡ m = (eq_iff k m).0 q in
        (
          λ z. elim (Memᴰ.cases_cons z) [
            | inl e ↦ ap (λ (x : String × String). some x.1) (sym e)
            | inr n ↦ absurd (
                false≢true
                  (sym (ap not (ap (λ x. m == x) same ∙ ==_refl m)) ∙ (Mem-select _ (m, c) ms n).1))
          ],
          λ e. head (ap₂ (λ x y. (x, y)) (sym same) (sym (some-injective e))),
        )
    go false q = (
      λ z. elim (Memᴰ.cases_cons z) [
        | inl e ↦ absurd (false≢true (sym q ∙ ap (λ (x : String × String). k == x.0) e ∙ ==_refl k))
        | inr n ↦ (h c).0 (Mem-select _ (m, c) ms n).0
      ],
      λ e. tail (
          select-Mem (λ (x : String × String). not (x.0 == k)) (m, c) ms
            (ap not (==_apart m k (λ z. false≢true (sym q ∙ ap (λ x. k == x) z ∙ ==_refl k))))
            ((h c).1 e)),
    )

after-Holds :
    (ops : List Operation) (m : String) → Holds (after ops).messages m (last_published m ops)
unfolding after last_published
after-Holds [] m c = (λ z. elim z [ ], λ e. absurd (cc e))
after-Holds (published k content ∷ ops) m c =
    set-Holds k content m (after ops).messages (last_published m ops) (after-Holds ops m) c
after-Holds (subscription none none ∷ ops) m c = after-Holds ops m c
after-Holds (subscription (some f) none ∷ ops) m c = after-Holds ops m c
after-Holds (subscription none (some h) ∷ ops) m c = after-Holds ops m c
after-Holds (subscription (some f) (some h) ∷ ops) m c = after-Holds ops m c
after-Holds (cancelled i ∷ ops) m c = after-Holds ops m c

-- A call that is made for a message in the map.
abbrev Replayed : (String → Bool) → Handler → List (String × String) → HandlerCall → Type 0
Replayed matcher handler ms call =
    (m : String) × (c : String) × Memᴰ (m, c) ms
    × (matcher m ≡ true)
    × (call ≡ record { handler = handler; model = m; content = c })

replayed-Mem :
    (matcher : String → Bool) (handler : Handler) (m c : String) (ms : List (String × String))
    → matcher m ≡ true
    → Memᴰ (m, c) ms
    → Memᴰ (record { handler = handler; model = m; content = c }) (replayed matcher handler ms)
unfolding replayed
replayed-Mem matcher handler m c [] q z = elim z [ ]
replayed-Mem matcher handler m c ((k, d) ∷ ms) q (head e) =
    Mem-if_head (matcher k) _ _ (ap (λ (x : String × String). matcher x.0) (sym e) ∙ q)
      (ap (λ (x : String × String). record { handler = handler; model = x.0; content = x.1 }) e)
replayed-Mem matcher handler m c ((k, d) ∷ ms) q (tail n) =
    Mem-if_tail (matcher k) _ _ (replayed-Mem matcher handler m c ms q n)

Mem-replayed :
    (matcher : String → Bool) (handler : Handler) (call : HandlerCall) (ms : List (String × String))
    → Memᴰ call (replayed matcher handler ms)
    → Replayed matcher handler ms call
unfolding replayed
Mem-replayed matcher handler call [] z = elim z [ ]
Mem-replayed matcher handler call ((k, d) ∷ ms) z =
    elim (if-Mem (matcher k) (record { handler = handler; model = k; content = d })
      (replayed matcher handler ms) z) [
        | inl (q, e) ↦ (k, d, head refl, q, e)
        | inr n ↦
            let (m, c, stored, q, e) = Mem-replayed matcher handler call ms n in
            (m, c, tail stored, q, e)
      ]

-- However the hub has been used before, a Publish calls a handler, with the model and the content that
-- were published, exactly where there is a subscription with that handler whose matcher accepts the
-- model and whose index, which SubscribeMatch returned for it, has not been cancelled since; and a new
-- subscription calls its handler, before it returns, with each model that its matcher accepts and the
-- content that was published last about it, and with nothing else.
pub hub_delivers :
    (ops : List Operation) (matcher : String → Bool) (handler : Handler) (model content : String)
    (c : HandlerCall)
    → (Memᴰ c (publish model content (after ops)).1 ↔ (
        (i : ℕ) × (s : Subscriber) × Standing i s ops
        × (s.matcher model ≡ true)
        × (c ≡ call_of s model content)))
      × (Memᴰ c (subscribe_match (some matcher) (some handler) (after ops)).2 ↔ (
          (m : String) × (last : String) × (last_published m ops ≡ some last)
          × (matcher m ≡ true)
          × (c ≡ record { handler = handler; model = m; content = last })))
unfolding subscribe_match
hub_delivers ops matcher handler model content c = (
  publish_reaches ops model content c,
  (
    λ z.
        let (m, last, stored, q, e) = Mem-replayed matcher handler c (after ops).messages z in
        (m, last, (after-Holds ops m last).0 stored, q, e),
    λ (m, last, stored, q, e).
        subst (λ x. Memᴰ x (replayed matcher handler (after ops).messages)) (sym e)
          (replayed-Mem matcher handler m last (after ops).messages q
            ((after-Holds ops m last).1 stored)),
  ),
)
