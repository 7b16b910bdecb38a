-- ===== src/Tokens/Entries.antt =====
-- The entries of an access map, and the small actions that keep them true.
use jimm.Prelude.{
  ◌≡◌, ◌≢◌, ◌⊎◌, inl, inr, refl, sym, ap, ◌∙◌, subst, String, Bool, true, false, false≢true, none,
  some, List, find, arith, Bool-cases, ◌==◌, string_eq, eq_iff,
}
use jimm.Errors.{Result, ok, err, spent}
use jimm.Exec.{Exec, pure, ◌>>=◌}
use jimm.Exec.Rules.{>>=-cases}
use jimm.Exec.Triples.{Good, Keeps, Any, pure-Keeps, raise-Keeps}
use jimm.Ofga.Names.{JujuTag, no_relation}
use jimm.Ofga.Tuples.{Tuple}
use jimm.Ofga.Server.{Server}
use jimm.User.{User, wrapped, user_tuple, contextual_tuples}
use jimm.Access.{Manager}
use jimm.Access.Words.{to_model_access_string, to_controller_access_string, to_cloud_access_string}
use jimm.Access.Permissions.{Cache, lookup}
use jimm.Tokens.{
  LoginTokenGenerator, Session, Services, enter, get, modify, on_server, wrapping, need, claim,
}

module _ (V : Server) (T : Services V) (user : User) (stored : List Tuple) where
  -- A level that is none, or that the authorization model has the user hold.
  abbrev pub Known : JujuTag → String → Type 0
  Known tag level =
      (level ≡ no_relation)
      ⊎ ((ctx : List Tuple) × (contextual_tuples user ≡ ok ctx)
          × (V.allowed stored ctx (user_tuple user tag level) ≡ true))

  -- A word for a level on a resource of that kind.
  abbrev pub Worded : (String → String) → JujuTag → String → Type 0
  Worded f tag value = (level : String) × (value ≡ f level) × Known tag level

  -- An entry of an access map: the word for a known level on a model, a controller or a cloud.
  pub data Claimed (key value : String) : Type 0 where
    claimed :
        (f : String → String) (tag : JujuTag)
        → (f ≡ to_model_access_string)
          ⊎ (f ≡ to_controller_access_string)
          ⊎ (f ≡ to_cloud_access_string)
        → key ≡ T.tag_text tag
        → Worded f tag value
        → Claimed key value

  abbrev pub Entries : Cache → Type 0
  Entries cache = (key value : String) → lookup key cache ≡ some value → Claimed key value

  abbrev pub Truthful : Session V → Type 0
  Truthful s = (V.tuples s.server ≡ stored) × Entries s.generator.access_map_cache

  -- An action of the server that changes no tuple.
  abbrev pub Steady : {A : Type 0} → Exec V.State A → (A → Type 0) → Type 0
  Steady m Q = (s : V.State) → V.tuples s ≡ stored → (V.tuples (m s).1 ≡ stored) × Good Q (m s).0

  pub steady-Keeps :
      {A : Type 0} {Q : A → Type 0} (m : Exec V.State A)
      → Steady m Q
      → Keeps Truthful (on_server V m) Q
  unfolding on_server
  steady-Keeps m h = record { kept = λ s p. (((h s.server p.0).0, p.1), (h s.server p.0).1) }

  pub Good-wrapped :
      {A : Type 0} (Q : A → Type 0) (context : String) (r : Result A)
      → Good Q r
      → Good Q (wrapped context r)
  Good-wrapped Q context (ok a) q = q
  Good-wrapped Q context (err e) q = tt
  Good-wrapped Q context spent q = tt

  pub wrapping-Keeps :
      {A : Type 0} {Q : A → Type 0} (context : String) (m : Exec V.State A)
      → Steady m Q
      → Keeps Truthful (wrapping V context m) Q
  unfolding wrapping
  wrapping-Keeps {Q = Q} context m h = record {
    kept = λ s p.
        (((h s.server p.0).0, p.1), Good-wrapped Q context (m s.server).0 (h s.server p.0).1);
  }

  pub get-Keeps : {A : Type 0} (f : LoginTokenGenerator → A) → Keeps Truthful (get V f) Any
  unfolding get
  get-Keeps f = record { kept = λ s p. (p, tt) }

  pub generator-Keeps : Keeps Truthful (get V (λ g. g)) (λ g. Entries g.access_map_cache)
  unfolding get
  generator-Keeps = record { kept = λ s p. (p, p.1) }

  pub need-Keeps : (b : Bool) (context : String) → Keeps Truthful (need V b context) Any
  need-Keeps true context = pure-Keeps tt tt
  need-Keeps false context = raise-Keeps _

  pub enter-Entries :
      (key value : String) (cache : Cache)
      → Claimed key value
      → Entries cache
      → Entries (enter key value cache)
  unfolding find
  enter-Entries key value none c h = h
  enter-Entries key value (some m) c h = λ k v f. elim (Bool-cases (key == k)) [
    | inl same ↦
        let there : value ≡ v = ground (arith, f, same) in
        subst (λ x. Claimed x v) ((eq_iff key k).0 same) (subst (Claimed key) there c)
    | inr other ↦ h k v (ground (arith, f, other))
  ]

  pub claim-Keeps :
      (M : Manager V) (f : String → String) (tag : JujuTag) (value : String)
      → (f ≡ to_model_access_string)
        ⊎ (f ≡ to_controller_access_string)
        ⊎ (f ≡ to_cloud_access_string)
      → Worded f tag value
      → Keeps Truthful (claim V M T tag value) Any
  unfolding claim modify
  claim-Keeps M f tag value k w = record {
    kept = λ s p. (
      (
        p.0,
        enter-Entries (T.tag_text tag) value s.generator.access_map_cache (claimed f tag k refl w)
            p.1,
      ),
      tt,
    );
  }

  -- The word for what a Get…Access method reports.
  pub word-Steady :
      (f : String → String) (tag : JujuTag) (m : Exec V.State String)
      → ((s : V.State) → V.tuples (m s).1 ≡ V.tuples s)
      → ((s s' : V.State) (l : String)
          → m s ≡ (ok l, s')
          → l ≢ no_relation
          → (ctx : List Tuple) × (contextual_tuples user ≡ ok ctx)
            × (V.allowed (V.tuples s) ctx (user_tuple user tag l) ≡ true))
      → Steady (m >>= λ l. pure (f l)) (Worded f tag)
  word-Steady f tag m keeps sound s p =
      >>=-cases (λ r. (V.tuples r.1 ≡ stored) × Good (Worded f tag) r.0) m _ s
        (λ l s1 e. (
          ap (λ q. V.tuples q.1) (sym e) ∙ keeps s ∙ p,
          (
            l,
            refl,
            elim (Bool-cases (l == no_relation)) [
              | inl nothing ↦ inl ((eq_iff l no_relation).0 nothing)
              | inr something ↦ inr (
                  subst
                    (λ ts.
                      (ctx : List Tuple) × (contextual_tuples user ≡ ok ctx)
                      × (V.allowed ts ctx (user_tuple user tag l) ≡ true))
                    p
                    (sound s s1 l e (λ z. false≢true (sym something ∙ (eq_iff l no_relation).1 z))))
            ],
          ),
        ))
        (λ x s1 e. (ap (λ q. V.tuples q.1) (sym e) ∙ keeps s ∙ p, tt))
        (λ s1 e. (ap (λ q. V.tuples q.1) (sym e) ∙ keeps s ∙ p, tt))
