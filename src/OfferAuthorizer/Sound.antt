-- ===== src/OfferAuthorizer/Sound.antt =====
-- Who a positive answer of the offer authorizer is about.
use jimm.Prelude.{
  ◌≡◌, refl, sym, ap, ◌∙◌, subst, String, Bool, true, false, Option, none, some, List, [],
}
use jimm.Errors.{Error, Result, ok, err, spent}
use jimm.Exec.{Exec}
use jimm.Exec.Rules.{>>=-cases}
use jimm.Exec.Triples.{Good, Keeps, result-Keeps, pure-Keeps, if-Keeps, >>=-Keeps}
use jimm.Ofga.Names.{JujuTag, consumer_relation}
use jimm.Ofga.Tuples.{Tuple}
use jimm.Ofga.Server.{Server, CheckLaws}
use jimm.User.{
  User, new_user, set_idp_groups, user_tuple, contextual_tuples, user_check,
  is_application_offer_consumer,
}
use jimm.User.Levels.{user_check_keeps, user_check_answer}
use jimm.OfferAuthorizer.{
  OfferStore, resolve_local_user_to_external_user, found_groups, groups_of,
  is_user_consumer_for_offer,
}

-- Reading the database and fetching groups changes no tuple.
pub record OfferStoreLaws (V : Server) (D : OfferStore V) : Type 0 where
  pub offer_keeps :
      (offer : JujuTag) (s : V.State) → V.tuples (D.get_application_offer offer s).1 ≡ V.tuples s
  pub mapping_keeps :
      (model local_user : String) (s : V.State)
      → V.tuples (D.get_user_mapping model local_user s).1 ≡ V.tuples s
  pub fetch_keeps :
      (fetch : String → Exec V.State (List String)) (identifier : String) (s : V.State)
      → D.idp_group_fetcher ≡ some fetch
      → V.tuples (fetch identifier s).1 ≡ V.tuples s

module _ (V : Server) (C : CheckLaws V) (D : OfferStore V) (L : OfferStoreLaws V D)
    (user offer : JujuTag) (stored : List Tuple) where
  -- The name under which the user is known outside.
  pub data Identified (identifier : String) : Type 0 where
    external : D.is_local user ≡ false → identifier ≡ user.id → Identified identifier
    mapped :
        (model : String) (t s : V.State)
        → D.is_local user ≡ true
        → D.get_application_offer offer t ≡ (ok model, s)
        → (D.get_user_mapping model user.id s).0 ≡ ok identifier
        → Identified identifier

  -- Groups that the fetcher has for the user, or none without a fetcher or where it fails.
  pub data Fetched (identifier : String) (groups : List String) : Type 0 where
    no_fetcher : D.idp_group_fetcher ≡ none → groups ≡ [] → Fetched identifier groups
    fetch_failed :
        (fetch : String → Exec V.State (List String)) (s : V.State) (x : Error)
        → D.idp_group_fetcher ≡ some fetch
        → (fetch identifier s).0 ≡ err x
        → groups ≡ []
        → Fetched identifier groups
    fetched :
        (fetch : String → Exec V.State (List String)) (s : V.State)
        → D.idp_group_fetcher ≡ some fetch
        → (fetch identifier s).0 ≡ ok groups
        → Fetched identifier groups

  -- The authorization model has the user that they make up consume the offer.
  pub record Consumer : Type 0 where
    pub identifier : String
    pub name : String
    pub groups : List String
    pub contextual : List Tuple
    pub identified : Identified identifier
    pub named : D.new_identity identifier ≡ ok name
    pub in_groups : Fetched identifier groups
    pub valid : contextual_tuples (set_idp_groups (new_user name) groups) ≡ ok contextual
    pub holds :
        V.allowed stored contextual
          (user_tuple (set_idp_groups (new_user name) groups) offer consumer_relation)
        ≡ true

  abbrev AtRest : V.State → Type 0
  AtRest s = V.tuples s ≡ stored

  resolve-Keeps :
      D.is_local user ≡ true
      → Keeps AtRest (resolve_local_user_to_external_user V D user.id offer) Identified
  unfolding resolve_local_user_to_external_user
  resolve-Keeps h = record {
    kept = λ s p.
        >>=-cases (λ r. AtRest r.1 × Good Identified r.0) (D.get_application_offer offer)
          (λ model. D.get_user_mapping model user.id) s
          (λ model s1 e. (
            L.mapping_keeps model user.id s1 ∙ (after_offer s (ok model) s1 e ∙ p),
            go model s s1 e (D.get_user_mapping model user.id s1).0 refl,
          ))
          (λ x s1 e. (after_offer s (err x) s1 e ∙ p, tt))
          (λ s1 e. (after_offer s spent s1 e ∙ p, tt));
  }
    where
      after_offer :
          (s : V.State) (r : Result String) (s1 : V.State)
          → D.get_application_offer offer s ≡ (r, s1)
          → V.tuples s1 ≡ V.tuples s
      after_offer s r s1 e =
          ap (λ (x : Result String × V.State). V.tuples x.1) (sym e) ∙ L.offer_keeps offer s

      go :
          (model : String) (s s1 : V.State)
          → D.get_application_offer offer s ≡ (ok model, s1)
          → (r : Result String) → (D.get_user_mapping model user.id s1).0 ≡ r
          → Good Identified r
      go model s s1 e (ok identifier) d = mapped model s s1 h e d
      go model s s1 e (err x) d = tt
      go model s s1 e spent d = tt

  groups-Keeps :
      (f : Option (String → Exec V.State (List String))) (identifier : String)
      → D.idp_group_fetcher ≡ f
      → Keeps AtRest (groups_of V D f identifier) (Fetched identifier)
  unfolding groups_of
  groups-Keeps none identifier e = record { kept = λ s p. (p, no_fetcher e refl) }
  groups-Keeps (some fetch) identifier e = record {
    kept = λ s p. go s (fetch identifier s).0 refl (L.fetch_keeps fetch identifier s e ∙ p);
  }
    where
      go :
          (s : V.State) (r : Result (List String))
          → (fetch identifier s).0 ≡ r
          → V.tuples (fetch identifier s).1 ≡ stored
          → AtRest (found_groups V D r (fetch identifier s).1).1
            × Good (Fetched identifier) (found_groups V D r (fetch identifier s).1).0
      go s (ok groups) d q = (q, fetched fetch s e d)
      go s (err x) d q = (q, fetch_failed fetch s x e d refl)
      go s spent d q = (q, tt)

  check-Keeps :
      (identifier name : String) (groups : List String)
      → Identified identifier
      → D.new_identity identifier ≡ ok name
      → Fetched identifier groups
      → Keeps AtRest
          (is_application_offer_consumer V (set_idp_groups (new_user name) groups) offer)
          (λ b. b ≡ true → Consumer)
  check-Keeps identifier name groups i n f = record {
    kept = λ s p. (
      user_check_keeps V C consumer offer consumer_relation s ∙ p,
      go s p (user_check V consumer offer consumer_relation s).0 refl,
    );
  }
    where
      consumer : User
      consumer = set_idp_groups (new_user name) groups

      go :
          (s : V.State)
          → AtRest s
          → (r : Result Bool) → (user_check V consumer offer consumer_relation s).0 ≡ r
          → Good (λ b. b ≡ true → Consumer) r
      go s p (ok b) e = λ yes.
          let (ctx, v, answer) =
            user_check_answer V C consumer offer consumer_relation s
              (user_check V consumer offer consumer_relation s).1 b
              (λ j. (e j, (user_check V consumer offer consumer_relation s).1)) in
          record {
            identifier = identifier;
            name = name;
            groups = groups;
            contextual = ctx;
            identified = i;
            named = n;
            in_groups = f;
            valid = v;
            holds =
                ap (λ ts. V.allowed ts ctx (user_tuple consumer offer consumer_relation)) (sym p)
                ∙ sym answer
                ∙ yes;
          }
      go s p (err x) e = tt
      go s p spent e = tt

  authorizer-Keeps :
      Keeps AtRest (is_user_consumer_for_offer V D user offer) (λ b. b ≡ true → Consumer)
  unfolding is_user_consumer_for_offer
  authorizer-Keeps =
      >>=-Keeps
        (if-Keeps (D.is_local user) resolve-Keeps (λ h. pure-Keeps user.id (external h refl)))
        (λ identifier i. >>=-Keeps (result-Keeps (D.new_identity identifier)) (λ name n.
          >>=-Keeps (groups-Keeps D.idp_group_fetcher identifier refl)
            (λ groups f. check-Keeps identifier name groups i n f)))

-- Where IsUserConsumerForOffer answers yes, the authorization model has a user consume the offer whose
-- name is the external one, for a local user that which the user mapping has under the model that
-- the offer was found in, read after it, and whose groups are those that were fetched for that name,
-- or none where there is no fetcher or it fails. Reading the database and fetching groups are taken
-- to change no tuple.
pub is_user_consumer_sound :
    (V : Server) (C : CheckLaws V) (D : OfferStore V) (L : OfferStoreLaws V D)
    (user offer : JujuTag) (s s' : V.State)
    → is_user_consumer_for_offer V D user offer s ≡ (ok true, s')
    → Consumer V C D L user offer (V.tuples s)
is_user_consumer_sound V C D L user offer s s' e =
    subst (Good (λ b. b ≡ true → Consumer V C D L user offer (V.tuples s))) (ap (λ r. r.0) e)
      ((authorizer-Keeps V C D L user offer (V.tuples s)).kept s refl).1 refl
