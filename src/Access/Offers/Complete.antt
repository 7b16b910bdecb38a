-- ===== src/Access/Offers/Complete.antt =====
-- RevokeOfferAccess: when it reports success, the access is gone.
use jimm.Prelude.{
  String, Bool, true, false, ◌≡◌, ◌≢◌, refl, sym, ap, ◌∙◌, [], ◌∷◌, elem, string_eq, if◌then◌else◌,
  arith, inl, inr, ◌⊎◌,
}
use jimm.Errors.{ok}
use jimm.Exec.{lift}
use jimm.Exec.Rules.{>>=-eq-ok}
use jimm.Ofga.Names.{
  JujuTag, administrator_relation, consumer_relation, reader_relation, no_relation,
}
use jimm.Ofga.Server.{Server, CheckLaws}
use jimm.User.{
  User, new_user, user_tuple, is_administrator, get_application_offer_access, contextual_tuples,
  unset_access, wrapping,
}
use jimm.User.Levels.{Available, highest, offer_levels, levels, levels-highest, levels_keeps}
use jimm.Access.{Manager, require}
use jimm.Access.Words.{to_offer_relation}
use jimm.Access.Effect.{up_to}
use jimm.Access.Cases.{none_admin, none_two, none_held}
use jimm.Access.Offers.{still_has_access, completely, revoke_offer_access}

module _ (holds : String → Bool) where
  abbrev offer_level : Bool → Bool → Bool → String
  offer_level a c r =
      if a
      then administrator_relation
      else if c
      then consumer_relation
      else if r
      then reader_relation
      else no_relation

  abbrev Gone : String → Bool → Bool → Bool → Type 0
  Gone target a c r =
      still_has_access target (offer_level a c r) ≡ false
      → holds administrator_relation ≡ a
      → holds consumer_relation ≡ c
      → holds reader_relation ≡ r
      → (l : String) → elem l (up_to target offer_levels) ≡ true
      → holds l ≡ false

  Gone-admin : (a c r : Bool) → Gone administrator_relation a c r
  unfolding still_has_access
  Gone-admin true c r n p q z = absurd (cc n)
  Gone-admin false true r n p q z = λ l. none_admin holds l p
  Gone-admin false false true n p q z = λ l. none_admin holds l p
  Gone-admin false false false n p q z = λ l. none_admin holds l p

  Gone-consumer : (a c r : Bool) → Gone consumer_relation a c r
  unfolding still_has_access
  Gone-consumer true c r n p q z = absurd (cc n)
  Gone-consumer false true r n p q z = absurd (cc n)
  Gone-consumer false false true n p q z = λ l. none_two holds consumer_relation l p q
  Gone-consumer false false false n p q z = λ l. none_two holds consumer_relation l p q

  Gone-reader : (a c r : Bool) → Gone reader_relation a c r
  unfolding still_has_access
  Gone-reader true c r n p q z = absurd (cc n)
  Gone-reader false true r n p q z = absurd (cc n)
  Gone-reader false false true n p q z = absurd (cc n)
  Gone-reader false false false n p q z = λ l.
      none_held holds administrator_relation (consumer_relation ∷ reader_relation ∷ []) l p (
        none_held holds consumer_relation (reader_relation ∷ []) l q
          (none_held holds reader_relation [] l z (λ m. absurd (cc m))))

  offer_cases :
      (access target : String)
      → to_offer_relation access ≡ ok target
      → target ≢ no_relation
      → (target ≡ administrator_relation)
        ⊎ (target ≡ consumer_relation)
        ⊎ (target ≡ reader_relation)
  unfolding to_offer_relation
  offer_cases access target e n = ground (arith, e, n)

  still_has_access_not :
      (access target : String)
      → to_offer_relation access ≡ ok target
      → target ≢ no_relation
      → still_has_access target (highest holds offer_levels) ≡ false
      → (l : String) → elem l (up_to target offer_levels) ≡ true
      → holds l ≡ false
  unfolding highest
  still_has_access_not access target e n =
      let a = holds administrator_relation in
      let c = holds consumer_relation in
      let r = holds reader_relation in
      elim (offer_cases access target e n) [
        | inl t ↦ rw t (λ s. Gone-admin a c r s refl refl refl)
        | inr (inl t) ↦ rw t (λ s. Gone-consumer a c r s refl refl refl)
        | inr (inr t) ↦ rw t (λ s. Gone-reader a c r s refl refl refl)
      ]

completely_not :
    (V : Server) (M : Manager V) (b : Bool) (s s' : V.State)
    → completely V M b s ≡ (ok tt, s')
    → (b ≡ false) × (s ≡ s')
completely_not V M true s s' h = absurd (cc (ap (λ r. r.0) h))
completely_not V M false s s' h = (refl, ap (λ r. r.1) h)

-- The last two steps: the level is read again, and is not one that was to go.
rechecked :
    (V : Server) (C : CheckLaws V) (up : Available V) (M : Manager V) (access target : String)
    (u : User) (offer : JujuTag) (current : String) (s s1 s' : V.State)
    → contextual_tuples u ≡ ok []
    → to_offer_relation access ≡ ok target
    → target ≢ no_relation
    → get_application_offer_access V u offer s ≡ (ok current, s1)
    → completely V M (still_has_access target current) s1 ≡ (ok tt, s')
    → (l : String) → elem l (up_to target offer_levels) ≡ true
    → V.allowed (V.tuples s') [] (user_tuple u offer l) ≡ false
unfolding get_application_offer_access levels
rechecked V C up M access target u offer current s s1 s' valid word some_level read last l m =
    let holds = λ (x : String). V.allowed (V.tuples s) [] (user_tuple u offer x) in
    let (not_there, same) = completely_not V M (still_has_access target current) s1 s' last in
    let found : ok current ≡ ok (highest holds offer_levels) =
      ap (λ r. r.0) (sym read) ∙ levels-highest V C u offer up [] valid offer_levels s in
    let level : current ≡ highest holds offer_levels = ground (arith, found) in
    let kept : V.tuples s' ≡ V.tuples s =
      ap V.tuples (sym same)
      ∙ ap (λ r. V.tuples r.1) (sym read)
      ∙ levels_keeps V C u offer offer_levels s in
    ap (λ ts. V.allowed ts [] (user_tuple u offer l)) kept
    ∙ still_has_access_not holds access target word some_level
        (ap (still_has_access target) (sym level) ∙ not_there) l m

module _ (V : Server) (C : CheckLaws V) (up : Available V) (M : Manager V) (user : User)
    (url target_name access target : String) (s s' : V.State)
    (word : to_offer_relation access ≡ ok target) (some_level : target ≢ no_relation) where
  -- For a word that names a level on offers and no failing check: when RevokeOfferAccess reports
  -- success, the authorization model grants the target user neither that level on the offer nor a
  -- higher one, by whatever stored tuples.
  pub revoke_offer_complete :
      revoke_offer_access V M user url target_name access s ≡ (ok tt, s')
      → (identity : String) × (offer : JujuTag) × (s1 : V.State) × (s2 : V.State) × (M.new_identity
            target_name
          ≡ ok identity)
        × (M.get_application_offer url s1 ≡ (ok offer, s2))
        × ((l : String)
            → elem l (up_to target offer_levels) ≡ true
            → V.allowed (V.tuples s') [] (user_tuple (new_user identity) offer l) ≡ false)
  unfolding revoke_offer_access contextual_tuples
  revoke_offer_complete done =
      let (identity, s1, e1, r1) = >>=-eq-ok (lift (M.new_identity target_name)) _ s s' tt done in
      let (offer, s2, e2, r2) = >>=-eq-ok (M.get_application_offer url) _ s1 s' tt r1 in
      let (admin, s3, e3, r3) = >>=-eq-ok (is_administrator V user offer) _ s2 s' tt r2 in
      let (u4, s4, e4, r4) = >>=-eq-ok (require V admin) _ s3 s' tt r3 in
      let (t, s5, e5, r5) = >>=-eq-ok (lift (to_offer_relation access)) _ s4 s' tt r4 in
      let (u6, s6, e6, r6) =
        >>=-eq-ok
          (wrapping V "failed to unset given access" (unset_access V (new_user identity) offer t)) _
          s5 s' tt r5 in
      let (current, s7, e7, r7) =
        >>=-eq-ok (get_application_offer_access V (new_user identity) offer) _ s6 s' tt r6 in
      let same : t ≡ target = ground (arith, ap (λ r. r.0) e5, word) in
      (
        identity,
        offer,
        s1,
        s2,
        ap (λ r. r.0) e1,
        e2,
        rechecked V C up M access target (new_user identity) offer current s6 s7 s' refl word
            some_level e7
            (ap (λ x. completely V M (still_has_access x current) s7) (sym same) ∙ r7),
      )
