-- ===== src/OfferAuthorizer/Tests.antt =====
-- A local user who is known outside by the mapping of a migrated model.
use jimm.Prelude.{refl, none, List, [], ◌∷◌, ◌==◌, string_eq, if◌then◌else◌}
use jimm.Errors.{plain, ok, err}
use jimm.Exec.{pure, lift}
use jimm.Ofga.Names.{JujuTag, convert_tag, user_kind, consumer_relation}
use jimm.Ofga.Tuples.{Tuple}
use jimm.Ofga.Memory.{memory, memory_checks}
use jimm.User.{new_user, user_tuple, contextual_tuples, user_check, set_idp_groups}
use jimm.OfferAuthorizer.{OfferStore, is_user_consumer_for_offer}
use jimm.OfferAuthorizer.Sound.{OfferStoreLaws, Consumer, is_user_consumer_sound}

abbrev offer : JujuTag
offer = record { kind = "applicationoffer"; id = "o1" }

abbrev bob : JujuTag
bob = record { kind = user_kind; id = "bob" }

abbrev database : OfferStore memory
database = record {
  get_application_offer = λ o. pure "m1";
  get_user_mapping = λ model local_user.
      lift (if model == "m1" then ok "bob@canonical.com" else err (plain "no mapping"));
  new_identity = λ name. ok name;
  idp_group_fetcher = none;
  is_local = λ u. u.id == "bob";
}

database_laws : OfferStoreLaws memory database
database_laws = record {
  offer_keeps = λ o s. refl;
  mapping_keeps = λ m u s. refl;
  fetch_keeps = λ f i s e. absurd (cc e);
}

abbrev store : List Tuple
store = user_tuple (new_user "bob@canonical.com") offer consumer_relation ∷ []

is_user_consumer_sound_example :
    Consumer memory memory_checks database database_laws bob offer store
unfolding is_user_consumer_for_offer user_check contextual_tuples convert_tag set_idp_groups
is_user_consumer_sound_example =
    is_user_consumer_sound memory memory_checks database database_laws bob offer store store refl
