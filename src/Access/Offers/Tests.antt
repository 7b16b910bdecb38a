-- ===== src/Access/Offers/Tests.antt =====
-- RevokeOfferAccess on the server in memory.
use jimm.Prelude.{◌≡◌, refl, true, false, String, string_eq, List, [], ◌∷◌, elem, select}
use jimm.Errors.{ok}
use jimm.Exec.{pure}
use jimm.Ofga.Names.{JujuTag, convert_tag, administrator_relation, reader_relation}
use jimm.Ofga.Tuples.{Tuple, tuple_eq}
use jimm.Ofga.Memory.{memory, memory_checks}
use jimm.User.{
  User, new_user, user_tuple, contextual_tuples, user_check, get_application_offer_access,
  unset_access, wrapping,
}
use jimm.User.Levels.{Available, offer_levels}
use jimm.Access.{Manager}
use jimm.Access.Words.{to_offer_relation}
use jimm.Access.Effect.{up_to}
use jimm.Access.Offers.{revoke_offer_access, still_has_access}
use jimm.Access.Offers.Complete.{revoke_offer_complete}

abbrev offers : Manager memory
offers = record {
  jimm_tag = record { kind = "controller"; id = "jimm" };
  get_identity = λ name. pure tt;
  get_application_offer = λ url. pure (record { kind = "applicationoffer"; id = url });
  new_identity = λ name. ok name;
  fetch_groups = λ name. pure [];
}

memory_answers : Available memory
memory_answers = record { answers = λ t ctx s. refl }

abbrev offer : JujuTag
offer = record { kind = "applicationoffer"; id = "o1" }

abbrev alice : User
alice = new_user "alice@canonical.com"

abbrev bob : User
bob = new_user "bob@canonical.com"

abbrev store : List Tuple
store = user_tuple bob offer reader_relation ∷ user_tuple alice offer administrator_relation ∷ []

revoke_runs :
    revoke_offer_access memory offers alice "o1" "bob@canonical.com" "read" store
    ≡ (ok tt, user_tuple alice offer administrator_relation ∷ [])
unfolding revoke_offer_access user_check contextual_tuples convert_tag get_application_offer_access
    unset_access wrapping to_offer_relation still_has_access select
revoke_runs = refl

read_word : to_offer_relation "read" ≡ ok reader_relation
unfolding to_offer_relation
read_word = refl

revoke_offer_complete_example :
    (identity : String) × (o : JujuTag) × (s1 : List Tuple) × (s2 : List Tuple)
    × (offers.new_identity "bob@canonical.com" ≡ ok identity)
    × (offers.get_application_offer "o1" s1 ≡ (ok o, s2))
    × ((l : String)
        → elem l (up_to reader_relation offer_levels) ≡ true
        → memory.allowed
            (user_tuple alice offer administrator_relation ∷ [])
            []
            (user_tuple (new_user identity) o l)
          ≡ false)
revoke_offer_complete_example =
    revoke_offer_complete memory memory_checks memory_answers offers alice "o1" "bob@canonical.com"
      "read" reader_relation store (user_tuple alice offer administrator_relation ∷ []) read_word
      (λ z. cc) revoke_runs
