-- ===== src/User/Tests.antt =====
-- The theorems on levels of access and their removal, at stores in memory.
use jimm.Prelude.{◌≡◌, refl, inl, true, String, List, [], ◌∷◌, arith, map}
use jimm.Errors.{ok}
use jimm.Ofga.Names.{JujuTag, convert_tag, administrator_relation, writer_relation, reader_relation}
use jimm.Ofga.Tuples.{Tuple}
use jimm.Ofga.Memory.{memory, memory_reads, memory_writes, memory_checks}
use jimm.User.{
  User, new_user, user_tuple, contextual_tuples, user_check, get_model_access, get_cloud_access,
  get_controller_access, get_application_offer_access, unset_accesses,
}
use jimm.User.Levels.{
  Available, highest, model_levels, offer_levels, cloud_levels, access_sound, access_highest,
}
use jimm.User.Unset.{Unset, unset_accesses_exact}

abbrev bob : User
bob = new_user "bob@canonical.com"

abbrev model : JujuTag
model = record { kind = "model"; id = "m1" }

abbrev store : List Tuple
store = user_tuple bob model writer_relation ∷ user_tuple bob model reader_relation ∷ []

bob_writes : get_model_access memory bob model store ≡ (ok writer_relation, store)
unfolding get_model_access user_check contextual_tuples convert_tag
bob_writes = refl

access_sound_example :
    (ctx : List Tuple) × (contextual_tuples bob ≡ ok ctx)
    × (memory.allowed store ctx (user_tuple bob model writer_relation) ≡ true)
access_sound_example =
    access_sound memory memory_checks bob model store store writer_relation (inl bob_writes)
      (λ z. cc)

memory_up : Available memory
memory_up = record { answers = λ t ctx s. refl }

bob_valid : contextual_tuples bob ≡ ok []
unfolding contextual_tuples
bob_valid = refl

access_highest_example :
    let held = λ (l : String). memory.allowed store [] (user_tuple bob model l) in
    ((get_model_access memory bob model store).0 ≡ ok (highest held model_levels))
    × ((get_application_offer_access memory bob model store).0 ≡ ok (highest held offer_levels))
    × ((get_cloud_access memory bob model store).0 ≡ ok (highest held cloud_levels))
    × ((get_controller_access memory bob model store).0
        ≡ ok (highest held (administrator_relation ∷ [])))
access_highest_example = access_highest memory memory_checks bob model store [] memory_up bob_valid

unset_accesses_exact_example :
    Unset memory
      (map (user_tuple bob model) (writer_relation ∷ administrator_relation ∷ []))
      store
      (unset_accesses memory 4 bob model (writer_relation ∷ administrator_relation ∷ []) store)
unset_accesses_exact_example =
    unset_accesses_exact memory memory_reads memory_writes 4 bob model
      (writer_relation ∷ administrator_relation ∷ []) store (omega arith)
