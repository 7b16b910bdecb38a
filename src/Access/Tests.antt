-- ===== src/Access/Tests.antt =====
-- Runs of the permission manager on the server in memory, and the theorems at concrete stores.
use jimm.Prelude.{◌≡◌, refl, false, List, [], ◌∷◌, arith, elem-append, subst}
use jimm.Errors.{ok}
use jimm.Exec.{pure}
use jimm.Ofga.Names.{JujuTag, convert_tag, administrator_relation, writer_relation}
use jimm.Ofga.Tuples.{Tuple, tuple_eq}
use jimm.Ofga.Memory.{memory, memory_reads, memory_writes, memory_checks}
use jimm.User.{User, new_user, user_tuple, contextual_tuples}
use jimm.User.Levels.{Available, model_levels, cloud_levels}
use jimm.Access.{
  Manager, grant_model_access, revoke_model_access, grant_cloud_access, revoke_cloud_access,
}
use jimm.Access.Words.{to_model_relation, to_cloud_relation}
use jimm.Access.Effect.{ManagerLaws, Hierarchy, Revoked, Granted, up_to}
use jimm.Access.Guard.{Denied, access-Denied}
use jimm.Access.Grants.{grant_model_exact, grant_cloud_exact}
use jimm.Access.Revocations.{revoke_model_exact, revoke_cloud_exact}

abbrev manager : Manager memory
manager = record {
  jimm_tag = record { kind = "controller"; id = "jimm" };
  get_identity = λ name. pure tt;
  get_application_offer = λ url. pure (record { kind = "applicationoffer"; id = url });
  new_identity = λ name. ok name;
  fetch_groups = λ name. pure [];
}

manager_laws : ManagerLaws memory manager
manager_laws = record { identity_keeps = λ n s. refl; identity_ends = λ n s. λ z. cc }

memory_up : Available memory
memory_up = record { answers = λ t ctx s. refl }

memory-Hierarchy : Hierarchy memory
memory-Hierarchy = record {
  writers_read =
      λ st ctx u m h. ground (arith, h, elem-append (user_tuple u m writer_relation) st ctx);
  admins_write =
      λ st ctx u m h. ground (arith, h, elem-append (user_tuple u m administrator_relation) st ctx);
  admins_add_models =
      λ st ctx u m h. ground (arith, h, elem-append (user_tuple u m administrator_relation) st ctx);
}

abbrev cloud : JujuTag
cloud = record { kind = "cloud"; id = "aws" }

abbrev model : JujuTag
model = record { kind = "model"; id = "m1" }

abbrev alice : User
alice = new_user "alice@canonical.com"

abbrev store : List Tuple
store =
    user_tuple alice model administrator_relation
    ∷ user_tuple alice cloud administrator_relation
    ∷ user_tuple (new_user "bob@canonical.com") model writer_relation
    ∷ user_tuple (new_user "bob@canonical.com") cloud administrator_relation
    ∷ []

revoke_model_exact_example :
    Revoked memory
      (new_user "bob@canonical.com")
      model
      (up_to writer_relation model_levels)
      store
      (revoke_model_access memory manager 8 alice model "bob@canonical.com" "write" store)
unfolding to_model_relation
revoke_model_exact_example =
    revoke_model_exact memory memory_reads memory_writes memory_checks memory_up manager
      manager_laws 8 alice model "bob@canonical.com" store (omega arith) "write" writer_relation
      refl

revoke_cloud_exact_example :
    Revoked memory
      (new_user "bob@canonical.com")
      cloud
      (up_to administrator_relation cloud_levels)
      store
      (revoke_cloud_access memory manager 8 alice cloud "bob@canonical.com" "admin" store)
unfolding to_cloud_relation
revoke_cloud_exact_example =
    revoke_cloud_exact memory memory_reads memory_writes memory_checks memory_up manager
      manager_laws 8 alice cloud "bob@canonical.com" store (omega arith) "admin"
      administrator_relation refl

grant_model_exact_example :
    Granted memory
      (new_user "bob@canonical.com")
      model
      administrator_relation
      store
      (grant_model_access memory manager alice model "bob@canonical.com" "admin" store)
unfolding to_model_relation
grant_model_exact_example =
    grant_model_exact memory memory_writes memory_checks memory-Hierarchy memory_up manager
      manager_laws alice model "bob@canonical.com" store "admin" administrator_relation refl

grant_cloud_exact_example :
    Granted memory
      (new_user "carol@canonical.com")
      cloud
      administrator_relation
      store
      (grant_cloud_access memory manager alice cloud "carol@canonical.com" "admin" store)
unfolding to_cloud_relation
grant_cloud_exact_example =
    grant_cloud_exact memory memory_writes memory_checks memory-Hierarchy memory_up manager
      manager_laws alice cloud "carol@canonical.com" store "admin" administrator_relation refl

abbrev mallory : User
mallory = new_user "mallory@canonical.com"

mallory_stranger :
    (ctx : List Tuple)
    → contextual_tuples mallory ≡ ok ctx
    → memory.allowed store ctx (user_tuple mallory model administrator_relation) ≡ false
unfolding contextual_tuples convert_tag
mallory_stranger ctx e =
    let none_given : [] ≡ ctx = ground (arith, e) in
    subst (λ c. memory.allowed store c (user_tuple mallory model administrator_relation) ≡ false)
      none_given refl

access-Denied_example :
    Denied memory store
      (grant_cloud_access memory manager mallory model "bob@canonical.com" "admin" store)
    × Denied memory store
        (revoke_cloud_access memory manager 8 mallory model "bob@canonical.com" "admin" store)
    × Denied memory store
        (grant_model_access memory manager mallory model "bob@canonical.com" "admin" store)
    × Denied memory store
        (revoke_model_access memory manager 8 mallory model "bob@canonical.com" "admin" store)
access-Denied_example =
    access-Denied memory memory_checks mallory model store mallory_stranger manager 8
      "bob@canonical.com" "admin"
