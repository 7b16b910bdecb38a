-- ===== src/Managers/Groups.antt =====
-- internal/jimm/group/group.go: GroupManager over the database and the authorization service.
use jimm.Prelude.{ℕ, String, List}
use jimm.Exec.{Exec, pure, ◌>>=◌, ◌>>◌}
use jimm.Ofga.Names.{JujuTag, group_kind}
use jimm.Ofga.Server.{Server}
use jimm.Ofga.Client.{remove_group as remove_group_tuples}
use jimm.User.{User}
use jimm.Pagination.{LimitOffsetPagination}
use jimm.Managers.{for_admin}

-- dbmodel.GroupEntry; an empty field is not looked for.
pub record GroupEntry : Type 0 where
  pub uuid : String
  pub name : String

-- GroupEntry.ResourceTag
abbrev pub group_tag : GroupEntry → JujuTag
group_tag g = record { kind = group_kind; id = g.uuid }

-- The queries of db.Database on groups
pub record GroupDatabase (V : Server) : Type 0 where
  pub add_group : String → Exec V.State GroupEntry
  pub count_groups : Exec V.State ℕ
  -- fills in the entry
  pub get_group : GroupEntry → Exec V.State GroupEntry
  pub update_group_name : String → String → Exec V.State (Unit {0})
  pub remove_group : GroupEntry → Exec V.State (Unit {0})
  pub list_groups : ℕ → ℕ → String → Exec V.State (List GroupEntry)

-- Transaction hands its body a database of its own; the entry that the body has filled in comes back.
pub record GroupManager (V : Server) : Type 0 where
  pub store : GroupDatabase V
  pub transaction : (GroupDatabase V → Exec V.State GroupEntry) → Exec V.State GroupEntry

module _ (V : Server) (M : GroupManager V) where
  unfoldable pub add_group : User → String → Exec V.State GroupEntry
  unfolding for_admin
  add_group user name = for_admin user (M.store.add_group name)

  unfoldable pub count_groups : User → Exec V.State ℕ
  unfolding for_admin
  count_groups user = for_admin user M.store.count_groups

  unfoldable pub get_group : User → GroupEntry → Exec V.State GroupEntry
  unfolding for_admin
  get_group user group = for_admin user (M.store.get_group group)

  unfoldable pub get_group_by_uuid : User → String → Exec V.State GroupEntry
  unfolding get_group
  get_group_by_uuid user uuid = get_group user (record { uuid = uuid; name = "" })

  unfoldable pub get_group_by_name : User → String → Exec V.State GroupEntry
  unfolding get_group
  get_group_by_name user name = get_group user (record { uuid = ""; name = name })

  -- the body of RenameGroup's transaction
  abbrev rename : String → String → GroupDatabase V → Exec V.State GroupEntry
  rename old_name new_name d = do
    group ← d.get_group (record { uuid = ""; name = old_name })
    d.update_group_name group.uuid new_name
    pure group

  unfoldable pub rename_group : User → String → String → Exec V.State (Unit {0})
  unfolding for_admin
  rename_group user old_name new_name =
      for_admin user (M.transaction (rename old_name new_name) >>= λ group. pure tt)

  -- The body of RemoveGroup's transaction: it works on the manager's store, not on its own database.
  abbrev pub drop_group : String → GroupDatabase V → Exec V.State GroupEntry
  drop_group name d = do
    group ← M.store.get_group (record { uuid = ""; name = name })
    M.store.remove_group group
    pure group

  unfoldable pub remove_group : ℕ → User → String → Exec V.State (Unit {0})
  unfolding for_admin
  remove_group fuel user name =
      for_admin user
        (M.transaction (drop_group name) >>= λ group. remove_group_tuples V fuel (group_tag group))

  unfoldable pub list_groups :
      User → LimitOffsetPagination → String → Exec V.State (List GroupEntry)
  unfolding for_admin
  list_groups user pagination match =
      for_admin user (M.store.list_groups pagination.limit pagination.offset match)
