-- ===== src/Access/Words.antt =====
-- The words for levels of access in internal/jimm/permissions/access.go, and their relations.
use jimm.Prelude.{String, ◌==◌, string_eq, if◌then◌else◌}
use jimm.Errors.{plain, Result, ok, err}
use jimm.Ofga.Names.{
  administrator_relation, writer_relation, reader_relation, consumer_relation,
  can_addmodel_relation, no_relation,
}

unfoldable pub to_offer_access_string : String → String
to_offer_access_string relation =
    if relation == administrator_relation
    then "admin"
    else if relation == consumer_relation
    then "consume"
    else if relation == reader_relation
    then "read"
    else ""

unfoldable pub to_cloud_access_string : String → String
to_cloud_access_string relation =
    if relation == administrator_relation
    then "admin"
    else if relation == can_addmodel_relation
    then "add-model"
    else ""

unfoldable pub to_model_access_string : String → String
to_model_access_string relation =
    if relation == administrator_relation
    then "admin"
    else if relation == writer_relation
    then "write"
    else if relation == reader_relation
    then "read"
    else ""

unfoldable pub to_controller_access_string : String → String
to_controller_access_string relation =
    if relation == administrator_relation then "superuser" else "login"

unfoldable pub to_controller_relation : String → Result String
to_controller_relation access =
    if access == "superuser"
    then ok administrator_relation
    else err (plain "unknown controller access")

unfoldable pub to_cloud_relation : String → Result String
to_cloud_relation access =
    if access == "admin"
    then ok administrator_relation
    else if access == "add-model"
    then ok can_addmodel_relation
    else err (plain "unknown cloud access")

unfoldable pub to_model_relation : String → Result String
to_model_relation access =
    if access == "admin"
    then ok administrator_relation
    else if access == "write"
    then ok writer_relation
    else if access == "read"
    then ok reader_relation
    else err (plain "unknown model access")

unfoldable pub to_offer_relation : String → Result String
to_offer_relation access =
    if access == ""
    then ok no_relation
    else if access == "admin"
    then ok administrator_relation
    else if access == "consume"
    then ok consumer_relation
    else if access == "read"
    then ok reader_relation
    else err (plain "unknown application offer access")

unfoldable pub determine_access_level_after_grant : String → String → String
determine_access_level_after_grant current grant =
    if current == "admin"
    then "admin"
    else if current == "consume"
    then (if grant == "admin" then "admin" else "consume")
    else if current == "read"
    then (if grant == "admin" then "admin" else if grant == "consume" then "consume" else "read")
    else grant
