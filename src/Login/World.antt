-- ===== src/Login/World.antt =====
-- A login manager over the database of one identity, for the tests.
use jimm.Prelude.{refl, true, false, string_eq}
use jimm.Ofga.Names.{JujuTag}
use jimm.Ofga.Server.{CheckLaws}
use jimm.Ofga.Memory.{memory, memory_checks}
use jimm.Ofga.Memory.Beside.{beside_checks}
use jimm.Auth.World.{World, site, database, libraries, service, row_loaded}
use jimm.Login.{UserNames, LoginManager}
use jimm.Login.Service.{StoreLaws, manager}

abbrev pub names : UserNames
names = record {
  has_suffix = λ id suffix. false;
  is_valid_user = λ id. true;
  domain = λ id. "serviceaccount";
}

abbrev pub jimm_tag : JujuTag
jimm_tag = record { kind = "controller"; id = "jimm" }

pub checks : CheckLaws site
checks = beside_checks memory World memory_checks

pub laws : StoreLaws site database libraries
laws = record {
  client_keeps = λ id secret s. refl;
  get_keeps = λ u s. refl;
  update_keeps = λ u s. refl;
  now_keeps = λ s. refl;
  named = λ u row s e. (row_loaded u row s s (λ i. (e i, s))).0;
}

abbrev pub site_manager : LoginManager site
site_manager = manager site database libraries service jimm_tag names
