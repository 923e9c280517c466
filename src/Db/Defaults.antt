-- ===== src/Db/Defaults.antt =====
-- What a fresh database is filled with.
use mathlib.Core.Path.{subst}
use geo_ns_core.Common.{◌≡◌, refl, Bool, true, false, Option, none, some}
use geo_ns_core.Db.{
  Sqlite, db_exec, says_true, is_geons_configured, set_geons_settings_config_status,
  select_configured, insert_configured,
}

module _ {W Row : Type 0} (sqlite : Sqlite W Row) where
  -- What the row of the settings says once its insertion has been executed.
  abbrev pub Remembers : W → Type 0
  Remembers db =
      says_true sqlite (sqlite.query (db_exec sqlite db insert_configured).0 select_configured)
      ≡ some true

  set_cases :
      (db db' : W) (answer : Option Bool)
      → says_true sqlite (sqlite.query db select_configured) ≡ answer
      → set_geons_settings_config_status sqlite false db ≡ some db'
      → Remembers db
      → says_true sqlite (sqlite.query db' select_configured) ≡ some true
  unfolding set_geons_settings_config_status
  set_cases db db' none e h keeps = let k = rw e at h in absurd cc
  set_cases db db' (some true) e h keeps =
      let k = rw e at h in
      let same : db ≡ db' = cc in
      subst (λ d. says_true sqlite (sqlite.query d select_configured) ≡ some true) same e
  set_cases db db' (some false) e h keeps =
      let k = rw e at h in
      let same : (db_exec sqlite db insert_configured).0 ≡ db' = cc in
      subst (λ d. says_true sqlite (sqlite.query d select_configured) ≡ some true) same keeps

  -- When the settings keep an inserted row, the database counts as configured once the status has been
  -- set, and setting it again does nothing.
  set_geons_settings_config_status-is_geons_configured :
      (db db' : W)
      → Remembers db
      → set_geons_settings_config_status sqlite false db ≡ some db'
      → (is_geons_configured sqlite false db' ≡ some true)
        × (set_geons_settings_config_status sqlite false db' ≡ some db')
  set_geons_settings_config_status-is_geons_configured db db' keeps h =
      let e =
        set_cases db db' (says_true sqlite (sqlite.query db select_configured)) refl h keeps in
      (unfold is_geons_configured in e, unfold set_geons_settings_config_status in rw e refl)
