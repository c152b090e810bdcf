-- ===== src/Memory/BackupTargets.antt =====
-- The backup targets of memory/store.go: unique names, versioned.
use account_manager.Prelude.{
  ok, err, Result, Ctx, live, live_on, found, conflict, not_found, ℤ, pos, eq_ℤ, inc64, Bool, false,
  ◌||◌, ◌&&◌, Option, none, some, [], ◌∷◌, not, Text, text_eq, text_ltb, List, Map, any_value,
  lookup, has, insert, values, sort_by, if◌then◌else◌,
}
use account_manager.Domain.{BackupTarget}
use account_manager.Ports.{ListOptions, paginate}
use account_manager.Memory.{Store}

-- Store.CreateBackupTarget
unfoldable pub create_backup_target : Ctx → BackupTarget → Store → Result (Unit {0}) × Store
create_backup_target ctx target s = live_on ctx s (
    if has target.id s.backup_targets
    then (err conflict, s)
    else if any_value (λ existing. text_eq existing.name target.name) s.backup_targets
    then (err conflict, s)
    else let saved = record target { version = pos 1 } in
      (ok tt, record s { backup_targets = insert target.id saved s.backup_targets }))

-- Store.GetBackupTarget
unfoldable pub get_backup_target : Ctx → Text → Store → Result BackupTarget
get_backup_target ctx id s = live ctx (found (lookup id s.backup_targets))

-- the order of Store.ListBackupTargets
unfoldable pub sorted_targets : Store → List BackupTarget
sorted_targets s = sort_by (λ a b. text_ltb a.id b.id) (values s.backup_targets)

-- Store.ListBackupTargets
unfoldable pub list_backup_targets : Ctx → ListOptions → Store → Result (List BackupTarget)
list_backup_targets ctx options s = live ctx (ok (paginate (sorted_targets s) options))

-- the loop of UpdateBackupTarget over the other targets
unfoldable pub name_taken : Text → Text → Map BackupTarget → Bool
name_taken id name [] = false
name_taken id name ((key, existing) ∷ m) =
    (not (text_eq key id) && text_eq existing.name name) || name_taken id name m

unfoldable pub update_over :
    Option BackupTarget → BackupTarget → ℤ → Store → Result (Unit {0}) × Store
unfolding name_taken
update_over none target expected s = (err not_found, s)
update_over (some current) target expected s =
    if not (eq_ℤ current.version expected)
    then (err conflict, s)
    else if name_taken target.id target.name s.backup_targets
    then (err conflict, s)
    else let saved = record target {
      version = inc64 current.version;
      created_at = current.created_at;
    } in
      (ok tt, record s { backup_targets = insert target.id saved s.backup_targets })

-- Store.UpdateBackupTarget
unfoldable pub update_backup_target : Ctx → BackupTarget → ℤ → Store → Result (Unit {0}) × Store
unfolding update_over
update_backup_target ctx target expected s =
    live_on ctx s (update_over (lookup target.id s.backup_targets) target expected s)
