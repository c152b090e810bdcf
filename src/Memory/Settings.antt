-- ===== src/Memory/Settings.antt =====
-- AppSettingRepository of memory/store.go: versioned settings.
pub mod Optimistic
use account_manager.Prelude.{
  ok, err, Result, Ctx, live, live_on, found, not_found, invalid, conflict, ℤ, pos, is_negative,
  eq_ℤ, inc64, Option, none, some, Bool, true, false, ◌||◌, not, Text, lookup, insert, trim_space,
  is_empty, if◌then◌else◌,
}
use account_manager.Domain.{AppSetting, Bytes}
use account_manager.Memory.{Store}

-- Store.GetAppSetting
unfoldable pub get_app_setting : Ctx → Text → Store → Result AppSetting
get_app_setting ctx key s = live ctx (found (lookup (trim_space key) s.app_settings))

-- the part under the lock, for the setting with its trimmed key
unfoldable pub save_current : Option AppSetting → AppSetting → ℤ → Store → Result (Unit {0}) × Store
save_current none setting expected s =
    if not (eq_ℤ expected (pos 0))
    then (err not_found, s)
    else let saved = record setting { version = pos 1 } in
      (ok tt, record s { app_settings = insert setting.key saved s.app_settings })
save_current (some current) setting expected s =
    if not (eq_ℤ current.version expected)
    then (err conflict, s)
    else let saved = record setting { version = inc64 current.version } in
      (ok tt, record s { app_settings = insert setting.key saved s.app_settings })

-- `json_valid` is json.Valid
module _ (json_valid : Bytes → Bool) where
  -- Store.SaveAppSetting
  unfoldable pub save_app_setting : Ctx → AppSetting → ℤ → Store → Result (Unit {0}) × Store
  unfolding save_current
  save_app_setting ctx given expected s =
      let setting = record given { key = trim_space given.key } in
      live_on ctx s (
        if is_empty setting.key || not (json_valid setting.value) || is_negative expected
        then (err invalid, s)
        else save_current (lookup setting.key s.app_settings) setting expected s)
