-- ===== src/Services/TokenRefresh.antt =====
-- backend/internal/service/token_refresh_settings.go, over the memory store's settings.
pub mod RoundTrip
use account_manager.Prelude.{
  ok, err, Result, ◌>>=◌, Ctx, invalid, is_not_found, ℤ, pos, negsuc, is_negative, inc64, ltb, Bool,
  true, ◌||◌, not, Option, none, some, Text, trim_space, starts_with, codes, if◌then◌else◌,
}
use account_manager.Domain.{AppSetting, Bytes, Time}
use account_manager.Memory.{Store, app_setting_key_token_refresh}
use account_manager.Memory.Settings.{get_app_setting, save_app_setting}

pub record TokenRefreshSettings : Type 0 where
  pub enabled : Bool
  pub lead_time_minutes : ℤ
  pub version : ℤ
  pub updated_at : Time

pub record UpdateTokenRefreshSettingsInput : Type 0 where
  pub enabled : Bool
  pub lead_time_minutes : ℤ
  pub version : ℤ

-- What the service takes from Go: json.Valid, json.Marshal of the two fields, json.Unmarshal over
-- settings that are there already, and the code points of a byte slice as a string.
pub record Json : Type 0 where
  pub valid : Bytes → Bool
  pub encode : Bool → ℤ → Bytes
  pub decode : Bytes → TokenRefreshSettings → Option TokenRefreshSettings
  pub text : Bytes → Text

abbrev pub default_token_refresh_settings : TokenRefreshSettings
default_token_refresh_settings = record {
  enabled = true;
  lead_time_minutes = pos 5;
  version = pos 0;
  updated_at = 0;
}

-- validateTokenRefreshLeadTime
unfoldable pub validate_token_refresh_lead_time : ℤ → Result (Unit {0})
validate_token_refresh_lead_time (negsuc n) = err invalid
validate_token_refresh_lead_time (pos n) = if ltb n 1 || ltb 30 n then err invalid else ok tt

-- the part of Get after the decoding
unfoldable pub with_decoded : Option TokenRefreshSettings → AppSetting → Result TokenRefreshSettings
with_decoded none setting = err invalid
with_decoded (some settings) setting = do
  _ ← validate_token_refresh_lead_time settings.lead_time_minutes
  ok (record settings { version = setting.version; updated_at = setting.updated_at })

-- the part of Get after the repository's answer
unfoldable pub read_setting : Json → Result AppSetting → Result TokenRefreshSettings
unfolding with_decoded
read_setting json (err e) = if is_not_found e then ok default_token_refresh_settings else err e
read_setting json (ok setting) =
    if not (starts_with (codes "{") (trim_space (json.text setting.value)))
    then err invalid
    else with_decoded (json.decode setting.value default_token_refresh_settings) setting

-- TokenRefreshSettingsService.Get
unfoldable pub get_token_refresh_settings : Json → Ctx → Store → Result TokenRefreshSettings
unfolding read_setting
get_token_refresh_settings json ctx s =
    read_setting json (get_app_setting ctx app_setting_key_token_refresh s)

-- the part of Update after the save
unfoldable pub saved_result :
    Result (Unit {0}) × Store
    → UpdateTokenRefreshSettingsInput
    → Time
    → Result TokenRefreshSettings × Store
saved_result (err e, s) input now = (err e, s)
saved_result (ok u, s) input now = (
  ok (record {
    enabled = input.enabled;
    lead_time_minutes = input.lead_time_minutes;
    version = inc64 input.version;
    updated_at = now;
  }),
  s,
)

abbrev pub new_setting : Json → UpdateTokenRefreshSettingsInput → Time → AppSetting
new_setting json input now = record {
  key = app_setting_key_token_refresh;
  value = json.encode input.enabled input.lead_time_minutes;
  version = inc64 input.version;
  updated_at = now;
}

unfoldable pub update_validated :
    Result (Unit {0})
    → Json
    → Ctx
    → UpdateTokenRefreshSettingsInput
    → Time
    → Store
    → Result TokenRefreshSettings × Store
unfolding saved_result
update_validated (err e) json ctx input now s = (err e, s)
update_validated (ok u) json ctx input now s =
    saved_result (save_app_setting json.valid ctx (new_setting json input now) input.version s)
      input now

-- TokenRefreshSettingsService.Update at the time `now`. The encoding of a Boolean and an int does not
-- fail.
unfoldable pub update_token_refresh_settings :
    Json
    → Ctx
    → UpdateTokenRefreshSettingsInput
    → Time
    → Store
    → Result TokenRefreshSettings × Store
unfolding update_validated
update_token_refresh_settings json ctx input now s =
    if is_negative input.version
    then (err invalid, s)
    else update_validated (validate_token_refresh_lead_time input.lead_time_minutes) json ctx input
        now s
