-- ===== src/Services/TokenRefresh/RoundTrip.antt =====
-- Settings that were updated are read back.
use account_manager.Prelude.{
  ◌≡◌, refl, ap, inl, inr, ok, err, Result, err-ne-ok, ok-injective, ℤ, inc64, is_negative, Bool,
  Bool-cases, true, none, some, trim_space, starts_with, codes,
}
use account_manager.Domain.{Time}
use account_manager.Memory.{Store, app_setting_key_token_refresh}
use account_manager.Memory.Settings.{get_app_setting, save_app_setting}
use account_manager.Memory.Settings.Optimistic.{save_app_setting-once}
use account_manager.Services.TokenRefresh.{
  TokenRefreshSettings, UpdateTokenRefreshSettingsInput, Json, default_token_refresh_settings,
  validate_token_refresh_lead_time, with_decoded, read_setting, get_token_refresh_settings,
  saved_result, new_setting, update_validated, update_token_refresh_settings,
}

-- What encoding/json documents of the encoding of an object: it is read back over any settings, and its
-- text starts with a brace.
pub record IsObjectCodec (json : Json) : Type 0 where
  pub decodes :
      (e : Bool) (l : ℤ) (d : TokenRefreshSettings)
      → json.decode (json.encode e l) d ≡ some (record d { enabled = e; lead_time_minutes = l })
  pub opens :
      (e : Bool) (l : ℤ) → starts_with (codes "{") (trim_space (json.text (json.encode e l))) ≡ true

key_trimmed : trim_space app_setting_key_token_refresh ≡ app_setting_key_token_refresh
unfolding trim_space
key_trimmed = refl

abbrev settings_of : UpdateTokenRefreshSettingsInput → Time → TokenRefreshSettings
settings_of input now = record {
  enabled = input.enabled;
  lead_time_minutes = input.lead_time_minutes;
  version = inc64 input.version;
  updated_at = now;
}

read_setting-new_setting :
    (json : Json) (input : UpdateTokenRefreshSettingsInput) (now : Time)
    → IsObjectCodec json
    → validate_token_refresh_lead_time input.lead_time_minutes ≡ ok tt
    → read_setting json (ok (new_setting json input now)) ≡ ok (settings_of input now)
unfolding read_setting with_decoded
read_setting-new_setting json input now c valid =
    rw
      (
        c.opens input.enabled input.lead_time_minutes,
        c.decodes input.enabled input.lead_time_minutes default_token_refresh_settings,
        valid,
      )
      refl

saved-get :
    (json : Json) (input : UpdateTokenRefreshSettingsInput) (now : Time) (s : Store)
    (u : Result (Unit {0}) × Store) (r : TokenRefreshSettings)
    → IsObjectCodec json
    → validate_token_refresh_lead_time input.lead_time_minutes ≡ ok tt
    → save_app_setting json.valid none (new_setting json input now) input.version s ≡ u
    → (saved_result u input now).0 ≡ ok r
    → get_token_refresh_settings json none (saved_result u input now).1 ≡ ok r
unfolding saved_result
saved-get json input now s (err e, s') r c valid saved done = absurd (err-ne-ok done)
saved-get json input now s (ok u, s') r c valid saved done =
    let once =
      save_app_setting-once json.valid (new_setting json input now) (new_setting json input now)
        input.version s (ap (λ x. x.0) saved) refl in
    let stored : get_app_setting none app_setting_key_token_refresh s'
        ≡ ok (record (new_setting json input now) { version = inc64 input.version }) =
      rw (saved, key_trimmed) at once.0 in
    unfold get_token_refresh_settings in
    rw (stored, ← ok-injective done) (read_setting-new_setting json input now c valid)

validate-eq-ok :
    (r : Result (Unit {0})) (json : Json) (input : UpdateTokenRefreshSettingsInput) (now : Time)
    (s : Store) (x : TokenRefreshSettings)
    → IsObjectCodec json
    → validate_token_refresh_lead_time input.lead_time_minutes ≡ r
    → (update_validated r json none input now s).0 ≡ ok x
    → get_token_refresh_settings json none (update_validated r json none input now s).1 ≡ ok x
unfolding update_validated
validate-eq-ok (err e) json input now s x c valid done = absurd (err-ne-ok done)
validate-eq-ok (ok u) json input now s x c valid done =
    saved-get json input now s
      (save_app_setting json.valid none (new_setting json input now) input.version s) x c valid refl
      done

-- With an encoding of objects as encoding/json documents it, the settings that a successful update
-- returns are the settings that are read next, the version included.
pub update_token_refresh_settings-get :
    (json : Json) (input : UpdateTokenRefreshSettingsInput) (now : Time) (s : Store)
    (r : TokenRefreshSettings)
    → IsObjectCodec json
    → (update_token_refresh_settings json none input now s).0 ≡ ok r
    → get_token_refresh_settings json none (update_token_refresh_settings json none input now s).1
      ≡ ok r
unfolding update_token_refresh_settings
update_token_refresh_settings-get json input now s r c done =
    elim (Bool-cases (is_negative input.version)) [
      | inl below ↦ absurd (err-ne-ok (rw below at done))
      | inr above ↦ rw above (
          validate-eq-ok (validate_token_refresh_lead_time input.lead_time_minutes) json input now s
            r c refl (rw above at done))
    ]
