-- ===== src/Tests/Services.antt =====
-- Tests of the services.
use account_manager.Prelude.{
  arith, ◌-◌, zero, suc, ◌≡◌, refl, ok, Option, none, some, true, false, pos, negsuc, codes, Bool,
  ℤ, ℕ, [], ◌∷◌, lookup, insert, text_eq, trim_space, starts_with, inc64,
}
use account_manager.Domain.{Bytes}
use account_manager.Memory.{new, setting_at}
use account_manager.Memory.Settings.{save_app_setting, save_current}
use account_manager.Memory.Messages.Cleanup.{cleanup_cached_messages}
use account_manager.Services.CleanupWorker.{MessageCacheCleanupWorker, Cleaned, run_once}
use account_manager.Services.CleanupWorker.Batches.{run_once-large_batch}
use account_manager.Services.TokenRefresh.{
  TokenRefreshSettings, UpdateTokenRefreshSettingsInput, Json, validate_token_refresh_lead_time,
  update_validated, saved_result, get_token_refresh_settings, update_token_refresh_settings,
}
use account_manager.Services.TokenRefresh.RoundTrip.{
  IsObjectCodec, update_token_refresh_settings-get,
}

abbrev flag : Bool → ℕ
flag true = 1
flag false = 0

-- The two fields between braces.
abbrev written : Bool → ℤ → Bytes
written e (pos n) = b'{' ∷ flag e ∷ 0 ∷ n ∷ b'}' ∷ []
written e (negsuc n) = b'{' ∷ flag e ∷ 1 ∷ n ∷ b'}' ∷ []

abbrev flag_of : ℕ → Bool
flag_of zero = false
flag_of (suc n) = true

abbrev number_of : ℕ → ℕ → ℤ
number_of zero n = pos n
number_of (suc s) n = negsuc n

abbrev read_back : Bytes → TokenRefreshSettings → Option TokenRefreshSettings
read_back (a ∷ f ∷ g ∷ n ∷ z ∷ []) d =
    some (record d { enabled = flag_of f; lead_time_minutes = number_of g n })
read_back _ d = none

abbrev braces : Json
braces = record { valid = λ _. true; encode = written; decode = read_back; text = λ b. b }

read_back-written :
    (e : Bool) (l : ℤ) (d : TokenRefreshSettings)
    → read_back (written e l) d ≡ some (record d { enabled = e; lead_time_minutes = l })
read_back-written true (pos n) d = refl
read_back-written false (pos n) d = refl
read_back-written true (negsuc n) d = refl
read_back-written false (negsuc n) d = refl

written_opens : (e : Bool) (l : ℤ) → starts_with (codes "{") (trim_space (written e l)) ≡ true
unfolding trim_space starts_with
written_opens true (pos n) = refl
written_opens false (pos n) = refl
written_opens true (negsuc n) = refl
written_opens false (negsuc n) = refl

braces-IsObjectCodec : IsObjectCodec braces
braces-IsObjectCodec = record { decodes = read_back-written; opens = written_opens }

abbrev input : UpdateTokenRefreshSettingsInput
input = record { enabled = true; lead_time_minutes = pos 7; version = pos 1 }

abbrev updated : TokenRefreshSettings
updated = record { enabled = true; lead_time_minutes = pos 7; version = pos 2; updated_at = 9 }

update_settings : (update_token_refresh_settings braces none input 9 (new 0)).0 ≡ ok updated
unfolding new setting_at lookup insert text_eq trim_space inc64 save_app_setting save_current
    validate_token_refresh_lead_time update_validated saved_result update_token_refresh_settings
update_settings = refl

update_token_refresh_settings-get_example :
    get_token_refresh_settings braces none
      (update_token_refresh_settings braces none input 9 (new 0)).1
    ≡ ok updated
update_token_refresh_settings-get_example =
    update_token_refresh_settings-get braces input 9 (new 0) updated braces-IsObjectCodec
      update_settings

abbrev worker : MessageCacheCleanupWorker
worker = record { retention = 5; max_per_folder = 5000; batch_size = 20000 }

run_once-large_batch_example :
    (c : Cleaned) × (run_once 1 worker (λ _. 50) (λ _. none) 0 0 (new 0)
      ≡ some (c, (cleanup_cached_messages none (50 - 5) (pos 5000) (pos 20000) (new 0)).1))
run_once-large_batch_example =
    run_once-large_batch 0 worker (λ _. 50) (λ _. none) (new 0) (omega arith)
