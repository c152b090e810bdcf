-- ===== src/Memory/Settings/Optimistic.antt =====
-- Optimistic locking of the application settings.
use account_manager.Prelude.{
  lookup-insert_self, ◌≡◌, refl, ap, none, some, false, inl, inr, ℤ, pos, eq_ℤ, eq_ℤ_iff, inc64,
  inc64-ne, is_negative, Bool, Bool-cases, not, ◌||◌, lookup, insert, ok, err, conflict, err-ne-ok,
  Option, trim_space, is_empty,
}
use account_manager.Domain.{AppSetting, Bytes}
use account_manager.Memory.{Store}
use account_manager.Memory.Settings.{save_current, save_app_setting, get_app_setting}

-- The first version is the one after 0.
inc_zero :
    (f : AppSetting) (s : Store)
    → record s { app_settings = insert f.key (record f { version = pos 1 }) s.app_settings }
      ≡ record s {
        app_settings = insert f.key (record f { version = inc64 (pos 0) }) s.app_settings;
      }
unfolding inc64
inc_zero f s = refl

save_current-once :
    (o : Option AppSetting) (f : AppSetting) (v : ℤ) (s : Store)
    → (save_current o f v s).0 ≡ ok tt
    → (save_current o f v s).1
      ≡ record s { app_settings = insert f.key (record f { version = inc64 v }) s.app_settings }
unfolding save_current
save_current-once none f v s done = elim (Bool-cases (eq_ℤ v (pos 0))) [
  | inr late ↦ absurd (err-ne-ok (rw late at done))
  | inl first ↦ rw (first, (eq_ℤ_iff v (pos 0)).0 first) (inc_zero f s)
]
save_current-once (some old) f v s done = elim (Bool-cases (eq_ℤ old.version v)) [
  | inr stale ↦ absurd (err-ne-ok (rw stale at done))
  | inl current ↦ rw (current, ← (eq_ℤ_iff old.version v).0 current) refl
]

save_current-stale :
    (f g : AppSetting) (v : ℤ) (s : Store)
    → eq_ℤ f.version v ≡ false
    → save_current (some f) g v s ≡ (err conflict, s)
unfolding save_current
save_current-stale f g v s stale = rw stale refl

-- A save that succeeds stores the setting under its trimmed key with the version after the one that it
-- expected (which may wrap around); so a second save of the same key that expects the same version
-- changes nothing, whatever it would store.
pub save_app_setting-once :
    (json_valid : Bytes → Bool) (given again : AppSetting) (v : ℤ) (s : Store)
    → (save_app_setting json_valid none given v s).0 ≡ ok tt
    → trim_space again.key ≡ trim_space given.key
    → let s' = (save_app_setting json_valid none given v s).1 in
      (get_app_setting none given.key s'
        ≡ ok (record given { key = trim_space given.key; version = inc64 v }))
      × ((save_app_setting json_valid none again v s').1 ≡ s')
unfolding save_app_setting get_app_setting
save_app_setting-once json_valid given again v s done same =
    elim (Bool-cases
      (is_empty (trim_space given.key) || not (json_valid given.value) || is_negative v)) [
        | inl bad ↦ absurd (err-ne-ok (rw bad at done))
        | inr good ↦
            let key = trim_space given.key in
            let f : AppSetting = record given { key = key } in
            let saved : AppSetting = record f { version = inc64 v } in
            let e = save_current-once (lookup key s.app_settings) f v s (rw good at done) in
            rw (good, e, lookup-insert_self key saved s.app_settings)
              (
                refl,
                elim (Bool-cases (
                    is_empty (trim_space again.key)
                    || not (json_valid again.value)
                    || is_negative v)) [
                      | inl bad' ↦ rw bad' refl
                      | inr good' ↦
                          rw (good', same, lookup-insert_self key saved s.app_settings)
                            (ap (λ r. r.1)
                              (save_current-stale saved (record again { key = key }) v
                                (record s { app_settings = insert key saved s.app_settings })
                                (inc64-ne v)))
                    ],
              )
      ]
