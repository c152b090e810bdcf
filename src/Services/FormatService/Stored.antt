-- ===== src/Services/FormatService/Stored.antt =====
-- The service keeps every stored format valid.
use account_manager.Prelude.{
  ok, err, Result, >>=-eq-ok, ok-injective, Error, Ctx, ℕ, suc, pos, eq_ℤ, inc64, Bool, Option,
  none, some, List, [], ◌∷◌, Text, text_eq, Map, lookup, has, insert, values, any_value, All, ◌≡◌,
  refl, ap, inl, inr, Bool-cases, subst, is_not_found, ℤ,
}
use account_manager.Domain.{MailboxFormat, Time}
use account_manager.Memory.{Store}
use account_manager.Memory.Formats.{
  create_mailbox_format, update_mailbox_format, update_over, name_taken, get_mailbox_format,
}
use account_manager.Services.FormatBuild.{SaveMailboxFormatInput, Builder, build}
use account_manager.Services.FormatBuild.Valid.{IsValidFormat, build-IsValidFormat}
use account_manager.Services.FormatService.{
  saved, new_format, create_built, create_format, expected_version, changed_format, update_built,
  update_format, builtin_formats, ensured, ensure_found, ensure_next, ensure_each, ensure_builtins,
}

values-insert-All {ℓ} :
    {A : Type ℓ} (P : A → Type 0) (k : Text) (v : A) (m : Map A)
    → P v
    → All P (values m)
    → All P (values (insert k v m))
unfolding values insert
values-insert-All P k v [] h hs = (h, tt)
values-insert-All P k v ((j, w) ∷ m) h (g, gs) = elim (Bool-cases (text_eq j k)) [
  | inl e ↦ rw e (h, gs)
  | inr e ↦ rw e (g, values-insert-All P k v m h gs)
]

module _ (b : Builder) where
  -- Every stored format is valid.
  abbrev pub AreValid : Store → Type 0
  AreValid s = All (IsValidFormat b) (values s.formats)

  -- What the repository sets of a format is free.
  IsValidFormat-marked :
      (f : MailboxFormat) (id : Text) (builtin : Bool) (version : ℤ) (created updated : Time)
      → IsValidFormat b f
      → IsValidFormat b (record f {
        id = id;
        builtin = builtin;
        version = version;
        created_at = created;
        updated_at = updated;
      })
  IsValidFormat-marked f id builtin version created updated h = record {
    named = h.named;
    filled = h.filled;
    bounded = h.bounded;
    separated = h.separated;
    described = h.described;
    allowed = h.allowed;
    apart = h.apart;
    importable = h.importable;
  }

  create-AreValid :
      (ctx : Ctx) (f : MailboxFormat) (s : Store)
      → IsValidFormat b f
      → AreValid s
      → AreValid (create_mailbox_format ctx f s).1
  unfolding create_mailbox_format
  create-AreValid (some e) f s h hs = hs
  create-AreValid none f s h hs = elim (Bool-cases (has f.id s.formats)) [
    | inl e ↦ rw e hs
    | inr e ↦ rw e (elim (Bool-cases (any_value (λ g. text_eq g.name f.name) s.formats)) [
      | inl c ↦ rw c hs
      | inr c ↦ rw c (
          values-insert-All (IsValidFormat b) f.id _ s.formats
            (IsValidFormat-marked f f.id f.builtin (pos 1) f.created_at f.updated_at h) hs)
    ])
  ]

  update_over-AreValid :
      (current : Option MailboxFormat) (f : MailboxFormat) (expected : ℤ) (s : Store)
      → IsValidFormat b f
      → AreValid s
      → AreValid (update_over current f expected s).1
  unfolding update_over
  update_over-AreValid none f expected s h hs = hs
  update_over-AreValid (some current) f expected s h hs =
      elim (Bool-cases (eq_ℤ current.version expected)) [
        | inr e ↦ rw e hs
        | inl e ↦ rw e (elim (Bool-cases (name_taken f.id f.name s.formats)) [
          | inl c ↦ rw c hs
          | inr c ↦ rw c (
              values-insert-All (IsValidFormat b) f.id _ s.formats
                (IsValidFormat-marked f f.id f.builtin (inc64 current.version) current.created_at
                  f.updated_at h)
                hs)
        ])
      ]

  update-AreValid :
      (ctx : Ctx) (f : MailboxFormat) (expected : ℤ) (s : Store)
      → IsValidFormat b f
      → AreValid s
      → AreValid (update_mailbox_format ctx f expected s).1
  unfolding update_mailbox_format
  update-AreValid (some e) f expected s h hs = hs
  update-AreValid none f expected s h hs =
      update_over-AreValid (lookup f.id s.formats) f expected s h hs

  saved_store :
      (f : MailboxFormat) (answer : Result (Unit {0}) × Store) → (saved f answer).1 ≡ answer.1
  unfolding saved
  saved_store f (err e, s) = refl
  saved_store f (ok u, s) = refl

  create_built-AreValid :
      (ctx : Ctx) (input : SaveMailboxFormatInput) (generated : Result Text) (now : Time)
      (s : Store) (made : Result MailboxFormat)
      → new_format b input generated now ≡ made
      → AreValid s
      → AreValid (create_built ctx made s).1
  unfolding new_format create_built
  create_built-AreValid ctx input generated now s (err e) h hs = hs
  create_built-AreValid ctx input generated now s (ok f) h hs =
      let (g, built, h1) = >>=-eq-ok (build b input) _ h in
      let (id, _, last) = >>=-eq-ok generated _ h1 in
      rw (saved_store f (create_mailbox_format ctx f s)) (
        create-AreValid ctx f s
          (subst (IsValidFormat b) (ok-injective last) (
            IsValidFormat-marked g id g.builtin (pos 1) now now
              (build-IsValidFormat b input g built)))
          hs)

  update_built-AreValid :
      (ctx : Ctx) (input : SaveMailboxFormatInput) (now : Time) (s : Store)
      (looked : Result MailboxFormat) (made : Result (MailboxFormat × ℤ))
      → changed_format b input now looked ≡ made
      → AreValid s
      → AreValid (update_built ctx made s).1
  unfolding changed_format update_built
  update_built-AreValid ctx input now s looked (err e) h hs = hs
  update_built-AreValid ctx input now s looked (ok (f, expected)) h hs =
      let (current, _, h1) = >>=-eq-ok looked _ h in
      let (g, built, last) = >>=-eq-ok (build b input) _ h1 in
      rw (saved_store f (update_mailbox_format ctx f expected s)) (
        update-AreValid ctx f expected s
          (subst (IsValidFormat b) (ap (λ x. x.0) (ok-injective last)) (
            IsValidFormat-marked g current.id current.builtin
              (inc64 (expected_version input current)) current.created_at now
              (build-IsValidFormat b input g built)))
          hs)

  ensured_store : (answer : Result (Unit {0}) × Store) → (ensured answer).1 ≡ answer.1
  unfolding ensured
  ensured_store (err e, s) = elim e as (λ k. (ensured (err k, s)).1 ≡ s) [
    | Error.conflict ↦ refl
    | _ ↦ refl
  ]
  ensured_store (ok u, s) = refl

  ensure_found-AreValid :
      (ctx : Ctx) (f : MailboxFormat) (looked : Result MailboxFormat) (s : Store)
      → IsValidFormat b f
      → AreValid s
      → AreValid (ensure_found ctx f looked s).1
  unfolding ensure_found
  ensure_found-AreValid ctx f (ok existing) s h hs = hs
  ensure_found-AreValid ctx f (err e) s h hs = elim (Bool-cases (is_not_found e)) [
    | inr c ↦ rw c hs
    | inl c ↦ rw (c, ensured_store (create_mailbox_format ctx f s)) (create-AreValid ctx f s h hs)
  ]

  ensure_next-AreValid :
      (rest : Store → Result (Unit {0}) × Store) (answer : Result (Unit {0}) × Store)
      → ((t : Store) → AreValid t → AreValid (rest t).1)
      → AreValid answer.1
      → AreValid (ensure_next rest answer).1
  unfolding ensure_next
  ensure_next-AreValid rest (err e, s) h hs = hs
  ensure_next-AreValid rest (ok u, s) h hs = h s hs

  ensure_each-AreValid :
      (ctx : ℕ → Ctx) (i : ℕ) (formats : List MailboxFormat) (s : Store)
      → All (IsValidFormat b) formats
      → AreValid s
      → AreValid (ensure_each ctx i formats s).1
  unfolding ensure_each
  ensure_each-AreValid ctx i [] s h hs = hs
  ensure_each-AreValid ctx i (f ∷ fs) s (h, k) hs =
      ensure_next-AreValid (ensure_each ctx (suc (suc i)) fs) _
        (λ t. ensure_each-AreValid ctx (suc (suc i)) fs t k)
        (ensure_found-AreValid (ctx (suc i)) f (get_mailbox_format (ctx i) f.id s) s h hs)

  -- Where every stored format is valid, every one still is after a creation, after an update and after
  -- the builtin formats are ensured, whether these succeed or fail; for the last the builtin formats
  -- must be valid under the given lower casing.
  pub formats-AreValid :
      (ctx : ℕ → Ctx) (input : SaveMailboxFormatInput) (generated : Result Text) (id : Text)
      (now : Time) (s : Store)
      → All (IsValidFormat b) (builtin_formats now)
      → AreValid s
      → AreValid (create_format b (ctx 0) input generated now s).1
        × AreValid (update_format b ctx id input now s).1
        × AreValid (ensure_builtins ctx now s).1
  unfolding create_format update_format ensure_builtins
  formats-AreValid ctx input generated id now s h hs = (
    create_built-AreValid (ctx 0) input generated now s _ refl hs,
    update_built-AreValid (ctx 1) input now s (get_mailbox_format (ctx 0) id s) _ refl hs,
    ensure_each-AreValid ctx 0 (builtin_formats now) s h hs,
  )
