-- ===== src/Services/FormatService.antt =====
-- FormatService of backend/internal/service/formats.go, over the memory store. The generator of ids and
-- the clock are arguments.
pub mod Stored
use account_manager.Prelude.{
  ok, err, Result, ◌>>=◌, Error, Ctx, ℕ, suc, pos, ℤ, eq_ℤ, inc64, Bool, true, false, not, none,
  some, List, [], ◌∷◌, keep_if, Text, codes, is_not_found, if◌then◌else◌,
}
use account_manager.Domain.{MailboxFormat, MailboxFormatField, Time}
use account_manager.Domain.MailboxFormatKind.{delimited}
use account_manager.Domain.MailboxFormatDirection.{both}
use account_manager.Ports.{ListOptions}
use account_manager.Memory.{Store}
use account_manager.Memory.Formats.{
  create_mailbox_format, update_mailbox_format, get_mailbox_format, list_mailbox_formats,
}
use account_manager.Services.Formats.{is_among}
use account_manager.Services.FormatBuild.{SaveMailboxFormatInput, Builder, build}

-- what Create and Update answer after the repository
unfoldable pub saved : MailboxFormat → Result (Unit {0}) × Store → Result MailboxFormat × Store
saved format (err e, s) = (err e, s)
saved format (ok u, s) = (ok format, s)

-- the part of Create before the repository, with what NewRandomID returned
unfoldable pub new_format :
    Builder → SaveMailboxFormatInput → Result Text → Time → Result MailboxFormat
new_format b input generated now = do
  format ← build b input
  id ← generated
  ok (record format { id = id; version = pos 1; created_at = now; updated_at = now })

unfoldable pub create_built : Ctx → Result MailboxFormat → Store → Result MailboxFormat × Store
unfolding saved
create_built ctx (err e) s = (err e, s)
create_built ctx (ok format) s = saved format (create_mailbox_format ctx format s)

-- FormatService.Create
unfoldable pub create_format :
    Builder
    → Ctx
    → SaveMailboxFormatInput
    → Result Text
    → Time
    → Store
    → Result MailboxFormat × Store
unfolding new_format create_built
create_format b ctx input generated now s = create_built ctx (new_format b input generated now) s

-- `expectedVersion`
unfoldable pub expected_version : SaveMailboxFormatInput → MailboxFormat → ℤ
expected_version input current =
    if eq_ℤ input.version (pos 0) then current.version else input.version

-- the part of Update before the write, with the expected version
unfoldable pub changed_format :
    Builder → SaveMailboxFormatInput → Time → Result MailboxFormat → Result (MailboxFormat × ℤ)
unfolding expected_version
changed_format b input now found_format = do
  current ← found_format
  format ← build b input
  ok (
    record format {
      id = current.id;
      builtin = current.builtin;
      version = inc64 (expected_version input current);
      created_at = current.created_at;
      updated_at = now;
    },
    expected_version input current,
  )

unfoldable pub update_built :
    Ctx → Result (MailboxFormat × ℤ) → Store → Result MailboxFormat × Store
unfolding saved
update_built ctx (err e) s = (err e, s)
update_built ctx (ok (format, expected)) s =
    saved format (update_mailbox_format ctx format expected s)

-- FormatService.Update; `ctx n` is what `ctx.Err()` returns at the n-th question
unfoldable pub update_format :
    Builder
    → (ℕ → Ctx)
    → Text
    → SaveMailboxFormatInput
    → Time
    → Store
    → Result MailboxFormat × Store
unfolding changed_format update_built
update_format b ctx id input now s =
    update_built (ctx 1) (changed_format b input now (get_mailbox_format (ctx 0) id s)) s

unfoldable pub deprecated_builtin_format : Text → Bool
unfolding is_among
deprecated_builtin_format id = is_among id (
    codes "fmt_builtin_registered6"
    ∷ codes "fmt_builtin_simple3"
    ∷ codes "fmt_builtin_cf_routed3"
    ∷ [])

-- FormatService.List
unfoldable pub list_formats : Ctx → ListOptions → Store → Result (List MailboxFormat)
unfolding deprecated_builtin_format
list_formats ctx options s = do
  items ← list_mailbox_formats ctx options s
  ok (keep_if (λ item. not (deprecated_builtin_format item.id)) items)

abbrev pub builtin_field : Text → Text → Bool → Bool → MailboxFormatField
builtin_field column target required sensitive = record {
  column = column;
  target = target;
  required = required;
  sensitive = sensitive;
  default = [];
}

-- builtinFormats
abbrev pub builtin_formats : Time → List MailboxFormat
builtin_formats now =
    record {
      id = codes "fmt_builtin_pickup2";
      name = codes "平台取件格式";
      kind = delimited;
      direction = both;
      delimiter = codes "----";
      fields =
          builtin_field (codes "email") (codes "address") true false
          ∷ builtin_field (codes "pickup_key") (codes "pickup_key") true true
          ∷ [];
      provider = none;
      has_header = false;
      template = [];
      parser_config = codes "{\"provider_from_address\":true}";
      builtin = true;
      enabled = true;
      version = pos 1;
      created_at = now;
      updated_at = now;
    }
    ∷ record {
      id = codes "fmt_builtin_outlook4";
      name = codes "Outlook 邮箱凭证";
      kind = delimited;
      direction = both;
      delimiter = codes "----";
      fields =
          builtin_field (codes "email") (codes "address") true false
          ∷ builtin_field (codes "password") (codes "password") false true
          ∷ builtin_field (codes "client_id") (codes "client_id") false false
          ∷ builtin_field (codes "refresh_token") (codes "refresh_token") false true
          ∷ [];
      provider = some (codes "microsoft");
      has_header = false;
      template = [];
      parser_config = codes "{\"credential_kind\":\"microsoft_dual_token\"}";
      builtin = true;
      enabled = true;
      version = pos 1;
      created_at = now;
      updated_at = now;
    }
    ∷ []

-- the test that ends EnsureBuiltins after a write
unfoldable pub ensured : Result (Unit {0}) × Store → Result (Unit {0}) × Store
ensured (err Error.conflict, s) = (ok tt, s)
ensured answer = answer

-- the body of the loop of EnsureBuiltins, after the look at the repository
unfoldable pub ensure_found :
    Ctx → MailboxFormat → Result MailboxFormat → Store → Result (Unit {0}) × Store
unfolding ensured
ensure_found ctx format (ok existing) s = (ok tt, s)
ensure_found ctx format (err e) s =
    if is_not_found e then ensured (create_mailbox_format ctx format s) else (err e, s)

unfoldable pub ensure_next :
    (Store → Result (Unit {0}) × Store) → Result (Unit {0}) × Store → Result (Unit {0}) × Store
ensure_next rest (err e, s) = (err e, s)
ensure_next rest (ok u, s) = rest s

-- the loop of EnsureBuiltins; `ctx n` answers the n-th question, two for each format
unfoldable pub ensure_each : (ℕ → Ctx) → ℕ → List MailboxFormat → Store → Result (Unit {0}) × Store
unfolding ensure_found ensure_next
ensure_each ctx i [] s = (ok tt, s)
ensure_each ctx i (format ∷ formats) s =
    ensure_next (ensure_each ctx (suc (suc i)) formats)
      (ensure_found (ctx (suc i)) format (get_mailbox_format (ctx i) format.id s) s)

-- FormatService.EnsureBuiltins
unfoldable pub ensure_builtins : (ℕ → Ctx) → Time → Store → Result (Unit {0}) × Store
unfolding ensure_each
ensure_builtins ctx now s = ensure_each ctx 0 (builtin_formats now) s
