-- ===== src/Memory/Consistency/Catalog.antt =====
-- The writes to formats and backup targets keep the store consistent.
use account_manager.Prelude.{
  ◌≡◌, none, some, false, inl, inr, arith, Bool-cases, has, lookup, Ctx, Option, Text, text_eq,
  text_eq_iff, ℤ, pos, eq_ℤ, inc64, Map, [], ◌∷◌, any_value, any_value-lookup,
}
use account_manager.Domain.{MailboxFormat, BackupTarget}
use account_manager.Memory.{Store}
use account_manager.Memory.Formats
use account_manager.Memory.Formats.{create_mailbox_format, update_mailbox_format}
use account_manager.Memory.BackupTargets
use account_manager.Memory.BackupTargets.{create_backup_target, update_backup_target}
use account_manager.Memory.Links.{HasUniqueNames-insert, IsAttached-grow}
use account_manager.Memory.Consistency.{IsConsistent}

-- The loop over the other formats meets every one that a read finds.
formats_free :
    (id name i : Text) (f : MailboxFormat) (m : Map MailboxFormat)
    → Formats.name_taken id name m ≡ false
    → lookup i m ≡ some f
    → f.name ≡ name
    → i ≡ id
unfolding Formats.name_taken lookup
formats_free id name i f [] h p e = cc
formats_free id name i f ((k, g) ∷ m) h p e =
    ground (
      arith,
      text_eq_iff k id,
      text_eq_iff k i,
      text_eq_iff g.name name,
      formats_free id name i f m,
    )

targets_free :
    (id name i : Text) (t : BackupTarget) (m : Map BackupTarget)
    → BackupTargets.name_taken id name m ≡ false
    → lookup i m ≡ some t
    → t.name ≡ name
    → i ≡ id
unfolding BackupTargets.name_taken lookup
targets_free id name i t [] h p e = cc
targets_free id name i t ((k, u) ∷ m) h p e =
    ground (
      arith,
      text_eq_iff k id,
      text_eq_iff k i,
      text_eq_iff u.name name,
      targets_free id name i t m,
    )

pub create_mailbox_format-IsConsistent :
    (ctx : Ctx) (f : MailboxFormat) (s : Store)
    → IsConsistent s
    → IsConsistent (create_mailbox_format ctx f s).1
unfolding create_mailbox_format
create_mailbox_format-IsConsistent (some e) f s h = h
create_mailbox_format-IsConsistent none f s h = elim (Bool-cases (has f.id s.formats)) [
  | inl taken ↦ rw taken h
  | inr fresh ↦
      elim (Bool-cases (any_value {V = MailboxFormat} (λ g. text_eq g.name f.name) s.formats)) [
        | inl taken ↦ rw (fresh, taken) h
        | inr free ↦
            rw (fresh, free)
              (assumption (
                HasUniqueNames-insert (λ g. g.name) f.id (record f { version = pos 1 }) s.formats
                  (λ i w p e. ground (
                    arith,
                    any_value-lookup {V = MailboxFormat} (λ g. text_eq g.name f.name) i w s.formats
                        free p,
                    text_eq_iff w.name f.name,
                  ))
                  h.format_names))
      ]
]

update_format_over-IsConsistent :
    (o : Option MailboxFormat) (f : MailboxFormat) (v : ℤ) (s : Store)
    → IsConsistent s
    → IsConsistent (Formats.update_over o f v s).1
unfolding Formats.update_over
update_format_over-IsConsistent none f v s h = h
update_format_over-IsConsistent (some old) f v s h = elim (Bool-cases (eq_ℤ old.version v)) [
  | inr stale ↦ rw stale h
  | inl fresh ↦ elim (Bool-cases (Formats.name_taken f.id f.name s.formats)) [
    | inl taken ↦ rw (fresh, taken) h
    | inr free ↦
        rw (fresh, free)
          (assumption (
            HasUniqueNames-insert (λ g. g.name) f.id
              (record f { version = inc64 old.version; created_at = old.created_at }) s.formats
              (λ i w p e. formats_free f.id f.name i w s.formats free p e) h.format_names))
  ]
]

pub update_mailbox_format-IsConsistent :
    (ctx : Ctx) (f : MailboxFormat) (v : ℤ) (s : Store)
    → IsConsistent s
    → IsConsistent (update_mailbox_format ctx f v s).1
unfolding update_mailbox_format
update_mailbox_format-IsConsistent (some e) f v s h = h
update_mailbox_format-IsConsistent none f v s h =
    update_format_over-IsConsistent (lookup f.id s.formats) f v s h

pub create_backup_target-IsConsistent :
    (ctx : Ctx) (t : BackupTarget) (s : Store)
    → IsConsistent s
    → IsConsistent (create_backup_target ctx t s).1
unfolding create_backup_target
create_backup_target-IsConsistent (some e) t s h = h
create_backup_target-IsConsistent none t s h = elim (Bool-cases (has t.id s.backup_targets)) [
  | inl taken ↦ rw taken h
  | inr fresh ↦
      elim (Bool-cases
        (any_value {V = BackupTarget} (λ u. text_eq u.name t.name) s.backup_targets)) [
          | inl taken ↦ rw (fresh, taken) h
          | inr free ↦
              let saved = record t { version = pos 1 } in
              rw (fresh, free)
                (assumption (
                  HasUniqueNames-insert (λ u. u.name) t.id saved s.backup_targets
                      (λ i w p e. ground (
                        arith,
                        any_value-lookup {V = BackupTarget} (λ u. text_eq u.name t.name) i w
                            s.backup_targets free p,
                        text_eq_iff w.name t.name,
                      ))
                      h.target_names,
                  IsAttached-grow (λ r. r.target_id) t.id saved s.backup_runs s.backup_targets
                      h.run_targets,
                ))
        ]
]

update_target_over-IsConsistent :
    (o : Option BackupTarget) (t : BackupTarget) (v : ℤ) (s : Store)
    → IsConsistent s
    → IsConsistent (BackupTargets.update_over o t v s).1
unfolding BackupTargets.update_over
update_target_over-IsConsistent none t v s h = h
update_target_over-IsConsistent (some old) t v s h = elim (Bool-cases (eq_ℤ old.version v)) [
  | inr stale ↦ rw stale h
  | inl fresh ↦ elim (Bool-cases (BackupTargets.name_taken t.id t.name s.backup_targets)) [
    | inl taken ↦ rw (fresh, taken) h
    | inr free ↦
        let saved = record t { version = inc64 old.version; created_at = old.created_at } in
        rw (fresh, free)
          (assumption (
            HasUniqueNames-insert (λ u. u.name) t.id saved s.backup_targets
                (λ i w p e. targets_free t.id t.name i w s.backup_targets free p e) h.target_names,
            IsAttached-grow (λ r. r.target_id) t.id saved s.backup_runs s.backup_targets
                h.run_targets,
          ))
  ]
]

pub update_backup_target-IsConsistent :
    (ctx : Ctx) (t : BackupTarget) (v : ℤ) (s : Store)
    → IsConsistent s
    → IsConsistent (update_backup_target ctx t v s).1
unfolding update_backup_target
update_backup_target-IsConsistent (some e) t v s h = h
update_backup_target-IsConsistent none t v s h =
    update_target_over-IsConsistent (lookup t.id s.backup_targets) t v s h
