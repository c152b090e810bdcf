-- ===== src/Memory/Consistency/Import.antt =====
-- An imported batch keeps the store consistent.
use account_manager.Prelude.{
  ◌≡◌, refl, sym, none, some, false, inl, inr, ℕ, suc, Bool-cases, Option-cases, has, lookup,
  insert, has-insert_self, has-lookup, Ctx, Result, ok, err, ◌>>=◌, Option, Text, List, [], ◌∷◌,
}
use account_manager.Domain.{Mailbox, MailboxImportItem, ConflictStrategy}
use account_manager.Domain.ConflictStrategy.{skip, update, fail, other}
use account_manager.Memory.{Store}
use account_manager.Memory.Import.{
  Staged, Progress, stage, commit, update_credential, create_credential, created_at_of,
  update_existing, create_new, import_over, import_item, import_items, initial_progress, conclude,
  import_mailboxes, is_known,
}
use account_manager.Memory.Index.{IsIndexed-add, IsIndexed-replace, key_at}
use account_manager.Memory.Links.{IsAttached-grow}
use account_manager.Memory.Consistency.{IsConsistent, mailbox_key}
use account_manager.Memory.Consistency.Staging.{
  Keeps, update_credential-Keeps, create_credential-Keeps, mailboxes-update_credential,
  mailboxes-create_credential, finish_item-Keeps,
}

module _ (s : Store) where
  -- A new mailbox, written into the map and the index.
  add_mailbox-IsConsistent :
      (m : Mailbox) (t : Staged)
      → has m.id t.mailboxes ≡ false
      → has (mailbox_key m) t.identities ≡ false
      → IsConsistent (commit t s)
      → IsConsistent (
          commit
            (record t {
              mailboxes = insert m.id m t.mailboxes;
              identities = insert (mailbox_key m) m.id t.identities;
            })
            s)
  unfolding commit
  add_mailbox-IsConsistent m t new_id new_key h = assumption (
    IsIndexed-add (λ m. m.id) mailbox_key m t.mailboxes t.identities new_id new_key h.mailboxes,
    IsAttached-grow (λ a. a.mailbox_id) m.id m s.aliases t.mailboxes h.alias_mailboxes,
    IsAttached-grow (λ c. c.mailbox_id) m.id m t.credentials t.mailboxes h.credential_mailboxes,
    IsAttached-grow (λ k. k.mailbox_id) m.id m t.pickup_keys t.mailboxes h.pickup_mailboxes,
  )

  -- Another mailbox under an id that is there, with the same key.
  replace_mailbox-IsConsistent :
      (m old : Mailbox) (t : Staged)
      → lookup m.id t.mailboxes ≡ some old
      → mailbox_key m ≡ mailbox_key old
      → IsConsistent (commit t s)
      → IsConsistent (commit (record t { mailboxes = insert m.id m t.mailboxes }) s)
  unfolding commit
  replace_mailbox-IsConsistent m old t found same h = assumption (
    IsIndexed-replace (λ m. m.id) mailbox_key m old t.mailboxes t.identities found same h.mailboxes,
    IsAttached-grow (λ a. a.mailbox_id) m.id m s.aliases t.mailboxes h.alias_mailboxes,
    IsAttached-grow (λ c. c.mailbox_id) m.id m t.credentials t.mailboxes h.credential_mailboxes,
    IsAttached-grow (λ k. k.mailbox_id) m.id m t.pickup_keys t.mailboxes h.pickup_mailboxes,
  )

  create_new-Keeps :
      (item : MailboxImportItem) (p : Progress)
      → lookup (mailbox_key item.mailbox) p.staged.identities ≡ none
      → IsConsistent (commit p.staged s)
      → Keeps s (create_new item p)
  unfolding create_new
  create_new-Keeps item p free h = elim (Bool-cases (has m.id t.mailboxes)) [
    | inl taken ↦ rw taken tt
    | inr fresh ↦ rw fresh (
        finish_item-Keeps s item m.id (create_credential item.credential m.id t') _
          (rw mailboxes-create_credential (has-insert_self m.id m t.mailboxes))
          (create_credential-Keeps s item.credential m.id t' (has-insert_self m.id m t.mailboxes)
            (add_mailbox-IsConsistent m t fresh (rw (has-lookup, free) refl) h)))
  ]
    where
      m : Mailbox
      m = item.mailbox

      t : Staged
      t = p.staged

      t' : Staged
      t' = record t {
        mailboxes = insert m.id m t.mailboxes;
        identities = insert (mailbox_key m) m.id t.identities;
      }

  -- The index leads to a mailbox with the key that was looked up.
  pub indexed_mailbox :
      (t : Staged) (k id : Text)
      → IsConsistent (commit t s)
      → lookup k t.identities ≡ some id
      → (m : Mailbox) × (lookup id t.mailboxes ≡ some m) × (mailbox_key m ≡ k)
  unfolding commit
  indexed_mailbox t k id h indexed =
      at (lookup id t.mailboxes) (h.mailboxes.from_index k id indexed)
    where
      at :
          (o : Option Mailbox)
          → key_at mailbox_key o ≡ some k
          → (m : Mailbox) × (o ≡ some m) × (mailbox_key m ≡ k)
      at none e = cc
      at (some m) e = (m, refl, cc)

  update_existing-Keeps :
      (item : MailboxImportItem) (id : Text) (p : Progress)
      → lookup (mailbox_key item.mailbox) p.staged.identities ≡ some id
      → IsConsistent (commit p.staged s)
      → Keeps s (update_existing item id p)
  unfolding update_existing
  update_existing-Keeps item id p indexed h =
      finish_item-Keeps s item id (update_credential item.credential id t') _
        (rw mailboxes-update_credential (has-insert_self id m t.mailboxes))
        (update_credential-Keeps s item.credential id t' (has-insert_self id m t.mailboxes) (
          let (old, found, same) = indexed_mailbox t (mailbox_key item.mailbox) id h indexed in
          replace_mailbox-IsConsistent m old t found (sym same) h))
    where
      t : Staged
      t = p.staged

      m : Mailbox
      m = record (item.mailbox) { id = id; created_at = created_at_of (lookup id t.mailboxes) }

      t' : Staged
      t' = record t { mailboxes = insert id m t.mailboxes }

  import_over-Keeps :
      (strategy : ConflictStrategy) (o : Option Text) (item : MailboxImportItem) (p : Progress)
      → lookup (mailbox_key item.mailbox) p.staged.identities ≡ o
      → IsConsistent (commit p.staged s)
      → Keeps s (import_over strategy o item p)
  unfolding import_over
  import_over-Keeps strategy none item p e h = create_new-Keeps item p e h
  import_over-Keeps skip (some id) item p e h = h
  import_over-Keeps fail (some id) item p e h = tt
  import_over-Keeps update (some id) item p e h = update_existing-Keeps item id p e h
  import_over-Keeps (other name) (some id) item p e h = h

  pub import_item-Keeps :
      (strategy : ConflictStrategy) (item : MailboxImportItem) (p : Progress)
      → IsConsistent (commit p.staged s)
      → Keeps s (import_item strategy item p)
  unfolding import_item
  import_item-Keeps strategy item p h =
      import_over-Keeps strategy (lookup (mailbox_key item.mailbox) p.staged.identities) item p refl
        h

  bind-Keeps :
      (r : Result Progress) (f : Progress → Result Progress)
      → Keeps s r
      → ((p : Progress) → IsConsistent (commit p.staged s) → Keeps s (f p))
      → Keeps s (r >>= f)
  bind-Keeps (err e) f h k = tt
  bind-Keeps (ok p) f h k = k p h

  import_items-Keeps :
      (ctx : ℕ → Ctx) (n : ℕ) (strategy : ConflictStrategy) (items : List MailboxImportItem)
      (p : Progress)
      → IsConsistent (commit p.staged s)
      → Keeps s (import_items ctx n strategy items p)
  unfolding import_items
  import_items-Keeps ctx n strategy [] p h = h
  import_items-Keeps ctx n strategy (item ∷ items) p h = elim (Option-cases (ctx n)) [
    | inr (e, stopped) ↦ rw stopped tt
    | inl going ↦ rw going (
        bind-Keeps (import_item strategy item p) (import_items ctx (suc n) strategy items)
          (import_item-Keeps strategy item p h)
          (λ q k. import_items-Keeps ctx (suc n) strategy items q k))
  ]

  conclude-IsConsistent :
      (r : Result Progress) → Keeps s r → IsConsistent s → IsConsistent (conclude r s).1
  unfolding conclude
  conclude-IsConsistent (err e) k h = h
  conclude-IsConsistent (ok p) k h = k

pub import_mailboxes-IsConsistent :
    (ctx : ℕ → Ctx) (items : List MailboxImportItem) (strategy : ConflictStrategy) (s : Store)
    → IsConsistent s
    → IsConsistent (import_mailboxes ctx items strategy s).1
unfolding import_mailboxes
import_mailboxes-IsConsistent ctx items strategy s h = elim (Bool-cases (is_known strategy)) [
  | inr unknown ↦ rw unknown h
  | inl known ↦ rw known (elim (Option-cases (ctx 0)) [
    | inr (e, stopped) ↦ rw stopped h
    | inl going ↦ rw going (
        conclude-IsConsistent s (import_items ctx 1 strategy items (initial_progress s))
          (import_items-Keeps s ctx 1 strategy items (initial_progress s)
            (unfold initial_progress commit stage in h))
          h)
  ])
]
