-- ===== src/Memory/Import/Accounting.antt =====
-- What the counters of an imported batch say.
use native.Mathlib.Nat.{add-zero, zero-add, add-suc, suc-add}
use account_manager.Prelude.{
  ◌≡◌, refl, subst, ◌∙◌, ℕ, suc, ◌+◌, none, some, true, inl, inr, arith, Bool-cases, has, lookup,
  insert, size-insert, values, length, length-append, has_of_lookup, Ctx, Result, ok, err, ◌>>=◌,
  >>=-eq-ok, live-eq-ok, err-ne-ok, ok-injective, Option-cases, Option, Text, List, [], ◌∷◌, ◌++◌,
}
use account_manager.Domain.{Mailbox, MailboxImportItem, MailboxImportResult, ConflictStrategy}
use account_manager.Domain.ConflictStrategy.{skip, update, fail, other}
use account_manager.Memory.{Store}
use account_manager.Memory.Import.{
  Staged, Progress, stage, commit, update_credential, create_credential, created_at_of,
  update_existing, create_new, import_over, import_item, import_items, initial_progress, conclude,
  import_mailboxes, is_known,
}
use account_manager.Memory.Consistency.{IsConsistent, mailbox_key}
use account_manager.Memory.Consistency.Staging.{Keeps}
use account_manager.Memory.Consistency.Import.{import_item-Keeps, indexed_mailbox}
use account_manager.Memory.Import.Steps.{
  SameMailboxes, update_credential-SameMailboxes, create_credential-SameMailboxes,
  finish_item-eq-ok,
}

-- The counters add up over `n` items, and the number of mailboxes has grown by `created`.
pub record IsTallied (base n : ℕ) (p : Progress) : Type 0 where
  pub items : p.result.created + p.result.updated + p.result.skipped ≡ n
  pub ids : length p.result.mailbox_ids ≡ p.result.created + p.result.updated
  pub mailboxes : length (values p.staged.mailboxes) ≡ base + p.result.created

IsTallied-after :
    (base n : ℕ) (p q : Progress) (t : Staged) (r : MailboxImportResult)
    → SameMailboxes t q.staged × (q.result ≡ r)
    → IsTallied base n (record { staged = t; result = r })
    → IsTallied base n q
IsTallied-after base n p q t r (same, e) h = record {
  items = rw e h.items;
  ids = rw e h.ids;
  mailboxes = rw (same.mailboxes, e) h.mailboxes;
}

module _ (base n : ℕ) (item : MailboxImportItem) (p q : Progress) (h : IsTallied base n p) where
  create_new-IsTallied : create_new item p ≡ ok q → IsTallied base (suc n) q
  unfolding create_new
  create_new-IsTallied done = elim (Bool-cases (has m.id t.mailboxes)) [
    | inl taken ↦ absurd (err-ne-ok (rw taken at done))
    | inr fresh ↦
        IsTallied-after base (suc n) p q (create_credential item.credential m.id t') r
          (finish_item-eq-ok item m.id (create_credential item.credential m.id t') r q
            (rw fresh at done))
          (record {
            items = omega (arith, h.items);
            ids = omega (arith, length-append p.result.mailbox_ids (m.id ∷ []), h.ids);
            mailboxes =
                rw (create_credential-SameMailboxes item.credential m.id t').mailboxes
                  (rw (size-insert, fresh) (omega (arith, h.mailboxes)));
          })
  ]
    where
      m : Mailbox
      m = item.mailbox

      t : Staged
      t = p.staged

      t' : Staged
      t' = record t {
        mailboxes = insert m.id m t.mailboxes;
        identities = insert (mailbox_key m) m.id t.identities;
      }

      r : MailboxImportResult
      r = record (p.result) {
        created = p.result.created + 1;
        mailbox_ids = p.result.mailbox_ids ++ m.id ∷ [];
      }

  update_existing-IsTallied :
      (id : Text)
      → has id p.staged.mailboxes ≡ true
      → update_existing item id p ≡ ok q
      → IsTallied base (suc n) q
  unfolding update_existing
  update_existing-IsTallied id there done =
      IsTallied-after base (suc n) p q (update_credential item.credential id t') r
        (finish_item-eq-ok item id (update_credential item.credential id t') r q done)
        (record {
          items = omega (arith, h.items);
          ids = omega (arith, length-append p.result.mailbox_ids (id ∷ []), h.ids);
          mailboxes =
              rw (update_credential-SameMailboxes item.credential id t').mailboxes
                (rw (size-insert, there) h.mailboxes);
        })
    where
      t : Staged
      t = p.staged

      t' : Staged
      t' = record t {
        mailboxes =
            insert id
              (record (item.mailbox) {
                id = id;
                created_at = created_at_of (lookup id t.mailboxes);
              })
              t.mailboxes;
      }

      r : MailboxImportResult
      r = record (p.result) {
        updated = p.result.updated + 1;
        mailbox_ids = p.result.mailbox_ids ++ id ∷ [];
      }

  skipped-IsTallied :
      ok (record p { result = record (p.result) { skipped = p.result.skipped + 1 } }) ≡ ok q
      → IsTallied base (suc n) q
  skipped-IsTallied done =
      subst (IsTallied base (suc n)) (ok-injective done)
        (record { items = omega (arith, h.items); ids = h.ids; mailboxes = h.mailboxes })

  import_over-IsTallied :
      (s : Store) (strategy : ConflictStrategy) (o : Option Text)
      → is_known strategy ≡ true
      → IsConsistent (commit p.staged s)
      → lookup (mailbox_key item.mailbox) p.staged.identities ≡ o
      → import_over strategy o item p ≡ ok q
      → IsTallied base (suc n) q
  unfolding import_over
  import_over-IsTallied s strategy none k c e done = create_new-IsTallied done
  import_over-IsTallied s skip (some id) k c e done = skipped-IsTallied done
  import_over-IsTallied s fail (some id) k c e done = cc
  import_over-IsTallied s update (some id) k c e done =
      let (m, found, _) = indexed_mailbox s p.staged (mailbox_key item.mailbox) id c e in
      update_existing-IsTallied id (has_of_lookup id m p.staged.mailboxes found) done
  import_over-IsTallied s (other name) (some id) k c e done = cc

kept_of_ok :
    (s : Store) (r : Result Progress) (q : Progress)
    → r ≡ ok q
    → Keeps s r
    → IsConsistent (commit q.staged s)
kept_of_ok s (ok p) q e k =
    subst (λ (t : Progress). IsConsistent (commit t.staged s)) (ok-injective e) k
kept_of_ok s (err x) q e k = cc

import_items-IsTallied :
    (s : Store) (ctx : ℕ → Ctx) (i : ℕ) (strategy : ConflictStrategy)
    (items : List MailboxImportItem) (base n : ℕ) (p q : Progress)
    → is_known strategy ≡ true
    → IsConsistent (commit p.staged s)
    → IsTallied base n p
    → import_items ctx i strategy items p ≡ ok q
    → IsTallied base (n + length items) q
unfolding import_items
import_items-IsTallied s ctx i strategy [] base n p q k c h done =
    subst (IsTallied base (n + 0)) (ok-injective done) (rw add-zero h)
import_items-IsTallied s ctx i strategy (item ∷ items) base n p q k c h done =
    let (_, going) =
      live-eq-ok (ctx i) (import_item strategy item p >>= import_items ctx (suc i) strategy items)
        done in
    let (p', stepped, rest) =
      >>=-eq-ok (import_item strategy item p) (import_items ctx (suc i) strategy items) going in
    rw (add-suc, ← suc-add)
      (import_items-IsTallied s ctx (suc i) strategy items base (suc n) p' q k
        (kept_of_ok s (import_item strategy item p) p' stepped
          (import_item-Keeps s strategy item p c))
        (unfold import_item in
          import_over-IsTallied base n item p p' h s strategy
            (lookup (mailbox_key item.mailbox) p.staged.identities) k c refl stepped)
        rest)

concluded :
    (p : Result Progress) (s : Store) (r : MailboxImportResult)
    → (conclude p s).0 ≡ ok r
    → (q : Progress) × (p ≡ ok q) × (q.result ≡ r) × ((conclude p s).1 ≡ commit q.staged s)
unfolding conclude
concluded (ok q) s r h = (q, refl, ok-injective h, refl)
concluded (err e) s r h = cc

-- The loop behind a batch that went through.
pub import_mailboxes-eq-ok :
    (ctx : ℕ → Ctx) (items : List MailboxImportItem) (strategy : ConflictStrategy) (s : Store)
    (r : MailboxImportResult)
    → (import_mailboxes ctx items strategy s).0 ≡ ok r
    → (q : Progress) × (is_known strategy ≡ true)
      × (import_items ctx 1 strategy items (initial_progress s) ≡ ok q)
      × (q.result ≡ r)
      × ((import_mailboxes ctx items strategy s).1 ≡ commit q.staged s)
unfolding import_mailboxes
import_mailboxes-eq-ok ctx items strategy s r h = elim (Bool-cases (is_known strategy)) [
  | inr unknown ↦ absurd (err-ne-ok (rw unknown at h))
  | inl known ↦ elim (Option-cases (ctx 0)) [
    | inr (e, stopped) ↦ absurd (err-ne-ok (rw (known, stopped) at h))
    | inl going ↦
        let (q, done, result, store) =
          concluded (import_items ctx 1 strategy items (initial_progress s)) s r
            (rw (known, going) at h) in
        (q, known, done, result, rw (known, going) store)
  ]
]

-- The counters of an imported batch, under a strategy that the store knows and on a consistent
-- store: created, updated and skipped items add up to the items of the batch; the ids returned are
-- as many as the items created and updated; and the store has exactly `created` mailboxes more.
pub import_mailboxes-accounts :
    (ctx : ℕ → Ctx) (items : List MailboxImportItem) (strategy : ConflictStrategy) (s : Store)
    (r : MailboxImportResult)
    → IsConsistent s
    → (import_mailboxes ctx items strategy s).0 ≡ ok r
    → (r.created + r.updated + r.skipped ≡ length items)
      × (length r.mailbox_ids ≡ r.created + r.updated)
      × (length (values (import_mailboxes ctx items strategy s).1.mailboxes)
          ≡ length (values s.mailboxes) + r.created)
import_mailboxes-accounts ctx items strategy s r c h =
    let (q, known, done, result, store) = import_mailboxes-eq-ok ctx items strategy s r h in
    let t =
      import_items-IsTallied s ctx 1 strategy items (length (values s.mailboxes)) 0
        (initial_progress s) q known (unfold initial_progress commit stage in c)
        (unfold initial_progress in
          record { items = refl; ids = refl; mailboxes = rw add-zero refl })
        done in
    (
      rw (← result) (t.items ∙ zero-add (length items)),
      rw (← result) t.ids,
      rw (store, ← result) (unfold commit in t.mailboxes),
    )
