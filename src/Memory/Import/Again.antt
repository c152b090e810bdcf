-- ===== src/Memory/Import/Again.antt =====
-- A batch that went through, imported once more.
use native.Mathlib.Nat.{add-zero, zero-add}
use account_manager.Prelude.{
  ◌≡◌, refl, ap, subst, ◌∙◌, err-ne-ok, ok-injective, ℕ, suc, ◌+◌, none, some, true, inl, inr,
  arith, Bool-cases, has, lookup, insert, has-insert, has-insert_self, lookup_of_present,
  has_of_lookup, length, Ctx, ok, ◌>>=◌, >>=-eq-ok, live-eq-ok, Option, Text, Map, All, List, [],
  ◌∷◌,
}
use account_manager.Domain.{MailboxImportItem, MailboxImportResult, ConflictStrategy}
use account_manager.Domain.ConflictStrategy.{skip, update, fail, other}
use account_manager.Memory.{Store}
use account_manager.Memory.Import.{
  Progress, commit, update_existing, create_new, import_over, import_item, import_items,
  initial_progress, conclude, import_mailboxes,
}
use account_manager.Memory.Import.Steps.{
  update_credential-SameMailboxes, create_credential-SameMailboxes, finish_item-eq-ok,
}
use account_manager.Memory.Import.Accounting.{import_mailboxes-eq-ok}
use account_manager.Memory.Consistency.{mailbox_key}

abbrev key_of : MailboxImportItem → Text
key_of item = mailbox_key item.mailbox

-- The key of every item is in the index.
abbrev IsCovered : List MailboxImportItem → Map Text → Type 0
IsCovered items index = All (λ item. has (key_of item) index ≡ true) items

-- No key leaves the index.
abbrev Grows : Map Text → Map Text → Type 0
Grows a b = (k : Text) → has k a ≡ true → has k b ≡ true

create_new-identities :
    (item : MailboxImportItem) (p q : Progress)
    → create_new item p ≡ ok q
    → q.staged.identities ≡ insert (key_of item) item.mailbox.id p.staged.identities
unfolding create_new
create_new-identities item p q done = elim (Bool-cases (has item.mailbox.id p.staged.mailboxes)) [
  | inl taken ↦ absurd (err-ne-ok (rw taken at done))
  | inr fresh ↦
      (finish_item-eq-ok item item.mailbox.id _ _ q (rw fresh at done)).0.identities
      ∙ (create_credential-SameMailboxes item.credential item.mailbox.id _).identities
]

update_existing-identities :
    (item : MailboxImportItem) (id : Text) (p q : Progress)
    → update_existing item id p ≡ ok q
    → q.staged.identities ≡ p.staged.identities
unfolding update_existing
update_existing-identities item id p q done =
    (finish_item-eq-ok item id _ _ q done).0.identities
    ∙ (update_credential-SameMailboxes item.credential id _).identities

import_over-covers :
    (strategy : ConflictStrategy) (o : Option Text) (item : MailboxImportItem) (p q : Progress)
    → lookup (key_of item) p.staged.identities ≡ o
    → import_over strategy o item p ≡ ok q
    → Grows p.staged.identities q.staged.identities × (has (key_of item) q.staged.identities ≡ true)
unfolding import_over
import_over-covers strategy none item p q e done =
    let grown = create_new-identities item p q done in
    (
      λ k h. rw (grown, has-insert) (ground arith),
      rw grown (has-insert_self (key_of item) item.mailbox.id p.staged.identities),
    )
import_over-covers skip (some id) item p q e done =
    let there = has_of_lookup (key_of item) id p.staged.identities e in
    (
      subst (λ (t : Progress). Grows p.staged.identities t.staged.identities) (ok-injective done)
          (λ k h. h),
      subst (λ (t : Progress). has (key_of item) t.staged.identities ≡ true) (ok-injective done)
          there,
    )
import_over-covers fail (some id) item p q e done = absurd (err-ne-ok done)
import_over-covers update (some id) item p q e done =
    let same = update_existing-identities item id p q done in
    (λ k h. rw same h, rw same (has_of_lookup (key_of item) id p.staged.identities e))
import_over-covers (other name) (some id) item p q e done =
    let there = has_of_lookup (key_of item) id p.staged.identities e in
    (
      subst (λ (t : Progress). Grows p.staged.identities t.staged.identities) (ok-injective done)
          (λ k h. h),
      subst (λ (t : Progress). has (key_of item) t.staged.identities ≡ true) (ok-injective done)
          there,
    )

import_item-covers :
    (strategy : ConflictStrategy) (item : MailboxImportItem) (p q : Progress)
    → import_item strategy item p ≡ ok q
    → Grows p.staged.identities q.staged.identities × (has (key_of item) q.staged.identities ≡ true)
unfolding import_item
import_item-covers strategy item p q done =
    import_over-covers strategy (lookup (key_of item) p.staged.identities) item p q refl done

import_items-covers :
    (ctx : ℕ → Ctx) (i : ℕ) (strategy : ConflictStrategy) (items : List MailboxImportItem)
    (p q : Progress)
    → import_items ctx i strategy items p ≡ ok q
    → Grows p.staged.identities q.staged.identities × IsCovered items q.staged.identities
unfolding import_items
import_items-covers ctx i strategy [] p q done = (
  subst (λ (t : Progress). Grows p.staged.identities t.staged.identities) (ok-injective done)
      (λ k h. h),
  tt,
)
import_items-covers ctx i strategy (item ∷ items) p q done =
    let (_, going) =
      live-eq-ok (ctx i) (import_item strategy item p >>= import_items ctx (suc i) strategy items)
        done in
    let (p', stepped, rest) =
      >>=-eq-ok (import_item strategy item p) (import_items ctx (suc i) strategy items) going in
    let (grows, there) = import_item-covers strategy item p p' stepped in
    let (later, covered) = import_items-covers ctx (suc i) strategy items p' q rest in
    (λ k h. later k (grows k h), (later (key_of item) there, covered))

skipped_by : ℕ → Progress → Progress
skipped_by n p = record p { result = record (p.result) { skipped = p.result.skipped + n } }

skipped_by-skipped_by :
    (n : ℕ) (p : Progress) → skipped_by n (skipped_by 1 p) ≡ skipped_by (suc n) p
unfolding skipped_by
skipped_by-skipped_by n p =
    let sum : p.result.skipped + 1 + n ≡ p.result.skipped + suc n = omega arith in
    ap (λ k. record p { result = record (p.result) { skipped = k } }) sum

import_item-skips :
    (item : MailboxImportItem) (p : Progress)
    → has (key_of item) p.staged.identities ≡ true
    → import_item skip item p ≡ ok (skipped_by 1 p)
unfolding import_item import_over skipped_by
import_item-skips item p there =
    let (id, found) = lookup_of_present (key_of item) p.staged.identities there in rw found

import_items-skips :
    (ctx : ℕ → Ctx) (i : ℕ) (items : List MailboxImportItem) (p : Progress)
    → ((n : ℕ) → ctx n ≡ none)
    → IsCovered items p.staged.identities
    → import_items ctx i skip items p ≡ ok (skipped_by (length items) p)
unfolding import_items
import_items-skips ctx i [] p going covered = unfold skipped_by in rw add-zero
import_items-skips ctx i (item ∷ items) p going (there, covered) =
    rw (going i, import_item-skips item p there)
      (import_items-skips ctx (suc i) items (skipped_by 1 p) going (unfold skipped_by in covered)
        ∙ ap ok (skipped_by-skipped_by (length items) p))

-- A batch whose keys are all there is skipped item by item.
import_covered :
    (ctx : ℕ → Ctx) (items : List MailboxImportItem) (s : Store)
    → ((n : ℕ) → ctx n ≡ none)
    → IsCovered items s.mailbox_by_identity
    → import_mailboxes ctx items skip s
      ≡ (ok (record { created = 0; updated = 0; skipped = length items; mailbox_ids = [] }), s)
unfolding import_mailboxes
import_covered ctx items s going covered =
    rw
      (
        going 0,
        import_items-skips ctx 1 items (initial_progress s) going
            (unfold initial_progress in covered),
      )
      (unfold conclude skipped_by initial_progress in rw zero-add refl)

-- Importing a batch again changes nothing: after a batch went through, under whatever strategy, the
-- same batch under `skip`, on a context that is never cancelled, skips every item and leaves the
-- store as it is.
pub import_mailboxes-again :
    (ctx ctx' : ℕ → Ctx) (items : List MailboxImportItem) (strategy : ConflictStrategy) (s : Store)
    (r : MailboxImportResult)
    → (import_mailboxes ctx items strategy s).0 ≡ ok r
    → ((n : ℕ) → ctx' n ≡ none)
    → let s' = (import_mailboxes ctx items strategy s).1 in
      import_mailboxes ctx' items skip s'
      ≡ (ok (record { created = 0; updated = 0; skipped = length items; mailbox_ids = [] }), s')
import_mailboxes-again ctx ctx' items strategy s r h going =
    let (q, _, done, _, store) = import_mailboxes-eq-ok ctx items strategy s r h in
    import_covered ctx' items (import_mailboxes ctx items strategy s).1 going (
      rw store
        (unfold commit in (import_items-covers ctx 1 strategy items (initial_progress s) q done).1))
