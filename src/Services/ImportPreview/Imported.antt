-- ===== src/Services/ImportPreview/Imported.antt =====
-- How many mailboxes an import creates: the identities that are new, one after the other.
use mathlib.Core.Path.{fun_ext}
use account_manager.Prelude.{
  ok, ◌>>=◌, >>=-eq-ok, live-eq-ok, ok-injective, err-ne-ok, Ctx, ℕ, suc, ◌+◌, Bool, true, false,
  ◌||◌, Option, none, some, List, [], ◌∷◌, map, Text, text_eq, text_eq_iff, has, has-lookup,
  has-insert, lookup, ◌≡◌, refl, subst, sym, ap, ◌∙◌, arith, inl, inr, Bool-cases, if◌then◌else◌,
}
use account_manager.Domain.{Mailbox, MailboxImportItem, ConflictStrategy}
use account_manager.Domain.ConflictStrategy.{skip, update, fail, other}
use account_manager.Memory.Consistency.{mailbox_key}
use account_manager.Memory.Import.{
  Progress, update_existing, create_new, import_over, import_item, import_items,
}
use account_manager.Memory.Import.Steps.{
  finish_item-eq-ok, update_credential-SameMailboxes, create_credential-SameMailboxes,
}

-- How many of the keys are new, one after the other, beside those known.
unfoldable pub new_of : (Text → Bool) → List Text → ℕ
new_of known [] = 0
new_of known (k ∷ keys) =
    let rest = new_of (λ j. text_eq k j || known j) keys in if known k then rest else suc rest

-- One step on both sides: the count after a key, and what is known then.
abbrev pub IsTaken : Text → (Text → Bool) → ℕ → (Text → Bool) → ℕ → Type 0
IsTaken k known n known' n' =
    (n' ≡ (if known k then n else n + 1)) × ((j : Text) → known' j ≡ (text_eq k j || known j))

pub new_of-next :
    (k : Text) (keys : List Text) (known known' : Text → Bool) (n n' last : ℕ)
    → IsTaken k known n known' n'
    → last ≡ n' + new_of known' keys
    → last ≡ n + new_of known (k ∷ keys)
unfolding new_of
new_of-next k keys known known' n n' last (counted, knows) h =
    let same = ap (λ f. new_of f keys) (fun_ext knows) in
    elim (Bool-cases (known k)) [
      | inl old ↦ rw old (let counted' = rw old at counted in omega (arith, h, same, counted'))
      | inr new ↦ rw new (let counted' = rw new at counted in omega (arith, h, same, counted'))
    ]

-- A key that is known already changes nothing.
IsTaken-known :
    (k : Text) (known : Text → Bool) (n : ℕ) → known k ≡ true → IsTaken k known n known n
IsTaken-known k known n old = (
  rw old refl,
  λ j. elim (Bool-cases (text_eq k j)) [
    | inl e ↦ rw e (subst (λ x. known x ≡ true) ((text_eq_iff k j).0 e) old)
    | inr e ↦ rw e refl
  ],
)

abbrev pub identities_of : Progress → Text → Bool
identities_of p j = has j p.staged.identities

create_new-IsTaken :
    (item : MailboxImportItem) (p q : Progress)
    → has (mailbox_key item.mailbox) p.staged.identities ≡ false
    → create_new item p ≡ ok q
    → IsTaken
        (mailbox_key item.mailbox)
        (identities_of p)
        p.result.created
        (identities_of q)
        q.result.created
unfolding create_new
create_new-IsTaken item p q fresh done =
    elim (Bool-cases (has item.mailbox.id p.staged.mailboxes)) [
      | inl taken ↦ absurd (err-ne-ok (rw taken at done))
      | inr free ↦
          let (same, result) = finish_item-eq-ok item item.mailbox.id _ _ q (rw free at done) in
          (
            rw fresh (ap (λ r. r.created) result),
            λ j.
                ap (has j) (
                  same.identities
                  ∙ (create_credential-SameMailboxes item.credential item.mailbox.id _).identities)
                ∙ has-insert (mailbox_key item.mailbox) j item.mailbox.id p.staged.identities,
          )
    ]

update_existing-IsTaken :
    (item : MailboxImportItem) (id : Text) (p q : Progress)
    → has (mailbox_key item.mailbox) p.staged.identities ≡ true
    → update_existing item id p ≡ ok q
    → IsTaken
        (mailbox_key item.mailbox)
        (identities_of p)
        p.result.created
        (identities_of q)
        q.result.created
unfolding update_existing
update_existing-IsTaken item id p q old done =
    let (same, result) = finish_item-eq-ok item id _ _ q done in
    let (counted, knows) =
      IsTaken-known (mailbox_key item.mailbox) (identities_of p) p.result.created old in
    (
      ap (λ r. r.created) result ∙ counted,
      λ j.
          ap (has j)
            (same.identities ∙ (update_credential-SameMailboxes item.credential id _).identities)
          ∙ knows j,
    )

import_over-IsTaken :
    (strategy : ConflictStrategy) (o : Option Text) (item : MailboxImportItem) (p q : Progress)
    → lookup (mailbox_key item.mailbox) p.staged.identities ≡ o
    → import_over strategy o item p ≡ ok q
    → IsTaken
        (mailbox_key item.mailbox)
        (identities_of p)
        p.result.created
        (identities_of q)
        q.result.created
unfolding import_over
import_over-IsTaken strategy none item p q e done =
    create_new-IsTaken item p q
      (ground (arith, has-lookup (mailbox_key item.mailbox) p.staged.identities)) done
import_over-IsTaken skip (some id) item p q e done =
    subst
      (λ x.
        IsTaken (mailbox_key item.mailbox) (identities_of p) p.result.created (identities_of x)
          x.result.created)
      (ok-injective done)
      (IsTaken-known (mailbox_key item.mailbox) (identities_of p) p.result.created
        (ground (arith, has-lookup (mailbox_key item.mailbox) p.staged.identities)))
import_over-IsTaken fail (some id) item p q e done = absurd (err-ne-ok done)
import_over-IsTaken update (some id) item p q e done =
    update_existing-IsTaken item id p q
      (ground (arith, has-lookup (mailbox_key item.mailbox) p.staged.identities)) done
import_over-IsTaken (other name) (some id) item p q e done =
    subst
      (λ x.
        IsTaken (mailbox_key item.mailbox) (identities_of p) p.result.created (identities_of x)
          x.result.created)
      (ok-injective done)
      (IsTaken-known (mailbox_key item.mailbox) (identities_of p) p.result.created
        (ground (arith, has-lookup (mailbox_key item.mailbox) p.staged.identities)))

abbrev pub mailbox_of : MailboxImportItem → Mailbox
mailbox_of item = item.mailbox

pub import_items-new :
    (ctx : ℕ → Ctx) (i : ℕ) (strategy : ConflictStrategy) (items : List MailboxImportItem)
    (p q : Progress)
    → import_items ctx i strategy items p ≡ ok q
    → q.result.created
      ≡ p.result.created + new_of (identities_of p) (map mailbox_key (map mailbox_of items))
unfolding import_items import_item
import_items-new ctx i strategy [] p q done =
    unfold new_of in (sym (ap (λ x. x.result.created) (ok-injective done)) ∙ omega arith)
import_items-new ctx i strategy (item ∷ items) p q done =
    let (_, going) =
      live-eq-ok (ctx i) (import_item strategy item p >>= import_items ctx (suc i) strategy items)
        done in
    let (p', stepped, rest) = >>=-eq-ok (import_item strategy item p) _ going in
    new_of-next (mailbox_key item.mailbox) (map mailbox_key (map mailbox_of items))
      (identities_of p) (identities_of p') p.result.created p'.result.created q.result.created
      (import_over-IsTaken strategy _ item p p' refl stepped)
      (import_items-new ctx (suc i) strategy items p' q rest)
