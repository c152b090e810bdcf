-- ===== src/Memory/Mailboxes/Directory.antt =====
-- The maps of the mailboxes implement a directory without an index: a partial function from ids to
-- mailboxes in which no two mailboxes share a provider and an address.
use mathlib.Core.Path.{fun_ext}
use account_manager.Prelude.{
  arith, All, ◌==◌, false, [], ◌∷◌, ok, err, Result, conflict, not_found, ◌≡◌, ◌⊎◌, refl, none,
  some, inl, inr, Bool-cases, Option-cases, Option, Text, text_eq, lookup, has, lookup_of_present,
  lookup_of_absent, lookup-insert, if◌then◌else◌,
}
use account_manager.Domain.{Mailbox, ProviderKey}
use account_manager.Memory.{Store, mailbox_identity, join_key}
use account_manager.Memory.Index.{key_at}
use account_manager.Memory.Mailboxes.{create_mailbox, get_mailbox_by_identity}
use account_manager.Memory.Consistency.{IsConsistent, mailbox_key}

-- The abstract state.
abbrev pub Directory : Type 0
Directory = Text → Option Mailbox

-- What the store stands for: the index is forgotten, and so is the order of the map.
abbrev pub directory : Store → Directory
directory s id = lookup id s.mailboxes

abbrev pub with_mailbox : Mailbox → Directory → Directory
with_mailbox m d id = if text_eq m.id id then some m else d id

-- The mailbox has this provider and this address.
abbrev pub IsAt : ProviderKey → Text → Mailbox → Type 0
IsAt provider address b = (b.provider ≡ provider) × (b.normalized_address ≡ address)

-- A mailbox of the directory that bars `m`: its id is taken, or its provider and address.
abbrev pub IsBarred : Mailbox → Directory → Type 0
IsBarred m d =
    (i : Text) × (b : Mailbox) × (d i ≡ some b)
    × ((i ≡ m.id) ⊎ IsAt m.provider m.normalized_address b)

-- Creation in the directory: it adds a mailbox that nothing bars, and refuses any other.
abbrev pub Creates : Mailbox → Directory → Result (Unit {0}) → Directory → Type 0
Creates m d (ok _) d' =
    ((i : Text) (b : Mailbox)
      → d i ≡ some b
      → (i ≡ m.id → ⊥) × (IsAt m.provider m.normalized_address b → ⊥))
    × (d' ≡ with_mailbox m d)
Creates m d (err e) d' = (e ≡ conflict) × IsBarred m d × (d' ≡ d)

-- A search in the directory by provider and address.
abbrev pub Finds : ProviderKey → Text → Directory → Result (Option Mailbox) → Type 0
Finds provider address d (ok none) = ⊥
Finds provider address d (ok (some b)) = (i : Text) × (d i ≡ some b) × IsAt provider address b
Finds provider address d (err e) =
    (e ≡ not_found) × ((i : Text) (b : Mailbox) → d i ≡ some b → IsAt provider address b → ⊥)

-- A key of a provider, which has no NUL character.
abbrev pub IsKey : ProviderKey → Type 0
IsKey s = All (λ c. c == 0 ≡ false) s

-- The NUL character after the provider tells two identities apart.
join_key-injective :
    (s s' t t' : Text) → IsKey s → IsKey s' → join_key s t ≡ join_key s' t' → (s ≡ s') × (t ≡ t')
unfolding join_key
join_key-injective [] [] t t' h h' e = (refl, cc)
join_key-injective [] (c ∷ s') t t' h (k, h') e = let same : 0 ≡ c = cc in absurd (ground arith)
join_key-injective (c ∷ s) [] t t' (k, h) h' e = let same : c ≡ 0 = cc in absurd (ground arith)
join_key-injective (c ∷ s) (c' ∷ s') t t' (k, h) (k', h') e =
    let rest : join_key s t ≡ join_key s' t' = cc in
    let (providers, addresses) = join_key-injective s s' t t' h h' rest in (cc, addresses)

stored_at :
    (o : Option Mailbox) (k : Text)
    → key_at mailbox_key o ≡ some k
    → (b : Mailbox) × (o ≡ some b) × (mailbox_key b ≡ k)
stored_at none k e = cc
stored_at (some b) k e = (b, refl, cc)

-- Every stored mailbox has a provider without a NUL character.
abbrev pub HasKeys : Store → Type 0
HasKeys s = (i : Text) (b : Mailbox) → lookup i s.mailboxes ≡ some b → IsKey b.provider

-- An index entry leads to a mailbox with its key.
indexed :
    (s : Store) (provider : ProviderKey) (address id : Text)
    → IsConsistent s
    → HasKeys s
    → IsKey provider
    → lookup (mailbox_identity provider address) s.mailbox_by_identity ≡ some id
    → (b : Mailbox) × (lookup id s.mailboxes ≡ some b) × IsAt provider address b
indexed s provider address id c plain key e =
    let (b, found, same) =
      stored_at (lookup id s.mailboxes) (mailbox_identity provider address)
        (c.mailboxes.from_index (mailbox_identity provider address) id e) in
    (
      b,
      found,
      join_key-injective b.provider provider b.normalized_address address (plain id b found) key
          same,
    )

-- A stored mailbox with the identity is in the index.
at_index :
    (s : Store) (provider : ProviderKey) (address i : Text) (b : Mailbox)
    → IsConsistent s
    → lookup i s.mailboxes ≡ some b
    → IsAt provider address b
    → lookup (mailbox_identity provider address) s.mailbox_by_identity ≡ some i
at_index s provider address i b c found (same, same') =
    cc ((c.mailboxes.to_index i b found).1, same, same')

create_mailbox-Creates :
    (m : Mailbox) (s : Store)
    → IsConsistent s
    → HasKeys s
    → IsKey m.provider
    → Creates m (directory s) (create_mailbox none m s).0 (directory (create_mailbox none m s).1)
unfolding create_mailbox
create_mailbox-Creates m s c plain key = elim (Bool-cases (has m.id s.mailboxes)) [
  | inl taken ↦
      let (b, found) = lookup_of_present m.id s.mailboxes taken in
      rw taken (refl, (m.id, b, found, inl refl), refl)
  | inr free ↦ elim (Bool-cases (has (mailbox_key m) s.mailbox_by_identity)) [
    | inl known ↦
        let (id, leads) = lookup_of_present (mailbox_key m) s.mailbox_by_identity known in
        let (b, found, same) = indexed s m.provider m.normalized_address id c plain key leads in
        rw (free, known) (refl, (id, b, found, inr same), refl)
    | inr fresh ↦
        rw (free, fresh)
          (
            (λ i b found. (
              (λ same. cc (lookup_of_absent m.id s.mailboxes free, found, same)),
              (λ same. cc (
                lookup_of_absent (mailbox_key m) s.mailbox_by_identity fresh,
                at_index s m.provider m.normalized_address i b c found same,
              )),
            )),
            fun_ext (λ i. lookup-insert m.id i m s.mailboxes),
          )
  ]
]

get_by_identity-Finds :
    (provider : ProviderKey) (address : Text) (s : Store)
    → IsConsistent s
    → HasKeys s
    → IsKey provider
    → Finds provider address (directory s) (get_mailbox_by_identity none provider address s)
unfolding get_mailbox_by_identity
get_by_identity-Finds provider address s c plain key =
    elim (Option-cases (lookup (mailbox_identity provider address) s.mailbox_by_identity)) [
      | inl missing ↦
          rw missing
            (refl, λ i b found same. cc (missing, at_index s provider address i b c found same))
      | inr (id, leads) ↦
          let (b, found, same) = indexed s provider address id c plain key leads in
          rw (leads, found) (id, found, same)
    ]

-- The mailboxes of the memory store, with their index, refine a directory that has no index, as long
-- as no provider has a NUL character. On a consistent store and a live context a creation is one of the
-- directory: it adds exactly the mailbox, when no stored one has its id or both its provider and its
-- address, and otherwise it is refused as a conflict and changes nothing. A search by provider and
-- address finds a stored mailbox that has both, and reports that there is none only when none has.
pub mailboxes-directory :
    (m : Mailbox) (provider : ProviderKey) (address : Text) (s : Store)
    → IsConsistent s
    → HasKeys s
    → IsKey m.provider
    → IsKey provider
    → Creates m (directory s) (create_mailbox none m s).0 (directory (create_mailbox none m s).1)
      × Finds provider address (directory s) (get_mailbox_by_identity none provider address s)
mailboxes-directory m provider address s c plain key key' =
    (create_mailbox-Creates m s c plain key, get_by_identity-Finds provider address s c plain key')
