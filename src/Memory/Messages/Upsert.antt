-- ===== src/Memory/Messages/Upsert.antt =====
-- Upserts.
use account_manager.Prelude.{
  ◌≡◌, refl, ap, none, some, true, false, inl, inr, arith, ℕ, ◌+◌, Bool, Bool-cases, Option-cases,
  has, lookup, lookup-insert, has-lookup, has_of_lookup, values, size-insert, Ctx, ok, err-ne-ok,
  ok-injective, Option, Text, text_eq, text_eq_iff, List, [], ◌∷◌, length,
}
use account_manager.Domain.{CachedMessage}
use account_manager.Memory.{Store}
use account_manager.Memory.Messages.{
  identity_of, keep_viewed, count_new, upsert_message, upsert_messages, upsert_cached_messages,
}

abbrev pub size : Store → ℕ
size s = length (values s.cached_messages)

upsert_message-size :
    (m : CachedMessage) (changed : ℕ) (s : Store)
    → size (upsert_message m s) + changed
      ≡ size s + count_new (lookup (identity_of m) s.cached_messages) changed
unfolding upsert_message count_new
upsert_message-size m changed s = elim (Option-cases (lookup (identity_of m) s.cached_messages)) [
  | inl new ↦
      rw
        (
          size-insert (identity_of m) (keep_viewed (lookup (identity_of m) s.cached_messages) m)
              s.cached_messages,
          new,
          has-lookup (identity_of m) s.cached_messages,
          new,
        )
        (omega arith)
  | inr (old, known) ↦
      rw
        (
          size-insert (identity_of m) (keep_viewed (lookup (identity_of m) s.cached_messages) m)
              s.cached_messages,
          known,
          has_of_lookup (identity_of m) old s.cached_messages known,
        )
        refl
]

upsert_messages-size :
    (ms : List CachedMessage) (changed n : ℕ) (s : Store)
    → (upsert_messages ms changed s).0 ≡ ok n
    → size (upsert_messages ms changed s).1 + changed ≡ size s + n
unfolding upsert_messages
upsert_messages-size [] changed n s done = ap (λ x. size s + x) (ok-injective done)
upsert_messages-size (m ∷ ms) changed n s done = elim (Bool-cases (has m.mailbox_id s.mailboxes)) [
  | inr missing ↦ absurd (err-ne-ok (rw missing at done))
  | inl there ↦ rw there (
      omega (
        arith,
        upsert_messages-size ms (count_new (lookup (identity_of m) s.cached_messages) changed) n
            (upsert_message m s) (rw there at done),
        upsert_message-size m changed s,
      ))
]

abbrev pub is_viewed : Option CachedMessage → Bool
is_viewed none = false
is_viewed (some m) = elim m.viewed_at [ none ↦ false | some t ↦ true ]

keep_viewed-is_viewed :
    (o : Option CachedMessage) (m : CachedMessage)
    → is_viewed o ≡ true
    → is_viewed (some (keep_viewed o m)) ≡ true
unfolding keep_viewed
keep_viewed-is_viewed none m h = cc
keep_viewed-is_viewed (some old) m h = elim (Option-cases m.viewed_at) [
  | inl e ↦ rw e h
  | inr (t, e) ↦ ground arith
]

upsert_message-viewed :
    (k : Text) (m : CachedMessage) (s : Store)
    → is_viewed (lookup k s.cached_messages) ≡ true
    → is_viewed (lookup k (upsert_message m s).cached_messages) ≡ true
unfolding upsert_message
upsert_message-viewed k m s h = elim (Bool-cases (text_eq (identity_of m) k)) [
  | inr other ↦
      rw
        (
          lookup-insert (identity_of m) k (keep_viewed (lookup (identity_of m) s.cached_messages) m)
              s.cached_messages,
          other,
        )
        h
  | inl same ↦
      rw
        (
          lookup-insert (identity_of m) k (keep_viewed (lookup (identity_of m) s.cached_messages) m)
              s.cached_messages,
          same,
        )
        (keep_viewed-is_viewed (lookup (identity_of m) s.cached_messages) m
          (rw ((text_eq_iff (identity_of m) k).0 same) h))
]

upsert_messages-viewed :
    (k : Text) (ms : List CachedMessage) (changed : ℕ) (s : Store)
    → is_viewed (lookup k s.cached_messages) ≡ true
    → is_viewed (lookup k (upsert_messages ms changed s).1.cached_messages) ≡ true
unfolding upsert_messages
upsert_messages-viewed k [] changed s h = h
upsert_messages-viewed k (m ∷ ms) changed s h = elim (Bool-cases (has m.mailbox_id s.mailboxes)) [
  | inr missing ↦ rw missing h
  | inl there ↦ rw there (
      upsert_messages-viewed k ms (count_new (lookup (identity_of m) s.cached_messages) changed)
        (upsert_message m s) (upsert_message-viewed k m s h))
]

-- A message that was viewed stays viewed, whatever messages are upserted, under the same identity or
-- another, and whether the call succeeds or not.
pub upsert_cached_messages-viewed :
    (ctx : Ctx) (k : Text) (ms : List CachedMessage) (s : Store)
    → is_viewed (lookup k s.cached_messages) ≡ true
    → is_viewed (lookup k (upsert_cached_messages ctx ms s).1.cached_messages) ≡ true
unfolding upsert_cached_messages
upsert_cached_messages-viewed none k ms s h = upsert_messages-viewed k ms 0 s h
upsert_cached_messages-viewed (some e) k ms s h = h

-- The number that an upsert returns is the number of messages that the cache has more than before.
pub upsert_cached_messages-counts :
    (ctx : Ctx) (ms : List CachedMessage) (n : ℕ) (s : Store)
    → (upsert_cached_messages ctx ms s).0 ≡ ok n
    → length (values (upsert_cached_messages ctx ms s).1.cached_messages)
      ≡ length (values s.cached_messages) + n
unfolding upsert_cached_messages
upsert_cached_messages-counts none ms n s done = omega (arith, upsert_messages-size ms 0 n s done)
upsert_cached_messages-counts (some e) ms n s done = absurd (err-ne-ok done)
