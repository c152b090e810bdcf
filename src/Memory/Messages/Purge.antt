-- ===== src/Memory/Messages/Purge.antt =====
-- The deletions of cached messages in bulk.
use account_manager.Prelude.{
  ◌≡◌, refl, ap, none, inl, inr, arith, ℤ, pos, negsuc, ℕ, zero, suc, ◌+◌, ◌≤◌, Bool, Bool-cases,
  not, values, ok, Option, Text, Map, [], ◌∷◌, length, keep_if, count_if, leb, ◌==◌,
}
use account_manager.Domain.{CachedMessage, MessageFolder, Time}
use account_manager.Ports.{normalize_limit, MessageCacheFilter}
use account_manager.Memory.{Store}
use account_manager.Memory.Messages.{
  delete_matching, message_matches_cache_filter, delete_cached_messages_range,
  purge_cached_messages, purgeable,
}
use Prim.Native.Nat.{min}

-- What a loop that deletes up to `limit` matching messages leaves.
pub record IsDeletion (p : CachedMessage → Bool) (limit start : ℕ) (ms : Map CachedMessage)
    (left : Map CachedMessage) (count : ℕ) : Type 0 where
  pub counted : length left + count ≡ length ms + start
  pub least : count ≡ min (start + count_if p (values ms)) limit
  pub others : keep_if (λ m. not (p m)) (values left) ≡ keep_if (λ m. not (p m)) (values ms)

-- The limit that a given one stands for.
abbrev pub IsLimit : ℤ → ℕ → ℕ → ℕ → Type 0
IsLimit (negsuc n) default cap limit = limit ≡ default
IsLimit (pos zero) default cap limit = limit ≡ default
IsLimit (pos (suc n)) default cap limit = limit ≡ min (suc n) cap

normalize_limit-IsLimit :
    (given : ℤ) (default cap : ℕ)
    → 1 ≤ default
    → default ≤ cap
    → IsLimit given default cap (normalize_limit given default cap)
unfolding normalize_limit
normalize_limit-IsLimit (negsuc n) default cap h k = ground arith
normalize_limit-IsLimit (pos zero) default cap h k = ground arith
normalize_limit-IsLimit (pos (suc n)) default cap h k = ground arith

delete_matching-IsDeletion :
    (p : CachedMessage → Bool) (full : ℕ → Bool) (limit start : ℕ) (ms : Map CachedMessage)
    → ((n : ℕ) → n ≤ limit → full n ≡ leb limit n)
    → start ≤ limit
    → IsDeletion p limit start ms
        (delete_matching p full start ms).0
        (delete_matching p full start ms).1
unfolding delete_matching values
delete_matching-IsDeletion p full limit start [] f h = record {
  counted = refl;
  least = omega arith;
  others = refl;
}
delete_matching-IsDeletion p full limit start ((k, m) ∷ ms) f h = elim (Bool-cases (p m)) [
  | inr miss ↦
      let r = delete_matching-IsDeletion p full limit start ms f h in
      elim (Bool-cases (full start)) [
        | inl e ↦ rw e (record {
          counted = omega (arith, r.counted);
          least = rw miss r.least;
          others = rw miss (ap (λ ms. m ∷ ms) r.others);
        })
        | inr e ↦
            rw (e, miss)
              (record {
                counted = omega (arith, r.counted);
                least = rw miss r.least;
                others = rw miss (ap (λ ms. m ∷ ms) r.others);
              })
      ]
  | inl hit ↦ elim (Bool-cases (full start)) [
    | inl e ↦
        let r = delete_matching-IsDeletion p full limit start ms f h in
        rw e (record {
          counted = omega (arith, r.counted);
          least = rw hit (ground (arith, r.least, f start h));
          others = rw hit r.others;
        })
    | inr e ↦
        let r =
          delete_matching-IsDeletion p full limit (start + 1) ms f (ground (arith, f start h)) in
        rw (e, hit)
          (record {
            counted = omega (arith, r.counted);
            least = rw hit (omega (arith, r.least));
            others = rw hit r.others;
          })
  ]
]

-- Both deletions by criteria remove only messages that match. They return the lesser of the limit and
-- the number of messages that match, the cache has so many fewer messages, and the messages that do
-- not match stay, in order. The limit is the given one, 500 (1000 for a range) if that is not positive,
-- and at most 5000 (100000 for a range).
pub purge_and_range-IsDeletion :
    (to_lower : Text → Text) (equal_fold : Text → Text → Bool) (mailbox_id : Text)
    (folder : MessageFolder) (before : Option Time) (filter : MessageCacheFilter) (given : ℤ)
    (s : Store)
    → let matches =
        λ (m : CachedMessage). message_matches_cache_filter to_lower equal_fold m filter [] in
      let purged = purge_cached_messages none mailbox_id folder before given s in
      let ranged = delete_cached_messages_range to_lower equal_fold none filter given s in
      ((n limit : ℕ) × (purged.0 ≡ ok n)
        × IsLimit given 500 5000 limit
        × IsDeletion
            (purgeable mailbox_id folder before)
            limit
            0
            s.cached_messages
            purged.1.cached_messages
            n)
      × ((n limit : ℕ) × (ranged.0 ≡ ok n)
          × IsLimit given 1000 100000 limit
          × IsDeletion matches limit 0 s.cached_messages ranged.1.cached_messages n)
unfolding purge_cached_messages delete_cached_messages_range
purge_and_range-IsDeletion to_lower equal_fold mailbox_id folder before filter given s =
    let matches =
      λ (m : CachedMessage). message_matches_cache_filter to_lower equal_fold m filter [] in
    let k = normalize_limit given 500 5000 in
    let l = normalize_limit given 1000 100000 in
    (
      (
        _,
        k,
        refl,
        normalize_limit-IsLimit given 500 5000 (omega arith) (omega arith),
        delete_matching-IsDeletion (purgeable mailbox_id folder before) (λ n. leb k n) k 0
            s.cached_messages (λ n _. refl) (omega arith),
      ),
      (
        _,
        l,
        refl,
        normalize_limit-IsLimit given 1000 100000 (omega arith) (omega arith),
        delete_matching-IsDeletion matches (λ n. n == l) l 0 s.cached_messages (λ n h. ground arith)
            (omega arith),
      ),
    )
