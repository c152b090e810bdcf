-- ===== src/Memory/Messages/Cleanup/Bounds.antt =====
-- How many messages one cleanup deletes.
use account_manager.Prelude.{
  ◌≡◌, ℕ, suc, ◌+◌, ◌≤◌, ℤ, inl, inr, arith, Bool-cases, leb, ltb, Ctx, ok, none, some, err-ne-ok,
  ok-injective, List, [], ◌∷◌, Map, values, sort_by,
}
use account_manager.Domain.{CachedMessage, Time}
use account_manager.Ports.{normalize_limit}
use account_manager.Ports.Pages.{normalize_limit_bounds}
use account_manager.Memory.{Store}
use account_manager.Memory.Messages.Cleanup.{
  expired, cleanup_items, cleanup_groups, group_messages, keep_rest, cleanup_cached_messages,
}

cleanup_items-le :
    (before : Time) (max batch index : ℕ) (items : List CachedMessage) (deleted : ℕ)
    (m : Map CachedMessage)
    → deleted ≤ batch
    → (cleanup_items before max batch index items deleted m).1 ≤ batch
unfolding cleanup_items
cleanup_items-le before max batch index [] deleted m h = h
cleanup_items-le before max batch index (item ∷ items) deleted m h =
    elim (Bool-cases (leb batch deleted)) [
      | inl full ↦ rw full h
      | inr room ↦ elim (Bool-cases (expired before max index item)) [
        | inl hit ↦
            rw (room, hit)
              (cleanup_items-le before max batch (suc index) items (deleted + 1) _ (ground arith))
        | inr keep ↦
            rw (room, keep) (cleanup_items-le before max batch (suc index) items deleted m h)
      ]
    ]

cleanup_groups-le :
    (before : Time) (max batch : ℕ) (groups : List (List CachedMessage)) (deleted : ℕ)
    (m : Map CachedMessage)
    → deleted ≤ batch
    → (cleanup_groups before max batch groups deleted m).1 ≤ batch
unfolding cleanup_groups
cleanup_groups-le before max batch [] deleted m h = h
cleanup_groups-le before max batch (items ∷ groups) deleted m h =
    cleanup_groups-le before max batch groups _ _ (
      cleanup_items-le before max batch 0 (sort_by (λ a b. ltb b.received_at a.received_at) items)
        deleted m h)

-- One cleanup deletes at most 10000 messages, whatever batch is asked for.
pub cleanup_cached_messages-le :
    (ctx : Ctx) (before : Time) (max batch : ℤ) (n : ℕ) (s : Store)
    → (cleanup_cached_messages ctx before max batch s).0 ≡ ok n
    → n ≤ 10000
unfolding cleanup_cached_messages keep_rest
cleanup_cached_messages-le (some e) before max batch n s h = absurd (err-ne-ok h)
cleanup_cached_messages-le none before max batch n s h = omega (
  arith,
  ok-injective h,
  cleanup_groups-le before (normalize_limit max 5000 1000000) (normalize_limit batch 1000 10000)
      (values (group_messages (values s.cached_messages) [])) 0 s.cached_messages (omega arith),
  (normalize_limit_bounds batch 1000 10000 (omega arith) (omega arith)).1,
)
