-- ===== src/Memory/Messages.antt =====
-- MessageCacheRepository of memory/message_cache.go: cached messages by mailbox, folder and external
-- id, and the synchronization states by target and folder.
pub mod Cleanup
pub mod Upsert
pub mod Purge
pub mod SyncState
use account_manager.Prelude.{
  ok, err, Result, Ctx, live, live_on, found, not_found, ℤ, pos, ℕ, zero, suc, ◌+◌, ltb, leb, ◌==◌,
  Bool, true, false, ◌||◌, ◌&&◌, not, Option, none, some, Text, text_eq, text_ltb, trim_space,
  is_empty, contains, List, [], ◌∷◌, ◌++◌, Map, length, keep_if, lookup, has, insert, delete,
  values, sort_by, if◌then◌else◌,
}
use account_manager.Domain.{CachedMessage, MessageFolder, MessageSyncState, RetrievalMethod, Time}
use account_manager.Ports.{
  ListOptions, MessageCacheFilter, normalize, normalize_limit, page_of, paginate,
}
use account_manager.Memory.{Store, join_key}

-- cachedMessageIdentity
abbrev pub cached_message_identity : Text → MessageFolder → Text → Text
cached_message_identity mailbox_id folder external_id =
    join_key mailbox_id (join_key folder external_id)

-- messageSyncIdentity
abbrev pub message_sync_identity : Text → MessageFolder → Text
message_sync_identity target_id folder = join_key target_id folder

abbrev pub identity_of : CachedMessage → Text
identity_of m = cached_message_identity m.mailbox_id m.folder m.external_id

-- a message that is there already and was viewed stays viewed
unfoldable pub keep_viewed : Option CachedMessage → CachedMessage → CachedMessage
keep_viewed none m = m
keep_viewed (some current) m = elim m.viewed_at [
  | none ↦ record m { viewed_at = current.viewed_at }
  | some _ ↦ m
]

unfoldable pub count_new : Option CachedMessage → ℕ → ℕ
count_new none changed = changed + 1
count_new (some current) changed = changed

-- one round of the loop of UpsertCachedMessages, for a message whose mailbox is there
unfoldable pub upsert_message : CachedMessage → Store → Store
unfolding keep_viewed
upsert_message m s =
    let key = identity_of m in
    record s {
      cached_messages = insert key (keep_viewed (lookup key s.cached_messages) m) s.cached_messages;
    }

-- the loop; it writes to the store as it goes
unfoldable pub upsert_messages : List CachedMessage → ℕ → Store → Result ℕ × Store
unfolding count_new
upsert_messages [] changed s = (ok changed, s)
upsert_messages (m ∷ ms) changed s =
    let rest =
      upsert_messages ms (count_new (lookup (identity_of m) s.cached_messages) changed)
        (upsert_message m s) in
    if has m.mailbox_id s.mailboxes then rest else (err not_found, s)

-- Store.UpsertCachedMessages
unfoldable pub upsert_cached_messages : Ctx → List CachedMessage → Store → Result ℕ × Store
upsert_cached_messages ctx messages s = live_on ctx s (upsert_messages messages 0 s)

-- Store.GetMessageSyncState
unfoldable pub get_message_sync_state : Ctx → Text → MessageFolder → Store → Result MessageSyncState
get_message_sync_state ctx target_id folder s =
    live ctx (found (lookup (message_sync_identity target_id folder) s.message_sync_states))

-- `current != nil && (given == nil || current.After(*given))` keeps the current time
later_of : Option Time → Option Time → Option Time
later_of none given = given
later_of (some t) none = some t
later_of (some t) (some given) = if ltb given t then some t else some given

abbrev pub last_message_of : Option MessageSyncState → Option Time
last_message_of none = none
last_message_of (some state) = state.last_message_at

-- Store.SaveMessageSyncState
unfoldable pub save_message_sync_state : Ctx → MessageSyncState → Store → Result (Unit {0}) × Store
unfolding later_of
save_message_sync_state ctx state s =
    let key = message_sync_identity state.target_id state.folder in
    let last =
      later_of (last_message_of (lookup key s.message_sync_states)) state.last_message_at in
    live_on ctx s (
      ok tt,
      record s {
        message_sync_states =
            insert key (record state { last_message_at = last }) s.message_sync_states;
      },
    )

-- Store.ResetMessageSyncState
unfoldable pub reset_message_sync_state :
    Ctx → Text → MessageFolder → Store → Result (Unit {0}) × Store
reset_message_sync_state ctx target_id folder s = live_on ctx s (
  ok tt,
  record s {
    message_sync_states = delete (message_sync_identity target_id folder) s.message_sync_states;
  },
)

-- the entries that the loop of MarkCachedMessageViewed leaves; `none` when no message is found
unfoldable pub mark_viewed : Text → Text → Time → Map CachedMessage → Option (Map CachedMessage)
mark_viewed mailbox_id message_id at [] = none
mark_viewed mailbox_id message_id at ((key, m) ∷ ms) =
    let rest = mark_viewed mailbox_id message_id at ms in
    if not (text_eq m.mailbox_id mailbox_id) || not (text_eq m.id message_id)
    then elim rest [ none ↦ none | some ms' ↦ some ((key, m) ∷ ms') ]
    else elim m.viewed_at [
      | none ↦ some ((key, record m { viewed_at = some at; updated_at = at }) ∷ ms)
      | some _ ↦ some ((key, m) ∷ ms)
    ]

unfoldable pub mark_result : Option (Map CachedMessage) → Store → Result (Unit {0}) × Store
mark_result none s = (err not_found, s)
mark_result (some ms) s = (ok tt, record s { cached_messages = ms })

-- Store.MarkCachedMessageViewed
unfoldable pub mark_cached_message_viewed :
    Ctx → Text → Text → Time → Store → Result (Unit {0}) × Store
unfolding mark_viewed mark_result
mark_cached_message_viewed ctx mailbox_id message_id viewed_at s =
    live_on ctx s (mark_result (mark_viewed mailbox_id message_id viewed_at s.cached_messages) s)

-- The loops that delete while they range over the map: an entry that matches is deleted unless the
-- count is full. Once it is full it stays so, as after the `break` of the source.
unfoldable pub delete_matching :
    (CachedMessage → Bool) → (ℕ → Bool) → ℕ → Map CachedMessage → Map CachedMessage × ℕ
delete_matching p full deleted [] = ([], deleted)
delete_matching p full deleted ((key, m) ∷ ms) =
    let hit = not (full deleted) && p m in
    let (kept, count) = delete_matching p full (if hit then deleted + 1 else deleted) ms in
    (if hit then kept else (key, m) ∷ kept, count)

abbrev keep_entries : Map CachedMessage × ℕ → Store → Result ℕ × Store
keep_entries (kept, count) s = (ok count, record s { cached_messages = kept })

-- `_, matchesID := ids[id]`
one_of : List Text → Text → Bool
one_of [] id = false
one_of (x ∷ xs) id = text_eq x id || one_of xs id

abbrev pub named_by : Text → MessageFolder → RetrievalMethod → List Text → CachedMessage → Bool
unfolding one_of
named_by mailbox_id folder method provider_ids m =
    text_eq m.mailbox_id mailbox_id
    && text_eq m.folder folder
    && (is_empty method || text_eq m.retrieval_method method)
    && one_of provider_ids m.provider_message_id

-- Store.DeleteCachedMessages
unfoldable pub delete_cached_messages :
    Ctx → Text → MessageFolder → RetrievalMethod → List Text → Store → Result ℕ × Store
unfolding one_of
delete_cached_messages ctx mailbox_id folder method provider_ids s = live_on ctx s (
    keep_entries
      (delete_matching (named_by mailbox_id folder method provider_ids) (λ _. false) 0
        s.cached_messages)
      s)

-- `before == nil || m.ReceivedAt.Before(*before)`
abbrev pub received_before : Option Time → CachedMessage → Bool
received_before none m = true
received_before (some t) m = ltb m.received_at t

-- `after == nil || !m.ReceivedAt.Before(*after)`
abbrev pub received_from : Option Time → CachedMessage → Bool
received_from none m = true
received_from (some t) m = not (ltb m.received_at t)

abbrev pub purgeable : Text → MessageFolder → Option Time → CachedMessage → Bool
purgeable mailbox_id folder before m =
    text_eq m.mailbox_id mailbox_id
    && (is_empty folder || text_eq m.folder folder)
    && received_before before m

-- Store.PurgeCachedMessages
unfoldable pub purge_cached_messages :
    Ctx → Text → MessageFolder → Option Time → ℤ → Store → Result ℕ × Store
purge_cached_messages ctx mailbox_id folder before given s =
    let limit = normalize_limit given 500 5000 in
    live_on ctx s (
      keep_entries
        (delete_matching (purgeable mailbox_id folder before) (λ deleted. leb limit deleted) 0
          s.cached_messages)
        s)

-- `to_lower` is strings.ToLower and `equal_fold` is strings.EqualFold
module _ (to_lower : Text → Text) (equal_fold : Text → Text → Bool) where
  -- stringSliceContains
  string_slice_contains : List Text → Text → Bool
  string_slice_contains [] target = false
  string_slice_contains (v ∷ vs) target =
      equal_fold (trim_space v) target || string_slice_contains vs target

  -- newest first, then by id
  newer : CachedMessage → CachedMessage → Bool
  newer a b =
      if a.received_at == b.received_at then text_ltb a.id b.id else ltb b.received_at a.received_at

  -- Store.ListCachedMessages
  unfoldable pub list_cached_messages :
      Ctx → Text → MessageFolder → Text → ListOptions → Store → Result (List CachedMessage)
  unfolding string_slice_contains newer
  list_cached_messages ctx mailbox_id folder given options s =
      let recipient = to_lower (trim_space given) in
      live ctx (
        ok (
          paginate
            (sort_by newer (
              keep_if
                (λ m. not (
                  not (text_eq m.mailbox_id mailbox_id)
                  || not (text_eq m.folder folder)
                  || (not (is_empty recipient)
                      && not (string_slice_contains m.recipient_addresses recipient))))
                (values s.cached_messages)))
            options))

  -- messageMatchesCacheFilter
  unfoldable pub message_matches_cache_filter : CachedMessage → MessageCacheFilter → Text → Bool
  message_matches_cache_filter m filter search =
      if not (is_empty filter.mailbox_id) && not (text_eq m.mailbox_id filter.mailbox_id)
      then false
      else if not (is_empty filter.folder) && not (text_eq m.folder filter.folder)
      then false
      else if not (received_from filter.after m)
      then false
      else if not (received_before filter.before m)
      then false
      else is_empty search
        || contains search (to_lower (m.subject ++ b'\n' ∷ (m.sender ++ b'\n' ∷ m.body)))

  -- Store.QueryCachedMessages
  unfoldable pub query_cached_messages :
      Ctx → MessageCacheFilter → ListOptions → Store → Result (List CachedMessage × ℕ)
  query_cached_messages ctx filter options s =
      let search = to_lower (trim_space filter.search) in
      let items =
        sort_by (λ a b. ltb b.received_at a.received_at)
          (keep_if (λ m. message_matches_cache_filter m filter search)
            (values s.cached_messages)) in
      let window = normalize options 100 5000 in
      live ctx (
        ok (
          paginate items (record { limit = pos window.limit; offset = pos window.offset }),
          length items,
        ))

  -- Store.DeleteCachedMessagesRange
  unfoldable pub delete_cached_messages_range :
      Ctx → MessageCacheFilter → ℤ → Store → Result ℕ × Store
  delete_cached_messages_range ctx filter given s =
      let limit = normalize_limit given 1000 100000 in
      live_on ctx s (
        keep_entries
          (delete_matching (λ m. message_matches_cache_filter m filter [])
            (λ deleted. deleted == limit) 0 s.cached_messages)
          s)
