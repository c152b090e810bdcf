-- ===== src/Memory/Consistency/Frames.antt =====
-- The writes to settings, cached messages, synchronization states, capabilities and the lease touch
-- none of the maps that the constraints are about.
use account_manager.Prelude.{
  none, some, inl, inr, ℕ, ℤ, ◌||◌, not, Bool, Bool-cases, has, lookup, Ctx, Option, Text, Map,
  List, [], ◌∷◌, pos, eq_ℤ, is_empty, is_negative, trim_space,
}
use account_manager.Domain.{
  AppSetting, Bytes, CachedMessage, MessageFolder, MessageSyncState, MailboxRetrievalCapability,
  RetrievalMethod, Time,
}
use account_manager.Ports.{MessageCacheFilter}
use account_manager.Memory.{Store}
use account_manager.Memory.Settings.{save_current, save_app_setting}
use account_manager.Memory.BackupRuns.{Lease, try_acquire_backup_operation, release_lease}
use account_manager.Memory.Messages.{
  identity_of, count_new, upsert_message, upsert_messages, upsert_cached_messages,
  save_message_sync_state, reset_message_sync_state, mark_viewed, mark_result,
  mark_cached_message_viewed, delete_cached_messages, purge_cached_messages,
  delete_cached_messages_range,
}
use account_manager.Memory.Messages.Cleanup.{cleanup_cached_messages}
use account_manager.Memory.Capabilities.{upsert_retrieval_capability}
use account_manager.Memory.Consistency.{IsConsistent}

save_current-IsConsistent :
    (o : Option AppSetting) (setting : AppSetting) (v : ℤ) (s : Store)
    → IsConsistent s
    → IsConsistent (save_current o setting v s).1
unfolding save_current
save_current-IsConsistent none setting v s h = elim (Bool-cases (eq_ℤ v (pos 0))) [
  | inl e ↦ rw e (assumption)
  | inr e ↦ rw e h
]
save_current-IsConsistent (some current) setting v s h =
    elim (Bool-cases (eq_ℤ current.version v)) [ inl e ↦ rw e (assumption) | inr e ↦ rw e h ]

pub save_app_setting-IsConsistent :
    (json_valid : Bytes → Bool) (ctx : Ctx) (setting : AppSetting) (v : ℤ) (s : Store)
    → IsConsistent s
    → IsConsistent (save_app_setting json_valid ctx setting v s).1
unfolding save_app_setting
save_app_setting-IsConsistent json_valid (some e) given v s h = h
save_app_setting-IsConsistent json_valid none given v s h =
    elim (Bool-cases (is_empty setting.key || not (json_valid setting.value) || is_negative v)) [
      | inl bad ↦ rw bad h
      | inr good ↦
          rw good (save_current-IsConsistent (lookup setting.key s.app_settings) setting v s h)
    ]
  where
    setting : AppSetting
    setting = record given { key = trim_space given.key }

pub try_acquire-IsConsistent :
    (ctx : Ctx) (s : Store) → IsConsistent s → IsConsistent (try_acquire_backup_operation ctx s).1
unfolding try_acquire_backup_operation
try_acquire-IsConsistent (some e) s h = h
try_acquire-IsConsistent none s h = elim (Bool-cases s.backup_operation_locked) [
  | inl e ↦ simp e h
  | inr e ↦ simp e (assumption)
]

pub release_lease-IsConsistent :
    (lease : Lease) (s : Store) → IsConsistent s → IsConsistent (release_lease lease s).1
unfolding release_lease
release_lease-IsConsistent lease s h = elim (Bool-cases lease.released) [
  | inl e ↦ simp e h
  | inr e ↦ simp e (assumption)
]

upsert_message-IsConsistent :
    (m : CachedMessage) (s : Store) → IsConsistent s → IsConsistent (upsert_message m s)
unfolding upsert_message
upsert_message-IsConsistent m s h = assumption

upsert_messages-IsConsistent :
    (ms : List CachedMessage) (n : ℕ) (s : Store)
    → IsConsistent s
    → IsConsistent (upsert_messages ms n s).1
unfolding upsert_messages
upsert_messages-IsConsistent [] n s h = h
upsert_messages-IsConsistent (m ∷ ms) n s h = elim (Bool-cases (has m.mailbox_id s.mailboxes)) [
  | inr missing ↦ rw missing h
  | inl there ↦ rw there (
      upsert_messages-IsConsistent ms (count_new (lookup (identity_of m) s.cached_messages) n)
        (upsert_message m s) (upsert_message-IsConsistent m s h))
]

pub upsert_cached_messages-IsConsistent :
    (ctx : Ctx) (ms : List CachedMessage) (s : Store)
    → IsConsistent s
    → IsConsistent (upsert_cached_messages ctx ms s).1
unfolding upsert_cached_messages
upsert_cached_messages-IsConsistent (some e) ms s h = h
upsert_cached_messages-IsConsistent none ms s h = upsert_messages-IsConsistent ms 0 s h

pub save_message_sync_state-IsConsistent :
    (ctx : Ctx) (state : MessageSyncState) (s : Store)
    → IsConsistent s
    → IsConsistent (save_message_sync_state ctx state s).1
unfolding save_message_sync_state
save_message_sync_state-IsConsistent (some e) state s h = h
save_message_sync_state-IsConsistent none state s h = assumption

pub reset_message_sync_state-IsConsistent :
    (ctx : Ctx) (target_id : Text) (folder : MessageFolder) (s : Store)
    → IsConsistent s
    → IsConsistent (reset_message_sync_state ctx target_id folder s).1
unfolding reset_message_sync_state
reset_message_sync_state-IsConsistent (some e) target_id folder s h = h
reset_message_sync_state-IsConsistent none target_id folder s h = assumption

mark_result-IsConsistent :
    (o : Option (Map CachedMessage)) (s : Store) → IsConsistent s → IsConsistent (mark_result o s).1
unfolding mark_result
mark_result-IsConsistent none s h = h
mark_result-IsConsistent (some ms) s h = assumption

pub mark_cached_message_viewed-IsConsistent :
    (ctx : Ctx) (mailbox_id id : Text) (at : Time) (s : Store)
    → IsConsistent s
    → IsConsistent (mark_cached_message_viewed ctx mailbox_id id at s).1
unfolding mark_cached_message_viewed
mark_cached_message_viewed-IsConsistent (some e) mailbox_id id at s h = h
mark_cached_message_viewed-IsConsistent none mailbox_id id at s h =
    mark_result-IsConsistent (mark_viewed mailbox_id id at s.cached_messages) s h

pub delete_cached_messages-IsConsistent :
    (ctx : Ctx) (mailbox_id : Text) (folder : MessageFolder) (method : RetrievalMethod)
    (ids : List Text) (s : Store)
    → IsConsistent s
    → IsConsistent (delete_cached_messages ctx mailbox_id folder method ids s).1
unfolding delete_cached_messages
delete_cached_messages-IsConsistent (some e) mailbox_id folder method ids s h = h
delete_cached_messages-IsConsistent none mailbox_id folder method ids s h = assumption

pub purge_cached_messages-IsConsistent :
    (ctx : Ctx) (mailbox_id : Text) (folder : MessageFolder) (before : Option Time) (limit : ℤ)
    (s : Store)
    → IsConsistent s
    → IsConsistent (purge_cached_messages ctx mailbox_id folder before limit s).1
unfolding purge_cached_messages
purge_cached_messages-IsConsistent (some e) mailbox_id folder before limit s h = h
purge_cached_messages-IsConsistent none mailbox_id folder before limit s h = assumption

pub cleanup_cached_messages-IsConsistent :
    (ctx : Ctx) (before : Time) (max batch : ℤ) (s : Store)
    → IsConsistent s
    → IsConsistent (cleanup_cached_messages ctx before max batch s).1
unfolding cleanup_cached_messages
cleanup_cached_messages-IsConsistent (some e) before max batch s h = h
cleanup_cached_messages-IsConsistent none before max batch s h = assumption

pub delete_range-IsConsistent :
    (to_lower : Text → Text) (equal_fold : Text → Text → Bool) (ctx : Ctx)
    (filter : MessageCacheFilter) (limit : ℤ) (s : Store)
    → IsConsistent s
    → IsConsistent (delete_cached_messages_range to_lower equal_fold ctx filter limit s).1
unfolding delete_cached_messages_range
delete_range-IsConsistent to_lower equal_fold (some e) filter limit s h = h
delete_range-IsConsistent to_lower equal_fold none filter limit s h = assumption

pub upsert_retrieval_capability-IsConsistent :
    (ctx : Ctx) (c : MailboxRetrievalCapability) (s : Store)
    → IsConsistent s
    → IsConsistent (upsert_retrieval_capability ctx c s).1
unfolding upsert_retrieval_capability
upsert_retrieval_capability-IsConsistent (some e) c s h = h
upsert_retrieval_capability-IsConsistent none c s h = assumption
