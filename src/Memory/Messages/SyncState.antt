-- ===== src/Memory/Messages/SyncState.antt =====
-- The newest message that a synchronization state remembers.
use account_manager.Prelude.{
  lookup-insert_self, ◌≡◌, refl, ◌⊎◌, none, some, inl, inr, arith, ◌≤◌, Bool-cases, lookup, insert,
  lookup-delete, ok, err, not_found, Option, text_eq_iff, ltb,
}
use account_manager.Domain.{MessageSyncState, Time}
use account_manager.Memory.{Store}
use account_manager.Memory.Messages.{
  message_sync_identity, later_of, last_message_of, save_message_sync_state, get_message_sync_state,
  reset_message_sync_state,
}

-- Not later, where no time at all is before every time.
abbrev pub NotLater : Option Time → Option Time → Type 0
NotLater none u = Unit
NotLater (some t) none = ⊥
NotLater (some t) (some u) = t ≤ u

later_of-NotLater :
    (o p : Option Time)
    → NotLater o (later_of o p)
      × NotLater p (later_of o p)
      × ((later_of o p ≡ o) ⊎ (later_of o p ≡ p))
unfolding later_of
later_of-NotLater none none = (tt, tt, inl refl)
later_of-NotLater none (some u) = (tt, omega arith, inr refl)
later_of-NotLater (some t) none = (omega arith, tt, inl refl)
later_of-NotLater (some t) (some u) = elim (Bool-cases (ltb u t)) [
  | inl e ↦ rw e (omega arith, ground arith, inl refl)
  | inr e ↦ rw e (ground arith, omega arith, inr refl)
]

-- A saved synchronization state is read back with every field as given but the time of the last
-- message, which is the later one of the given time and the time that was stored before, so that it
-- never goes back; after a reset nothing is stored.
pub save_message_sync_state-get :
    (state : MessageSyncState) (s : Store)
    → let s' = (save_message_sync_state none state s).1 in
      let before =
        last_message_of
          (lookup (message_sync_identity state.target_id state.folder) s.message_sync_states) in
      (last : Option Time) × (get_message_sync_state none state.target_id state.folder s'
        ≡ ok (record state { last_message_at = last }))
      × NotLater before last
      × NotLater state.last_message_at last
      × ((last ≡ before) ⊎ (last ≡ state.last_message_at))
      × (get_message_sync_state none state.target_id state.folder
            (reset_message_sync_state none state.target_id state.folder s').1
          ≡ err not_found)
unfolding save_message_sync_state get_message_sync_state reset_message_sync_state
save_message_sync_state-get state s =
    let key = message_sync_identity state.target_id state.folder in
    let before = last_message_of (lookup key s.message_sync_states) in
    let (a, b, c) = later_of-NotLater before state.last_message_at in
    (
      later_of before state.last_message_at,
      rw
          (lookup-insert_self key
            (record state { last_message_at = later_of before state.last_message_at })
            s.message_sync_states)
          refl,
      a,
      b,
      c,
      rw
          (
            lookup-delete key key (
                insert key
                  (record state { last_message_at = later_of before state.last_message_at })
                  s.message_sync_states),
            (text_eq_iff key key).1 refl,
          )
          refl,
    )
