-- ===== src/Memory/Capabilities.antt =====
-- RetrievalCapabilityRepository of memory/message_cache.go.
use account_manager.Prelude.{
  ok, Result, Ctx, live, live_on, found, ℤ, ℕ, zero, suc, Bool, true, false, Text, text_eq,
  text_ltb, List, [], ◌∷◌, keep_if, lookup, insert, values, sort_by,
}
use account_manager.Domain.{MailboxRetrievalCapability, RetrievalMethod, RetrievalCapabilityStatus}
use account_manager.Domain.RetrievalCapabilityStatus.{pending, available, unavailable, error}
use account_manager.Ports.{normalize_limit}
use account_manager.Memory.{Store, join_key}

-- Store.UpsertRetrievalCapability
unfoldable pub upsert_retrieval_capability :
    Ctx → MailboxRetrievalCapability → Store → Result (Unit {0}) × Store
upsert_retrieval_capability ctx c s = live_on ctx s (
  ok tt,
  record s {
    retrieval_capabilities = insert (join_key c.mailbox_id c.method) c s.retrieval_capabilities;
  },
)

-- Store.GetRetrievalCapability
unfoldable pub get_retrieval_capability :
    Ctx → Text → RetrievalMethod → Store → Result MailboxRetrievalCapability
get_retrieval_capability ctx mailbox_id method s =
    live ctx (found (lookup (join_key mailbox_id method) s.retrieval_capabilities))

-- Store.ListRetrievalCapabilities
unfoldable pub list_retrieval_capabilities :
    Ctx → Text → Store → Result (List MailboxRetrievalCapability)
list_retrieval_capabilities ctx mailbox_id s = live ctx (
    ok (
      sort_by (λ a b. text_ltb a.method b.method)
        (keep_if (λ c. text_eq c.mailbox_id mailbox_id) (values s.retrieval_capabilities))))

-- `Status == RetrievalCapabilityPending || Status == RetrievalCapabilityError`
abbrev pub is_open : RetrievalCapabilityStatus → Bool
is_open pending = true
is_open error = true
is_open available = false
is_open unavailable = false

-- the loop that stops once it has `room` items more
unfoldable pub collect_open : ℕ → List MailboxRetrievalCapability → List MailboxRetrievalCapability
collect_open zero cs = []
collect_open (suc room) [] = []
collect_open (suc room) (c ∷ cs) = elim (is_open c.status) [
  | true ↦ c ∷ collect_open room cs
  | false ↦ collect_open (suc room) cs
]

-- Store.ListPendingRetrievalCapabilities
unfoldable pub list_pending_retrieval_capabilities :
    Ctx → ℤ → Store → Result (List MailboxRetrievalCapability)
list_pending_retrieval_capabilities ctx limit s =
    live ctx (ok (collect_open (normalize_limit limit 100 500) (values s.retrieval_capabilities)))
