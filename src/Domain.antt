-- ===== src/Domain.antt =====
-- The data model: backend/internal/domain. A field of type `time.Time` is an instant, counted in
-- nanoseconds from Go's zero time; `json.RawMessage` and `[]byte` are lists of bytes.
mod Mailboxes
mod Providers
mod Exchange
mod Backups
mod Messages
pub use Mailboxes.*
pub use Providers.*
pub use Exchange.*
pub use Backups.*
pub use Messages.*
