-- ===== src/Ports.antt =====
-- backend/internal/ports/repositories.go: the options of a list query.
pub mod Pages
use account_manager.Prelude.{
  ℕ, ◌-◌, ◌+◌, ℤ, pos, negsuc, is_non_positive, is_negative, Option, Bool, Text, List, length, take,
  drop, leb, ltb, if◌then◌else◌, [],
}
use account_manager.Domain.{Time, ProviderKey, MessageFolder}

pub record ListOptions : Type 0 where
  pub limit : ℤ
  pub offset : ℤ

pub record ProviderConnectionFilter : Type 0 where
  pub provider : ProviderKey
  pub enabled : Option Bool

pub record MessageCacheFilter : Type 0 where
  pub mailbox_id : Text
  pub folder : MessageFolder
  pub after : Option Time
  pub before : Option Time
  pub search : Text

-- What is left of `ListOptions` after `Normalize`: two numbers that are not negative.
pub record Window : Type 0 where
  pub limit : ℕ
  pub offset : ℕ

-- `if o.Limit <= 0 { o.Limit = defaultLimit }`, then the cap
unfoldable pub normalize_limit : ℤ → ℕ → ℕ → ℕ
normalize_limit (negsuc n) default_limit max_limit =
    if ltb max_limit default_limit then max_limit else default_limit
normalize_limit (pos n) default_limit max_limit =
    let limit = if leb n 0 then default_limit else n in
    if ltb max_limit limit then max_limit else limit

unfoldable pub normalize_offset : ℤ → ℕ
normalize_offset (negsuc n) = 0
normalize_offset (pos n) = n

-- ListOptions.Normalize
unfoldable pub normalize : ListOptions → ℕ → ℕ → Window
unfolding normalize_limit normalize_offset
normalize o default_limit max_limit = record {
  limit = normalize_limit o.limit default_limit max_limit;
  offset = normalize_offset o.offset;
}

-- The slice `items[offset:end]` of memory.paginate, for a window that is already normalized.
unfoldable pub page_of {ℓ} : {A : Type ℓ} → List A → Window → List A
page_of items w =
    if leb (length items) w.offset
    then []
    else let end = w.offset + w.limit in
      let stop = if ltb (length items) end then length items else end in
      take (stop - w.offset) (drop w.offset items)

-- memory.paginate
unfoldable pub paginate {ℓ} : {A : Type ℓ} → List A → ListOptions → List A
unfolding normalize page_of
paginate items options = page_of items (normalize options 100 500)
