-- ===== src/Paginate/Pager.antt =====
-- `applyPager`, and the parts of `Query` in their order. An int has 64 bits.
pub mod Windows
use gobase.Base.{
  ℕ, ◌-◌, ◌%◌, ◌^◌, Bool, true, false, List, ◌++◌, Option, none, some, if◌then◌else◌, ◌>>=◌,
}
use gobase.Base.Int.{ℤ, pos, negsuc, ltb_ℤ, leb_ℤ, ◌*ℤ◌}
use gobase.Base.Text.{Text, is_empty}
use gobase.Paginate.Options.{QueryConfig, ConfigList, empty_config, decode_config}
use gobase.Paginate.Columns.{CasePackage, order_terms}
use gobase.Paginate.Filters.{Where, apply_search, apply_filters}

-- `MaxPageSize` and `DefaultPageSize`, which a program may set.
pub record PageSizes : Type 0 where
  pub max_page_size : ℤ
  pub default_page_size : ℤ

pub record Window : Type 0 where
  pub limit : ℕ
  pub offset : ℕ

-- `uint64(n)`
abbrev pub uint64 : ℤ → ℕ
uint64 (pos n) = n % 2 ^ 64
uint64 (negsuc n) = 2 ^ 64 - 1 - n % 2 ^ 64

unfoldable pub page_size_of : PageSizes → ℤ → ℤ
page_size_of sizes asked =
    let size = if leb_ℤ asked (pos 0) then sizes.default_page_size else asked in
    if ltb_ℤ sizes.max_page_size size then sizes.max_page_size else size

-- The calls of `Limit` and `Offset`.
unfoldable pub window_of : ℤ → ℤ → Window
window_of size asked =
    let page = if ltb_ℤ asked (pos 0) then pos 0 else asked in
    record { limit = uint64 size; offset = uint64 (page *ℤ size) }

unfoldable pub apply_pager : PageSizes → QueryConfig → Window
unfolding page_size_of window_of
apply_pager sizes cfg = window_of (page_size_of sizes cfg.page_size) cfg.page

-- What `Query` builds: the conditions, which the count has too, the order and the window, which a
-- download has not.
pub record Built : Type 0 where
  pub wheres : List Where
  pub is_counted : Bool
  pub orders : List Text
  pub window : Option Window

unfoldable pub query : PageSizes → CasePackage → ConfigList → Option Built
unfolding apply_pager
query sizes case config =
    let cfg = decode_config config empty_config in
    apply_filters case cfg >>= λ conds.
    order_terms case cfg.order_by cfg.column_mapping >>= λ orders. some (record {
      wheres = apply_search cfg ++ conds;
      is_counted = is_empty cfg.download_file_name;
      orders = orders;
      window = if is_empty cfg.download_file_name then some (apply_pager sizes cfg) else none;
    })
