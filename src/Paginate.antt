-- ===== src/Paginate.antt =====
-- Package paginate (paginate/main.go): queries by page, with search, filters and an order that come
-- from a request. `Options` has the configuration, `Columns` what becomes of column names, `Filters`
-- the conditions, `Pager` the window. A panic of `er.Throw` is `none`.
pub mod Options
pub mod Columns
pub mod Filters
pub mod Pager
mod Tests
