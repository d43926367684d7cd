-- ===== src/Paginate/Options.antt =====
-- The configuration of a query, and `decodeConfig`. The Go function makes a type switch over values
-- of any type; those that it does not name are `other`.
pub mod Flat
use gobase.Base.{ℕ, Bool, List, [], ◌∷◌, ◌++◌, Option, none, some}
use gobase.Base.Int.{ℤ, pos}
use gobase.Base.GoMap.{GoMap}
use gobase.Base.Text.{Text}

pub record OrderBy : Type 0 where
  pub column : Text
  pub direction : Text

pub record Paging : Type 0 where
  pub page : ℤ
  pub page_size : ℤ

pub record Filter : Type 0 where
  pub column : Text
  pub operator : Text
  pub value : Text

mutual
  pub data Config : Type 0 where
    search_fields : List Text → Config
    column_mapping : GoMap Text Text → Config
    search : Text → Config
    order_by : OrderBy → Config
    paging : Paging → Config
    -- The callback, by a number.
    result_processor : ℕ → Config
    download_file_name : Text → Config
    filter : Filter → Config
    filters : List Filter → Config
    configs : ConfigList → Config
    other : Config

  pub data ConfigList : Type 0 where
    nil : ConfigList
    cons : Config → ConfigList → ConfigList

pub record QueryConfig : Type 0 where
  pub column_mapping : GoMap Text Text
  pub search_fields : List Text
  pub search : Text
  pub order_by : OrderBy
  pub page : ℤ
  pub page_size : ℤ
  pub download_file_name : Text
  pub filter : List Filter
  pub result_processor : Option ℕ

abbrev pub empty_config : QueryConfig
empty_config = record {
  column_mapping = [];
  search_fields = [];
  search = [];
  order_by = record { column = []; direction = [] };
  page = pos 0;
  page_size = pos 0;
  download_file_name = [];
  filter = [];
  result_processor = none;
}

unfoldable mutual
  -- One round of the loop.
  pub decode_one : Config → QueryConfig → QueryConfig
  decode_one (search_fields v) q = record q { search_fields = v }
  decode_one (column_mapping v) q = record q { column_mapping = v }
  decode_one (search v) q = record q { search = v }
  decode_one (order_by v) q = record q { order_by = v }
  decode_one (paging v) q = record q { page = v.page; page_size = v.page_size }
  decode_one (result_processor v) q = record q { result_processor = some v }
  decode_one (download_file_name v) q = record q { download_file_name = v }
  decode_one (filter v) q = record q { filter = q.filter ++ v ∷ [] }
  decode_one (filters v) q = record q { filter = q.filter ++ v }
  decode_one (configs v) q = decode_config v q
  decode_one other q = q

  pub decode_config : ConfigList → QueryConfig → QueryConfig
  decode_config nil q = q
  decode_config (cons cfg list) q = decode_config list (decode_one cfg q)
