-- ===== src/Paginate/Options/Flat.antt =====
-- What a configuration comes to: the last setting of each kind, and all of the filters.
use gobase.Base.{
  ℕ, ◌≡◌, refl, sym, ap, ◌∙◌, Option, none, some, List, [], ◌∷◌, ◌++◌, append_assoc, append-nil,
  nat_comparable, bool_comparable, list_comparable,
}
use gobase.Base.GoMap.{GoMap}
use gobase.Base.Int.{ℤ}
use gobase.Base.Text.{Text}
use gobase.Paginate.Options.{
  OrderBy, Filter, Config, ConfigList, search_fields, column_mapping, search, order_by, paging,
  result_processor, download_file_name, filter, filters, configs, other, nil, cons, QueryConfig,
  decode_one, decode_config,
}

-- The settings one by one, whatever lists they are nested in.
abbrev mutual
  pub flatten_one : Config → List Config
  flatten_one (search_fields v) = search_fields v ∷ []
  flatten_one (column_mapping v) = column_mapping v ∷ []
  flatten_one (search v) = search v ∷ []
  flatten_one (order_by v) = order_by v ∷ []
  flatten_one (paging v) = paging v ∷ []
  flatten_one (result_processor v) = result_processor v ∷ []
  flatten_one (download_file_name v) = download_file_name v ∷ []
  flatten_one (filter v) = filter v ∷ []
  flatten_one (filters v) = filters v ∷ []
  flatten_one (configs v) = flatten v
  flatten_one other = []

  pub flatten : ConfigList → List Config
  flatten nil = []
  flatten (cons cfg list) = flatten_one cfg ++ flatten list

-- The last one of the settings that `pick` is about, or what there was.
abbrev pub latest {ℓ} : {A : Type ℓ} → A → Option A → A
latest a none = a
latest a (some b) = b

abbrev pub last {ℓ} : {A : Type ℓ} → (Config → Option A) → List Config → A → A
last pick [] a = a
last pick (cfg ∷ cfgs) a = last pick cfgs (latest a (pick cfg))

last-append {ℓ} :
    {A : Type ℓ} (pick : Config → Option A) (xs ys : List Config) (a : A)
    → last pick (xs ++ ys) a ≡ last pick ys (last pick xs a)
last-append pick [] ys a = refl
last-append pick (x ∷ xs) ys a = last-append pick xs ys (latest a (pick x))

abbrev pub pick_fields : Config → Option (List Text)
pick_fields (search_fields v) = some v
pick_fields (column_mapping v) = none
pick_fields (search v) = none
pick_fields (order_by v) = none
pick_fields (paging v) = none
pick_fields (result_processor v) = none
pick_fields (download_file_name v) = none
pick_fields (filter v) = none
pick_fields (filters v) = none
pick_fields (configs v) = none
pick_fields other = none

abbrev pub pick_mapping : Config → Option (GoMap Text Text)
pick_mapping (search_fields v) = none
pick_mapping (column_mapping v) = some v
pick_mapping (search v) = none
pick_mapping (order_by v) = none
pick_mapping (paging v) = none
pick_mapping (result_processor v) = none
pick_mapping (download_file_name v) = none
pick_mapping (filter v) = none
pick_mapping (filters v) = none
pick_mapping (configs v) = none
pick_mapping other = none

abbrev pub pick_search : Config → Option Text
pick_search (search_fields v) = none
pick_search (column_mapping v) = none
pick_search (search v) = some v
pick_search (order_by v) = none
pick_search (paging v) = none
pick_search (result_processor v) = none
pick_search (download_file_name v) = none
pick_search (filter v) = none
pick_search (filters v) = none
pick_search (configs v) = none
pick_search other = none

abbrev pub pick_order : Config → Option OrderBy
pick_order (search_fields v) = none
pick_order (column_mapping v) = none
pick_order (search v) = none
pick_order (order_by v) = some v
pick_order (paging v) = none
pick_order (result_processor v) = none
pick_order (download_file_name v) = none
pick_order (filter v) = none
pick_order (filters v) = none
pick_order (configs v) = none
pick_order other = none

abbrev pub pick_page : Config → Option ℤ
pick_page (search_fields v) = none
pick_page (column_mapping v) = none
pick_page (search v) = none
pick_page (order_by v) = none
pick_page (paging v) = some v.page
pick_page (result_processor v) = none
pick_page (download_file_name v) = none
pick_page (filter v) = none
pick_page (filters v) = none
pick_page (configs v) = none
pick_page other = none

abbrev pub pick_size : Config → Option ℤ
pick_size (search_fields v) = none
pick_size (column_mapping v) = none
pick_size (search v) = none
pick_size (order_by v) = none
pick_size (paging v) = some v.page_size
pick_size (result_processor v) = none
pick_size (download_file_name v) = none
pick_size (filter v) = none
pick_size (filters v) = none
pick_size (configs v) = none
pick_size other = none

abbrev pub pick_processor : Config → Option (Option ℕ)
pick_processor (search_fields v) = none
pick_processor (column_mapping v) = none
pick_processor (search v) = none
pick_processor (order_by v) = none
pick_processor (paging v) = none
pick_processor (result_processor v) = some (some v)
pick_processor (download_file_name v) = none
pick_processor (filter v) = none
pick_processor (filters v) = none
pick_processor (configs v) = none
pick_processor other = none

abbrev pub pick_download : Config → Option Text
pick_download (search_fields v) = none
pick_download (column_mapping v) = none
pick_download (search v) = none
pick_download (order_by v) = none
pick_download (paging v) = none
pick_download (result_processor v) = none
pick_download (download_file_name v) = some v
pick_download (filter v) = none
pick_download (filters v) = none
pick_download (configs v) = none
pick_download other = none

abbrev pub filters_in : Config → List Filter
filters_in (search_fields v) = []
filters_in (column_mapping v) = []
filters_in (search v) = []
filters_in (order_by v) = []
filters_in (paging v) = []
filters_in (result_processor v) = []
filters_in (download_file_name v) = []
filters_in (filter v) = v ∷ []
filters_in (filters v) = v
filters_in (configs v) = []
filters_in other = []

abbrev pub all_filters : List Config → List Filter
all_filters [] = []
all_filters (cfg ∷ cfgs) = filters_in cfg ++ all_filters cfgs

all_filters-append :
    (xs ys : List Config) → all_filters (xs ++ ys) ≡ all_filters xs ++ all_filters ys
all_filters-append [] ys = refl
all_filters-append (x ∷ xs) ys =
    ap (λ fs. filters_in x ++ fs) (all_filters-append xs ys)
    ∙ sym (append_assoc (filters_in x) (all_filters xs) (all_filters ys))

-- The configuration that settings come to, one by one.
abbrev pub summary : List Config → QueryConfig → QueryConfig
summary cfgs q = record {
  column_mapping = last pick_mapping cfgs q.column_mapping;
  search_fields = last pick_fields cfgs q.search_fields;
  search = last pick_search cfgs q.search;
  order_by = last pick_order cfgs q.order_by;
  page = last pick_page cfgs q.page;
  page_size = last pick_size cfgs q.page_size;
  download_file_name = last pick_download cfgs q.download_file_name;
  filter = q.filter ++ all_filters cfgs;
  result_processor = last pick_processor cfgs q.result_processor;
}

summary-append :
    (xs ys : List Config) (q : QueryConfig) → summary (xs ++ ys) q ≡ summary ys (summary xs q)
summary-append xs ys q =
    rw
      (
        last-append pick_mapping xs ys q.column_mapping,
        last-append pick_fields xs ys q.search_fields,
        last-append pick_search xs ys q.search,
        last-append pick_order xs ys q.order_by,
        last-append pick_page xs ys q.page,
        last-append pick_size xs ys q.page_size,
        last-append pick_download xs ys q.download_file_name,
        last-append pick_processor xs ys q.result_processor,
        all_filters-append xs ys,
        append_assoc q.filter (all_filters xs) (all_filters ys),
      )
      refl

summary_nil : (q : QueryConfig) → q ≡ summary [] q
summary_nil q = ap (λ fs. record q { filter = fs }) (sym (append-nil q.filter))

mutual
  unfolding decode_one decode_config

  decode_one-summary :
      (cfg : Config) (q : QueryConfig) → decode_one cfg q ≡ summary (flatten_one cfg) q
  decode_one-summary (search_fields v) q = rw (append-nil q.filter) refl
  decode_one-summary (column_mapping v) q = rw (append-nil q.filter) refl
  decode_one-summary (search v) q = rw (append-nil q.filter) refl
  decode_one-summary (order_by v) q = rw (append-nil q.filter) refl
  decode_one-summary (paging v) q = rw (append-nil q.filter) refl
  decode_one-summary (result_processor v) q = rw (append-nil q.filter) refl
  decode_one-summary (download_file_name v) q = rw (append-nil q.filter) refl
  decode_one-summary (filter v) q = refl
  decode_one-summary (filters v) q =
      ap (λ fs. record q { filter = q.filter ++ fs }) (sym (append-nil v))
  decode_one-summary (configs v) q = decode_config-list v q
  decode_one-summary other q = summary_nil q

  decode_config-list :
      (list : ConfigList) (q : QueryConfig) → decode_config list q ≡ summary (flatten list) q
  decode_config-list nil q = summary_nil q
  decode_config-list (cons cfg list) q =
      decode_config-list list (decode_one cfg q)
      ∙ ap (summary (flatten list)) (decode_one-summary cfg q)
      ∙ sym (summary-append (flatten_one cfg) (flatten list) q)

-- A configuration, however its lists are nested, comes to the last setting of each kind, with the
-- page and its size from one setting, and to all of the filters in their order.
pub decode_config-summary :
    (list : ConfigList) (q : QueryConfig) → decode_config list q ≡ summary (flatten list) q
decode_config-summary list q = decode_config-list list q
