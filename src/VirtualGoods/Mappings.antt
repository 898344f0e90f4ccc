-- ===== src/VirtualGoods/Mappings.antt =====
-- The table listing_product_mappings of `VirtualGoodsStore` in src/modules/virtual_goods/store.py.
-- `now` is the time that a method reads. A call without a connection opens one and calls itself with
-- the values that it has normalised, which changes none of them.
use realxianyu.Base.{
  ℕ, Bool, false, not, ◌&&◌, Option, none, some, List, [], ◌∷◌, String, ltb, ◌==◌, string_eq,
  if◌then◌else◌, text_append, is_some, Casing, or_text, or_empty, nonempty, one_of,
}
use realxianyu.Base.Result.{Result, ok, raised, value_error, integrity_error}
use realxianyu.Base.Table.{
  update_where, count_where, delete_where, find_where, exists_where, has_key, upsert_by,
}
use realxianyu.VirtualGoods.Rows.{Mapping, VirtualGoodsStore}
use realxianyu.VirtualGoods.Orders.{coalesce}

abbrev pub mapping_key : Mapping → String
mapping_key m = m.xianyu_product_id

abbrev pub mapping_statuses : List String
mapping_statuses = "unmapped" ∷ "mapped" ∷ "syncing" ∷ "failed" ∷ "disabled" ∷ []

-- str(v or "").strip() or None
abbrev pub trimmed : Casing → Option String → Option String
trimmed c v = nonempty (c.strip (or_empty v))

abbrev pub has_listing : String → Mapping → Bool
has_listing listing m = is_some m.internal_listing_id && or_empty m.internal_listing_id == listing

-- the UNIQUE internal_listing_id stands in the row of another product
abbrev pub listing_taken : String → Option String → List Mapping → Bool
listing_taken pid none rows = false
listing_taken pid (some listing) rows =
    exists_where (λ m. not (has_key mapping_key pid m) && has_listing listing m) rows

-- the arguments of `upsert_listing_product_mapping`
pub record MappingUpdate : Type 0 where
  pub xianyu_product_id : String
  pub internal_listing_id : Option String
  pub supply_goods_no : Option String
  pub mapping_status : String
  pub last_sync_at : Option String

abbrev pub Reply : Type 0
Reply = VirtualGoodsStore × Result (Option Mapping)

unfoldable pub write_mapping : Mapping → VirtualGoodsStore → Reply
unfolding upsert_by find_where exists_where
write_mapping row s =
    let rows =
      upsert_by mapping_key row
        (λ m. record row { xianyu_product_id = m.xianyu_product_id; created_at = m.created_at })
        s.mappings in
    if listing_taken row.xianyu_product_id row.internal_listing_id s.mappings
    then (
      s,
      raised (
          integrity_error "UNIQUE constraint failed: listing_product_mappings.internal_listing_id"),
    )
    else (
      record s { mappings = rows },
      ok (find_where (has_key mapping_key row.xianyu_product_id) rows),
    )

unfoldable pub upsert_listing_product_mapping :
    Casing → ℕ → MappingUpdate → VirtualGoodsStore → Reply
unfolding write_mapping
upsert_listing_product_mapping c now u s =
    let pid = c.strip u.xianyu_product_id in
    let status = c.lower (c.strip (or_text u.mapping_status "unmapped")) in
    if not (one_of status mapping_statuses)
    then (s, raised (value_error (text_append "Unsupported mapping status: " u.mapping_status)))
    else if pid == ""
    then (s, raised (value_error "xianyu_product_id is required"))
    else write_mapping
        (record {
          xianyu_product_id = pid;
          internal_listing_id = trimmed c u.internal_listing_id;
          supply_goods_no = trimmed c u.supply_goods_no;
          mapping_status = status;
          last_sync_at = u.last_sync_at;
          created_at = now;
          updated_at = now;
        })
        s

unfoldable pub get_listing_product_mapping :
    Casing → Option String → Option String → VirtualGoodsStore → Result (Option Mapping)
unfolding find_where
get_listing_product_mapping c product listing s =
    let pid = c.strip (or_empty product) in
    let lid = c.strip (or_empty listing) in
    if pid == "" && lid == ""
    then raised (value_error "xianyu_product_id or internal_listing_id is required")
    else if not (pid == "")
    then ok (find_where (has_key mapping_key pid) s.mappings)
    else ok (find_where (has_listing lid) s.mappings)

unfoldable pub get_listing_product_mapping_by_product_id :
    Casing → String → VirtualGoodsStore → Result (Option Mapping)
unfolding get_listing_product_mapping
get_listing_product_mapping_by_product_id c product s =
    let pid = c.strip product in
    if pid == ""
    then raised (value_error "xianyu_product_id is required")
    else get_listing_product_mapping c (some pid) none s

unfoldable pub get_listing_product_mapping_by_internal_id :
    Casing → String → VirtualGoodsStore → Result (Option Mapping)
unfolding get_listing_product_mapping
get_listing_product_mapping_by_internal_id c listing s =
    let lid = c.strip listing in
    if lid == ""
    then raised (value_error "internal_listing_id is required")
    else get_listing_product_mapping c none (some lid) s

unfoldable pub update_listing_mapping_status :
    Casing → ℕ → String → String → Option String → VirtualGoodsStore → Reply
unfolding update_where count_where find_where
update_listing_mapping_status c now product mapping_status last_sync_at s =
    let pid = c.strip product in
    let status = c.lower (c.strip mapping_status) in
    let s' = record s {
      mappings =
          update_where (has_key mapping_key pid)
            (λ m. record m {
              mapping_status = status;
              last_sync_at = coalesce last_sync_at m.last_sync_at;
              updated_at = now;
            })
            s.mappings;
    } in
    if pid == ""
    then (s, raised (value_error "xianyu_product_id is required"))
    else if not (one_of status mapping_statuses)
    then (s, raised (value_error (text_append "Unsupported mapping status: " mapping_status)))
    else if ltb 0 (count_where (has_key mapping_key pid) s.mappings)
    then (s', ok (find_where (has_key mapping_key pid) s'.mappings))
    else (s', ok none)

unfoldable pub delete_listing_product_mapping :
    Casing → String → VirtualGoodsStore → VirtualGoodsStore × Result Bool
unfolding delete_where count_where
delete_listing_product_mapping c product s =
    let pid = c.strip product in
    if pid == "" then (s, raised (value_error "xianyu_product_id is required")) else (
      record s { mappings = delete_where (has_key mapping_key pid) s.mappings },
      ok (ltb 0 (count_where (has_key mapping_key pid) s.mappings)),
    )
