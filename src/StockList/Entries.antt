-- ===== src/StockList/Entries.antt =====
-- The entries of the HK Stock List (common/hk_stock_list.py of stock-assistant-pipeline-intelligence/app):
-- _parse_hk_stock_list, on the names and codes that the three files hold.
pub mod Counters
pub mod Listed
use mathlib.Core.List.{reverse}
use wealthfinder.Prelude.{
  ℕ, Text, text_eq, Bool, true, false, ◌&&◌, ◌||◌, Option, none, some, List, [], ◌∷◌, length,
  if◌then◌else◌,
}
use wealthfinder.Prelude.Assoc.{lookup, insert}
use wealthfinder.Prelude.Result.{
  Exc, unreachable, rate_limit, sapi_error, cancelled, other, Result, ok, raise,
}
use wealthfinder.Models.{Stock, is_some}
use wealthfinder.Models.EventType.{codes}
use wealthfinder.Aggregation.Store.{starts_with}

abbrev pub Names : Type 0
Names = List (Text × Text)

abbrev ends_with : Text → Text → Bool
ends_with suffix text = starts_with (reverse suffix) (reverse text)

-- the full-width letters are U+FF32 and U+FF34
unfoldable pub is_extra_counter : Text → Text → Text → Bool
is_extra_counter code zh_name en_name =
    (starts_with (codes "8") code && ends_with (65330 ∷ []) zh_name)
    || (ends_with (65332 ∷ []) zh_name || ends_with (codes "-T") en_name)

-- `names.get(code, "")`
abbrev pub name_of : Option Text → Text
name_of none = []
name_of (some name) = name

-- the entry of an equity code, if the loop keeps it
unfoldable pub entry_of : Names → Names → Text → Option Stock
entry_of en_names zh_names code =
    let en_name = name_of (lookup code en_names) in
    let zh_name = name_of (lookup code zh_names) in
    if is_some (lookup code en_names) || is_some (lookup code zh_names)
    then (if is_extra_counter code zh_name en_name
        then none
        else some (record {
          stock_code = code;
          exchange = codes "HKEX";
          company_name_zh = zh_name;
          company_name_en = en_name;
        }))
    else none

abbrev pub add_entry : Text → Option Stock → List (Text × Stock) → List (Text × Stock)
add_entry code none entries = entries
add_entry code (some stock) entries = insert code stock entries

-- `_parse_hk_stock_list`; the equity codes are a set, so their order says nothing
unfoldable pub parse_hk_stock_list : Names → Names → List Text → List (Text × Stock)
parse_hk_stock_list en_names zh_names [] = []
parse_hk_stock_list en_names zh_names (code ∷ equity_codes) =
    add_entry code (entry_of en_names zh_names code)
      (parse_hk_stock_list en_names zh_names equity_codes)
