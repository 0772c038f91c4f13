-- ===== src/StockList/Search/Names.antt =====
-- The names of the HK Stock List prepared for matching (common/hk_stock_list.py): `_name_variants`,
-- `_build_name_index`, and the lookups on the index. opencc and the regular expressions are parameters.
-- A pool may hold an entry twice, where the source keeps entries by identity: a set of codes comes of
-- it either way.
use wealthfinder.Prelude.{
  Text, text_eq, Bool, true, false, ◌||◌, ◌&&◌, Option, none, some, List, [], ◌∷◌, ◌++◌, nat_eq,
  if◌then◌else◌, elem, leb, length, take,
}
use wealthfinder.Prelude.Int.{pos}
use wealthfinder.Prelude.Assoc.{lookup, insert}
use wealthfinder.Prelude.Floats.{Floats, of_int, ◌*f◌}
use wealthfinder.Models.{Stock}
use wealthfinder.Models.EventType.{codes}
use wealthfinder.StockList.Subsequence.{is_subsequence}
use wealthfinder.StockList.Search.{NameEntry, isascii, search}
use wealthfinder.StockList.Search.Scores.{score, tuples}

-- `_normalize`, `_EN_WORD_SPLIT_RE.split`, str.split, and the substitutions of the suffixes
pub record Normalizer : Type 0 where
  pub normalize : Text → Text
  pub split_words : Text → List Text
  pub split : Text → List Text
  pub strip_legal : Text → Text
  pub strip_generic : Text → Text

pub record StockNameIndex : Type 0 where
  pub names : List NameEntry
  pub names_by_code : List (Text × List NameEntry)
  pub names_by_latin_prefix : List (Text × List NameEntry)

abbrev pub en_legal_words : List Text
en_legal_words =
    codes "limited"
    ∷ codes "ltd"
    ∷ codes "co"
    ∷ codes "company"
    ∷ codes "corporation"
    ∷ codes "corp"
    ∷ codes "inc"
    ∷ codes "plc"
    ∷ codes "llc"
    ∷ codes "the"
    ∷ []

abbrev pub en_generic_words : List Text
en_generic_words =
    codes "holdings"
    ∷ codes "holding"
    ∷ codes "hldg"
    ∷ codes "hldgs"
    ∷ codes "group"
    ∷ codes "gp"
    ∷ codes "international"
    ∷ codes "intl"
    ∷ codes "int'l"
    ∷ codes "and"
    ∷ codes "&"
    ∷ []

-- `" ".join(words)`
unfoldable pub join_words : List Text → Text
join_words [] = []
join_words (w ∷ []) = w
join_words (w ∷ v ∷ words) = w ++ codes " " ++ join_words (v ∷ words)

abbrev is_empty : Text → Bool
is_empty [] = true
is_empty (ch ∷ text) = false

-- the words that are not empty and not in the list
unfoldable pub words_without : List Text → List Text → List Text
words_without dropped [] = []
words_without dropped (w ∷ words) =
    let rest = words_without dropped words in
    if is_empty w || elem w dropped then rest else w ∷ rest

unfoldable pub non_empty : List Text → List Text
non_empty [] = []
non_empty (text ∷ texts) = let rest = non_empty texts in if is_empty text then rest else text ∷ rest

-- `dict.fromkeys`, behind the texts that were seen
unfoldable pub distinct_from : List Text → List Text → List Text
distinct_from seen [] = []
distinct_from seen (text ∷ texts) =
    let rest = distinct_from (text ∷ seen) texts in if elem text seen then rest else text ∷ rest

-- `d.setdefault(key, []).append(entry)`
unfoldable pub append_to :
    Text → NameEntry → List (Text × List NameEntry) → List (Text × List NameEntry)
append_to key entry d = elim (lookup key d) [
  | none ↦ insert key (entry ∷ []) d
  | some entries ↦ insert key (entries ++ entry ∷ []) d
]

unfoldable pub append_to_all :
    List Text → NameEntry → List (Text × List NameEntry) → List (Text × List NameEntry)
unfolding append_to
append_to_all [] entry d = d
append_to_all (key ∷ keys) entry d = append_to_all keys entry (append_to key entry d)

-- `index.get(key, [])`
unfoldable pub get_names : Text → List (Text × List NameEntry) → List NameEntry
get_names key d = elim (lookup key d) [ none ↦ [] | some entries ↦ entries ]

abbrev latin_entry : List Text → Bool
latin_entry [] = false
latin_entry (v ∷ variants) = isascii v

module _ (library : Normalizer) where
  open library use {normalize, split_words, split, strip_legal, strip_generic}

  unfoldable pub without_legal : Text → Text
  unfolding words_without join_words
  without_legal full =
      if isascii full
      then join_words (words_without en_legal_words (split_words full))
      else strip_legal full

  unfoldable pub without_generic : Text → Text → Text
  unfolding words_without join_words
  without_generic full legal =
      if isascii full
      then join_words (words_without en_generic_words (split legal))
      else strip_generic legal

  unfoldable pub name_variants : Text → List Text
  unfolding without_legal without_generic distinct_from non_empty
  name_variants raw =
      let full = normalize raw in
      let legal = without_legal full in
      distinct_from [] (non_empty (full ∷ legal ∷ without_generic full legal ∷ []))

  -- the first letters of the words that are long enough
  unfoldable pub word_prefixes : List Text → List Text
  word_prefixes [] = []
  word_prefixes (w ∷ words) =
      let rest = word_prefixes words in if leb 3 (length w) then take 3 w ∷ rest else rest

  unfoldable pub variant_prefixes : List Text → List Text
  unfolding word_prefixes
  variant_prefixes [] = []
  variant_prefixes (v ∷ variants) = word_prefixes (split v) ++ variant_prefixes variants

  -- the body of `_build_name_index`'s inner loop, for a name with variants
  unfoldable pub add_entry : NameEntry → StockNameIndex → StockNameIndex
  unfolding append_to append_to_all variant_prefixes distinct_from
  add_entry entry index = record {
    names = index.names ++ entry ∷ [];
    names_by_code = append_to entry.stock_code entry index.names_by_code;
    names_by_latin_prefix =
        if entry.latin
        then append_to_all (distinct_from [] (variant_prefixes entry.variants)) entry
            index.names_by_latin_prefix
        else index.names_by_latin_prefix;
  }

  unfoldable pub add_variants : Text → List Text → StockNameIndex → StockNameIndex
  unfolding add_entry
  add_variants code [] index = index
  add_variants code (v ∷ variants) index =
      add_entry (record { stock_code = code; variants = v ∷ variants; latin = isascii v }) index

  unfoldable pub add_names : Text → List Text → StockNameIndex → StockNameIndex
  unfolding add_variants name_variants
  add_names code [] index = index
  add_names code (raw ∷ raws) index =
      add_names code raws (add_variants code (name_variants raw) index)

  unfoldable pub index_stocks : List (Text × Stock) → StockNameIndex → StockNameIndex
  unfolding add_names distinct_from
  index_stocks [] index = index
  index_stocks ((code, stock) ∷ entries) index =
      index_stocks entries (
        add_names code (distinct_from [] (stock.company_name_zh ∷ stock.company_name_en ∷ []))
          index)

  unfoldable pub build_name_index : List (Text × Stock) → StockNameIndex
  unfolding index_stocks
  build_name_index entries =
      index_stocks entries (record { names = []; names_by_code = []; names_by_latin_prefix = [] })

  -- the entries that share a word's first letters with an English query
  unfoldable pub prefixed_names : List Text → List (Text × List NameEntry) → List NameEntry
  unfolding get_names
  prefixed_names [] d = []
  prefixed_names (prefix ∷ prefixes) d = get_names prefix d ++ prefixed_names prefixes d

  unfoldable pub latin_pool : StockNameIndex → List Text → List NameEntry
  unfolding prefixed_names variant_prefixes
  latin_pool index variants = prefixed_names (variant_prefixes variants) index.names_by_latin_prefix

  module _ (F : Type 0) ⦃f : Floats F⦄ where
    -- `lookup_stock`, on a cache of these entries; a code that is found is that of an entry
    unfoldable pub lookup_stock : List (Text × Stock) → Text → Option Stock
    unfolding build_name_index latin_pool name_variants search
    lookup_stock entries name =
        let index = build_name_index entries in
        elim (search {S = List F} (score split) (latin_pool index) index.names
          (name_variants name)) [
            | none ↦ none
            | some code ↦ if is_empty code then none else lookup code entries
          ]

    -- `_is_subsequence(q, n)`, or the listed name makes up most of the query and is inside it
    unfoldable pub fits : Text → Text → Bool
    fits q n =
        is_subsequence q n
        || (f.le (f.hundredths 60 *f of_int (pos (length q))) (of_int (pos (length n)))
            && is_subsequence n q)

    unfoldable pub fits_variant : Text → List Text → Bool
    unfolding fits
    fits_variant q [] = false
    fits_variant q (n ∷ ns) = fits q n || fits_variant q ns

    unfoldable pub fits_entry : Text → List NameEntry → Bool
    unfolding fits_variant
    fits_entry q [] = false
    fits_entry q (entry ∷ entries) = fits_variant q entry.variants || fits_entry q entries

    unfoldable pub fits_some : List Text → List NameEntry → Bool
    unfolding fits_entry
    fits_some [] listed = false
    fits_some (q ∷ qs) listed = fits_entry q listed || fits_some qs listed

    unfoldable pub name_matches_stock : StockNameIndex → Text → Stock → Bool
    unfolding fits_some get_names name_variants
    name_matches_stock index name stock =
        fits_some (name_variants name) (get_names stock.stock_code index.names_by_code)
