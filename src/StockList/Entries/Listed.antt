-- ===== src/StockList/Entries/Listed.antt =====
-- Which stocks the HK Stock List holds (common/hk_stock_list.py).
use mathlib.Core.Option.{some-injective}
use wealthfinder.Prelude.{
  ◌≡◌, ◌∙◌, ◌⊎◌, ◌↔◌, refl, sym, ap, Text, text_eq, nat_eq, Bool, true, false, ◌||◌, Option, none,
  some, List, [], ◌∷◌, ◌==◌, elem, inl, inr, Bool-cases, Option-cases, if◌then◌else◌, ==→eq, subst,
  subst₂,
}
use wealthfinder.Prelude.Assoc.{lookup, lookup-insert}
use wealthfinder.Models.{Stock, is_some}
use wealthfinder.Models.EventType.{codes}
use wealthfinder.StockList.Entries.Counters.{IsExtraCounter, is_extra_counter→, is_extra_counter←}
use wealthfinder.StockList.Entries.{Names, is_extra_counter, name_of, entry_of, parse_hk_stock_list}

-- The name that a file gives a code, empty where it gives none.
abbrev pub HasName : Names → Text → Text → Type 0
HasName names code name =
    (lookup code names ≡ some name) ⊎ ((lookup code names ≡ none) × (name ≡ []))

-- The stock of a code that one of the files names, and that is no extra counter.
pub record IsEntry (en_names zh_names : Names) (code : Text) (stock : Stock) : Type 0 where
  pub own_code : stock.stock_code ≡ code
  pub on_hkex : stock.exchange ≡ codes "HKEX"
  pub chinese : HasName zh_names code stock.company_name_zh
  pub english : HasName en_names code stock.company_name_en
  pub named : ¬ ((lookup code en_names ≡ none) × (lookup code zh_names ≡ none))
  pub main_counter : ¬ IsExtraCounter code stock.company_name_zh stock.company_name_en

name_of-HasName : (names : Names) (code : Text) → HasName names code (name_of (lookup code names))
name_of-HasName names code = elim (Option-cases (lookup code names)) [
  | inl missing ↦ inr (missing, ap name_of missing)
  | inr (name, found) ↦ inl (found ∙ ap (λ (o : Option Text). some (name_of o)) (sym found))
]

HasName-name_of :
    (names : Names) (code name : Text)
    → HasName names code name
    → name_of (lookup code names) ≡ name
HasName-name_of names code name (inl found) = ap name_of found
HasName-name_of names code name (inr (missing, empty)) = ap name_of missing ∙ sym empty

is_named : (a b : Option Text) → is_some a || is_some b ≡ true → ¬ ((a ≡ none) × (b ≡ none))
is_named (some a) b h (e, k) = cc e
is_named none (some b) h (e, k) = cc k
is_named none none h (e, k) = cc h

unnamed : (a b : Option Text) → is_some a || is_some b ≡ false → (a ≡ none) × (b ≡ none)
unnamed (some a) b h = absurd (cc h)
unnamed none (some b) h = absurd (cc h)
unnamed none none h = (refl, refl)

chosen :
    (a b : Bool) (s t : Stock)
    → (if a then (if b then none else some s) else none) ≡ some t
    → (a ≡ true) × (b ≡ false) × (s ≡ t)
chosen true false s t h = (refl, refl, some-injective s t h)
chosen true true s t h = absurd (cc h)
chosen false b s t h = absurd (cc h)

chosen_if :
    (a b : Bool) (s t : Stock)
    → a ≡ true
    → b ≡ false
    → s ≡ t
    → (if a then (if b then none else some s) else none) ≡ some t
chosen_if a b s t e k same = rw (e, k) (ap some same)

not_false : (b : Bool) → ¬ (b ≡ false) → b ≡ true
not_false true h = refl
not_false false h = absurd (h refl)

not_true : (b : Bool) → ¬ (b ≡ true) → b ≡ false
not_true true h = absurd (h refl)
not_true false h = refl

same_stock :
    (s t : Stock)
    → s.stock_code ≡ t.stock_code
    → s.exchange ≡ t.exchange
    → s.company_name_zh ≡ t.company_name_zh
    → s.company_name_en ≡ t.company_name_en
    → s ≡ t
same_stock s t code exchange zh en = cc

module _ (en_names zh_names : Names) (code : Text) where
  abbrev en_name : Text
  en_name = name_of (lookup code en_names)

  abbrev zh_name : Text
  zh_name = name_of (lookup code zh_names)

  abbrev own_stock : Stock
  own_stock = record {
    stock_code = code;
    exchange = codes "HKEX";
    company_name_zh = zh_name;
    company_name_en = en_name;
  }

  own_stock-IsEntry :
      is_some (lookup code en_names) || is_some (lookup code zh_names) ≡ true
      → is_extra_counter code zh_name en_name ≡ false
      → IsEntry en_names zh_names code own_stock
  own_stock-IsEntry named main = record {
    own_code = refl;
    on_hkex = refl;
    chinese = name_of-HasName zh_names code;
    english = name_of-HasName en_names code;
    named = is_named (lookup code en_names) (lookup code zh_names) named;
    main_counter = λ c. cc (sym main ∙ is_extra_counter← code zh_name en_name c);
  }

  entry_of-IsEntry :
      (stock : Stock)
      → entry_of en_names zh_names code ≡ some stock
      → IsEntry en_names zh_names code stock
  unfolding entry_of
  entry_of-IsEntry stock h =
      let (named, main, same) =
        chosen (is_some (lookup code en_names) || is_some (lookup code zh_names))
          (is_extra_counter code zh_name en_name) own_stock stock h in
      subst (IsEntry en_names zh_names code) same (own_stock-IsEntry named main)

  IsEntry-entry_of :
      (stock : Stock)
      → IsEntry en_names zh_names code stock
      → entry_of en_names zh_names code ≡ some stock
  unfolding entry_of
  IsEntry-entry_of stock e =
      chosen_if _ _ own_stock stock
        (not_false (is_some (lookup code en_names) || is_some (lookup code zh_names))
          (λ h. e.named (unnamed (lookup code en_names) (lookup code zh_names) h)))
        (not_true (is_extra_counter code zh_name en_name) (λ h. e.main_counter (
          subst₂ (IsExtraCounter code) chinese english (is_extra_counter→ code zh_name en_name h))))
        (same_stock own_stock stock (sym e.own_code) (sym e.on_hkex) chinese english)
    where
      chinese : zh_name ≡ stock.company_name_zh
      chinese = HasName-name_of zh_names code stock.company_name_zh e.chinese

      english : en_name ≡ stock.company_name_en
      english = HasName-name_of en_names code stock.company_name_en e.english

lookup-parse_entries :
    (en_names zh_names : Names) (equity_codes : List Text) (code : Text)
    → lookup code (parse_hk_stock_list en_names zh_names equity_codes)
      ≡ (if elem code equity_codes then entry_of en_names zh_names code else none)
unfolding parse_hk_stock_list elem
lookup-parse_entries en_names zh_names [] code = unfold lookup in refl
lookup-parse_entries en_names zh_names (c ∷ equity_codes) code =
    elim (Option-cases (entry_of en_names zh_names c)) [
      | inl dropped ↦ elim (Bool-cases (c == code)) [
        | inl same ↦
            rw (dropped, same)
              (lookup-parse_entries en_names zh_names equity_codes code
                ∙ either (elem code equity_codes)
                    (sym (ap (entry_of en_names zh_names) (==→eq c code same)) ∙ dropped))
        | inr differs ↦
            rw (dropped, differs) (lookup-parse_entries en_names zh_names equity_codes code)
      ]
      | inr (stock, kept) ↦ elim (Bool-cases (c == code)) [
        | inl same ↦
            rw (kept, same)
              (rw
                (
                  lookup-insert c code stock (parse_hk_stock_list en_names zh_names equity_codes),
                  same,
                )
                (sym kept ∙ ap (entry_of en_names zh_names) (==→eq c code same)))
        | inr differs ↦
            rw (kept, differs)
              (rw
                (
                  lookup-insert c code stock (parse_hk_stock_list en_names zh_names equity_codes),
                  differs,
                )
                (lookup-parse_entries en_names zh_names equity_codes code))
      ]
    ]
  where
    either : {o : Option Stock} (b : Bool) → o ≡ none → (if b then o else none) ≡ o
    either true h = refl
    either false h = sym h

-- The list holds a stock under a code exactly if the code is an equity code, and the stock is the
-- code's entry: its code and the exchange are right, the Chinese name is the one of the Chinese file
-- and the English name the one of the English file, empty where the file has none, at least one of
-- the files names the code, and the code is no extra counter by its names. The order of the equity
-- codes and a repeated code make no difference.
pub lookup-parse_hk_stock_list :
    (en_names zh_names : Names) (equity_codes : List Text) (code : Text) (stock : Stock)
    → (lookup code (parse_hk_stock_list en_names zh_names equity_codes) ≡ some stock)
      ↔ ((elem code equity_codes ≡ true) × IsEntry en_names zh_names code stock)
lookup-parse_hk_stock_list en_names zh_names equity_codes code stock = (
  λ h.
      let (listed, entry) =
        held (elem code equity_codes) (entry_of en_names zh_names code) stock
          (sym (lookup-parse_entries en_names zh_names equity_codes code) ∙ h) in
      (listed, entry_of-IsEntry en_names zh_names code stock entry),
  λ (listed, entry).
      lookup-parse_entries en_names zh_names equity_codes code
      ∙ rw listed (IsEntry-entry_of en_names zh_names code stock entry),
)
  where
    held :
        (b : Bool) (o : Option Stock) (s : Stock)
        → (if b then o else none) ≡ some s
        → (b ≡ true) × (o ≡ some s)
    held true o s h = (refl, h)
    held false o s h = absurd (cc h)
