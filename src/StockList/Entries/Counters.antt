-- ===== src/StockList/Entries/Counters.antt =====
-- The extra counters of companies (_is_extra_counter of common/hk_stock_list.py): starts and ends of
-- texts.
use mathlib.Core.List.{reverse, reverse-append, reverse-reverse}
use wealthfinder.Prelude.{
  ℕ, ◌≡◌, ◌∙◌, ◌⊎◌, refl, sym, ap, Text, text_eq, nat_eq, Bool, true, false, ◌||◌, ◌&&◌, [], ◌∷◌,
  ◌++◌, ◌==◌, inl, inr, ==→eq, ==_refl, arith,
}
use wealthfinder.Models.EventType.{codes}
use wealthfinder.Aggregation.Store.{starts_with}
use wealthfinder.StockList.Entries.{ends_with, is_extra_counter}

abbrev pub StartsWith : Text → Text → Type 0
StartsWith prefix text = (rest : Text) × (text ≡ prefix ++ rest)

abbrev pub EndsWith : Text → Text → Type 0
EndsWith suffix text = (front : Text) × (text ≡ front ++ suffix)

-- A counter of a company listed under another code: the code begins with 8 and the Chinese name ends
-- with a full-width R, or the Chinese name ends with a full-width T, or the English one with -T.
abbrev pub IsExtraCounter : Text → Text → Text → Type 0
IsExtraCounter code zh_name en_name =
    (StartsWith (codes "8") code × EndsWith (65330 ∷ []) zh_name)
    ⊎ EndsWith (65332 ∷ []) zh_name
    ⊎ EndsWith (codes "-T") en_name

starts_with→ : (prefix text : Text) → starts_with prefix text ≡ true → StartsWith prefix text
unfolding starts_with
starts_with→ [] text h = (text, refl)
starts_with→ (p ∷ ps) [] h = absurd (cc h)
starts_with→ (p ∷ ps) (c ∷ text) h =
    let (same, later) = both (p == c) (starts_with ps text) h in
    let (rest, e) = starts_with→ ps text later in
    (rest, ap (◌∷◌ c) e ∙ ap (λ (d : ℕ). d ∷ ps ++ rest) (sym (==→eq p c same)))
  where
    both : (a b : Bool) → a && b ≡ true → (a ≡ true) × (b ≡ true)
    both a b e = ground arith

starts_with-append : (prefix rest : Text) → starts_with prefix (prefix ++ rest) ≡ true
unfolding starts_with
starts_with-append [] rest = refl
starts_with-append (p ∷ ps) rest = rw (==_refl p) (starts_with-append ps rest)

ends_with→ : (suffix text : Text) → ends_with suffix text ≡ true → EndsWith suffix text
ends_with→ suffix text h =
    let (rest, e) = starts_with→ (reverse suffix) (reverse text) h in
    (
      reverse rest,
      sym (reverse-reverse text)
          ∙ ap reverse e
          ∙ reverse-append (reverse suffix) rest
          ∙ ap (λ (l : Text). reverse rest ++ l) (reverse-reverse suffix),
    )

ends_with-append : (suffix front : Text) → ends_with suffix (front ++ suffix) ≡ true
ends_with-append suffix front =
    rw (reverse-append front suffix) (starts_with-append (reverse suffix) (reverse front))

starts_with← : (prefix text : Text) → StartsWith prefix text → starts_with prefix text ≡ true
starts_with← prefix text (rest, e) = ap (starts_with prefix) e ∙ starts_with-append prefix rest

ends_with← : (suffix text : Text) → EndsWith suffix text → ends_with suffix text ≡ true
ends_with← suffix text (front, e) = ap (ends_with suffix) e ∙ ends_with-append suffix front

some_reason :
    (a b c d : Bool)
    → (a && b) || (c || d) ≡ true
    → ((a ≡ true) × (b ≡ true)) ⊎ (c ≡ true) ⊎ (d ≡ true)
some_reason true true c d h = inl (refl, refl)
some_reason true false true d h = inr (inl refl)
some_reason true false false d h = inr (inr h)
some_reason false b true d h = inr (inl refl)
some_reason false b false d h = inr (inr h)

reason :
    (a b c d : Bool)
    → ((a ≡ true) × (b ≡ true)) ⊎ (c ≡ true) ⊎ (d ≡ true)
    → (a && b) || (c || d) ≡ true
reason a b c d (inl (e, k)) = ground (arith, e, k)
reason a b c d (inr (inl e)) = ground (arith, e)
reason a b c d (inr (inr e)) = ground (arith, e)

pub is_extra_counter→ :
    (code zh_name en_name : Text)
    → is_extra_counter code zh_name en_name ≡ true
    → IsExtraCounter code zh_name en_name
unfolding is_extra_counter
is_extra_counter→ code zh_name en_name h =
    elim (some_reason (starts_with (codes "8") code) (ends_with (65330 ∷ []) zh_name)
      (ends_with (65332 ∷ []) zh_name) (ends_with (codes "-T") en_name) h) [
        | inl (eight, r) ↦
            inl (starts_with→ (codes "8") code eight, ends_with→ (65330 ∷ []) zh_name r)
        | inr (inl t) ↦ inr (inl (ends_with→ (65332 ∷ []) zh_name t))
        | inr (inr t) ↦ inr (inr (ends_with→ (codes "-T") en_name t))
      ]

pub is_extra_counter← :
    (code zh_name en_name : Text)
    → IsExtraCounter code zh_name en_name
    → is_extra_counter code zh_name en_name ≡ true
unfolding is_extra_counter
is_extra_counter← code zh_name en_name (inl (eight, r)) =
    reason (starts_with (codes "8") code) (ends_with (65330 ∷ []) zh_name)
      (ends_with (65332 ∷ []) zh_name) (ends_with (codes "-T") en_name)
      (inl (starts_with← (codes "8") code eight, ends_with← (65330 ∷ []) zh_name r))
is_extra_counter← code zh_name en_name (inr (inl t)) =
    reason (starts_with (codes "8") code) (ends_with (65330 ∷ []) zh_name)
      (ends_with (65332 ∷ []) zh_name) (ends_with (codes "-T") en_name)
      (inr (inl (ends_with← (65332 ∷ []) zh_name t)))
is_extra_counter← code zh_name en_name (inr (inr t)) =
    reason (starts_with (codes "8") code) (ends_with (65330 ∷ []) zh_name)
      (ends_with (65332 ∷ []) zh_name) (ends_with (codes "-T") en_name)
      (inr (inr (ends_with← (codes "-T") en_name t)))
