-- ===== src/Models/EventType.antt =====
-- EventTypeEnum of stock-assistant-pipeline-intelligence/app/models/entity_event.py: its members,
-- their wire names, and `EventTypeEnum(text)`.
use Prim.Native.Char.{code}
use Prim.Native.String.{String}
use wealthfinder.Prelude.{
  ℕ, zero, suc, ◌≡◌, refl, ap, sym, ◌∙◌, ◌↔◌, Text, Eq, nat_beq, nat_beq_iff, true, Option, none,
  some, List, [], ◌∷◌, ◌==◌, text_eq, list_beq, if◌then◌else◌,
}

-- The code points of a text literal.
abbrev pub codes : String → Text
codes String.[] = []
codes (String.◌∷◌ ch text) = code ch ∷ codes text

pub data EventTypeEnum : Type 0 where
  earnings buyback ma regulatory management_change : EventTypeEnum
  analyst_rating dividend general_announcement : EventTypeEnum

abbrev pub type_index : EventTypeEnum → ℕ
type_index earnings = 0
type_index buyback = 1
type_index ma = 2
type_index regulatory = 3
type_index management_change = 4
type_index analyst_rating = 5
type_index dividend = 6
type_index general_announcement = 7

type_at : ℕ → EventTypeEnum
type_at zero = earnings
type_at (suc zero) = buyback
type_at (suc (suc zero)) = ma
type_at (suc (suc (suc zero))) = regulatory
type_at (suc (suc (suc (suc zero)))) = management_change
type_at (suc (suc (suc (suc (suc zero))))) = analyst_rating
type_at (suc (suc (suc (suc (suc (suc zero)))))) = dividend
type_at (suc (suc (suc (suc (suc (suc (suc n))))))) = general_announcement

type_at-index : (t : EventTypeEnum) → type_at (type_index t) ≡ t
unfolding type_at
type_at-index earnings = refl
type_at-index _ = refl

pub type_beq_iff : (s t : EventTypeEnum) → (nat_beq (type_index s) (type_index t) ≡ true) ↔ (s ≡ t)
type_beq_iff s t = (
  λ h.
      sym (type_at-index s)
      ∙ ap type_at ((nat_beq_iff (type_index s) (type_index t)).0 h)
      ∙ type_at-index t,
  λ e. (nat_beq_iff (type_index s) (type_index t)).1 (ap type_index e),
)

instance abbrev pub type_eq : Eq EventTypeEnum
type_eq = record { beq = λ s t. nat_beq (type_index s) (type_index t); beq_iff = type_beq_iff }

-- the values of the StrEnum's members, which `str()` and an f-string write
unfoldable pub type_name : EventTypeEnum → Text
type_name earnings = codes "EARNINGS"
type_name buyback = codes "BUYBACK"
type_name ma = codes "MA"
type_name regulatory = codes "REGULATORY"
type_name management_change = codes "MANAGEMENT_CHANGE"
type_name analyst_rating = codes "ANALYST_RATING"
type_name dividend = codes "DIVIDEND"
type_name general_announcement = codes "GENERAL_ANNOUNCEMENT"

abbrev all_types : List EventTypeEnum
all_types =
    earnings ∷ buyback ∷ ma ∷ regulatory ∷ management_change ∷ analyst_rating ∷ dividend
    ∷ general_announcement ∷ []

find_type : List EventTypeEnum → Text → Option EventTypeEnum
find_type [] text = none
find_type (t ∷ ts) text = if type_name t == text then some t else find_type ts text

-- `EventTypeEnum(text)`, which raises a ValueError on any other text
unfoldable pub parse_type : Text → Option EventTypeEnum
unfolding find_type type_name
parse_type text = find_type all_types text

pub parse_type-name : (t : EventTypeEnum) → parse_type (type_name t) ≡ some t
unfolding parse_type list_beq
parse_type-name earnings = refl
parse_type-name _ = refl
