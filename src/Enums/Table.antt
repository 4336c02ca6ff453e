-- ===== src/Enums/Table.antt =====
-- components/cn105/cn105_types.h: the generic lookups in a table of an enumeration.
use Prim.Native.Char.{code}
use Prim.Native.String.{String}
use mitsubishi_cn105esphome.Prelude.{
  ℕ, suc, ◌+◌, Bool, true, false, ◌&&◌, Option, none, some, List, [], ◌∷◌, leb, ◌==◌, if◌then◌else◌,
}
use mitsubishi_cn105esphome.Enums.Kinds.{Enum, same}

pub record EnumEntry (E : Type 0) : Type 0 where
  pub value : E
  pub protocol_byte : ℕ
  pub label : String

abbrev pub EnumTable : Type 0 → Type 0
EnumTable E = List (EnumEntry E)

-- `strcasecmp(a, b) == 0` in the C locale: letters are compared without case.
abbrev pub codes : String → List ℕ
codes String.[] = []
codes (String.◌∷◌ c s) = code c ∷ codes s

abbrev pub to_lower : ℕ → ℕ
to_lower c = if leb b'A' c && leb c b'Z' then c + 32 else c

abbrev pub same_codes : List ℕ → List ℕ → Bool
same_codes [] [] = true
same_codes [] (y ∷ ys) = false
same_codes (x ∷ xs) [] = false
same_codes (x ∷ xs) (y ∷ ys) = to_lower x == to_lower y && same_codes xs ys

abbrev pub same_label : String → String → Bool
same_label a b = same_codes (codes a) (codes b)

module _ {E : Type 0} ⦃e : Enum E⦄ where
  unfoldable pub enum_to_str : EnumTable E → E → String
  enum_to_str [] val = "UNKNOWN"
  enum_to_str (entry ∷ table) val =
      if same entry.value val then entry.label else enum_to_str table val

  -- A null pointer is `none`.
  search_label : EnumTable E → String → E → E
  search_label [] str fallback = fallback
  search_label (entry ∷ table) str fallback =
      if same_label entry.label str then entry.value else search_label table str fallback

  unfoldable pub enum_from_str : EnumTable E → Option String → E → E
  unfolding search_label
  enum_from_str table none fallback = fallback
  enum_from_str table (some str) fallback = search_label table str fallback

  -- -1 is `none`.
  unfoldable pub enum_index : EnumTable E → E → Option ℕ
  enum_index [] val = none
  enum_index (entry ∷ table) val =
      if same entry.value val
      then some 0
      else elim (enum_index table val) [ none ↦ none | some i ↦ some (suc i) ]

  unfoldable pub wire_to_enum : EnumTable E → ℕ → Option E
  wire_to_enum [] byte_value = none
  wire_to_enum (entry ∷ table) byte_value =
      if entry.protocol_byte == byte_value then some entry.value else wire_to_enum table byte_value

  unfoldable pub enum_to_wire : EnumTable E → E → Option ℕ
  enum_to_wire [] val = none
  enum_to_wire (entry ∷ table) val =
      if same entry.value val then some entry.protocol_byte else enum_to_wire table val
