-- ===== src/Decoder/Known.antt =====
-- components/cn105/decoder.h: what decoding never yields.
use mitsubishi_cn105esphome.Prelude.{
  ℕ, ◌≡◌, inl, inr, false, some, [], ◌∷◌, arith, All, Option-cases,
}
use mitsubishi_cn105esphome.Enums.Kinds.{Enum, same, mode_enum, power_enum}
use mitsubishi_cn105esphome.Enums.Table.{EnumTable, wire_to_enum}
use mitsubishi_cn105esphome.Decoder.{resolve_or_keep}

module _ {E : Type 0} ⦃e : Enum E⦄ where
  -- No row of the table is the sentinel.
  abbrev pub Listed : EnumTable E → Type 0
  Listed = All λ r. same r.value e.unknown_value ≡ false

  wire_to_enum_known :
      (table : EnumTable E) (b : ℕ) (v : E)
      → Listed table
      → wire_to_enum table b ≡ some v
      → same v e.unknown_value ≡ false
  unfolding wire_to_enum
  wire_to_enum_known [] b v l h = cc
  wire_to_enum_known (r ∷ table) b v l h = ground (arith, l.0, wire_to_enum_known table b v l.1)

  -- Resolving a byte against what is known never yields the sentinel, for a table without it and a
  -- fallback other than it, whatever the byte and whatever was known.
  resolve_or_keep_known :
      (table : EnumTable E) (b : ℕ) (current fallback : E)
      → Listed table
      → same fallback e.unknown_value ≡ false
      → same (resolve_or_keep (wire_to_enum table b) current fallback) e.unknown_value ≡ false
  unfolding resolve_or_keep
  resolve_or_keep_known table b current fallback l h = elim (Option-cases (wire_to_enum table b)) [
    | inl miss ↦ rw (miss, resolve_or_keep) (ground arith)
    | inr (v, found) ↦ rw (found, resolve_or_keep) (wire_to_enum_known table b v l found)
  ]
