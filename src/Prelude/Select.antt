-- ===== src/Prelude/Select.antt =====
-- A `select::Select` of ESPHome, whose code is not in this repository: the operations that the component
-- calls, and what it relies on. `current_option` is empty before the first publish; `publish_state` refuses
-- an option that is not configured.
use mathlib.Core.Path.{◌≡◌}
use mathlib.Core.Bool.{Bool, true, false, ◌||◌}
use mathlib.Core.List.{List, [], ◌∷◌}
use Prim.Native.String.{String}
use text.Mathlib.Text

-- `std::string` equality, and `strcmp(a, b) == 0`.
abbrev pub same_text : String → String → Bool
same_text a b = Text.◌==◌ a b

abbrev pub offers : List String → String → Bool
offers [] option = false
offers (o ∷ os) option = same_text option o || offers os option

pub record Select : Type 1 where
  pub S : Type 0
  pub set_options : List String → S → S
  pub has_option : S → String → Bool
  pub current_option : S → String
  pub publish_state : String → S → S

pub record IsSelect (se : Select) : Type 0 where
  pub set_options_offers :
      (os : List String) (s : se.S) (o : String)
      → se.has_option (se.set_options os s) o ≡ offers os o
  pub publish_shown :
      (o : String) (s : se.S)
      → se.has_option s o ≡ true
      → se.current_option (se.publish_state o s) ≡ o
  pub publish_refused :
      (o : String) (s : se.S) → se.has_option s o ≡ false → se.publish_state o s ≡ s
  pub publish_offers :
      (o p : String) (s : se.S) → se.has_option (se.publish_state o s) p ≡ se.has_option s p
