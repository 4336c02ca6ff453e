-- ===== src/Prelude/Chosen.antt =====
-- A select that meets what the component relies on: its options and the one it shows.
use Prim.Native.String.{String}
use mathlib.Core.Path.{◌≡◌, refl}
use mathlib.Core.List.{List}
use mitsubishi_cn105esphome.Prelude.Tests.{if◌then◌else◌, if_keeps}
use mitsubishi_cn105esphome.Prelude.Select.{Select, IsSelect, offers}

pub record Chosen : Type 0 where
  pub options : List String
  pub current : String

abbrev choose : String → Chosen → Chosen
choose o s = if offers s.options o then record s { current = o } else s

abbrev pub chosen : Select
chosen = record {
  S = Chosen;
  set_options = λ os s. record s { options = os };
  has_option = λ s o. offers s.options o;
  current_option = λ s. s.current;
  publish_state = choose;
}

offers-choose : (o p : String) (s : Chosen) → offers (choose o s).options p ≡ offers s.options p
offers-choose o p s =
    if_keeps (λ t. offers t.options p ≡ offers s.options p) (offers s.options o)
      (record s { current = o }) s refl refl

pub chosen-IsSelect : IsSelect chosen
chosen-IsSelect = record {
  set_options_offers = λ os s o. refl;
  publish_shown = λ o s h. rw h refl;
  publish_refused = λ o s h. rw h refl;
  publish_offers = offers-choose;
}
