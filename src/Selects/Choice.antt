-- ===== src/Selects/Choice.antt =====
-- components/cn105/extra_components.cpp: the option of a vane that is chosen is the option that its select shows
-- once the unit reports the vane that was wanted for it.
use Prim.Native.String.{String}
use text.Mathlib.TextEquality.{eq_iff}
use mitsubishi_cn105esphome.Prelude.{
  ℕ, ◌≡◌, ap, ◌∙◌, arith, true, Option, none, some, List, if◌then◌else◌, if_no,
}
use mitsubishi_cn105esphome.Prelude.Select.{Select, IsSelect, offers}
use mitsubishi_cn105esphome.Enums.Kinds.{
  HpVaneMode, HpWideVaneMode, same, vane_enum, wide_vane_enum,
}
use mitsubishi_cn105esphome.Enums.Wrappers.{hp_vane_to_str, hp_wide_vane_to_str}
use mitsubishi_cn105esphome.Enums.Tables.{vane_table}
use mitsubishi_cn105esphome.Settings.{HeatpumpSettings}
use mitsubishi_cn105esphome.Climate.{Climate, set_vane_setting, set_wide_vane_setting, flag_change}
use mitsubishi_cn105esphome.Selects.{
  Selects, labels, horizontal_options, choose_vane, choose_wide_vane, set_vertical_vane_select,
  set_horizontal_vane_select, publish_select_option, publish_changed,
  update_extra_select_components,
}
use mitsubishi_cn105esphome.Selects.Labels.{vane_label, wide_vane_label}

module _ (se : Select) (law : IsSelect se) where
  open se use {S, set_options, has_option, current_option, publish_state}

  -- What a configured select shows.
  abbrev pub shown : Option S → Option String
  shown none = none
  shown (some s) = some (current_option s)

  pub publish_changed-shown :
      (o : String) (s : S) → has_option s o ≡ true → shown (publish_changed se o (some s)) ≡ some o
  unfolding publish_changed publish_select_option
  publish_changed-shown o s h = ground (arith, law.publish_shown o s h, eq_iff (current_option s) o)

  -- Both vane selects: if the option of the vertical select is one of its options and the option of the
  -- horizontal select one of those that it was configured with, then a report of the two vanes that are
  -- wanted after both are chosen makes both selects show what was chosen.
  pub choose_vanes-shown :
      {F : Type 0} (now later : ℕ) (vane wide : String) (options : List String) (v h : S)
      (sel : Selects S) (c : Climate F) (x : HeatpumpSettings F)
      → offers (labels vane_table) vane ≡ true
      → offers (horizontal_options options) wide ≡ true
      → let w = (choose_wide_vane later wide (choose_vane now vane c)).wanted_settings in
        x.vane ≡ w.vane
        → x.wide_vane ≡ w.wide_vane
        → let ready = set_horizontal_vane_select se h options (set_vertical_vane_select se v sel) in
          let after = update_extra_select_components se x ready in
          (shown after.vertical_vane_select ≡ some vane)
          × (shown after.horizontal_vane_select ≡ some wide)
  unfolding choose_vane choose_wide_vane set_vane_setting set_wide_vane_setting flag_change
      set_vertical_vane_select set_horizontal_vane_select update_extra_select_components
  choose_vanes-shown now later vane wide options v h sel c x ov ow ev ew =
      let sv = set_options (labels vane_table) v in
      let sh = set_options (horizontal_options options) h in
      let (nv, kv) = vane_label vane ov in
      let (nh, kh) = wide_vane_label options wide ow in
      (
        ap
              (λ (q : HpVaneMode). shown (
                if same q HpVaneMode.unknown
                then some sv
                else publish_changed se (hp_vane_to_str q) (some sv)))
              ev
            ∙ ap shown (if_no _ _ _ kv)
            ∙ ap (λ (o : String). shown (publish_changed se o (some sv))) nv
            ∙ publish_changed-shown vane sv
                (law.set_options_offers (labels vane_table) v vane ∙ ov),
        ap
              (λ (q : HpWideVaneMode). shown (
                if same q HpWideVaneMode.unknown
                then some sh
                else publish_changed se (hp_wide_vane_to_str q) (some sh)))
              ew
            ∙ ap shown (if_no _ _ _ kh)
            ∙ ap (λ (o : String). shown (publish_changed se o (some sh))) nh
            ∙ publish_changed-shown wide sh
                (law.set_options_offers (horizontal_options options) h wide ∙ ow),
      )
