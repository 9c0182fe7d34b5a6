-- ===== src/Merge/Tests.antt =====
-- A fragment merged into a small `.config`.
use autokernel.Base.{
  List, [], ◌∷◌, ◌++◌, some, Str, str, ◌≡◌, refl, All, lookup, map, keep, same, strip_prefix,
  starts_with, join, sorted, insert_sorted, text_le,
}
use autokernel.Base.Space.{drop_left, drop_right, is_space, lines_from, is_break}
use autokernel.Base.Dict.{set_key, set_all}
use autokernel.Kfrag.Parser.{
  parse_kfrag, parse_lines, parse_line, unset_symbol, set_symbol, config_symbol, take_left,
  is_not_set_tail, is_symbol_char,
}
use autokernel.Merge.{
  merge_kfrag, frag_values, config_text_to_dict, normalize_value, format_value, merge_lines,
  merge_line, merged_lines,
}
use autokernel.Merge.Validation.{validate_load_bearing}
use autokernel.Merge.Lines.{later}
use autokernel.Merge.Clean.{IsTrimmed, lookup-merge_kfrag}
use autokernel.Merge.Safety.{is_downgraded, validate-merge_kfrag}
use autokernel.Merge.Again.{merge_kfrag-again}

abbrev base_config : Str
base_config = str "# base" ++ 10 ∷ (str "CONFIG_EXT4_FS=y" ++ 10 ∷ (str "CONFIG_HZ=250" ++ 10 ∷ []))

abbrev fragment : Str
fragment =
    str "# CONFIG_EXT4_FS is not set"
    ++ 10 ∷ (str "CONFIG_HZ=1000" ++ 10 ∷ str "CONFIG_NAME=\"a b\"")

merge_kfrag-fragment :
    (merge_kfrag base_config fragment).0
    ≡ str "# base"
      ++ 10
        ∷ (str "# CONFIG_EXT4_FS is not set"
            ++ 10
              ∷ (str "CONFIG_HZ=1000"
                  ++ 10
                    ∷ (10
                        ∷ (str "# ── autokernel: appended from kfrag ─────────────────"
                            ++ 10 ∷ (str "CONFIG_NAME=\"a b\"" ++ 10 ∷ [])))))
unfolding merge_kfrag merged_lines merge_lines merge_line normalize_value format_value frag_values
    parse_kfrag parse_lines parse_line unset_symbol set_symbol config_symbol take_left
    is_not_set_tail is_symbol_char drop_left drop_right is_space lines_from is_break set_key set_all
    same strip_prefix starts_with join sorted insert_sorted text_le
merge_kfrag-fragment = refl

fragment-IsTrimmed : All IsTrimmed (parse_kfrag fragment).assignments
unfolding parse_kfrag parse_lines parse_line unset_symbol set_symbol config_symbol take_left
    is_not_set_tail is_symbol_char drop_left drop_right is_space lines_from is_break set_key same
    strip_prefix starts_with
fragment-IsTrimmed = (refl, (refl, tt))

lookup-merge_kfrag_example :
    lookup (str "CONFIG_HZ") (config_text_to_dict (merge_kfrag base_config fragment).0)
    ≡ later
        (lookup (str "CONFIG_HZ") (frag_values (parse_kfrag fragment)))
        (lookup (str "CONFIG_HZ") (config_text_to_dict base_config))
lookup-merge_kfrag_example =
    lookup-merge_kfrag base_config fragment (str "CONFIG_HZ") fragment-IsTrimmed

abbrev needed : List (Str × Str)
needed = (str "CONFIG_EXT4_FS", str "/ is ext4") ∷ (str "CONFIG_BTRFS_FS", str "guess") ∷ []

validate-merge_kfrag_example :
    map
      (λ f. f.symbol)
      (validate_load_bearing (merge_kfrag base_config fragment).0 needed (some base_config))
    ≡ map
        (λ kv. kv.0)
        (keep
          (λ kv.
            is_downgraded
              (config_text_to_dict base_config)
              (frag_values (parse_kfrag fragment))
              kv.0)
          needed)
validate-merge_kfrag_example =
    validate-merge_kfrag b'#'
      (str " base" ++ 10 ∷ (str "CONFIG_EXT4_FS=y" ++ 10 ∷ (str "CONFIG_HZ=250" ++ 10 ∷ [])))
      fragment needed fragment-IsTrimmed

merge_kfrag-again_example :
    (merge_kfrag (merge_kfrag base_config fragment).0 fragment).0
    ≡ (merge_kfrag base_config fragment).0
merge_kfrag-again_example = merge_kfrag-again base_config fragment fragment-IsTrimmed
