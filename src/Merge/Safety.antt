-- ===== src/Merge/Safety.antt =====
-- The check of a merged configuration against the load-bearing symbols.
use autokernel.Base.{
  ℕ, Bool, false, not, ◌&&◌, List, [], ◌∷◌, Option, none, some, Str, ◌≡◌, refl, arith, lookup, All,
  map, keep,
}
use autokernel.Kfrag.Parser.{parse_kfrag}
use autokernel.Merge.{merge_kfrag, frag_values, config_text_to_dict}
use autokernel.Merge.Validation.{validate_load_bearing, find_downgrades, is_on, get_or_missing}
use autokernel.Merge.Lines.{later}
use autokernel.Merge.Clean.{IsTrimmed, lookup-merge_kfrag}

-- The fragment gives the symbol a value other than y and m.
abbrev pub turns_off : Option Str → Bool
turns_off none = false
turns_off (some v) = not (is_on v)

-- A symbol that is on in the base and off by the fragment.
abbrev pub is_downgraded : List (Str × Str) → List (Str × Str) → Str → Bool
is_downgraded base frag x = is_on (get_or_missing (lookup x base)) && turns_off (lookup x frag)

later_on :
    (f b : Option Str)
    → (not (is_on (get_or_missing (later f b))) && is_on (get_or_missing b))
      ≡ (is_on (get_or_missing b) && turns_off f)
later_on none b = ground arith
later_on (some v) b = ground arith

module _ (merged base frag : List (Str × Str))
    (h : (x : Str) → lookup x merged ≡ later (lookup x frag) (lookup x base)) where
  find_downgrades-symbols :
      (symbols : List (Str × Str))
      → map (λ f. f.symbol) (find_downgrades merged (some base) symbols)
        ≡ map (λ kv. kv.0) (keep (λ kv. is_downgraded base frag kv.0) symbols)
  unfolding find_downgrades
  find_downgrades-symbols [] = refl
  find_downgrades-symbols ((x, reason) ∷ symbols) =
      rw (h x)
        (ground (arith, find_downgrades-symbols symbols, later_on (lookup x frag) (lookup x base)))

-- The check of a merged text against a base that is not empty reports exactly the load-bearing
-- symbols that are y or m in the base and that the fragment sets to anything else, in their order.
-- The fragment holds no quoted hexadecimal number with a space at an end.
pub validate-merge_kfrag :
    (c : ℕ) (base_text kfrag_text : Str) (symbols : List (Str × Str))
    → All IsTrimmed (parse_kfrag kfrag_text).assignments
    → map
        (λ f. f.symbol)
        (validate_load_bearing
          (merge_kfrag (c ∷ base_text) kfrag_text).0
          symbols
          (some (c ∷ base_text)))
      ≡ map
          (λ kv. kv.0)
          (keep
            (λ kv.
              is_downgraded
                (config_text_to_dict (c ∷ base_text))
                (frag_values (parse_kfrag kfrag_text))
                kv.0)
            symbols)
unfolding validate_load_bearing
validate-merge_kfrag c base_text kfrag_text symbols t =
    find_downgrades-symbols (config_text_to_dict (merge_kfrag (c ∷ base_text) kfrag_text).0)
      (config_text_to_dict (c ∷ base_text)) (frag_values (parse_kfrag kfrag_text))
      (λ x. lookup-merge_kfrag (c ∷ base_text) kfrag_text x t) symbols
