-- ===== src/Kfrag/Header.antt =====
-- The header of a fragment is comments, each on a line of its own.
use autokernel.Base.{
  ◌==◌, ℕ, false, List, [], ◌∷◌, ◌++◌, Option, none, some, Str, str, ◌≡◌, refl, arith, All,
  starts_with, strip_prefix,
}
use autokernel.Base.Space.{is_space, drop_left, drop_right, OneLine}
use autokernel.Kfrag.Parser.{parse_line, unset_symbol, config_symbol}
use autokernel.Kfrag.Writer.{header_lines, optional_line, KfragHeader, Provenance}
use autokernel.Kfrag.Format.{or_empty}
use autokernel.Kfrag.Means.{Means, Means-append, Means-none, IsComment, Means-comment, Means-blank}
use autokernel.Kfrag.OneLines.{OneLine-append}

-- No text that the caller gives has a line break.
pub record IsPlainProvenance (given : Provenance) : Type 0 where
  pub snapshot_dir : OneLine given.snapshot_dir
  pub autonomy : OneLine given.autonomy
  pub model : OneLine (or_empty given.model)
  pub service_tier : OneLine (or_empty given.service_tier)
  pub timestamp : OneLine given.timestamp

config_symbol-other : (c : ℕ) (s : Str) → (b'C' == c) ≡ false → config_symbol (c ∷ s) ≡ none
unfolding config_symbol strip_prefix
config_symbol-other c s h = rw (config_symbol, h) refl

one_space : (c : ℕ) (s : Str) → is_space c ≡ false → drop_left is_space (32 ∷ c ∷ s) ≡ c ∷ s
unfolding drop_left is_space
one_space c s h = rw h refl

-- A hash, a space and a character that does not start a symbol make a comment.
pub hash-IsComment :
    (c : ℕ) (s : Str) → is_space c ≡ false → (b'C' == c) ≡ false → IsComment (b'#' ∷ b' ' ∷ c ∷ s)
unfolding parse_line unset_symbol strip_prefix starts_with
hash-IsComment c s plain other out =
    let e : drop_right is_space (b'#' ∷ b' ' ∷ c ∷ s) ≡ b'#' ∷ b' ' ∷ c ∷ drop_right is_space s =
      unfold is_space in unfold drop_right in ground arith in
    (
      b'#' ∷ b' ' ∷ c ∷ drop_right is_space s,
      rw
          (
            e,
            one_space c (drop_right is_space s) plain,
            config_symbol-other c (drop_right is_space s) other,
          )
          refl,
    )

plain_hash : IsComment (str "#")
unfolding parse_line unset_symbol config_symbol drop_left drop_right is_space strip_prefix
    starts_with
plain_hash out = (_, refl)

make_line : IsComment (str "#              make olddefconfig")
unfolding parse_line unset_symbol config_symbol drop_left drop_right is_space strip_prefix
    starts_with
make_line out = (_, refl)

Means-optional_line :
    (label : Str) (o : Option Str)
    → ((s : Str) → IsComment (label ++ s))
    → Means (optional_line label o) [] []
Means-optional_line label none c = Means-none
Means-optional_line label (some []) c = Means-none
Means-optional_line label (some (x ∷ s)) c =
    Means-comment (label ++ x ∷ s) [] [] [] (c (x ∷ s)) Means-none

Means-hash :
    (c : ℕ) (s : Str) (lines : List Str)
    → is_space c ≡ false
    → (b'C' == c) ≡ false
    → Means lines [] []
    → Means ((b'#' ∷ b' ' ∷ c ∷ s) ∷ lines) [] []
Means-hash c s lines p q h = Means-comment _ lines [] [] (hash-IsComment c s p q) h

-- The header assigns nothing.
pub Means-header_lines : (h : KfragHeader) (m n : ℕ) → Means (header_lines h m n) [] []
unfolding header_lines is_space
Means-header_lines h m n = Means-hash _ _ _ refl refl (
    Means-hash _ _ _ refl refl (
      Means-hash _ _ _ refl refl (
        Means-hash _ _ _ refl refl (
          Means-append (optional_line (str "# model:     ") h.model) _ [] [] [] []
            (Means-optional_line (str "# model:     ") h.model
              (λ s. hash-IsComment b'm' (str "odel:     " ++ s) refl refl))
            (Means-append (optional_line (str "# tier:      ") h.service_tier) _ [] [] [] []
              (Means-optional_line (str "# tier:      ") h.service_tier
                (λ s. hash-IsComment b't' (str "ier:      " ++ s) refl refl))
              (Means-hash _ _ _ refl refl (
                Means-hash _ _ _ refl refl (
                  Means-hash _ _ _ refl refl (
                    Means-hash _ _ _ refl refl (
                      Means-hash _ _ _ refl refl (
                        Means-hash _ _ _ refl refl (
                          Means-comment (str "#") _ [] [] plain_hash (
                            Means-hash _ _ _ refl refl (
                              Means-comment (str "#              make olddefconfig") _ [] []
                                make_line (Means-blank [] [] [] Means-none)))))))))))))))

pub optional_line-OneLine :
    (label : Str) (o : Option Str)
    → OneLine label
    → OneLine (or_empty o)
    → All OneLine (optional_line label o)
optional_line-OneLine label none l h = tt
optional_line-OneLine label (some []) l h = tt
optional_line-OneLine label (some (x ∷ s)) l h = (OneLine-append label (x ∷ s) l h, tt)
