-- ===== src/Kfrag/RoundTrip.antt =====
-- A written fragment, read back.
use autokernel.Base.{
  All-keep, ℕ, true, false, not, List, [], ◌∷◌, ◌++◌, Str, str, ◌≡◌, refl, ap, sym, ◌∙◌,
  append_assoc, append-nil, All, All-append, all, join, length,
}
use autokernel.Base.Space.{
  is_space, is_break, drop_right, OneLine, splitlines, lines_from, lines_from-line,
}
use autokernel.Base.Dict.{set_all}
use autokernel.Base.Decimal.{decimal, decimal-OneLine}
use autokernel.Models.{ReviewSet}
use autokernel.Kfrag.Parser.{parse_line, parse_lines, ParsedKfrag, parse_kfrag, nothing_parsed}
use autokernel.Kfrag.Writer.{
  enable_lines, disable_lines, demote_lines, other_lines, section, header_lines, optional_line,
  Provenance, header_of, accepted_of, proposing, others_of, write_kfrag, kfrag_lines, enables_title,
  disables_title, demotions_title, others_title,
}
use autokernel.Kfrag.Format.{previous_choice_symbol}
use autokernel.Kfrag.Means.{Means, Means-append}
use autokernel.Kfrag.Sections.{
  IsPlain, symbol_of, assigned, to_list, joined, Means-section, Means-other, Means-enables,
  Means-disables, Means-demotes,
}
use autokernel.Kfrag.OneLines.{
  OneLine-append, OneLine-all, section-OneLine, enable_lines-OneLine, disable_lines-OneLine,
  demote_lines-OneLine, other_lines-OneLine,
}
use autokernel.Kfrag.Header.{
  IsPlainProvenance, hash-IsComment, Means-header_lines, optional_line-OneLine,
}

parse_lines-last :
    (word line : Str) (out : ParsedKfrag)
    → OneLine line
    → parse_lines (lines_from false word line) out ≡ parse_lines ((word ++ line) ∷ []) out
unfolding lines_from parse_lines parse_line drop_right
parse_lines-last [] [] out h = refl
parse_lines-last (w ∷ word) [] out h =
    ap (λ l. parse_lines (l ∷ []) out) (sym (append-nil (w ∷ word)))
parse_lines-last word (c ∷ line) out h = rw h.0 (
    parse_lines-last (word ++ c ∷ []) line out h.1
    ∙ ap (λ l. parse_lines (l ∷ []) out) (append_assoc word (c ∷ []) line))

-- Joined lines are read as those lines.
pub parse_kfrag-join :
    (lines : List Str) (out : ParsedKfrag)
    → All OneLine lines
    → parse_lines (splitlines (join (b'\n' ∷ []) lines)) out ≡ parse_lines lines out
unfolding join parse_lines lines_from
parse_kfrag-join [] out h = refl
parse_kfrag-join (line ∷ []) out h = parse_lines-last [] line out h.0
parse_kfrag-join (line ∷ next ∷ lines) out h =
    rw (lines_from-line [] line (join (b'\n' ∷ []) (next ∷ lines)) h.0)
      (parse_kfrag-join (next ∷ lines) (parse_line (drop_right is_space line) out) h.1)

-- The symbols that an accepted set unsets: those proposed as n, then the old ones of choices.
abbrev pub unsets : ReviewSet → List Str
unsets rs =
    joined (λ r. symbol_of r ∷ []) (proposing (str "n") rs)
    ++ joined (λ r. to_list (previous_choice_symbol r)) (others_of rs)

-- The assignments: y, then m, then the other values without outer spaces and quotes.
abbrev pub sets : ReviewSet → List (Str × Str)
sets rs =
    joined (λ r. (symbol_of r, str "y") ∷ []) (proposing (str "y") rs)
    ++ (joined (λ r. (symbol_of r, str "m") ∷ []) (proposing (str "m") rs)
        ++ joined (λ r. assigned r ∷ []) (others_of rs))

labelled :
    (label s : Str) → all (λ c. not (is_break c)) label ≡ true → OneLine s → OneLine (label ++ s)
labelled label s e h = OneLine-append label s (OneLine-all label e) h

counted :
    (label : Str) (n : ℕ) → all (λ c. not (is_break c)) label ≡ true → OneLine (label ++ decimal n)
counted label n e = labelled label (decimal n) e (decimal-OneLine n)

followed :
    (label : Str) (n : ℕ) (s : Str)
    → all (λ c. not (is_break c)) label ≡ true
    → all (λ c. not (is_break c)) s ≡ true
    → OneLine (label ++ (decimal n ++ s))
followed label n s e f =
    labelled label (decimal n ++ s) e
      (OneLine-append (decimal n) s (decimal-OneLine n) (OneLine-all s f))

pub header_lines-OneLine :
    (given : Provenance) (rs : ReviewSet)
    → IsPlainProvenance given
    → All OneLine (header_lines (header_of rs given) (length rs.rejected) (length rs.deferred))
unfolding header_lines is_break
header_lines-OneLine given rs h = (
  counted (str "# autokernel-kfrag schema=") 1 refl,
  (
    labelled (str "# generated: ") given.timestamp refl h.timestamp,
    (
      labelled (str "# snapshot:  ") given.snapshot_dir refl h.snapshot_dir,
      (
        labelled (str "# autonomy:  ") given.autonomy refl h.autonomy,
        All-append OneLine (optional_line (str "# model:     ") given.model) _
            (optional_line-OneLine (str "# model:     ") given.model
              (OneLine-all (str "# model:     ") refl) h.model)
            (All-append OneLine (optional_line (str "# tier:      ") given.service_tier) _
              (optional_line-OneLine (str "# tier:      ") given.service_tier
                (OneLine-all (str "# tier:      ") refl) h.service_tier)
              (
                counted (str "# enables:   ") (length (proposing (str "y") rs)) refl,
                (
                  counted (str "# disables:  ") (length (proposing (str "n") rs)) refl,
                  (
                    counted (str "# demotions: ") (length (proposing (str "m") rs)) refl,
                    (
                      followed (str "# other:     ") (length (others_of rs)) _ refl refl,
                      (
                        followed (str "# rejected:  ") (length rs.rejected) _ refl refl,
                        (
                          followed (str "# deferred:  ") (length rs.deferred) _ refl refl,
                          (
                            OneLine-all (str "#") refl,
                            (
                              OneLine-all
                                  (str
                                    "# Apply with:  scripts/kconfig/merge_config.sh -m .config <this-file>")
                                  refl,
                              (OneLine-all (str "#              make olddefconfig") refl, (tt, tt)),
                            ),
                          ),
                        ),
                      ),
                    ),
                  ),
                ),
              )),
      ),
    ),
  ),
)

kfrag_lines-OneLine :
    (rs : ReviewSet) (given : Provenance)
    → All IsPlain (accepted_of rs)
    → IsPlainProvenance given
    → All OneLine (kfrag_lines rs given)
unfolding kfrag_lines is_break
kfrag_lines-OneLine rs given p h =
    All-append OneLine (header_lines (header_of rs given) (length rs.rejected) (length rs.deferred))
      _ (header_lines-OneLine given rs h)
      (All-append OneLine (section enables_title enable_lines (proposing (str "y") rs)) _
        (section-OneLine enable_lines enable_lines-OneLine enables_title _
          (OneLine-all enables_title refl) (All-keep IsPlain _ (accepted_of rs) p))
        (All-append OneLine (section disables_title disable_lines (proposing (str "n") rs)) _
          (section-OneLine disable_lines disable_lines-OneLine disables_title _
            (OneLine-all disables_title refl) (All-keep IsPlain _ (accepted_of rs) p))
          (All-append OneLine (section demotions_title demote_lines (proposing (str "m") rs)) _
            (section-OneLine demote_lines demote_lines-OneLine demotions_title _
              (OneLine-all demotions_title refl) (All-keep IsPlain _ (accepted_of rs) p))
            (section-OneLine other_lines other_lines-OneLine others_title _
              (OneLine-all others_title refl) (All-keep IsPlain _ (accepted_of rs) p)))))

Means-kfrag_lines :
    (rs : ReviewSet) (given : Provenance)
    → All IsPlain (accepted_of rs)
    → Means (kfrag_lines rs given) (unsets rs) (sets rs)
unfolding kfrag_lines is_space
Means-kfrag_lines rs given p =
    let others =
      Means-section other_lines (λ r. to_list (previous_choice_symbol r)) (λ r. assigned r ∷ [])
        Means-other others_title (others_of rs) (hash-IsComment _ _ refl refl)
        (All-keep IsPlain _ (accepted_of rs) p) in
    let demotes =
      Means-demotes demotions_title (proposing (str "m") rs) (hash-IsComment _ _ refl refl)
        (All-keep IsPlain _ (accepted_of rs) p) in
    let disables =
      Means-disables disables_title (proposing (str "n") rs) (hash-IsComment _ _ refl refl)
        (All-keep IsPlain _ (accepted_of rs) p) in
    let enables =
      Means-enables enables_title (proposing (str "y") rs) (hash-IsComment _ _ refl refl)
        (All-keep IsPlain _ (accepted_of rs) p) in
    let header =
      Means-header_lines (header_of rs given) (length rs.rejected) (length rs.deferred) in
    Means-append _ _ [] (unsets rs) [] (sets rs) header (
      Means-append _ _ [] (unsets rs) _ _ enables
        (Means-append _ _ _ _ [] _ disables (Means-append _ _ [] _ _ _ demotes others)))

-- What is written is read back: the reader gets the symbols that the accepted proposals unset, and
-- the assignments, each symbol with its last value, when every accepted symbol is `CONFIG_` and a
-- word of capitals, digits and underscores, and no text has a line break.
pub parse_kfrag-write_kfrag :
    (rs : ReviewSet) (given : Provenance)
    → All IsPlain (accepted_of rs)
    → IsPlainProvenance given
    → ((parse_kfrag (write_kfrag rs given).0).disables ≡ unsets rs)
      × ((parse_kfrag (write_kfrag rs given).0).assignments ≡ set_all (sets rs) [])
unfolding parse_kfrag write_kfrag
parse_kfrag-write_kfrag rs given p h =
    let joined_lines =
      parse_kfrag-join (kfrag_lines rs given) nothing_parsed (kfrag_lines-OneLine rs given p h) in
    rw joined_lines (Means-kfrag_lines rs given p nothing_parsed)
