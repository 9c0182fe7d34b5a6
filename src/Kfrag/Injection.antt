-- ===== src/Kfrag/Injection.antt =====
-- A reason of two lines puts a line of its own into a fragment.
use autokernel.Base.{
  List, [], ◌∷◌, ◌++◌, none, Str, str, ◌≡◌, refl, ap, sym, append_assoc, All, All-append, join,
  same,
}
use autokernel.Base.Space.{OneLine, is_space, is_break, strip_quotes, strip, drop_right}
use autokernel.Models.{ReviewedProposal, ReviewSet, low, llm, accept, by_user, one, decision_eq}
use autokernel.Kfrag.Parser.{parse_kfrag, nothing_parsed}
use autokernel.Kfrag.Format.{comment_for}
use autokernel.Kfrag.Writer.{
  Provenance, header_of, header_lines, note_line, unset_line, set_line, enables_title, kfrag_lines,
  write_kfrag, entries,
}
use autokernel.Kfrag.Lines.{IsSymbol, parse_line-note}
use autokernel.Kfrag.Means.{
  Means, Means-append, Means-none, Means-comment, Means-blank, Means-unset, Means-set,
}
use autokernel.Kfrag.OneLines.{OneLine-all, note_line-OneLine, unset_line-OneLine, set_line-OneLine}
use autokernel.Kfrag.Header.{IsPlainProvenance, hash-IsComment, Means-header_lines}
use autokernel.Kfrag.RoundTrip.{parse_kfrag-join, header_lines-OneLine}

abbrev pub enabling : Str → Str → ReviewedProposal
enabling config reason = record {
  proposal = record {
    config = config;
    current_value = str "n";
    proposed_value = str "y";
    reason = reason;
    risk = low;
    confidence = one;
    source = llm;
    evidence = [];
  };
  decision = accept;
  reviewer = by_user;
  rule = none;
  note = none;
}

-- One accepted proposal.
abbrev pub accepting_one : ReviewedProposal → ReviewSet
accepting_one r = record {
  base_diff_path = str "p";
  accepted = r ∷ [];
  rejected = [];
  deferred = [];
}

abbrev feed : Str
feed = b'\n' ∷ []

join-split :
    (xs ys : List Str) (l m : Str)
    → join feed (xs ++ (l ++ b'\n' ∷ m) ∷ ys) ≡ join feed (xs ++ l ∷ m ∷ ys)
unfolding join
join-split [] [] l m = refl
join-split [] (y ∷ ys) l m = append_assoc l (b'\n' ∷ m) (b'\n' ∷ join feed (y ∷ ys))
join-split (x ∷ []) ys l m = ap (λ t. x ++ b'\n' ∷ t) (join-split [] ys l m)
join-split (x ∷ z ∷ xs) ys l m = ap (λ t. x ++ b'\n' ∷ t) (join-split (z ∷ xs) ys l m)

note_line-split :
    (config a s : Str)
    → note_line (enabling config (a ++ b'\n' ∷ s)) ≡ note_line (enabling config a) ++ b'\n' ∷ s
unfolding comment_for
note_line-split config a s = simp append_assoc

abbrev written : Str → Str → ReviewSet
written config reason = accepting_one (enabling config reason)

module _ (config a s : Str) (given : Provenance) (i : IsSymbol config) (k : IsSymbol s)
    (h : OneLine a) (p : IsPlainProvenance given) where
  abbrev above : Str → List Str
  above reason = header_lines (header_of (written config reason) given) 0 0 ++ enables_title ∷ []

  abbrev below : List Str
  below = set_line config (str "y") ∷ [] ∷ []

  abbrev reason_of : Str
  reason_of = a ++ b'\n' ∷ unset_line s

  kfrag_lines-one :
      kfrag_lines (written config reason_of) given
      ≡ above reason_of ++ (note_line (enabling config a) ++ b'\n' ∷ unset_line s) ∷ below
  unfolding kfrag_lines entries decision_eq same
  kfrag_lines-one = rw (sym (note_line-split config a (unset_line s))) (
      sym (
        append_assoc (header_lines (header_of (written config reason_of) given) 0 0)
          (enables_title ∷ []) _))

  Means-injected :
      Means
        (above reason_of ++ note_line (enabling config a) ∷ unset_line s ∷ below)
        (s ∷ [])
        ((config, strip_quotes (strip (drop_right is_space (str "y")))) ∷ [])
  unfolding is_space
  Means-injected =
      Means-append (above reason_of) _ [] (s ∷ []) [] _
        (Means-append (header_lines (header_of (written config reason_of) given) 0 0)
          (enables_title ∷ []) [] [] [] [] (Means-header_lines _ 0 0)
          (Means-comment enables_title [] [] [] (hash-IsComment _ _ refl refl) Means-none))
        (Means-comment (note_line (enabling config a)) _ _ _
          (λ out. parse_line-note config (comment_for (enabling config a)) out i)
          (Means-unset s below [] _ k
            (Means-set config (str "y") _ [] [] i (Means-blank [] [] [] Means-none))))

  lines-OneLine :
      All OneLine (above reason_of ++ note_line (enabling config a) ∷ unset_line s ∷ below)
  unfolding is_break
  lines-OneLine =
      All-append OneLine (above reason_of) _
        (All-append OneLine (header_lines (header_of (written config reason_of) given) 0 0) _
          (header_lines-OneLine given (written config reason_of) p)
          (OneLine-all enables_title refl, tt))
        (
          note_line-OneLine (enabling config a)
              (record { symbol = i; value = (refl, tt); reason = h; rule = tt }),
          (unset_line-OneLine s k, (set_line-OneLine config (str "y") i (refl, tt), (tt, tt))),
        )

  -- Where the only accepted proposal enables `config`, and its reason is one line followed by a
  -- line that reads as the unset mark of the symbol `s`, the reader of the written fragment unsets
  -- `s`, which no accepted proposal proposes. Both symbols are `CONFIG_` and a word, and no text of
  -- the provenance has a line break.
  pub disables-write_kfrag :
      (parse_kfrag (write_kfrag (written config reason_of) given).0).disables ≡ s ∷ []
  unfolding parse_kfrag write_kfrag
  disables-write_kfrag =
      rw
        (
          kfrag_lines-one,
          join-split (above reason_of) below (note_line (enabling config a)) (unset_line s),
          parse_kfrag-join _ nothing_parsed lines-OneLine,
        )
        (Means-injected nothing_parsed).0
