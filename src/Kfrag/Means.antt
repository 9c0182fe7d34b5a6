-- ===== src/Kfrag/Means.antt =====
-- What runs of lines of a fragment amount to for its reader.
use autokernel.Base.{List, [], ◌∷◌, ◌++◌, Str, ◌≡◌, refl, ap, sym, ◌∙◌, append_assoc, append-nil}
use autokernel.Base.Space.{drop_right, rstrip, strip, strip_quotes}
use autokernel.Base.Dict.{set_key, set_all, set_all-append}
use autokernel.Kfrag.Parser.{parse_line, parse_lines, ParsedKfrag}
use autokernel.Kfrag.Writer.{unset_line, set_line}
use autokernel.Kfrag.Lines.{IsSymbol, parse_line-unset, parse_line-set}

-- The lines unset the symbols `ds` and assign `kvs`, in that order each.
abbrev pub Means : List Str → List Str → List (Str × Str) → Type 0
Means lines ds kvs =
    (out : ParsedKfrag)
    → ((parse_lines lines out).disables ≡ out.disables ++ ds)
      × ((parse_lines lines out).assignments ≡ set_all kvs out.assignments)

parse_lines-append :
    (xs ys : List Str) (out : ParsedKfrag)
    → parse_lines (xs ++ ys) out ≡ parse_lines ys (parse_lines xs out)
unfolding parse_lines
parse_lines-append [] ys out = refl
parse_lines-append (x ∷ xs) ys out = parse_lines-append xs ys (parse_line (rstrip x) out)

parse_lines-cons :
    (line : Str) (lines : List Str) (out new : ParsedKfrag)
    → parse_line (rstrip line) out ≡ new
    → parse_lines (line ∷ lines) out ≡ parse_lines lines new
unfolding parse_lines
parse_lines-cons line lines out new e = ap (parse_lines lines) e

pub Means-append :
    (xs ys ds es : List Str) (ks ls : List (Str × Str))
    → Means xs ds ks
    → Means ys es ls
    → Means (xs ++ ys) (ds ++ es) (ks ++ ls)
Means-append xs ys ds es ks ls hx hy out =
    let (a, b) = hx out in
    let (c, d) = hy (parse_lines xs out) in
    (
      rw (parse_lines-append xs ys out) (c ∙ ap (λ l. l ++ es) a ∙ append_assoc out.disables ds es),
      rw (parse_lines-append xs ys out)
          (d ∙ ap (set_all ls) b ∙ sym (set_all-append ks ls out.assignments)),
    )

pub Means-none : Means [] [] []
unfolding parse_lines set_all
Means-none out = (sym (append-nil _), refl)

-- A line that is a comment for every reader.
abbrev pub IsComment : Str → Type 0
IsComment line =
    (out : ParsedKfrag)
    → (header : Str) × (parse_line (rstrip line) out
        ≡ record out { header_lines = out.header_lines ++ header ∷ [] })

pub Means-comment :
    (line : Str) (lines ds : List Str) (kvs : List (Str × Str))
    → IsComment line
    → Means lines ds kvs
    → Means (line ∷ lines) ds kvs
unfolding parse_lines
Means-comment line lines ds kvs c h out =
    let (header, e) = c out in
    let (a, b) = h (record out { header_lines = out.header_lines ++ header ∷ [] }) in
    let step = parse_lines-cons line lines out _ e in (rw step a, rw step b)

pub Means-blank :
    (lines ds : List Str) (kvs : List (Str × Str)) → Means lines ds kvs → Means ([] ∷ lines) ds kvs
unfolding parse_lines parse_line drop_right
Means-blank lines ds kvs h out = h out

pub Means-unset :
    (s : Str) (lines ds : List Str) (kvs : List (Str × Str))
    → IsSymbol s
    → Means lines ds kvs
    → Means (unset_line s ∷ lines) (s ∷ ds) kvs
unfolding parse_lines
Means-unset s lines ds kvs i h out =
    let (a, b) = h (record out { disables = out.disables ++ s ∷ [] }) in
    let step = parse_lines-cons (unset_line s) lines out _ (parse_line-unset s out i) in
    (rw step (a ∙ append_assoc out.disables (s ∷ []) ds), rw step b)

pub Means-set :
    (s value : Str) (lines ds : List Str) (kvs : List (Str × Str))
    → IsSymbol s
    → Means lines ds kvs
    → Means (set_line s value ∷ lines) ds ((s, strip_quotes (strip (rstrip value))) ∷ kvs)
unfolding parse_lines set_all
Means-set s value lines ds kvs i h out =
    let new = set_key s (strip_quotes (strip (rstrip value))) out.assignments in
    let (a, b) = h (record out { assignments = new }) in
    let step = parse_lines-cons (set_line s value) lines out _ (parse_line-set s value out i) in
    (rw step a, rw step b)
