-- ===== src/Kfrag/Format.antt =====
-- The texts of one proposal in a fragment: src/autokernel/kfrag.py.
use autokernel.Base.{
  ℕ, ◌+◌, ◌*◌, ◌/◌, ◌%◌, Bool, false, not, ◌&&◌, ◌||◌, List, [], ◌∷◌, ◌++◌, Option, none, some, Str,
  str, ltb, leb, ◌==◌, if◌then◌else◌, all, member, same, strip_prefix, starts_with, ends_with,
}
use autokernel.Base.Space.{drop_left, is_nil, strip}
use autokernel.Base.Decimal.{decimal}
use autokernel.Models.{
  RiskLevel, low, medium, high, ProposalSource, deterministic, microarch, llm, user, choice, toggle,
  tunable, ReviewedProposal, source_eq, one,
}
use autokernel.Kfrag.Parser.{is_symbol_char}

-- `source.value` and `risk.value`
abbrev pub source_value : ProposalSource → Str
source_value deterministic = str "deterministic"
source_value microarch = str "microarch"
source_value llm = str "llm"
source_value user = str "user"
source_value choice = str "choice"
source_value toggle = str "toggle"
source_value tunable = str "tunable"

abbrev pub risk_value : RiskLevel → Str
risk_value low = str "low"
risk_value medium = str "medium"
risk_value high = str "high"

-- `f"{confidence:.2f}"`: the hundredths, a tie going to the even one.
abbrev pub round_even : ℕ → ℕ → ℕ
round_even q r = if ltb one (2 * r) then q + 1 else if 2 * r == one then q + q % 2 else q

unfoldable pub hundredths : ℕ → ℕ
hundredths c = round_even ((c * 100) / one) ((c * 100) % one)

abbrev pub two_digits : ℕ → Str
two_digits h = (b'0' + (h / 10) % 10) ∷ (b'0' + h % 10) ∷ []

unfoldable pub fixed2 : ℕ → Str
fixed2 c = decimal (hundredths c / 100) ++ (b'.' ∷ two_digits (hundredths c))

-- `r.rule or ""`
abbrev pub or_empty : Option Str → Str
or_empty none = []
or_empty (some s) = s

unfoldable pub comment_for : ReviewedProposal → Str
comment_for r =
    str "["
    ++ (source_value r.proposal.source
        ++ (str ", conf="
            ++ (fixed2 r.proposal.confidence
                ++ (str ", risk="
                    ++ (risk_value r.proposal.risk
                        ++ (str ", rule="
                            ++ (or_empty r.rule ++ (str "] " ++ r.proposal.reason))))))))

-- `symbol[len("CONFIG_"):] if symbol.startswith("CONFIG_") else symbol`
abbrev pub short_symbol : Str → Str
short_symbol symbol = elim (strip_prefix (str "CONFIG_") symbol) [ none ↦ symbol | some s ↦ s ]

abbrev pub is_digit : ℕ → Bool
is_digit c = leb b'0' c && leb c b'9'

-- `s.isdigit()`
abbrev pub all_digits : Str → Bool
all_digits s = not (is_nil s) && all is_digit s

abbrev pub is_hex_digit : ℕ → Bool
is_hex_digit c = is_digit c || (leb b'a' c && leb c b'f') || (leb b'A' c && leb c b'F')

-- `v.startswith("0x") and all(c in "0123…" for c in v[2:])`
abbrev pub is_hex : Str → Bool
is_hex v = elim (strip_prefix (str "0x") v) [ none ↦ false | some s ↦ all is_hex_digit s ]

-- `v.lstrip("-").isdigit() or …`
unfoldable pub is_number : Str → Bool
is_number v = all_digits (drop_left (λ c. c == b'-') v) || is_hex v

unfoldable pub is_quoted : Str → Bool
is_quoted v = starts_with v (str "\"") && ends_with v (str "\"")

-- The right side of the assignment.
unfoldable pub rendered : Str → Str → Str
unfolding is_number is_quoted
rendered symbol v =
    if same v (short_symbol symbol)
    then str "y"
    else if is_number v
    then v
    else if is_quoted v
    then v
    else b'"' ∷ v ++ b'"' ∷ []

unfoldable pub format_assignment : Str → Str → Str
unfolding rendered
format_assignment symbol value = symbol ++ (b'=' ∷ rendered symbol (strip value))

-- `re.fullmatch(r"[A-Z0-9_]+", s)`
unfoldable pub is_word : Str → Bool
is_word s = not (is_nil s) && all is_symbol_char s

abbrev pub plain_values : List Str
plain_values = str "?" ∷ str "y" ∷ str "n" ∷ str "m" ∷ []

-- The old symbol of a choice: the short name must be a word, and the symbol another one.
unfoldable pub old_symbol : Str → Str → Option Str
unfolding is_word
old_symbol config current =
    let short = short_symbol current in
    let old = str "CONFIG_" ++ short in
    if not (is_word short) then none else if same old config then none else some old

unfoldable pub previous_choice_symbol : ReviewedProposal → Option Str
unfolding old_symbol
previous_choice_symbol r =
    let current = strip r.proposal.current_value in
    if not (source_eq r.proposal.source choice)
    then none
    else if is_nil current
        || member current plain_values
        || same current (strip r.proposal.proposed_value)
    then none
    else old_symbol r.proposal.config current
