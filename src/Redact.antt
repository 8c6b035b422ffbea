-- ===== src/Redact.antt =====
-- internal/redact/redact.go: secrets found by rules, overlaps resolved, spans replaced by markers.
--
-- A text is the list of its bytes. The regular expressions belong to Go's `regexp` package: for the
-- rule at an index and a text, `find_all` is the list of the pairs `m[2*group], m[2*group+1]` of
-- `FindAllStringSubmatchIndex`, where `none` is a group that took no part (index -1).
pub mod Overlaps
pub mod Matches
pub mod Replace
pub mod Lines
mod Tests
use dk_agent_memory.Base.{
  ℕ, suc, ◌+◌, ◌-◌, Bool, true, false, not, Option, none, some, List, [], ◌∷◌, ◌++◌, map, ltb, leb,
  ◌==◌, if◌then◌else◌, length, get_or, take, drop, Text, codes,
}

pub data Kind : Type 0 where
  aws_access_key aws_secret_key openai_key anthropic_key google_api_key github_token slack_token :
      Kind
  stripe_key jwt private_key password connection_string bearer_token dkm_api_key generic_secret :
      Kind

-- The string of a kind, as it stands in the marker.
abbrev pub kind_name : Kind → Text
kind_name aws_access_key = codes "aws_access_key"
kind_name aws_secret_key = codes "aws_secret_key"
kind_name openai_key = codes "openai_key"
kind_name anthropic_key = codes "anthropic_key"
kind_name google_api_key = codes "google_api_key"
kind_name github_token = codes "github_token"
kind_name slack_token = codes "slack_token"
kind_name stripe_key = codes "stripe_key"
kind_name jwt = codes "jwt"
kind_name private_key = codes "private_key"
kind_name password = codes "password"
kind_name connection_string = codes "connection_string"
kind_name bearer_token = codes "bearer_token"
kind_name dkm_api_key = codes "dkm_api_key"
kind_name generic_secret = codes "generic_secret"

-- The kinds of `rules`, in the order of the table.
abbrev pub rules : List Kind
rules =
    private_key ∷ private_key ∷ aws_access_key ∷ aws_secret_key ∷ anthropic_key ∷ openai_key
    ∷ stripe_key ∷ google_api_key ∷ github_token ∷ github_token ∷ slack_token ∷ dkm_api_key ∷ jwt
    ∷ connection_string ∷ password ∷ bearer_token ∷ generic_secret ∷ []

pub record Finding : Type 0 where
  pub kind : Kind
  pub offset : ℕ
  pub length : ℕ
  pub line : ℕ
  pub column : ℕ

pub record Span : Type 0 where
  pub start : ℕ
  pub end : ℕ
  pub kind : Kind
  pub rank : ℕ

-- The order of `sort.Slice`: earliest start, then the longer span, then the earlier rule.
pub before : Span → Span → Bool
before a b =
    if not (a.start == b.start)
    then ltb a.start b.start
    else if not (a.end == b.end)
    then ltb b.end a.end
    else ltb a.rank b.rank

insert : Span → List Span → List Span
insert x [] = x ∷ []
insert x (y ∷ ys) = let rest = insert x ys in if before y x then y ∷ rest else x ∷ y ∷ ys

-- Spans that compare alike are the same span, so any sort gives this list.
pub sort : List Span → List Span
sort [] = []
sort (x ∷ xs) = insert x (sort xs)

-- The matches of one rule; an empty or missing group is passed over.
matched : Kind → ℕ → List (Option (ℕ × ℕ)) → List Span
matched kind rank [] = []
matched kind rank (none ∷ ms) = matched kind rank ms
matched kind rank (some (lo, hi) ∷ ms) =
    if leb hi lo
    then matched kind rank ms
    else record { start = lo; end = hi; kind = kind; rank = rank } ∷ matched kind rank ms

-- The loop over the sorted spans. `end` starts at -1 in the source, and no start is below 0 either.
pub sweep : ℕ → List Span → List Span
sweep end [] = []
sweep end (sp ∷ sps) =
    let kept = sp ∷ sweep sp.end sps in if ltb sp.start end then sweep end sps else kept

-- The loop of `newLineIndex`, from byte `i`.
starts_from : ℕ → Text → List ℕ
starts_from i [] = []
starts_from i (c ∷ s) =
    let rest = starts_from (i + 1) s in if c == b'\n' then (i + 1) ∷ rest else rest

pub line_starts : Text → List ℕ
line_starts s = 0 ∷ starts_from 0 s

-- `sort.Search`: the first index whose start lies behind the offset.
search_start : List ℕ → ℕ → ℕ
search_start [] offset = 0
search_start (p ∷ ps) offset =
    let later = search_start ps offset in if ltb offset p then 0 else suc later

-- `-` stops at 0, as the guard `if i < 0` has it.
pub line_at : List ℕ → ℕ → ℕ × ℕ
line_at starts offset =
    let i = search_start starts offset - 1 in (i + 1, offset - get_or starts i 0 + 1)

abbrev pub marker : Kind → Text
marker kind = codes "[redacted:" ++ (kind_name kind ++ codes "]")

-- The loop of `Apply`: `prev` is where the text that is not yet written begins.
pub write_from : Text → ℕ → List Span → Text
write_from s prev [] = drop prev s
write_from s prev (sp ∷ sps) =
    take (sp.start - prev) (drop prev s) ++ (marker sp.kind ++ write_from s sp.end sps)

abbrev finding : List ℕ → Span → Finding
finding lines sp =
    let (line, column) = line_at lines sp.start in
    record {
      kind = sp.kind;
      offset = sp.start;
      length = sp.end - sp.start;
      line = line;
      column = column;
    }

-- The result of `Apply` for the spans that were collected.
replaced : Text → List Span → Text × List Finding
replaced s [] = (s, [])
replaced s (sp ∷ sps) = (write_from s 0 (sp ∷ sps), map (finding (line_starts s)) (sp ∷ sps))

module _ (find_all : ℕ → Text → List (Option (ℕ × ℕ))) where
  -- The two nested loops over the rules and their matches.
  candidates_from : ℕ → List Kind → Text → List Span
  candidates_from i [] s = []
  candidates_from i (kind ∷ kinds) s =
      matched kind i (find_all i s) ++ candidates_from (i + 1) kinds s

  pub candidates : Text → List Span
  candidates s = candidates_from 0 rules s

  pub collect : Text → List Span
  collect [] = []
  collect (c ∷ s) = sweep 0 (sort (candidates (c ∷ s)))

  pub scan : Text → List Finding
  scan s = map (finding (line_starts s)) (collect s)

  pub apply : Text → Text × List Finding
  apply s = replaced s (collect s)

  pub clean : Text → Text
  clean s = (apply s).0

  pub has : Text → Bool
  has s = elim (collect s) [ [] ↦ false | _ ↦ true ]
