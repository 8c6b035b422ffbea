-- ===== src/Base/Strings.antt =====
-- Functions of Go's package `strings` on ASCII text, over its bytes.
use Prim.Native.Nat.{ℕ, suc, ◌+◌}
use mathlib.Core.Path.{◌≡◌, refl}
use mathlib.Core.Logic.{◌⊎◌, inl, inr}
use mathlib.Core.Bool.{Bool, true, false, ◌&&◌, ◌||◌}
use mathlib.Core.Option.{Option, none, some}
use mathlib.Core.List.{List, [], ◌∷◌, ◌++◌, reverse}
use dk_agent_memory.Base.Tests.{◌==◌, leb, if◌then◌else◌}
use dk_agent_memory.Base.Bytes.{Text, is_empty}

-- The white space of ASCII: tab, line feed, vertical tab, form feed, carriage return, blank.
unfoldable pub is_space : ℕ → Bool
is_space c = c == b' ' || leb 9 c && leb c 13

unfoldable pub trim_left : Text → Text
trim_left [] = []
trim_left (c ∷ s) = if is_space c then trim_left s else c ∷ s

unfoldable pub trim_space : Text → Text
unfolding trim_left is_space
trim_space s = reverse (trim_left (reverse (trim_left s)))

abbrev pub to_lower : ℕ → ℕ
to_lower c = if leb b'A' c && leb c b'Z' then c + 32 else c

-- `IndexByte`
unfoldable pub index_byte : ℕ → Text → Option ℕ
index_byte b [] = none
index_byte b (c ∷ s) =
    if c == b then some 0 else elim (index_byte b s) [ none ↦ none | some i ↦ some (suc i) ]

-- `LastIndexByte`
unfoldable pub last_index_byte : ℕ → Text → Option ℕ
last_index_byte b [] = none
last_index_byte b (c ∷ s) = elim (last_index_byte b s) [
  | some i ↦ some (suc i)
  | none ↦ if c == b then some 0 else none
]

-- The words of a text, `word` being the one under way.
unfoldable pub fields_from : Text → Text → List Text
fields_from word [] = if is_empty word then [] else word ∷ []
fields_from word (c ∷ s) =
    let closed = if is_empty word then fields_from [] s else word ∷ fields_from [] s in
    let longer = fields_from (word ++ c ∷ []) s in if is_space c then closed else longer

unfoldable pub fields : Text → List Text
unfolding fields_from is_space
fields s = fields_from [] s

-- `Join`
unfoldable pub join : Text → List Text → Text
join sep [] = []
join sep (p ∷ []) = p
join sep (p ∷ q ∷ ps) = p ++ (sep ++ join sep (q ∷ ps))

-- `HasPrefix`
unfoldable pub has_prefix : Text → Text → Bool
has_prefix s [] = true
has_prefix [] (p ∷ ps) = false
has_prefix (c ∷ s) (p ∷ ps) = c == p && has_prefix s ps

-- `Split` on one byte: `part` is the part under way.
unfoldable pub split_from : ℕ → Text → Text → List Text
split_from sep part [] = part ∷ []
split_from sep part (c ∷ s) =
    let cut = part ∷ split_from sep [] s in
    let longer = split_from sep (part ++ c ∷ []) s in if c == sep then cut else longer

unfoldable pub split_on : ℕ → Text → List Text
unfolding split_from
split_on sep s = split_from sep [] s

pub data Cut : Type 0 where
  uncut : Cut
  halves : (before after : Text) → Cut

-- `Cut` at the first of a byte.
unfoldable pub cut_on : ℕ → Text → Cut
cut_on b [] = uncut
cut_on b (c ∷ s) =
    if c == b
    then halves [] s
    else elim (cut_on b s) [ uncut ↦ uncut | halves before after ↦ halves (c ∷ before) after ]

pub Cut-cases :
    (c : Cut) → (c ≡ uncut) ⊎ ((before : Text) × (after : Text) × (c ≡ halves before after))
Cut-cases uncut = inl refl
Cut-cases (halves before after) = inr (before, after, refl)

-- `Contains`
unfoldable pub contains_text : Text → Text → Bool
unfolding has_prefix
contains_text [] sub = is_empty sub
contains_text (c ∷ s) sub = has_prefix (c ∷ s) sub || contains_text s sub
