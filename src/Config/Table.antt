-- ===== src/Config/Table.antt =====
-- internal/config/strict.go: the rows of `levenshtein`'s table, and the distance.
use mathlib.Core.Path.{subst}
use dk_agent_memory.Config.Distance.{first_row, fill_row, table_rows, levenshtein, min3}
use dk_agent_memory.Config.Edits.{
  Edits, done, same, remove, insert, replace, IsLeast, cost, cell_least, cell_attained,
}
use dk_agent_memory.Base.{
  ℕ, suc, ◌+◌, ◌≤◌, ◌≡◌, refl, sym, ◌∙◌, inl, inr, List, [], ◌∷◌, ◌++◌, append-nil, arith,
  if◌then◌else◌, Bool-cases, length, get_or, Text, text_eq, text_eq_iff, is_empty,
}

all_inserted : (b : Text) → Edits [] b (length b)
all_inserted [] = done
all_inserted (y ∷ b) = insert y (all_inserted b)

all_removed : (a : Text) → Edits a [] (length a)
all_removed [] = done
all_removed (x ∷ a) = remove x (all_removed a)

at_least_inserted : (a b : Text) (k : ℕ) → Edits a b k → length b ≤ length a + k
at_least_inserted _ _ _ done = omega arith
at_least_inserted (x ∷ a) (_ ∷ b) k (same _ e) = omega (arith, at_least_inserted a b k e)
at_least_inserted (x ∷ a) b (suc k) (remove _ e) = omega (arith, at_least_inserted a b k e)
at_least_inserted a (y ∷ b) (suc k) (insert _ e) = omega (arith, at_least_inserted a b k e)
at_least_inserted (x ∷ a) (y ∷ b) (suc k) (replace _ _ e) = omega (arith, at_least_inserted a b k e)

at_least_removed : (a b : Text) (k : ℕ) → Edits a b k → length a ≤ length b + k
at_least_removed _ _ _ done = omega arith
at_least_removed (x ∷ a) (_ ∷ b) k (same _ e) = omega (arith, at_least_removed a b k e)
at_least_removed (x ∷ a) b (suc k) (remove _ e) = omega (arith, at_least_removed a b k e)
at_least_removed a (y ∷ b) (suc k) (insert _ e) = omega (arith, at_least_removed a b k e)
at_least_removed (x ∷ a) (y ∷ b) (suc k) (replace _ _ e) = omega (arith, at_least_removed a b k e)

-- The cells of a row, for the first text's prefix `ra` against the prefixes of the one_second from `rb`
-- on; the prefixes are written backwards.
abbrev Row : Text → Text → Text → List ℕ → Type 0
Row ra rb b [] = ⊥
Row ra rb [] (n ∷ ns) = IsLeast ra rb n
Row ra rb (y ∷ b) (n ∷ ns) = IsLeast ra rb n × Row ra (y ∷ rb) b ns

Row-first : (ra rb b : Text) (n : ℕ) (ns : List ℕ) → Row ra rb b (n ∷ ns) → IsLeast ra rb n
Row-first ra rb [] n ns h = h
Row-first ra rb (y ∷ b) n ns h = h.0

fill_row-Row :
    (x left : ℕ) (ra rb b : Text) (prev : List ℕ)
    → Row ra rb b prev
    → IsLeast (x ∷ ra) rb left
    → Row (x ∷ ra) rb b (left ∷ fill_row x b prev left)
unfolding fill_row
fill_row-Row x left ra rb [] prev h l = l
fill_row-Row x left ra rb (y ∷ b) (d ∷ u ∷ prev) (h, hs) l =
    let up = Row-first ra (y ∷ rb) b u prev hs in
    (
      l,
      fill_row-Row x (min3 (left + 1) (u + 1) (d + cost x y)) ra (y ∷ rb) b (u ∷ prev) hs (record {
        attained = cell_attained x y left u d ra rb l up h;
        least = cell_least x y left u d ra rb l up h;
      }),
    )
fill_row-Row x left ra rb (y ∷ b) (d ∷ []) (h, hs) l = absurd hs
fill_row-Row x left ra rb (y ∷ b) [] h l = absurd h

-- `a` backwards before `r`.
abbrev onto : Text → Text → Text
onto [] r = r
onto (x ∷ a) r = onto a (x ∷ r)

removed-IsLeast : (a : Text) → IsLeast a [] (length a)
removed-IsLeast a = record {
  attained = all_removed a;
  least = λ k e. omega (arith, at_least_removed a [] k e);
}

inserted-IsLeast : (b : Text) → IsLeast [] b (length b)
inserted-IsLeast b = record {
  attained = all_inserted b;
  least = λ k e. omega (arith, at_least_inserted [] b k e);
}

table_rows-Row :
    (i : ℕ) (a ra b : Text) (prev : List ℕ)
    → i ≡ suc (length ra)
    → Row ra [] b prev
    → Row (onto a ra) [] b (table_rows i a b prev)
unfolding table_rows
table_rows-Row i [] ra b prev e h = h
table_rows-Row i (x ∷ a) ra b prev e h =
    table_rows-Row (suc i) a (x ∷ ra) b (i ∷ fill_row x b prev i) (omega arith) (
      fill_row-Row x i ra [] b prev h
        (subst (λ n. IsLeast (x ∷ ra) [] n) (sym e) (removed-IsLeast (x ∷ ra))))

first_row-Row : (n : ℕ) (rb b : Text) → n ≡ length rb → Row [] rb b (first_row n b)
unfolding first_row
first_row-Row n rb [] e = rw e (inserted-IsLeast rb)
first_row-Row n rb (y ∷ b) e =
    (rw e (inserted-IsLeast rb), first_row-Row (suc n) (y ∷ rb) b (omega arith))

Row-last :
    (ra rb b : Text) (ns : List ℕ)
    → Row ra rb b ns
    → IsLeast ra (onto b rb) (get_or ns (length b) 0)
Row-last ra rb [] (n ∷ ns) h = h
Row-last ra rb (y ∷ b) (n ∷ ns) h = Row-last ra (y ∷ rb) b ns h.1
Row-last ra rb [] [] h = absurd h
Row-last ra rb (y ∷ b) [] h = absurd h

Edits-onto :
    (a b r s : Text) (k m : ℕ) → Edits a b k → Edits r s m → Edits (onto a r) (onto b s) (k + m)
Edits-onto _ _ r s k m done base =
    let p : m ≡ 0 + m = omega arith in subst (λ n. Edits r s n) p base
Edits-onto (x ∷ a) (_ ∷ b) r s k m (same _ e) base =
    Edits-onto a b (x ∷ r) (x ∷ s) k m e (same x base)
Edits-onto (x ∷ a) b r s (suc k) m (remove _ e) base =
    let p : k + suc m ≡ suc k + m = omega arith in
    subst (λ n. Edits (onto a (x ∷ r)) (onto b s) n) p
      (Edits-onto a b (x ∷ r) s k (suc m) e (remove x base))
Edits-onto a (y ∷ b) r s (suc k) m (insert _ e) base =
    let p : k + suc m ≡ suc k + m = omega arith in
    subst (λ n. Edits (onto a r) (onto b (y ∷ s)) n) p
      (Edits-onto a b r (y ∷ s) k (suc m) e (insert y base))
Edits-onto (x ∷ a) (y ∷ b) r s (suc k) m (replace _ _ e) base =
    let p : k + suc m ≡ suc k + m = omega arith in
    subst (λ n. Edits (onto a (x ∷ r)) (onto b (y ∷ s)) n) p
      (Edits-onto a b (x ∷ r) (y ∷ s) k (suc m) e (replace x y base))

onto-onto : (a r s : Text) → onto (onto a r) s ≡ onto r (a ++ s)
onto-onto [] r s = refl
onto-onto (x ∷ a) r s = onto-onto a (x ∷ r) s

onto_twice : (a : Text) → onto (onto a []) [] ≡ a
onto_twice a = onto-onto a [] [] ∙ append-nil a

turned : (a b : Text) (k : ℕ) → Edits a b k → Edits (onto a []) (onto b []) k
turned a b k e =
    let p : k + 0 ≡ k = omega arith in
    subst (λ n. Edits (onto a []) (onto b []) n) p (Edits-onto a b [] [] k 0 e done)

turned_back : (a b : Text) (k : ℕ) → Edits (onto a []) (onto b []) k → Edits a b k
turned_back a b k e =
    subst (λ t. Edits t b k) (onto_twice a)
      (subst (λ t. Edits (onto (onto a []) []) t k) (onto_twice b)
        (turned (onto a []) (onto b []) k e))

kept : (a : Text) → Edits a a 0
kept [] = done
kept (x ∷ a) = same x (kept a)

table-IsLeast : (a b : Text) → IsLeast a b (get_or (table_rows 1 a b (first_row 0 b)) (length b) 0)
table-IsLeast a b =
    let last =
      Row-last (onto a []) [] b _
        (table_rows-Row 1 a [] b (first_row 0 b) refl (first_row-Row 0 [] b refl)) in
    record {
      attained = turned_back a b _ last.attained;
      least = λ k e. last.least k (turned a b k e);
    }

-- Texts that differ.
apart-IsLeast :
    (a b : Text)
    → IsLeast a b (
        if is_empty a
        then length b
        else if is_empty b
        then length a
        else get_or (table_rows 1 a b (first_row 0 b)) (length b) 0)
apart-IsLeast [] b = inserted-IsLeast b
apart-IsLeast (x ∷ a) [] = removed-IsLeast (x ∷ a)
apart-IsLeast (x ∷ a) (y ∷ b) = table-IsLeast (x ∷ a) (y ∷ b)

-- The distance of two texts is the least number of removals, insertions and replacements of bytes
-- that turn the first into the one_second: some edits take that many, and none take fewer.
pub levenshtein-IsLeast : (a b : Text) → IsLeast a b (levenshtein a b)
unfolding levenshtein
levenshtein-IsLeast a b = elim (Bool-cases (text_eq a b)) [
  | inl e ↦
      rw (e, levenshtein)
        (subst (λ t. IsLeast a t 0) ((text_eq_iff a b).0 e)
          (record { attained = kept a; least = λ k h. omega arith }))
  | inr e ↦ rw (e, levenshtein) (apart-IsLeast a b)
]
