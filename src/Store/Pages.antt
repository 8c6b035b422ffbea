-- ===== src/Store/Pages.antt =====
-- internal/store/memories.go: the pages of the stream of changes, one behind the other.
use dk_agent_memory.Store.Model.{Identity, Memory, visible}
use dk_agent_memory.Store.Read.{clamp_limit, order_by}
use dk_agent_memory.Store.Sync.{
  Clock, Change, bar, since, after, oldest_first, change, next_cursor, changes, since-next_cursor,
}
use dk_agent_memory.Store.Tenancy.{order_by-All, take-All}
use mathlib.Core.Path.{subst}
use dk_agent_memory.Store.Recency.{
  Later, after-Later, Later-after, oldest_first-connex, IsAscending, order_by-IsAscending,
  Member-order_by, IsAscending-parts, IsAscending-last,
}
use dk_agent_memory.Base.{
  ℕ, zero, suc, ◌≡◌, refl, sym, ap, ◌∙◌, ◌↔◌, ◌⊎◌, inl, inr, Bool, true, false, ◌&&◌, none, some,
  List, [], ◌∷◌, ◌++◌, map, arith, Bool-cases, take, drop, keep, All, Member, Member-append_right,
  Member-split, All-Member, All-map, Text, ok_inj, >>=-eq-ok, index_byte, here, there, ok,
}

-- A printed time reads back, and holds no bar.
pub record Prints (clock : Clock) : Type 0 where
  pub reads : (t : ℕ) → clock.parse (clock.format t) ≡ some t
  pub bare : (t : ℕ) → index_byte bar (clock.format t) ≡ none

last-cases :
    {A : Type 0} (xs : List A) → (xs ≡ []) ⊎ ((ms : List A) × (m : A) × (xs ≡ ms ++ (m ∷ [])))
last-cases [] = inl refl
last-cases (x ∷ xs) = elim (last-cases xs) [
  | inl e ↦ inr ([], x, ap (λ r. x ∷ r) e)
  | inr (ms, m, e) ↦ inr (x ∷ ms, m, ap (λ r. x ∷ r) e)
]

take-drop : {A : Type 0} (n : ℕ) (xs : List A) → take n xs ++ drop n xs ≡ xs
take-drop zero xs = refl
take-drop (suc n) [] = refl
take-drop (suc n) (x ∷ xs) = ap (λ r. x ∷ r) (take-drop n xs)

module _ {A : Type 0} (p : A → Bool) where
  Member-keep : (a : A) (xs : List A) → Member a xs → p a ≡ true → Member a (keep p xs)
  Member-keep a [] m h = elim m [ ]
  Member-keep a (x ∷ xs) here h = rw h here
  Member-keep a (x ∷ xs) (there m) h = elim (Bool-cases (p x)) [
    | inl e ↦ rw e (there (Member-keep a xs m h))
    | inr e ↦ rw e (Member-keep a xs m h)
  ]

  keep-Member : (xs : List A) → All (λ a. (p a ≡ true) × Member a xs) (keep p xs)
  keep-Member [] = tt
  keep-Member (x ∷ xs) =
      let rest =
        All-map (λ a. (p a ≡ true) × Member a xs) (λ a. (p a ≡ true) × Member a (x ∷ xs))
          (λ a h. (h.0, there h.1)) (keep p xs) (keep-Member xs) in
      elim (Bool-cases (p x)) [ inl e ↦ rw e ((e, here), rest) | inr e ↦ rw e rest ]

module _ {Real : Type 0} where
  abbrev pub position : Memory Real → ℕ × Text
  position m = (m.updated_at, m.id)

  -- An identifier names one row.
  abbrev pub HasUniqueIds : List (Memory Real) → Type 0
  HasUniqueIds db = (m n : Memory Real) → Member m db → Member n db → m.id ≡ n.id → m ≡ n

  -- The rows that lie behind one position and not behind another, and that the caller may see.
  abbrev pub Between : Identity → ℕ × Text → ℕ × Text → Memory Real → Type 0
  Between id from to m = (visible id m ≡ true) × Later from m × ¬ (Later to m)

  module _ (id : Identity) (from : ℕ × Text) (db : List (Memory Real)) (n : ℕ) where
    abbrev is_news : Memory Real → Bool
    is_news m = visible id m && after from m

    abbrev in_order : List (Memory Real)
    in_order = order_by oldest_first (keep is_news db)

    abbrev page_rows : List (Memory Real)
    page_rows = take n in_order

    page_rows-All : All (λ m. (is_news m ≡ true) × Member m db) page_rows
    page_rows-All =
        let P = λ (m : Memory Real). (is_news m ≡ true) × Member m db in
        take-All P n in_order
          (order_by-All P oldest_first (keep is_news db) (keep-Member is_news db))

    split-IsAscending : IsAscending (page_rows ++ drop n in_order)
    split-IsAscending = rw (take-drop n in_order) (order_by-IsAscending (keep is_news db))

    -- The page is empty, and the position stays; or the position is that of its last row.
    abbrev EndsAt : ℕ × Text → Type 0
    EndsAt to =
        ((page_rows ≡ []) × (to ≡ from))
        ⊎ ((ms : List (Memory Real)) × (l : Memory Real) × (page_rows ≡ ms ++ (l ∷ []))
            × (to ≡ position l))

    sent-Between :
        (to : ℕ × Text) (m : Memory Real) → EndsAt to → Member m page_rows → Between id from to m
    sent-Between to m ends h =
        let (news, stored) = All-Member (λ k. (is_news k ≡ true) × Member k db) page_rows-All h in
        (ground arith, after-Later from m (ground arith), passed ends)
      where
        passed : EndsAt to → ¬ (Later to m)
        passed (inl (none', same)) =
            elim (subst (λ (r : List (Memory Real)). Member m r) none' h) [ ]
        passed (inr (ms, l, same, is_l)) = λ later.
            let whole : IsAscending ((ms ++ (l ∷ [])) ++ drop n in_order) =
              subst (λ r. IsAscending (r ++ drop n in_order)) same split-IsAscending in
            let not_behind =
              IsAscending-last ms l (drop n in_order) m whole
                (subst (λ (r : List (Memory Real)). Member m r) same h) in
            let behind = Later-after (position l) m (subst (λ p. Later p m) is_l later) in cc

    Between-sent :
        (to : ℕ × Text) (m : Memory Real)
        → HasUniqueIds db
        → EndsAt to
        → Member m db
        → Between id from to m
        → Member m page_rows
    Between-sent to m unique ends stored (seen, later, not_later) =
        let news : is_news m ≡ true = ground (arith, Later-after from m later) in
        let listed =
          Member-order_by oldest_first m (keep is_news db) (Member-keep is_news m db stored news) in
        let listed' : Member m (page_rows ++ drop n in_order) = rw (take-drop n in_order) listed in
        elim (Member-split page_rows (drop n in_order) listed') [
          | inl h ↦ h
          | inr h ↦ unsent h ends
        ]
      where
        unsent : Member m (drop n in_order) → EndsAt to → Member m page_rows
        unsent h (inl (none', same)) = absurd (not_later (subst (λ p. Later p m) (sym same) later))
        unsent h (inr (ms, l, same, is_l)) =
            let l_sent : Member l page_rows =
              subst (λ (r : List (Memory Real)). Member l r) (sym same)
                (Member-append_right ms (l ∷ []) here) in
            let m_not =
              IsAscending-parts page_rows (drop n in_order) l m split-IsAscending l_sent h in
            let l_not : oldest_first l m ≡ false = elim (Bool-cases (oldest_first l m)) [
              | inl e ↦
                  absurd
                    (not_later (subst (λ p. Later p m) (sym is_l) (after-Later (position l) m e)))
              | inr e ↦ e
            ] in
            let l_stored =
              All-Member (λ k. (is_news k ≡ true) × Member k db) page_rows-All l_sent in
            let one = unique l m l_stored.1 stored (oldest_first-connex l m l_not m_not) in
            subst (λ k. Member k page_rows) one l_sent

    page_rows_iff :
        (to : ℕ × Text) (m : Memory Real)
        → HasUniqueIds db
        → EndsAt to
        → Member m db
        → Member m page_rows ↔ Between id from to m
    page_rows_iff to m unique ends stored =
        (sent-Between to m ends, Between-sent to m unique ends stored)

  map-memory : (ms : List (Memory Real)) → map (λ (c : Change Real). c.memory) (map change ms) ≡ ms
  map-memory [] = refl
  map-memory (m ∷ ms) = ap (λ r. m ∷ r) (map-memory ms)

  module _ (clock : Clock) (prints : Prints clock) (id : Identity) (cursor : Text) (limit : ℕ)
      (db : List (Memory Real)) where
    -- The cursor that is returned names the position that the page ends at.
    cursor-EndsAt :
        (from : ℕ × Text) (n : ℕ)
        → since clock cursor ≡ ok from
        → (to : ℕ × Text) × (since clock (next_cursor clock cursor (page_rows id from db n))
            ≡ ok to)
          × EndsAt id from db n to
    cursor-EndsAt from n e = elim (last-cases (page_rows id from db n)) [
      | inl none' ↦
          (from, ap (λ ms. since clock (next_cursor clock cursor ms)) none' ∙ e, inl (none', refl))
      | inr (ms, l, same) ↦ (
        position l,
        ap (λ rows. since clock (next_cursor clock cursor rows)) same
            ∙ since-next_cursor clock cursor ms l (prints.reads l.updated_at)
                (prints.bare l.updated_at),
        inr (ms, l, same, refl),
      )
    ]

    -- If printed times read back and hold no bar, and identifiers are unique, then a cursor that comes back from a
    -- call names a position. A row is sent by that call if and only if the caller may see it and it lies behind
    -- the position of the cursor that the call was given, and not behind that of the cursor that it returned. So
    -- the call that goes on from there sends no row again that has not changed, and none is passed over.
    pub changes-Between :
        (from : ℕ × Text) (cs : List (Change Real)) (next : Text) (m : Memory Real)
        → HasUniqueIds db
        → since clock cursor ≡ ok from
        → changes clock id cursor limit db ≡ ok (cs, next)
        → Member m db
        → (to : ℕ × Text) × (since clock next ≡ ok to)
          × (Member m (map (λ (c : Change Real). c.memory) cs) ↔ Between id from to m)
    unfolding changes
    changes-Between from cs next m unique starts e stored =
        let (from', starts', e1) = >>=-eq-ok (since clock cursor) _ e in
        let same : from' ≡ from = ok_inj (sym starts' ∙ starts) in
        let n = clamp_limit limit 1000 200 in
        let (to, ends, at_end) = cursor-EndsAt from' n starts' in
        let sent = page_rows_iff id from' db n to m unique at_end stored in
        let page = ok_inj e1 in
        let is_next = ap (λ (r : List (Change Real) × Text). r.1) page in
        let rows : page_rows id from' db n ≡ map (λ (c : Change Real). c.memory) cs =
          sym (map-memory (page_rows id from' db n))
          ∙ ap (λ (r : List (Change Real) × Text). map (λ (c : Change Real). c.memory) r.0) page in
        (
          to,
          ap (since clock) (sym is_next) ∙ ends,
          subst (λ f. Member m (map (λ (c : Change Real). c.memory) cs) ↔ Between id f to m) same
              (subst (λ (r : List (Memory Real)). Member m r ↔ Between id from' to m) rows sent),
        )
