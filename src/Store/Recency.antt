-- ===== src/Store/Recency.antt =====
-- The order of the stream of changes: by time, then by identifier as text.
use dk_agent_memory.Store.Model.{Memory}
use dk_agent_memory.Store.Read.{insert_by, order_by}
use dk_agent_memory.Store.Tenancy.{insert_by-All}
use dk_agent_memory.Store.Sync.{after, oldest_first}
use dk_agent_memory.Base.{
  ℕ, ◌<◌, ◌≡◌, refl, inl, inr, Bool, true, false, List, [], ◌∷◌, ◌++◌, append_assoc, arith, ltb,
  Bool-cases, All, Member, Member-append_right, Member-split, All-Member, All-map, Text, text_lt,
  here, there,
}

text_lt-asym : (s t : Text) → text_lt s t ≡ true → text_lt t s ≡ false
unfolding text_lt
text_lt-asym [] [] h = refl
text_lt-asym (a ∷ s) [] h = cc
text_lt-asym [] (b ∷ t) h = refl
text_lt-asym (a ∷ s) (b ∷ t) h = ground (arith, text_lt-asym s t)

text_lt-negtrans : (s t u : Text) → text_lt s t ≡ false → text_lt t u ≡ false → text_lt s u ≡ false
unfolding text_lt
text_lt-negtrans s t [] h k = refl
text_lt-negtrans [] [] (c ∷ u) h k = k
text_lt-negtrans [] (b ∷ t) (c ∷ u) h k = cc
text_lt-negtrans (a ∷ s) [] (c ∷ u) h k = cc
text_lt-negtrans (a ∷ s) (b ∷ t) (c ∷ u) h k = ground (arith, text_lt-negtrans s t u)

text_lt-connex : (s t : Text) → text_lt s t ≡ false → text_lt t s ≡ false → s ≡ t
unfolding text_lt
text_lt-connex [] [] h k = refl
text_lt-connex [] (b ∷ t) h k = cc
text_lt-connex (a ∷ s) [] h k = cc
text_lt-connex (a ∷ s) (b ∷ t) h k =
    let same : a ≡ b = ground (arith, h, k) in
    let rest : s ≡ t = text_lt-connex s t (ground (arith, h, same)) (ground (arith, k, same)) in
    λ i. same i ∷ rest i

Member-single : {A : Type 0} (a b : A) → Member a (b ∷ []) → a ≡ b
Member-single a _ here = refl
Member-single a b (there gone) = elim gone [ ]

-- The position of a row, which lies behind another: at a later time, or at the same time under a greater
-- identifier.
pub data Later {Real : Type 0} : ℕ × Text → Memory Real → Type 0 where
  later_time : {t : ℕ} {id : Text} {m : Memory Real} → t < m.updated_at → Later (t, id) m
  later_id :
      {t : ℕ} {id : Text} {m : Memory Real}
      → t ≡ m.updated_at
      → text_lt id m.id ≡ true
      → Later (t, id) m

module _ {Real : Type 0} where
  pub after-Later : (p : ℕ × Text) (m : Memory Real) → after p m ≡ true → Later p m
  unfolding after
  after-Later (t, id) m h = elim (Bool-cases (ltb t m.updated_at)) [
    | inl e ↦ later_time (ground arith)
    | inr e ↦ later_id (ground arith) (ground arith)
  ]

  pub Later-after : (p : ℕ × Text) (m : Memory Real) → Later p m → after p m ≡ true
  unfolding after
  Later-after (t, id) m (later_time lt) = ground arith
  Later-after (t, id) m (later_id same lt) = ground arith

  pub oldest_first-asym : (m n : Memory Real) → oldest_first m n ≡ true → oldest_first n m ≡ false
  unfolding after
  oldest_first-asym m n h = ground (arith, text_lt-asym m.id n.id)

  oldest_first-negtrans :
      (k m n : Memory Real)
      → oldest_first k m ≡ false
      → oldest_first m n ≡ false
      → oldest_first k n ≡ false
  unfolding after
  oldest_first-negtrans k m n h h' = ground (arith, text_lt-negtrans k.id m.id n.id)

  pub oldest_first-connex :
      (m n : Memory Real) → oldest_first m n ≡ false → oldest_first n m ≡ false → m.id ≡ n.id
  unfolding after
  oldest_first-connex m n h k =
      let alike : m.updated_at ≡ n.updated_at = ground (arith, h, k) in
      text_lt-connex m.id n.id (ground (arith, h, alike)) (ground (arith, k, alike))

  pub oldest_first_irrefl : (m : Memory Real) → oldest_first m m ≡ false
  oldest_first_irrefl m = elim (Bool-cases (oldest_first m m)) [
    | inl e ↦ oldest_first-asym m m e
    | inr e ↦ e
  ]

  -- No row stands behind one that is later than it.
  abbrev pub IsAscending : List (Memory Real) → Type 0
  IsAscending [] = Unit
  IsAscending (m ∷ ms) = All (λ n. oldest_first n m ≡ false) ms × IsAscending ms

  insert_by-IsAscending :
      (m : Memory Real) (ns : List (Memory Real))
      → IsAscending ns
      → IsAscending (insert_by oldest_first m ns)
  unfolding insert_by
  insert_by-IsAscending m [] h = (tt, tt)
  insert_by-IsAscending m (n ∷ ns) (first, h) = elim (Bool-cases (oldest_first n m)) [
    | inl e ↦
        rw (e, insert_by)
          (
            insert_by-All (λ k. oldest_first k n ≡ false) oldest_first m ns
                (oldest_first-asym n m e) first,
            insert_by-IsAscending m ns h,
          )
    | inr e ↦
        let behind =
          All-map (λ k. oldest_first k n ≡ false) (λ k. oldest_first k m ≡ false)
            (λ k later. oldest_first-negtrans k n m later e) ns first in
        rw (e, insert_by) ((e, behind), (first, h))
  ]

  pub order_by-IsAscending : (ms : List (Memory Real)) → IsAscending (order_by oldest_first ms)
  unfolding order_by
  order_by-IsAscending [] = tt
  order_by-IsAscending (m ∷ ms) =
      insert_by-IsAscending m (order_by oldest_first ms) (order_by-IsAscending ms)

  Member-behind :
      {m n k : Memory Real} (ns rest : List (Memory Real))
      → (Member m (n ∷ ns) → Member m rest)
      → Member m (n ∷ k ∷ ns)
      → Member m (k ∷ rest)
  Member-behind ns rest into here = there (into here)
  Member-behind ns rest into (there here) = here
  Member-behind ns rest into (there (there h)) = there (into (there h))

  Member-insert_by :
      (before : Memory Real → Memory Real → Bool) (m n : Memory Real) (ns : List (Memory Real))
      → Member m (n ∷ ns)
      → Member m (insert_by before n ns)
  unfolding insert_by
  Member-insert_by before m n [] h = h
  Member-insert_by before m n (k ∷ ns) h = elim (Bool-cases (before k n)) [
    | inr e ↦ rw (e, insert_by) h
    | inl e ↦
        rw (e, insert_by)
          (Member-behind ns (insert_by before n ns) (Member-insert_by before m n ns) h)
  ]

  pub Member-order_by :
      (before : Memory Real → Memory Real → Bool) (m : Memory Real) (ns : List (Memory Real))
      → Member m ns
      → Member m (order_by before ns)
  unfolding order_by
  Member-order_by before m [] h = elim h [ ]
  Member-order_by before m (n ∷ ns) here = Member-insert_by before m n (order_by before ns) here
  Member-order_by before m (n ∷ ns) (there h) =
      Member-insert_by before m n (order_by before ns) (there (Member-order_by before m ns h))

  -- Of two parts of a list in order, no row of the second stands before one of the first.
  pub IsAscending-parts :
      (ms ns : List (Memory Real)) (m n : Memory Real)
      → IsAscending (ms ++ ns)
      → Member m ms
      → Member n ns
      → oldest_first n m ≡ false
  IsAscending-parts [] ns m n h hm hn = elim hm [ ]
  IsAscending-parts (m ∷ ms) ns _ n (first, h) here hn =
      All-Member (λ k. oldest_first k m ≡ false) first (Member-append_right ms ns hn)
  IsAscending-parts (k ∷ ms) ns m n (first, h) (there hm) hn = IsAscending-parts ms ns m n h hm hn

  -- No row in front of the last of a part stands behind it.
  pub IsAscending-last :
      (ms : List (Memory Real)) (l : Memory Real) (rest : List (Memory Real)) (m : Memory Real)
      → IsAscending ((ms ++ (l ∷ [])) ++ rest)
      → Member m (ms ++ (l ∷ []))
      → oldest_first l m ≡ false
  IsAscending-last ms l rest m h hm = elim (Member-split ms (l ∷ []) hm) [
    | inl front ↦
        IsAscending-parts ms (l ∷ rest) m l (rw (append_assoc ms (l ∷ []) rest) at h) front here
    | inr at_end ↦ rw (Member-single m l at_end) (oldest_first_irrefl l)
  ]
