-- ===== src/Graph/Spread.antt =====
-- internal/store/graph.go: one hop of `bfs`.
use mathlib.Core.Path.{subst}
use dk_agent_memory.Graph.Walk.{has_id, Walk, visited, visit, visit_all, expand}
use dk_agent_memory.Base.{
  ℕ, suc, ◌≤◌, ◌<◌, ◌≡◌, refl, ap, ◌⊎◌, inl, inr, true, false, List, [], ◌∷◌, ◌++◌, arith, leb,
  Bool-cases, length, length-append, Member, Member-append_left, Member-append_right, Text, text_eq,
  text_eq_iff, text_eq_refl, Result, ◌>>=◌, here, there, ok, err,
}

pub has_id-Member : (id : Text) (xs : List Text) → has_id id xs ≡ true → Member id xs
unfolding has_id
has_id-Member id [] h = cc
has_id-Member id (x ∷ xs) h = elim (Bool-cases (text_eq id x)) [
  | inl e ↦ subst (λ y. Member id (y ∷ xs)) ((text_eq_iff id x).0 e) here
  | inr e ↦ there (has_id-Member id xs (rw e at h))
]

Member-has_id : (id : Text) (xs : List Text) → Member id xs → has_id id xs ≡ true
unfolding has_id
Member-has_id id [] m = elim m [ ]
Member-has_id id (_ ∷ xs) here = rw (text_eq_refl id) refl
Member-has_id id (x ∷ xs) (there m) = ground (arith, Member-has_id id xs m)

abbrev pub NoRepeat : List Text → Type 0
NoRepeat [] = Unit
NoRepeat (x ∷ xs) = (¬ Member x xs) × NoRepeat xs

Member-last : (v x : Text) (xs : List Text) → Member v (xs ++ x ∷ []) → Member v xs ⊎ (v ≡ x)
Member-last v x [] here = inr refl
Member-last v x [] (there m) = elim m [ ]
Member-last v x (_ ∷ xs) here = inl here
Member-last v x (y ∷ xs) (there m) = elim (Member-last v x xs m) [
  | inl h ↦ inl (there h)
  | inr e ↦ inr e
]

NoRepeat-append :
    (x : Text) (xs : List Text) → NoRepeat xs → ¬ Member x xs → NoRepeat (xs ++ x ∷ [])
NoRepeat-append x [] h new = (λ m. elim m [ ], tt)
NoRepeat-append x (y ∷ xs) (h, hs) new = (
  λ m. elim (Member-last y x xs m) [
    | inl old ↦ h old
    | inr e ↦ new (subst (λ z. Member z (y ∷ xs)) e here)
  ],
  NoRepeat-append x xs hs (λ m. new (there m)),
)

abbrev pub Grows : List Text → List Text → Type 0
Grows xs ys = (v : Text) → Member v xs → Member v ys

-- What an early return, or else the walk that goes on, satisfies.
abbrev pub Ends : (Walk → Type 0) → (List Text → Type 0) → Result (List Text) Walk → Type 0
Ends P Q (err out) = Q out
Ends P Q (ok w) = P w

Ends-bind :
    (P P' : Walk → Type 0) (Q : List Text → Type 0) (r : Result (List Text) Walk)
    (f : Walk → Result (List Text) Walk)
    → Ends P Q r
    → ((w : Walk) → P w → Ends P' Q (f w))
    → Ends P' Q (r >>= f)
Ends-bind P P' Q (err out) f e k = e
Ends-bind P P' Q (ok w) f e k = k w e

Ends-map :
    (P P' : Walk → Type 0) (Q : List Text → Type 0) (r : Result (List Text) Walk)
    → Ends P Q r
    → ((w : Walk) → P w → P' w)
    → Ends P' Q r
Ends-map P P' Q (err out) e k = e
Ends-map P P' Q (ok w) e k = k w e

Grows-cons : (x : Text) (xs ys : List Text) → Member x ys → Grows xs ys → Grows (x ∷ xs) ys
Grows-cons x xs ys m g _ here = m
Grows-cons x xs ys m g v (there n) = g v n

module _ (adj : Text → List Text) (start : Text) where
  -- The nodes that at most so many hops lead to.
  pub data Within : ℕ → Text → Type 0 where
    seed : {n : ℕ} → Within n start
    hop : {n : ℕ} {u v : Text} → Within n u → Member v (adj u) → Within (suc n) v

  module _ (limit h : ℕ) (base : List Text) where
    -- The hop behind `h` hops is under way, `base` being what it began with.
    pub record IsHop (w : Walk) : Type 0 where
      pub same : w.seen ≡ w.out
      pub single : NoRepeat w.out
      pub short : length w.out < limit
      pub near : (v : Text) → Member v w.out → Within (suc h) v
      pub kept : Grows base w.out
      pub new : Grows w.next w.out
      pub fresh : (v : Text) → Member v w.out → Member v base ⊎ Member v w.next

    -- The limit was met.
    pub record IsFull (out : List Text) : Type 0 where
      pub single : NoRepeat out
      pub full : length out ≡ limit
      pub near : (v : Text) → Member v out → Within (suc h) v
      pub kept : Grows base out

    unvisited : (nb : Text) (w : Walk) → IsHop w → has_id nb w.seen ≡ false → ¬ Member nb w.out
    unvisited nb w p free m = let yes' = Member-has_id nb w.seen (rw p.same m) in cc

    near_more :
        (nb : Text) (w : Walk)
        → IsHop w
        → Within (suc h) nb
        → (v : Text) → Member v (w.out ++ nb ∷ [])
        → Within (suc h) v
    near_more nb w p reach v m = elim (Member-last v nb w.out m) [
      | inl old ↦ p.near v old
      | inr e ↦ rw e reach
    ]

    IsFull-visit :
        (nb : Text) (w : Walk)
        → IsHop w
        → Within (suc h) nb
        → has_id nb w.seen ≡ false
        → limit ≤ length (w.out ++ nb ∷ [])
        → IsFull (w.out ++ nb ∷ [])
    IsFull-visit nb w p reach free at = record {
      single = NoRepeat-append nb w.out p.single (unvisited nb w p free);
      full = omega (arith, length-append w.out (nb ∷ []), p.short);
      near = near_more nb w p reach;
      kept = λ v m. Member-append_left w.out (nb ∷ []) (p.kept v m);
    }

    IsHop-visited :
        (nb : Text) (w : Walk)
        → IsHop w
        → Within (suc h) nb
        → has_id nb w.seen ≡ false
        → length (w.out ++ nb ∷ []) < limit
        → IsHop (visited nb w)
    IsHop-visited nb w p reach free below = record {
      same = ap (λ (xs : List Text). xs ++ nb ∷ []) p.same;
      single = NoRepeat-append nb w.out p.single (unvisited nb w p free);
      short = below;
      near = near_more nb w p reach;
      kept = λ v m. Member-append_left w.out (nb ∷ []) (p.kept v m);
      new = λ v m. elim (Member-last v nb w.next m) [
        | inl old ↦ Member-append_left w.out (nb ∷ []) (p.new v old)
        | inr e ↦ rw e (Member-append_right w.out (nb ∷ []) here)
      ];
      fresh = λ v m. elim (Member-last v nb w.out m) [
        | inl old ↦ elim (p.fresh v old) [
          | inl b ↦ inl b
          | inr n ↦ inr (Member-append_left w.next (nb ∷ []) n)
        ]
        | inr e ↦ inr (rw e (Member-append_right w.next (nb ∷ []) here))
      ];
    }

    abbrev Steps : Walk → List Text → Walk → Type 0
    Steps w nbs w' = IsHop w' × Grows w.out w'.out × Grows nbs w'.out

    visit-Ends :
        (nb : Text) (w : Walk)
        → IsHop w
        → Within (suc h) nb
        → Ends (Steps w (nb ∷ [])) IsFull (visit limit nb w)
    unfolding visit
    visit-Ends nb w p reach = elim (Bool-cases (has_id nb w.seen)) [
      | inl old ↦
          let at : Member nb w.out = rw p.same at (has_id-Member nb w.seen old) in
          rw (old, visit)
            (
              p,
              λ v m. m,
              λ v m. elim (Member-last v nb [] m) [ inl none' ↦ elim none' [ ] | inr e ↦ rw e at ],
            )
      | inr free ↦ elim (Bool-cases (leb limit (length (w.out ++ nb ∷ [])))) [
        | inl at ↦ rw (free, at, visit) (IsFull-visit nb w p reach free (ground arith))
        | inr below ↦
            rw (free, below, visit)
              (
                IsHop-visited nb w p reach free (ground arith),
                λ v m. Member-append_left w.out (nb ∷ []) m,
                λ v m. Member-append_right w.out (nb ∷ []) m,
              )
      ]
    ]

    visit_all-Ends :
        (nbs : List Text) (w : Walk)
        → ((v : Text) → Member v nbs → Within (suc h) v)
        → IsHop w
        → Ends (Steps w nbs) IsFull (visit_all limit nbs w)
    unfolding visit_all
    visit_all-Ends [] w reach p = (p, λ v m. m, λ v m. elim m [ ])
    visit_all-Ends (nb ∷ nbs) w reach p =
        Ends-bind (Steps w (nb ∷ [])) (Steps w (nb ∷ nbs)) IsFull (visit limit nb w)
          (visit_all limit nbs) (visit-Ends nb w p (reach nb here))
          (λ (u : Walk) (s : Steps w (nb ∷ []) u).
            let (q, grown, got) = s in
            Ends-map (Steps u nbs) (Steps w (nb ∷ nbs)) IsFull (visit_all limit nbs u)
              (visit_all-Ends nbs u (λ v m. reach v (there m)) q)
              (λ (x : Walk) (t : Steps u nbs x).
                let (q', grown', got') = t in
                (
                  q',
                  λ v m. grown' v (grown v m),
                  Grows-cons nb nbs x.out (grown' nb (got nb here)) got',
                )))

    -- Every neighbour of these nodes is out.
    abbrev pub Spread : List Text → List Text → Type 0
    Spread us out = (u v : Text) → Member u us → Member v (adj u) → Member v out

    Spread-cons :
        (u : Text) (us out : List Text) → Grows (adj u) out → Spread us out → Spread (u ∷ us) out
    Spread-cons u us out g s _ v here m = g v m
    Spread-cons u us out g s t v (there n) m = s t v n m

    abbrev pub Hopped : Walk → List Text → Walk → Type 0
    Hopped w us w' = IsHop w' × Grows w.out w'.out × Spread us w'.out

    pub expand-Ends :
        (us : List Text) (w : Walk)
        → ((u : Text) → Member u us → Within h u)
        → IsHop w
        → Ends (Hopped w us) IsFull (expand adj limit us w)
    unfolding expand
    expand-Ends [] w reach p = (p, λ v m. m, λ u v m. elim m [ ])
    expand-Ends (u ∷ us) w reach p =
        Ends-bind (Steps w (adj u)) (Hopped w (u ∷ us)) IsFull (visit_all limit (adj u) w)
          (expand adj limit us) (visit_all-Ends (adj u) w (λ v m. hop (reach u here) m) p)
          (λ (x : Walk) (s : Steps w (adj u) x).
            let (q, grown, got) = s in
            Ends-map (Hopped x us) (Hopped w (u ∷ us)) IsFull (expand adj limit us x)
              (expand-Ends us x (λ v m. reach v (there m)) q)
              (λ (y : Walk) (t : Hopped x us y).
                let (q', grown', spread) = t in
                (
                  q',
                  λ v m. grown' v (grown v m),
                  Spread-cons u us y.out (λ v m. grown' v (got v m)) spread,
                )))
