-- ===== src/Store/Tenancy.antt =====
-- What a caller may read and change: rows of the team, and of others only those that are shared.
use dk_agent_memory.Store.Model.{Identity, Memory, visibility_team, is_live, visible}
use dk_agent_memory.Store.Read.{
  ListFilter, clamp_limit, listed, insert_by, order_by, newest_first, page, list_memories, fed,
  feed,
}
use dk_agent_memory.Base.{
  ℕ, zero, suc, ◌+◌, ◌≡◌, ◌≢◌, ◌⊎◌, inl, inr, Bool, true, none, List, [], ◌∷◌, arith, ltb,
  Bool-cases, Option-cases, length, take, keep, All, Text, text_eq, text_eq_iff, ok,
}

module _ {Real : Type 0} where
  -- A row of the caller's team that is live, and the caller's own or shared with the team.
  pub record Readable (id : Identity) (m : Memory Real) : Type 0 where
    pub same_team : m.team_id ≡ id.team_id
    pub mine_or_shared : (m.user_id ≡ id.user_id) ⊎ (m.visibility ≡ visibility_team)
    pub live : m.deleted_at ≡ none

  visible-Readable :
      (id : Identity) (m : Memory Real) → visible id m ≡ true → is_live m ≡ true → Readable id m
  unfolding visible
  visible-Readable id m e l = record {
    same_team = ground (arith, text_eq_iff m.team_id id.team_id);
    mine_or_shared = elim (Bool-cases (text_eq m.user_id id.user_id)) [
      | inl yes' ↦ inl (ground (arith, text_eq_iff m.user_id id.user_id))
      | inr no' ↦ inr (ground (arith, text_eq_iff m.visibility visibility_team))
    ];
    live = elim (Option-cases m.deleted_at) [
      | inl e' ↦ e'
      | inr (d, e') ↦ absurd (ground (arith, e'))
    ];
  }

  fed-Readable :
      (id : Identity) (project : Text) (m : Memory Real)
      → fed id project m ≡ true
      → Readable id m × (m.visibility ≡ visibility_team) × (m.user_id ≢ id.user_id)
  unfolding fed visible
  fed-Readable id project m e =
      let team : m.visibility ≡ visibility_team =
        ground (arith, text_eq_iff m.visibility visibility_team) in
      (
        visible-Readable id m (ground arith) (ground arith),
        team,
        ground (arith, text_eq_iff m.user_id id.user_id),
      )

  module _ (P : Memory Real → Type 0) where
    pub insert_by-All :
        (before : Memory Real → Memory Real → Bool) (x : Memory Real) (ys : List (Memory Real))
        → P x
        → All P ys
        → All P (insert_by before x ys)
    unfolding insert_by
    insert_by-All before x [] px h = (px, tt)
    insert_by-All before x (y ∷ ys) px (py, h) = elim (Bool-cases (before y x)) [
      | inl e ↦ rw e (py, insert_by-All before x ys px h)
      | inr e ↦ rw e (px, (py, h))
    ]

    pub order_by-All :
        (before : Memory Real → Memory Real → Bool) (xs : List (Memory Real))
        → All P xs
        → All P (order_by before xs)
    unfolding order_by
    order_by-All before [] h = tt
    order_by-All before (x ∷ xs) (px, h) =
        insert_by-All before x (order_by before xs) px (order_by-All before xs h)

    pub keep-All :
        (p : Memory Real → Bool) (xs : List (Memory Real))
        → ((m : Memory Real) → p m ≡ true → P m)
        → All P (keep p xs)
    keep-All p [] f = tt
    keep-All p (x ∷ xs) f = elim (Bool-cases (p x)) [
      | inl e ↦ rw e (f x e, keep-All p xs f)
      | inr e ↦ rw e (keep-All p xs f)
    ]

    pub take-All : (n : ℕ) (xs : List (Memory Real)) → All P xs → All P (take n xs)
    take-All zero xs h = tt
    take-All (suc n) [] h = tt
    take-All (suc n) (x ∷ xs) (px, h) = (px, take-All n xs h)

    page-All : (limit : ℕ) (xs : List (Memory Real)) → All P xs → All P (page limit xs).0
    unfolding page
    page-All limit xs h = elim (Bool-cases (ltb limit (length (take (limit + 1) xs)))) [
      | inl e ↦ rw e (take-All limit xs h)
      | inr e ↦ rw e (take-All (limit + 1) xs h)
    ]

  -- Whatever filter a caller gives, every listed row is one that the caller may read.
  pub list_memories-Readable :
      (id : Identity) (f : ListFilter) (db rows : List (Memory Real)) (next : Text)
      → list_memories id f db ≡ ok (rows, next)
      → All (Readable id) rows
  unfolding list_memories listed
  list_memories-Readable id f db rows next e =
      let found = order_by newest_first (keep (listed id f) db) in
      let kept =
        keep-All (Readable id) (listed id f) db
          (λ m l. visible-Readable id m (ground arith) (ground arith)) in
      let sorted = order_by-All (Readable id) newest_first (keep (listed id f) db) kept in
      let limit = clamp_limit f.limit 500 50 in
      let same : (page limit found).0 ≡ rows = ground arith in
      rw (← same) (page-All (Readable id) limit found sorted)

  -- A feed holds shared live rows of other users of the caller's team, each the newest version.
  pub feed-Shared :
      (id : Identity) (project : Text) (limit : ℕ) (db : List (Memory Real))
      → All
          (λ m. Readable id m × (m.visibility ≡ visibility_team) × (m.user_id ≢ id.user_id))
          (feed id project limit db)
  unfolding feed fed
  feed-Shared id project limit db =
      let before = λ (m n : Memory Real). ltb n.updated_at m.updated_at in
      let P = λ (m : Memory Real).
        Readable id m × (m.visibility ≡ visibility_team) × (m.user_id ≢ id.user_id) in
      let kept = keep-All P (fed id project) db (fed-Readable id project) in
      take-All P (clamp_limit limit 200 20) (order_by before (keep (fed id project) db))
        (order_by-All P before (keep (fed id project) db) kept)
