-- ===== src/Ulid/Increasing.antt =====
-- `NewAt`: each identifier sorts after the one before while the clock does not step back.
use dk_agent_memory.Ulid.{Generator, increment, assemble, encode, finish, new_at}
use dk_agent_memory.Ulid.Digits.{IsByte, value256}
use dk_agent_memory.Ulid.Codec.{assemble-IsArray}
use dk_agent_memory.Ulid.Order.{text_lt-encode}
use dk_agent_memory.Base.{
  ℕ, suc, ◌+◌, ◌*◌, ◌/◌, ◌%◌, ◌^◌, ◌≤◌, ◌<◌, ◌≡◌, refl, sym, ap, ◌∙◌, ◌⊎◌, inl, inr, Bool, true,
  false, Option, some, List, [], ◌∷◌, arith, ◌==◌, ==_iff, Bool-cases, length, All, Text, text_lt,
}

-- A well-formed state of the package: ten bytes.
pub record IsValid (g : Generator) : Type 0 where
  pub count : length g.last_rand ≡ 10
  pub bytes : All IsByte g.last_rand

abbrev pub last_id : Generator → Text
last_id g = encode (assemble g.last_ms g.last_rand)

-- What `increment` does to the bytes: one more, or a wrap to zero with a carry out of the top.
record Counts (rs next : List ℕ) (done : Bool) : Type 0 where
  count : length next ≡ length rs
  bytes : All IsByte next
  up : done ≡ true → (acc : ℕ) → value256 acc next ≡ value256 acc rs + 1
  wrap : done ≡ false → (acc : ℕ) → value256 (acc + 1) next ≡ value256 acc rs + 1
  ones : done ≡ false → All (λ r. r ≡ 0xff) rs
  zeros : done ≡ false → All (λ r. r ≡ 0) next

increment-Counts : (rs : List ℕ) → All IsByte rs → Counts rs (increment rs).0 (increment rs).1
unfolding increment
increment-Counts [] h = record {
  count = refl;
  bytes = tt;
  up = λ e. cc;
  wrap = λ e acc. refl;
  ones = λ _. tt;
  zeros = λ _. tt;
}
increment-Counts (r ∷ rs) (h, hs) =
    let ih = increment-Counts rs hs in
    elim (Bool-cases (increment rs).1) [
      | inl done ↦ rw done record {
        count = ap suc ih.count;
        bytes = (h, ih.bytes);
        up = λ _ acc. ih.up done (acc * 256 + r);
        wrap = λ e. cc;
        ones = λ e. cc;
        zeros = λ e. cc;
      }
      | inr more ↦ elim (Bool-cases (r == 0xff)) [
        | inl full ↦
            rw (more, full)
              record {
                count = ap suc ih.count;
                bytes = (omega arith, ih.bytes);
                up = λ e. cc;
                wrap = λ _ acc.
                    let e : (acc + 1) * 256 + 0 ≡ acc * 256 + r + 1 = ground arith in
                    ap (λ t. value256 t (increment rs).0) e ∙ ih.wrap more (acc * 256 + r);
                ones = λ _. ((==_iff r 0xff).0 full, ih.ones more);
                zeros = λ _. (refl, ih.zeros more);
              }
        | inr room ↦
            rw (more, room)
              record {
                count = ap suc ih.count;
                bytes = (ground arith, ih.bytes);
                up = λ _ acc.
                    let e : acc * 256 + (r + 1) ≡ acc * 256 + r + 1 = omega arith in
                    ap (λ t. value256 t (increment rs).0) e ∙ ih.wrap more (acc * 256 + r);
                wrap = λ e. cc;
                ones = λ e. cc;
                zeros = λ e. cc;
              }
      ]
    ]

-- The 80-bit random part counts up by one; only all ones wrap, and then to zero.
pub increment_lem :
    (rs : List ℕ)
    → All IsByte rs
    → (length (increment rs).0 ≡ length rs)
      × All IsByte (increment rs).0
      × (((increment rs).1 ≡ true) × (value256 0 (increment rs).0 ≡ value256 0 rs + 1)
          ⊎ ((increment rs).1 ≡ false) × All (λ r. r ≡ 0xff) rs × All (λ r. r ≡ 0) (increment rs).0)
increment_lem rs h =
    let c = increment-Counts rs h in
    (
      c.count,
      c.bytes,
      elim (Bool-cases (increment rs).1) [
        | inl done ↦ inl (done, c.up done 0)
        | inr full ↦ inr (full, c.ones full, c.zeros full)
      ],
    )

-- A larger timestamp gives a larger number, whatever the random parts.
value256_lt :
    (acc acc' : ℕ) (rs ss : List ℕ)
    → acc < acc'
    → length rs ≡ length ss
    → All IsByte rs
    → value256 acc rs < value256 acc' ss
value256_lt acc acc' [] [] lt n _ = lt
value256_lt acc acc' [] (s ∷ ss) lt n _ = absurd (omega arith)
value256_lt acc acc' (r ∷ rs) [] lt n _ = absurd (omega arith)
value256_lt acc acc' (r ∷ rs) (s ∷ ss) lt n (h, hs) =
    value256_lt (acc * 256 + r) (acc' * 256 + s) rs ss (omega arith) (omega arith) hs

value256-assemble :
    (ms : ℕ) (rand : List ℕ) → ms < 2 ^ 48 → value256 0 (assemble ms rand) ≡ value256 ms rand
unfolding assemble
value256-assemble ms rand h =
    let e : ((((((0 * 256 + ms / 2 ^ 40 % 256) * 256 + ms / 2 ^ 32 % 256) * 256 + ms / 2 ^ 24 % 256)
                    * 256
                  + ms / 2 ^ 16 % 256)
                * 256
              + ms / 2 ^ 8 % 256)
            * 256
          + ms % 256)
        ≡ ms =
      omega arith in
    ap (λ t. value256 t rand) e

assemble_lt :
    (g h : Generator)
    → IsValid g
    → IsValid h
    → h.last_ms < 2 ^ 48
    → g.last_ms < 2 ^ 48
    → value256 g.last_ms g.last_rand < value256 h.last_ms h.last_rand
    → text_lt (last_id g) (last_id h) ≡ true
assemble_lt g h vg vh fits fits' lt =
    let (ng, hg) = assemble-IsArray g.last_ms g.last_rand vg.count vg.bytes in
    let (nh, hh) = assemble-IsArray h.last_ms h.last_rand vh.count vh.bytes in
    text_lt-encode _ _ ng hg nh hh (
      rw
        (
          value256-assemble g.last_ms g.last_rand fits',
          value256-assemble h.last_ms h.last_rand fits,
        )
        lt)

-- A new identifier is the last one of the new state.
pub record After (g : Generator) (made : Option (Text × Generator)) : Type 0 where
  pub id : Text
  pub next : Generator
  pub returned : made ≡ some (id, next)
  pub valid : IsValid next
  pub current : id ≡ last_id next
  pub greater : text_lt (last_id g) id ≡ true

After-of :
    (g next : Generator) (made : Option (Text × Generator))
    → made ≡ some (finish next)
    → IsValid g
    → IsValid next
    → g.last_ms < 2 ^ 48
    → next.last_ms < 2 ^ 48
    → value256 g.last_ms g.last_rand < value256 next.last_ms next.last_rand
    → After g made
After-of g next made e v vn fits fits' lt = record {
  id = last_id next;
  next = next;
  returned = e;
  valid = vn;
  current = refl;
  greater = assemble_lt g next v vn fits' fits lt;
}

-- While the clock does not step back behind the last timestamp, every call returns an identifier
-- that sorts after the one before, in each of the three branches: a later millisecond, the same one
-- counted up, and the same one when the 80 random bits overflow.
pub new_at-After :
    (g : Generator) (ms : ℕ) (drawn : List ℕ)
    → IsValid g
    → length drawn ≡ 10
    → All IsByte drawn
    → g.last_ms ≤ ms
    → ms + 1 < 2 ^ 48
    → After g (new_at (some drawn) ms g)
unfolding new_at
new_at-After g ms drawn v n h le fits =
    let later = λ (m : ℕ) (lt : g.last_ms < m).
      value256_lt g.last_ms m g.last_rand drawn lt (v.count ∙ sym n) v.bytes in
    elim (Bool-cases (ms == g.last_ms)) [
      | inr other ↦
          After-of g (record { last_ms = ms; last_rand = drawn }) _ (rw other) v
            (record { count = n; bytes = h }) (omega arith) (omega arith) (later ms (ground arith))
      | inl same ↦ elim (Bool-cases (increment g.last_rand).1) [
        | inl done ↦
            let c = increment-Counts g.last_rand v.bytes in
            let at : ms ≡ g.last_ms = (==_iff _ _).0 same in
            After-of g (record { last_ms = ms; last_rand = (increment g.last_rand).0 }) _
              (rw (same, done)) v (record { count = c.count ∙ v.count; bytes = c.bytes })
              (omega arith) (omega arith) (rw at (omega (arith, c.up done g.last_ms)))
        | inr full ↦
            let wide : (ms + 1) % 2 ^ 64 ≡ ms + 1 = omega arith in
            After-of g (record { last_ms = ms + 1; last_rand = drawn }) _
              (rw (same, full) (rw wide)) v (record { count = n; bytes = h }) (omega arith)
              (omega arith) (later (ms + 1) (omega arith))
      ]
    ]

-- An identifier made at a millisecond before the last one sorts before the last one.
new_at_earlier :
    (g : Generator) (ms : ℕ) (drawn : List ℕ)
    → IsValid g
    → length drawn ≡ 10
    → All IsByte drawn
    → ms < g.last_ms
    → g.last_ms < 2 ^ 48
    → (id : Text) × (next : Generator) × (new_at (some drawn) ms g ≡ some (id, next))
      × (text_lt id (last_id g) ≡ true)
unfolding new_at
new_at_earlier g ms drawn v n h lt fits =
    let next : Generator = record { last_ms = ms; last_rand = drawn } in
    let other : (ms == g.last_ms) ≡ false = ground arith in
    (
      last_id next,
      next,
      rw other,
      assemble_lt next g (record { count = n; bytes = h }) v fits (omega arith)
          (value256_lt ms g.last_ms drawn g.last_rand lt (n ∙ sym v.count) h),
    )

increment_full : (rs : List ℕ) → All (λ r. r ≡ 0xff) rs → (increment rs).1 ≡ false
unfolding increment
increment_full [] _ = refl
increment_full (r ∷ rs) (e, h) = ground (arith, increment_full rs h)

-- Where the random bits overflow, the timestamp is moved one millisecond ahead of the clock. A second
-- call within the same millisecond draws again at the clock's time, and its identifier sorts before
-- the first call's.
pub new_at_overflow :
    (g : Generator) (first second : List ℕ)
    → IsValid g
    → All (λ r. r ≡ 0xff) g.last_rand
    → length first ≡ 10
    → All IsByte first
    → length second ≡ 10
    → All IsByte second
    → g.last_ms + 1 < 2 ^ 48
    → (id id' : Text) × (g' g'' : Generator) × (new_at (some first) g.last_ms g ≡ some (id, g'))
      × (new_at (some second) g.last_ms g' ≡ some (id', g''))
      × (text_lt id' id ≡ true)
unfolding new_at
new_at_overflow g first second v full n h n' h' fits =
    let wide : (g.last_ms + 1) % 2 ^ 64 ≡ g.last_ms + 1 = omega arith in
    let moved : Generator = record { last_ms = g.last_ms + 1; last_rand = first } in
    let (id', next, made, before) =
      new_at_earlier moved g.last_ms second (record { count = n; bytes = h }) n' h' (omega arith)
        fits in
    (
      last_id moved,
      id',
      moved,
      next,
      rw ((==_iff g.last_ms g.last_ms).1 refl, increment_full g.last_rand full) (rw wide),
      made,
      before,
    )
