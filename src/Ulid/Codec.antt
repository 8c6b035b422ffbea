-- ===== src/Ulid/Codec.antt =====
-- The encoding against the value of the bytes; what `validate` and `time` make of it.
use dk_agent_memory.Ulid.{
  id_length, decoding, letter, group, indices, encode, check_chars, validate, to_upper, read_ms,
  time, assemble,
}
use dk_agent_memory.Ulid.Bits.{passes, passes-lt, bit_or-shift}
use dk_agent_memory.Ulid.Digits.{
  IsByte, IsDigit, value256, value32, bits_5_7, bits_0_4, group-IsDigit, length-group,
  value32-group,
}
use mathlib.Core.Bool.{and-eq-true_iff}
use dk_agent_memory.Base.{
  ℕ, zero, suc, ◌+◌, ◌*◌, ◌/◌, ◌%◌, ◌^◌, ◌≤◌, ◌<◌, ◌≡◌, refl, ap, ◌∙◌, inr, Bool, true, false, not,
  ◌&&◌, none, List, [], ◌∷◌, ◌++◌, map, arith, ltb, ◌==◌, ==_iff, length, get_or, take,
  length-append, All, All-append, Text,
}

value32-append : (acc : ℕ) (xs ys : List ℕ) → value32 acc (xs ++ ys) ≡ value32 (value32 acc xs) ys
value32-append acc [] ys = refl
value32-append acc (x ∷ xs) ys = value32-append (acc * 32 + x) xs ys

-- What the indices of 16 bytes are: 26 digits, the first below 8, of the same value.
pub record Spells (b : List ℕ) (ds : List ℕ) : Type 0 where
  pub digits : All IsDigit ds
  pub count : length ds ≡ id_length
  pub top : get_or ds 0 0 < 8
  pub same : value32 0 ds ≡ value256 0 b

pub indices-Spells : (b : List ℕ) → length b ≡ 16 → All IsByte b → Spells b (indices b)
unfolding indices
indices-Spells
      (b0 ∷ b1 ∷ b2 ∷ b3 ∷ b4 ∷ b5 ∷ b6 ∷ b7 ∷ b8 ∷ b9 ∷ b10 ∷ b11 ∷ b12 ∷ b13 ∷ b14 ∷ b15 ∷ []) n
      h =
    let h1 : All IsByte (b1 ∷ b2 ∷ b3 ∷ b4 ∷ b5 ∷ []) = omega arith in
    let h2 : All IsByte (b6 ∷ b7 ∷ b8 ∷ b9 ∷ b10 ∷ []) = omega arith in
    let h3 : All IsByte (b11 ∷ b12 ∷ b13 ∷ b14 ∷ b15 ∷ []) = omega arith in
    let g1 = group b1 b2 b3 b4 b5 in
    let g2 = group b6 b7 b8 b9 b10 in
    let g3 = group b11 b12 b13 b14 b15 in
    let start : (0 * 32 + b0 / 32) * 32 + b0 % 32 ≡ 0 * 256 + b0 = omega arith in
    rw (bits_5_7 b0 h.0, bits_0_4 b0 h.0)
      record {
        digits = (
          omega arith,
          (
            omega arith,
            All-append IsDigit g1 (g2 ++ g3) (group-IsDigit _ _ _ _ _ h1) (
                All-append IsDigit g2 g3 (group-IsDigit _ _ _ _ _ h2) (group-IsDigit _ _ _ _ _ h3)),
          ),
        );
        count = omega (
          arith,
          length-append g1 (g2 ++ g3),
          length-append g2 g3,
          length-group _ _ _ _ _ h1,
          length-group _ _ _ _ _ h2,
          length-group _ _ _ _ _ h3,
        );
        top = omega arith;
        same =
            rw (value32-append _ g1 (g2 ++ g3), value32-append _ g2 g3)
              (rw (start, value32-group _ _ _ _ _ h1, value32-group _ _ _ _ _ h2)
                (value32-group _ _ _ _ _ h3 _));
      }
indices-Spells _ n h = absurd (omega arith)

-- The alphabet is read back, in either case.
letter_table : passes (λ d. decoding (letter d) == d && to_upper (letter d) == letter d) 32 ≡ true
unfolding passes decoding letter
letter_table = refl

pub decoding-letter : (d : ℕ) → d < 32 → decoding (letter d) ≡ d
decoding-letter d h = ground (arith, passes-lt _ 32 d h letter_table)

to_upper-letter : (d : ℕ) → d < 32 → to_upper (letter d) ≡ letter d
to_upper-letter d h =
    let t =
      passes-lt (λ d. decoding (letter d) == d && to_upper (letter d) == letter d) 32 d h
        letter_table in
    (==_iff _ _).0 ((and-eq-true_iff _ _).0 t).1

map-to_upper : (ds : List ℕ) → All IsDigit ds → map to_upper (map letter ds) ≡ map letter ds
map-to_upper [] _ = refl
map-to_upper (d ∷ ds) (h, hs) = cc (to_upper-letter d h, map-to_upper ds hs)

check_chars-letters : (i : ℕ) (ds : List ℕ) → All IsDigit ds → check_chars i (map letter ds) ≡ none
unfolding check_chars
check_chars-letters i [] _ = refl
check_chars-letters i (d ∷ ds) (h, hs) =
    ground (arith, decoding-letter d h, check_chars-letters (i + 1) ds hs)

le-value32 : (acc : ℕ) (ds : List ℕ) → acc ≤ value32 acc ds
le-value32 acc [] = omega arith
le-value32 acc (d ∷ ds) = omega (arith, le-value32 (acc * 32 + d) ds)

read_ms-letters :
    (acc : ℕ) (ds : List ℕ)
    → All IsDigit ds
    → value32 acc ds < 2 ^ 64
    → read_ms acc (map letter ds) ≡ value32 acc ds
unfolding read_ms
read_ms-letters acc [] _ fits = refl
read_ms-letters acc (d ∷ ds) (h, hs) fits =
    let small : acc * 32 % 18446744073709551616 ≡ acc * 32 =
      omega (arith, le-value32 (acc * 32 + d) ds) in
    rw (read_ms, small, decoding-letter d h, bit_or-shift acc d h)
      (read_ms-letters (acc * 32 + d) ds hs fits)

length-map : (ds : List ℕ) → length (map letter ds) ≡ length ds
length-map [] = refl
length-map (d ∷ ds) = ap suc (length-map ds)

top_table : passes (λ d. not (ltb b'7' (letter d))) 8 ≡ true
unfolding passes letter
top_table = refl

not_iff : (b : Bool) → not b ≡ true → b ≡ false
not_iff b h = ground arith

-- The first character of 26 whose first index is below 8.
first-le-seven :
    (ds : List ℕ)
    → length ds ≡ id_length
    → get_or ds 0 0 < 8
    → ltb b'7' (get_or (map letter ds) 0 0) ≡ false
unfolding letter
first-le-seven [] n h = cc
first-le-seven (d ∷ ds) n h = not_iff _ (passes-lt (λ d. not (ltb b'7' (letter d))) 8 d h top_table)

-- Every 16 bytes encode to an identifier that `validate` accepts.
pub validate-encode : (b : List ℕ) → length b ≡ 16 → All IsByte b → validate (encode b) ≡ none
unfolding validate encode
validate-encode b n h =
    let s = indices-Spells b n h in
    rw (length-map (indices b), s.count, check_chars-letters 0 (indices b) s.digits)
      (rw (first-le-seven (indices b) s.count s.top) refl)

-- The first ten characters hold the timestamp's six bytes.
value32-header :
    (b : List ℕ)
    → length b ≡ 16
    → All IsByte b
    → value32 0 (take 10 (indices b)) ≡ value256 0 (take 6 b)
unfolding indices group
value32-header
      (b0 ∷ b1 ∷ b2 ∷ b3 ∷ b4 ∷ b5 ∷ b6 ∷ b7 ∷ b8 ∷ b9 ∷ b10 ∷ b11 ∷ b12 ∷ b13 ∷ b14 ∷ b15 ∷ []) n
      h =
    let h1 : All IsByte (b1 ∷ b2 ∷ b3 ∷ b4 ∷ b5 ∷ []) = omega arith in
    let start : (0 * 32 + b0 / 32) * 32 + b0 % 32 ≡ 0 * 256 + b0 = omega arith in
    rw (bits_5_7 b0 h.0, bits_0_4 b0 h.0)
      (rw start (value32-group b1 b2 b3 b4 b5 h1 (0 * 256 + b0)))
value32-header _ n h = absurd (omega arith)

take-map : (n : ℕ) (ds : List ℕ) → take n (map letter ds) ≡ map letter (take n ds)
take-map zero ds = refl
take-map (suc n) [] = refl
take-map (suc n) (d ∷ ds) = rw (take-map n ds)

All-take : (n : ℕ) (ds : List ℕ) → All IsDigit ds → All IsDigit (take n ds)
All-take zero ds h = tt
All-take (suc n) [] h = tt
All-take (suc n) (d ∷ ds) (h, hs) = (h, All-take n ds hs)

value256-header :
    (ms : ℕ) (rand : List ℕ) → ms < 2 ^ 48 → value256 0 (take 6 (assemble ms rand)) ≡ ms
unfolding assemble
value256-header ms rand h = omega arith

pub assemble-IsArray :
    (ms : ℕ) (rand : List ℕ)
    → length rand ≡ 10
    → All IsByte rand
    → (length (assemble ms rand) ≡ 16) × All IsByte (assemble ms rand)
unfolding assemble
assemble-IsArray ms rand n h = (
  omega arith,
  (omega arith, (omega arith, (omega arith, (omega arith, (omega arith, (omega arith, h)))))),
)

time_valid : (s : Text) → validate s ≡ none → time s ≡ inr (read_ms 0 (take 10 (map to_upper s)))
unfolding time
time_valid s h = rw (h, time)

-- `Time` reads back the millisecond that an identifier was made with, for every 48-bit timestamp and
-- any ten random bytes.
pub time-encode :
    (ms : ℕ) (rand : List ℕ)
    → ms < 2 ^ 48
    → length rand ≡ 10
    → All IsByte rand
    → time (encode (assemble ms rand)) ≡ inr ms
unfolding encode
time-encode ms rand fits n h =
    let b = assemble ms rand in
    let (nb, hb) = assemble-IsArray ms rand n h in
    let ds = indices b in
    let s = indices-Spells b nb hb in
    let header = value32-header b nb hb ∙ value256-header ms rand fits in
    time_valid (encode b) (validate-encode b nb hb)
    ∙ rw (map-to_upper ds s.digits, take-map 10 ds)
        (rw (read_ms-letters 0 (take 10 ds) (All-take 10 ds s.digits) (omega (arith, header)))
          (ap inr header))
