-- ===== src/Ulid/Order.antt =====
-- The lexicographic order of identifiers is the order of the 128-bit numbers.
use dk_agent_memory.Ulid.{letter, indices, encode}
use dk_agent_memory.Ulid.Bits.{passes, passes-lt}
use dk_agent_memory.Ulid.Digits.{IsByte, IsDigit, value256, value32}
use dk_agent_memory.Ulid.Codec.{indices-Spells}
use dk_agent_memory.Base.{
  ℕ, ◌+◌, ◌*◌, ◌<◌, ◌≡◌, refl, sym, ◌∙◌, inl, inr, true, not, ◌||◌, List, [], ◌∷◌, map, arith, ltb,
  trichotomy, length, All, text_lt,
}

-- A smaller prefix stays smaller, whatever digits follow.
value32_lt :
    (acc acc' : ℕ) (ds es : List ℕ)
    → acc < acc'
    → length ds ≡ length es
    → All IsDigit ds
    → value32 acc ds < value32 acc' es
value32_lt acc acc' [] [] lt n _ = lt
value32_lt acc acc' [] (e ∷ es) lt n _ = absurd (omega arith)
value32_lt acc acc' (d ∷ ds) [] lt n _ = absurd (omega arith)
value32_lt acc acc' (d ∷ ds) (e ∷ es) lt n (h, hs) =
    value32_lt (acc * 32 + d) (acc' * 32 + e) ds es (omega arith) (omega arith) hs

ascending_table :
    passes (λ d. passes (λ e. not (ltb d e) || ltb (letter d) (letter e)) 32) 32 ≡ true
unfolding passes letter
ascending_table = refl

letter_mono : (d e : ℕ) → d < 32 → e < 32 → d < e → letter d < letter e
letter_mono d e hd he lt = ground (
  arith,
  passes-lt (λ e. not (ltb d e) || ltb (letter d) (letter e)) 32 e he
      (passes-lt _ 32 d hd ascending_table),
)

text_lt-letters :
    (acc : ℕ) (ds es : List ℕ)
    → length ds ≡ length es
    → All IsDigit ds
    → All IsDigit es
    → value32 acc ds < value32 acc es
    → text_lt (map letter ds) (map letter es) ≡ true
unfolding text_lt
text_lt-letters acc [] [] n _ _ lt = absurd (omega arith)
text_lt-letters acc [] (e ∷ es) n _ _ lt = absurd (omega arith)
text_lt-letters acc (d ∷ ds) [] n _ _ lt = absurd (omega arith)
text_lt-letters acc (d ∷ ds) (e ∷ es) n (hd, hds) (he, hes) lt = elim (trichotomy d e) [
  | inl less ↦ ground (arith, letter_mono d e hd he less)
  | inr (inl same) ↦
      rw same
        (ground (arith, text_lt-letters (acc * 32 + e) ds es (omega arith) hds hes (rw same at lt)))
  | inr (inr more) ↦ absurd (
      omega (arith, value32_lt (acc * 32 + e) (acc * 32 + d) es ds (omega arith) (omega arith) hes))
]

-- For arrays of 16 bytes, a smaller number has the identifier that sorts first.
pub text_lt-encode :
    (b c : List ℕ)
    → length b ≡ 16
    → All IsByte b
    → length c ≡ 16
    → All IsByte c
    → value256 0 b < value256 0 c
    → text_lt (encode b) (encode c) ≡ true
unfolding encode
text_lt-encode b c nb hb nc hc lt =
    let s = indices-Spells b nb hb in
    let t = indices-Spells c nc hc in
    text_lt-letters 0 (indices b) (indices c) (s.count ∙ sym t.count) s.digits t.digits
      (omega (arith, s.same, t.same))
