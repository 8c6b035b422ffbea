-- ===== src/Ulid/Digits.antt =====
-- The indices of the characters as arithmetic: five bits each, with the value of the bytes.
use Prim.Native.Nat.{bit_and}
use dk_agent_memory.Ulid.{group}
use dk_agent_memory.Ulid.Bits.{passes, field_table, join_table}
use dk_agent_memory.Base.{
  ℕ, ◌+◌, ◌*◌, ◌/◌, ◌%◌, ◌^◌, ◌<◌, ◌≡◌, refl, List, [], ◌∷◌, arith, length, All,
}

abbrev pub IsByte : ℕ → Type 0
IsByte b = b < 256

abbrev pub IsDigit : ℕ → Type 0
IsDigit d = d < 32

-- The value that bytes spell behind `acc`.
abbrev pub value256 : ℕ → List ℕ → ℕ
value256 acc [] = acc
value256 acc (b ∷ bs) = value256 (acc * 256 + b) bs

abbrev pub value32 : ℕ → List ℕ → ℕ
value32 acc [] = acc
value32 acc (d ∷ ds) = value32 (acc * 32 + d) ds

module _ (x : ℕ) (h : x < 256) where
  bits_3_7 : bit_and x 248 / 2 ^ 3 ≡ x / 8
  unfolding passes
  bits_3_7 = omega (arith, field_table 248 3 8 refl x h)

  bits_0_2 : bit_and x 7 ≡ x % 8
  unfolding passes
  bits_0_2 = omega (arith, field_table 7 0 3 refl x h)

  bits_6_7 : bit_and x 192 / 2 ^ 6 ≡ x / 64
  unfolding passes
  bits_6_7 = omega (arith, field_table 192 6 8 refl x h)

  bits_1_5 : bit_and x 62 / 2 ^ 1 ≡ x % 64 / 2
  unfolding passes
  bits_1_5 = omega (arith, field_table 62 1 6 refl x h)

  bits_0_0 : bit_and x 1 ≡ x % 2
  unfolding passes
  bits_0_0 = omega (arith, field_table 1 0 1 refl x h)

  bits_4_7 : bit_and x 240 / 2 ^ 4 ≡ x / 16
  unfolding passes
  bits_4_7 = omega (arith, field_table 240 4 8 refl x h)

  bits_0_3 : bit_and x 15 ≡ x % 16
  unfolding passes
  bits_0_3 = omega (arith, field_table 15 0 4 refl x h)

  bits_7_7 : bit_and x 128 / 2 ^ 7 ≡ x / 128
  unfolding passes
  bits_7_7 = omega (arith, field_table 128 7 8 refl x h)

  bits_2_6 : bit_and x 124 / 2 ^ 2 ≡ x % 128 / 4
  unfolding passes
  bits_2_6 = omega (arith, field_table 124 2 7 refl x h)

  bits_0_1 : bit_and x 3 ≡ x % 4
  unfolding passes
  bits_0_1 = omega (arith, field_table 3 0 2 refl x h)

  pub bits_5_7 : bit_and x 224 / 2 ^ 5 ≡ x / 32
  unfolding passes
  bits_5_7 = omega (arith, field_table 224 5 8 refl x h)

  pub bits_0_4 : bit_and x 31 ≡ x % 32
  unfolding passes
  bits_0_4 = omega (arith, field_table 31 0 5 refl x h)

-- Five bytes as eight digits.
abbrev group_digits : ℕ → ℕ → ℕ → ℕ → ℕ → List ℕ
group_digits a b c d e =
    (a / 8)
    ∷ (a % 8 * 4 + b / 64)
    ∷ (b % 64 / 2)
    ∷ (b % 2 * 16 + c / 16)
    ∷ (c % 16 * 2 + d / 128)
    ∷ (d % 128 / 4)
    ∷ (d % 4 * 8 + e / 32)
    ∷ (e % 32)
    ∷ []

module _ (a b c d e : ℕ) (h : All IsByte (a ∷ b ∷ c ∷ d ∷ e ∷ [])) where
  group-digits : group a b c d e ≡ group_digits a b c d e
  unfolding group passes
  group-digits =
      let (ha, (hb, (hc, (hd, (he, _))))) = h in
      rw (bits_3_7 a ha, bits_0_2 a ha, bits_6_7 b hb, bits_1_5 b hb, bits_0_0 b hb, bits_4_7 c hc)
        (rw
          (bits_0_3 c hc, bits_7_7 d hd, bits_2_6 d hd, bits_0_1 d hd, bits_5_7 e he, bits_0_4 e he)
          (rw (join_table 2 8 refl (a % 8) (b / 64) (omega arith) (omega arith)) (
            rw (join_table 4 2 refl (b % 2) (c / 16) (omega arith) (omega arith)) (
              rw (join_table 1 16 refl (c % 16) (d / 128) (omega arith) (omega arith))
                (rw (join_table 3 4 refl (d % 4) (e / 32) (omega arith) (omega arith)))))))

  pub group-IsDigit : All IsDigit (group a b c d e)
  group-IsDigit = rw group-digits (omega arith)

  pub length-group : length (group a b c d e) ≡ 8
  length-group = rw group-digits

  -- Eight characters carry the value of the five bytes.
  pub value32-group :
      (acc : ℕ) → value32 acc (group a b c d e) ≡ value256 acc (a ∷ b ∷ c ∷ d ∷ e ∷ [])
  value32-group acc = rw group-digits (omega arith)
