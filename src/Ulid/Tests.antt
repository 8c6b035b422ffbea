-- ===== src/Ulid/Tests.antt =====
-- The identifiers' tests, and the theorems at concrete states.
use dk_agent_memory.Ulid.{
  Generator, decoding, letter, group, indices, encode, validate, check_chars, time, read_ms,
  assemble, new_at,
}
use dk_agent_memory.Ulid.Codec.{time-encode}
use dk_agent_memory.Ulid.Increasing.{After, IsValid, new_at-After, new_at_overflow}
use dk_agent_memory.Base.{
  ℕ, ◌<◌, ◌≡◌, refl, inr, true, some, List, [], ◌∷◌, arith, All, Text, text_lt,
}

abbrev sixteen : List ℕ
sixteen = 1 ∷ 2 ∷ 3 ∷ 4 ∷ 5 ∷ 6 ∷ 7 ∷ 8 ∷ 9 ∷ 10 ∷ 11 ∷ 12 ∷ 13 ∷ 14 ∷ 15 ∷ 255 ∷ []

abbrev sixteen_more : List ℕ
sixteen_more = 1 ∷ 2 ∷ 3 ∷ 4 ∷ 5 ∷ 7 ∷ 7 ∷ 8 ∷ 9 ∷ 10 ∷ 11 ∷ 12 ∷ 13 ∷ 14 ∷ 15 ∷ 0 ∷ []

abbrev ten : List ℕ
ten = 7 ∷ 8 ∷ 9 ∷ 10 ∷ 11 ∷ 12 ∷ 13 ∷ 14 ∷ 15 ∷ 254 ∷ []

abbrev full : List ℕ
full = 255 ∷ 255 ∷ 255 ∷ 255 ∷ 255 ∷ 255 ∷ 255 ∷ 255 ∷ 255 ∷ 255 ∷ []

encode_sixteen : time (encode sixteen) ≡ inr 0x010203040506
unfolding encode time indices group letter validate check_chars decoding read_ms
encode_sixteen = refl

ten_bytes : All (λ b. b < 256) ten
ten_bytes = ground arith

full_bytes : All (λ b. b < 256) full
full_bytes = ground arith

full_ones : All (λ r. r ≡ 0xff) full
full_ones = ground arith

abbrev generator : Generator
generator = record { last_ms = 5; last_rand = ten }

generator-IsValid : IsValid generator
generator-IsValid = record { count = refl; bytes = ten_bytes }

abbrev full_generator : Generator
full_generator = record { last_ms = 5; last_rand = full }

full_generator-IsValid : IsValid full_generator
full_generator-IsValid = record { count = refl; bytes = full_bytes }

time-encode_example : time (encode (assemble 1234567890123 ten)) ≡ inr 1234567890123
time-encode_example = time-encode 1234567890123 ten (omega arith) refl ten_bytes

new_at-After_example : After generator (new_at (some full) 5 generator)
new_at-After_example =
    new_at-After generator 5 full generator-IsValid refl full_bytes (omega arith) (omega arith)

new_at_overflow_example :
    (id id' : Text) × (g' g'' : Generator) × (new_at (some ten) 5 full_generator ≡ some (id, g'))
    × (new_at (some ten) 5 g' ≡ some (id', g''))
    × (text_lt id' id ≡ true)
new_at_overflow_example =
    new_at_overflow full_generator ten ten full_generator-IsValid full_ones refl ten_bytes refl
      ten_bytes (omega arith)
