-- ===== src/Ulid.antt =====
-- internal/ulid/ulid.go: identifiers of 26 Crockford base32 characters.
--
-- A `[16]byte` or `[10]byte` is the list of its bytes, most significant first. `crypto/rand` is an
-- argument: `none` is a read that fails, at which the program panics. Times are milliseconds.
mod Bits
mod Digits
pub mod Codec
pub mod Order
pub mod Increasing
mod Tests
use Prim.Native.Nat.{bit_and, bit_or}
use dk_agent_memory.Base.{
  ℕ, ◌+◌, ◌-◌, ◌*◌, ◌/◌, ◌%◌, ◌^◌, ◌⊎◌, inl, inr, Bool, true, false, not, ◌&&◌, Option, none, some,
  List, [], ◌∷◌, ◌++◌, map, ltb, leb, ◌==◌, if◌then◌else◌, length, get_or, take, Text, codes,
}

abbrev pub id_length : ℕ
id_length = 26

abbrev pub encoding : Text
encoding = codes "0123456789ABCDEFGHJKMNPQRSTVWXYZ"

-- A table is the function from its indices.
abbrev update : (ℕ → ℕ) → ℕ → ℕ → ℕ → ℕ
update t k v c = if c == k then v else t c

-- The second loop of `init`.
abbrev fill : ℕ → Text → (ℕ → ℕ) → ℕ → ℕ
fill i [] t = t
fill i (c ∷ cs) t =
    fill (i + 1) cs
      (if leb b'A' c && leb c b'Z' then update (update t c i) (c + 32) i else update t c i)

unfoldable pub decoding : ℕ → ℕ
decoding = fill 0 encoding (λ _. 0xff)

-- `encoding[i]`
pub letter : ℕ → ℕ
letter i = get_or encoding i 0

-- The indices of eight characters, from five bytes.
pub group : ℕ → ℕ → ℕ → ℕ → ℕ → List ℕ
group a b c d e =
    (bit_and a 248 / 2 ^ 3)
    ∷ bit_or (bit_and a 7 * 2 ^ 2) (bit_and b 192 / 2 ^ 6)
    ∷ (bit_and b 62 / 2 ^ 1)
    ∷ bit_or (bit_and b 1 * 2 ^ 4) (bit_and c 240 / 2 ^ 4)
    ∷ bit_or (bit_and c 15 * 2 ^ 1) (bit_and d 128 / 2 ^ 7)
    ∷ (bit_and d 124 / 2 ^ 2)
    ∷ bit_or (bit_and d 3 * 2 ^ 3) (bit_and e 224 / 2 ^ 5)
    ∷ bit_and e 31
    ∷ []

-- The argument has 16 bytes by its type; the last clause stands for no array.
pub indices : List ℕ → List ℕ
indices (b0 ∷ b1 ∷ b2 ∷ b3 ∷ b4 ∷ b5 ∷ b6 ∷ b7 ∷ b8 ∷ b9 ∷ b10 ∷ b11 ∷ b12 ∷ b13 ∷ b14 ∷ b15 ∷ []) =
    (bit_and b0 224 / 2 ^ 5)
    ∷ bit_and b0 31
    ∷ (group b1 b2 b3 b4 b5 ++ (group b6 b7 b8 b9 b10 ++ group b11 b12 b13 b14 b15))
indices _ = []

pub encode : List ℕ → Text
encode b = map letter (indices b)

pub data Invalid : Type 0 where
  wrong_length : (got : ℕ) → Invalid
  not_crockford : (char position : ℕ) → Invalid
  overflows : Invalid

-- The loop over the characters, from position `i`.
unfoldable pub check_chars : ℕ → Text → Option Invalid
check_chars i [] = none
check_chars i (c ∷ s) =
    let rest = check_chars (i + 1) s in
    if decoding c == 0xff then some (not_crockford c i) else rest

-- `none` is a nil error.
unfoldable pub validate : Text → Option Invalid
validate s =
    if not (length s == id_length) then some (wrong_length (length s)) else elim (check_chars 0 s) [
      | some e ↦ some e
      | none ↦ if ltb b'7' (get_or s 0 0) then some overflows else none
    ]

-- `strings.ToUpper` on the ASCII text that `validate` accepts.
abbrev pub to_upper : ℕ → ℕ
to_upper c = if leb b'a' c && leb c b'z' then c - 32 else c

-- The loop of `Time`: `ms<<5 | d` in uint64.
pub read_ms : ℕ → Text → ℕ
read_ms ms [] = ms
read_ms ms (c ∷ s) = read_ms (bit_or (ms * 2 ^ 5 % 2 ^ 64) (decoding c)) s

pub time : Text → Invalid ⊎ ℕ
time s = elim (validate s) [ some e ↦ inl e | none ↦ inr (read_ms 0 (take 10 (map to_upper s))) ]

-- The package's `lastMS` and `lastRand`, guarded by its mutex.
pub record Generator : Type 0 where
  pub last_ms : ℕ
  pub last_rand : List ℕ

-- The loop runs from the last byte to the first; it stops at a byte that is not 0xFF.
pub increment : List ℕ → List ℕ × Bool
increment [] = ([], false)
increment (r ∷ rs) =
    let (rs', done) = increment rs in
    if done then (r ∷ rs', true) else if r == 0xff then (0 ∷ rs', false) else ((r + 1) ∷ rs', true)

-- The six bytes of the timestamp, then the random ones.
pub assemble : ℕ → List ℕ → List ℕ
assemble ms rand =
    (ms / 2 ^ 40 % 256)
    ∷ (ms / 2 ^ 32 % 256)
    ∷ (ms / 2 ^ 24 % 256)
    ∷ (ms / 2 ^ 16 % 256)
    ∷ (ms / 2 ^ 8 % 256)
    ∷ (ms % 256)
    ∷ rand

abbrev finish : Generator → Text × Generator
finish g = (encode (assemble g.last_ms g.last_rand), g)

-- `drawn` is what `rand.Read` delivers if it is called.
pub new_at : Option (List ℕ) → ℕ → Generator → Option (Text × Generator)
new_at drawn ms g =
    if ms == g.last_ms
    then (let (next, done) = increment g.last_rand in
        if done then some (finish (record { last_ms = ms; last_rand = next })) else elim drawn [
          | none ↦ none
          | some r ↦ some (finish (record { last_ms = (ms + 1) % 2 ^ 64; last_rand = r }))
        ])
    else elim drawn [
      | none ↦ none
      | some r ↦ some (finish (record { last_ms = ms; last_rand = r }))
    ]
