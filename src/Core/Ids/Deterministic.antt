-- ===== src/Core/Ids/Deterministic.antt =====
-- packages/core/src/ids.ts: ids that depend on their parts only. A number among the parts is given as
-- its decimal text.
use Prim.Native.Nat.{bit_and, bit_or, bit_xor}
use Prim.Native.Char.{code}
use looms.Prelude.{
  ℕ, zero, suc, ◌+◌, ◌-◌, ◌*◌, ◌/◌, ◌%◌, ◌^◌, String, List, [], ◌∷◌, ◌++◌, ◌<>◌, foldl, reverse,
  take, ltb, if◌then◌else◌,
}

-- The UTF-16 code units of a character.
abbrev units_of : ℕ → List ℕ
units_of c =
    if ltb c 0x10000
    then c ∷ []
    else (0xd800 + (c - 0x10000) / 0x400) ∷ (0xdc00 + (c - 0x10000) % 0x400) ∷ []

unfoldable pub code_units : String → List ℕ
code_units String.[] = []
code_units (String.◌∷◌ c s) = units_of (code c) ++ code_units s

-- The hash of `fnv1a32`: `Math.imul` and `>>> 0` agree with the product modulo 2 ^ 32.
unfoldable pub fnv1a32 : List ℕ → ℕ → ℕ
fnv1a32 units seed =
    foldl (λ hash unit. (bit_xor hash unit * 0x01000193) % 2 ^ 32) (seed % 2 ^ 32) units

-- The low hexadecimal digits of a number, as `toString(16).padStart(count, '0')` gives them.
unfoldable pub hex_digits : ℕ → ℕ → List ℕ
hex_digits zero n = []
hex_digits (suc count) n = hex_digits count (n / 16) ++ (n % 16) ∷ []

digit_text : List String → ℕ → String
digit_text [] d = ""
digit_text (s ∷ ss) zero = s
digit_text (s ∷ ss) (suc d) = digit_text ss d

abbrev hex_alphabet : List String
hex_alphabet =
    "0" ∷ "1" ∷ "2" ∷ "3" ∷ "4" ∷ "5" ∷ "6" ∷ "7" ∷ "8" ∷ "9" ∷ "a" ∷ "b" ∷ "c" ∷ "d" ∷ "e" ∷ "f"
    ∷ []

unfoldable pub hex_text : List ℕ → String
unfolding digit_text
hex_text [] = ""
hex_text (d ∷ ds) = digit_text hex_alphabet d <> hex_text ds

-- `xs.slice(from, from + count)`
abbrev slice : ℕ → ℕ → List ℕ → List ℕ
slice zero count xs = take count xs
slice (suc from) count [] = []
slice (suc from) count (x ∷ xs) = slice from count xs

-- `parts.join(':')`
unfoldable pub join_parts : List String → String
join_parts [] = ""
join_parts (part ∷ []) = part
join_parts (part ∷ more ∷ parts) = part <> ":" <> join_parts (more ∷ parts)

-- The 32 digits that the id is made of.
unfoldable pub source_digits : String → List ℕ
unfolding code_units fnv1a32 hex_digits
source_digits source =
    let units = code_units source in
    hex_digits 8 (fnv1a32 units 0x811c9dc5)
    ++ (hex_digits 8 (fnv1a32 units 0x9e3779b9)
        ++ (hex_digits 8 (fnv1a32 (reverse units) 0x85ebca6b)
            ++ hex_digits 8 (fnv1a32 (reverse units) 0xc2b2ae35)))

abbrev byte_of : List ℕ → ℕ
byte_of [] = 0
byte_of (high ∷ []) = high
byte_of (high ∷ low ∷ _) = high * 16 + low

-- The five groups of digits between the dashes.
unfoldable pub id_groups : List ℕ → List (List ℕ)
unfolding hex_digits
id_groups hex =
    slice 0 8 hex
    ∷ slice 8 4 hex
    ∷ (5 ∷ slice 13 3 hex)
    ∷ (hex_digits 2 (bit_or (bit_and (byte_of (slice 16 2 hex)) 0x3f) 0x80) ++ slice 18 2 hex)
    ∷ slice 20 12 hex
    ∷ []

unfoldable pub joined_groups : String → List (List ℕ) → String
unfolding hex_text
joined_groups dash [] = ""
joined_groups dash (group ∷ []) = hex_text group
joined_groups dash (group ∷ more ∷ groups) =
    hex_text group <> dash <> joined_groups dash (more ∷ groups)

-- `deterministicThreadId`
unfoldable pub deterministic_thread_id : List String → String
unfolding join_parts source_digits id_groups joined_groups
deterministic_thread_id parts = joined_groups "-" (id_groups (source_digits (join_parts parts)))

-- `deterministicRunId`: the thread id without its dashes, which stand between the groups only.
unfoldable pub deterministic_run_id : List String → String
unfolding join_parts source_digits id_groups joined_groups
deterministic_run_id parts =
    "run_" <> joined_groups "" (id_groups (source_digits (join_parts parts)))
