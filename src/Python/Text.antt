-- ===== src/Python/Text.antt =====
-- Texts as the patterns and format strings of the source use them: character classes with a
-- repeat count, a fixed prefix, and zero-padded decimal numbers.
use Prim.Native.Char.{Char, code}
use Prim.Native.String
use Prim.Native.String.append
use amt_trust_check_radar_la.Base.{
  ℕ, zero, suc, ◌/◌, ◌%◌, ◌≡◌, ◌∙◌, refl, ap, Bool, true, false, ◌&&◌, ◌||◌, not, Option, none,
  some, List, [], ◌∷◌, ◌++◌, ◌+◌, ◌-◌, ◌*◌, map, leb, ◌==◌, if◌then◌else◌, all, length, arith,
}

-- the code points of a text
abbrev pub codes : String.String → List ℕ
codes String.[] = []
codes (String.◌∷◌ c s) = code c ∷ codes s

pub codes-append : (s t : String.String) → codes (String.◌++◌ s t) ≡ codes s ++ codes t
codes-append String.[] t = ap codes (append.nil t)
codes-append (String.◌∷◌ c s) t =
    ap codes (append.cons c s t) ∙ ap (λ l. code c ∷ l) (codes-append s t)

-- `[0-9a-f]`
abbrev pub hex : ℕ → Bool
hex c = (leb b'0' c && leb c b'9') || (leb b'a' c && leb c b'f')

-- `[A-Za-z0-9]`
abbrev pub alnum : ℕ → Bool
alnum c = (leb b'0' c && leb c b'9') || (leb b'A' c && leb c b'Z') || (leb b'a' c && leb c b'z')

-- `[A-Za-z0-9_-]`
abbrev pub name_char : ℕ → Bool
name_char c = alnum c || (c == b'_') || (c == b'-')

-- `re.fullmatch(r'[class]{lo,hi}', s)`
unfoldable pub repeats : (ℕ → Bool) → ℕ → ℕ → List ℕ → Bool
repeats cls lo hi cs = all cls cs && leb lo (length cs) && leb (length cs) hi

abbrev rest_repeats : (ℕ → Bool) → ℕ → ℕ → Option (List ℕ) → Bool
rest_repeats cls lo hi none = false
rest_repeats cls lo hi (some cs) = repeats cls lo hi cs

-- what follows a fixed prefix
abbrev pub strip : List ℕ → List ℕ → Option (List ℕ)
strip [] cs = some cs
strip (p ∷ ps) [] = none
strip (p ∷ ps) (c ∷ cs) = if p == c then strip ps cs else none

-- `re.fullmatch(prefix + r'[class]{lo,hi}', s)`
unfoldable pub matches : String.String → (ℕ → Bool) → ℕ → ℕ → String.String → Bool
unfolding repeats
matches prefix cls lo hi s = rest_repeats cls lo hi (strip (codes prefix) (codes s))

strip-append : (p cs : List ℕ) → strip p (p ++ cs) ≡ some cs
strip-append [] cs = refl
strip-append (c ∷ p) cs = ground (arith, strip-append p cs)

-- A prefix in front of a text that the class accepts makes a text that the longer pattern accepts.
pub matches-append :
    (p : String.String) (cls : ℕ → Bool) (lo hi : ℕ) (s : String.String)
    → matches "" cls lo hi s ≡ true
    → matches p cls lo hi (String.◌++◌ p s) ≡ true
unfolding matches
matches-append p cls lo hi s h = rw (matches, codes-append, strip-append) h

digit : ℕ → String.String
digit zero = "0"
digit (suc zero) = "1"
digit (suc (suc zero)) = "2"
digit (suc (suc (suc zero))) = "3"
digit (suc (suc (suc (suc zero)))) = "4"
digit (suc (suc (suc (suc (suc zero))))) = "5"
digit (suc (suc (suc (suc (suc (suc zero)))))) = "6"
digit (suc (suc (suc (suc (suc (suc (suc zero))))))) = "7"
digit (suc (suc (suc (suc (suc (suc (suc (suc zero)))))))) = "8"
digit _ = "9"

-- the digits of a number that is not 0, and nothing for 0; a number has no more digits than its
-- value, so that fuel of the number is enough
leading : ℕ → ℕ → String.String
leading zero n = ""
leading (suc f) n =
    let more = leading f (n / 10) in if n == 0 then "" else String.◌++◌ more (digit (n % 10))

-- `f'{n:0<places>d}'`
unfoldable pub pad : ℕ → ℕ → String.String
unfolding leading digit
pad zero n = leading n n
pad (suc places) n = String.◌++◌ (pad places (n / 10)) (digit (n % 10))

pad_deadline : pad 12 1758700000 ≡ "001758700000"
unfolding pad leading digit
pad_deadline = refl

pad_long : pad 3 12045 ≡ "12045"
unfolding pad leading digit
pad_long = refl

usage_key : matches "PERIOD#" hex 4 4 "PERIOD#00af" ≡ true
unfolding matches
usage_key = refl

-- `s.split(c)`: the part before the first `c`, and the other parts
pub data Parts : Type 0 where
  parts : String.String → List String.String → Parts

abbrev pub part_list : Parts → List String.String
part_list (parts s ss) = s ∷ ss

abbrev after_char : ℕ → Char → Parts → Parts
after_char c d (parts s ss) =
    if code d == c then parts String.[] (s ∷ ss) else parts (String.◌∷◌ d s) ss

unfoldable pub split : ℕ → String.String → Parts
split c String.[] = parts String.[] []
split c (String.◌∷◌ d s) = after_char c d (split c s)

fields_of_key : part_list (split b'_' "v1_k1_00ff") ≡ "v1" ∷ "k1" ∷ "00ff" ∷ []
unfolding split
fields_of_key = refl

-- `int(s, 16)` on hexadecimal digits
abbrev hex_value : ℕ → ℕ
hex_value c = if leb b'a' c then (c + 10) - b'a' else c - b'0'

abbrev hex_digits : ℕ → List ℕ → ℕ
hex_digits n [] = n
hex_digits n (c ∷ cs) = hex_digits (n * 16 + hex_value c) cs

unfoldable pub hex_number : String.String → ℕ
hex_number s = hex_digits 0 (codes s)

expiry_of_token : hex_number "68d3a2e0" ≡ 1758700256
unfolding hex_number
expiry_of_token = refl

hex_letter : ℕ → String.String
hex_letter zero = "a"
hex_letter (suc zero) = "b"
hex_letter (suc (suc zero)) = "c"
hex_letter (suc (suc (suc zero))) = "d"
hex_letter (suc (suc (suc (suc zero)))) = "e"
hex_letter _ = "f"

hex_digit : ℕ → String.String
unfolding hex_letter digit
hex_digit n = if leb 10 n then hex_letter (n - 10) else digit n

hex_leading : ℕ → ℕ → String.String
unfolding hex_digit
hex_leading zero n = ""
hex_leading (suc f) n =
    let more = hex_leading f (n / 16) in
    if n == 0 then "" else String.◌++◌ more (hex_digit (n % 16))

-- `f'{n:0<places>x}'`
unfoldable pub pad_hex : ℕ → ℕ → String.String
unfolding hex_leading hex_digit
pad_hex zero n = hex_leading n n
pad_hex (suc places) n = String.◌++◌ (pad_hex places (n / 16)) (hex_digit (n % 16))

token_of_expiry : pad_hex 8 1758700256 ≡ "68d3a2e0"
unfolding pad_hex hex_leading hex_digit hex_letter digit
token_of_expiry = refl

-- `s[:n]`
unfoldable pub take : ℕ → String.String → String.String
take zero s = String.[]
take (suc n) String.[] = String.[]
take (suc n) (String.◌∷◌ c s) = String.◌∷◌ c (take n s)

-- ASCII letters as `str.lower` maps them
abbrev lower_code : ℕ → ℕ
lower_code c = if leb b'A' c && leb c b'Z' then c + 32 else c

abbrev same_codes : List ℕ → List ℕ → Bool
same_codes [] [] = true
same_codes (a ∷ xs) (b ∷ ys) = (a == b) && same_codes xs ys
same_codes _ _ = false

-- `s.lower() == t` for a text `t` of which no letter is the lower case of a letter outside ASCII
unfoldable pub lower_is : String.String → String.String → Bool
lower_is t s = same_codes (map lower_code (codes s)) (codes t)

-- `s < t` on texts, by code points
abbrev codes_before : List ℕ → List ℕ → Bool
codes_before [] [] = false
codes_before [] (c ∷ cs) = true
codes_before (c ∷ cs) [] = false
codes_before (a ∷ xs) (b ∷ ys) = (leb a b && not (a == b)) || ((a == b) && codes_before xs ys)

abbrev pub text_before : String.String → String.String → Bool
text_before s t = codes_before (codes s) (codes t)

abbrev fits_all : List (ℕ → Bool) → List ℕ → Bool
fits_all [] [] = true
fits_all [] (c ∷ cs) = false
fits_all (p ∷ ps) [] = false
fits_all (p ∷ ps) (c ∷ cs) = p c && fits_all ps cs

abbrev dash : ℕ → Bool
dash c = c == b'-'

abbrev group : ℕ → List (ℕ → Bool) → List (ℕ → Bool)
group zero rest = rest
group (suc n) rest = hex ∷ group n rest

abbrev variant : ℕ → Bool
variant c = (c == b'8') || (c == b'9') || (c == b'a') || (c == b'b')

abbrev uuid4_shape : List (ℕ → Bool)
uuid4_shape = group 8 (
    dash
    ∷ group 4 (dash ∷ (λ c. c == b'4') ∷ group 3 (dash ∷ variant ∷ group 3 (dash ∷ group 12 []))))

-- the canonical text of a random UUID, in lower case
unfoldable pub is_uuid4 : String.String → Bool
is_uuid4 s = fits_all uuid4_shape (codes s)

random_uuid : is_uuid4 "3f2b8c1e-9a4d-4e6f-8b21-0c9d7e5f6a1b" ≡ true
unfolding is_uuid4
random_uuid = refl

named_uuid : is_uuid4 "3f2b8c1e-9a4d-5e6f-8b21-0c9d7e5f6a1b" ≡ false
unfolding is_uuid4
named_uuid = refl
