-- ===== src/Console/Text.antt =====
-- What the console does with strings, and the string functions of ClientUtility.h.
use necroauth.Prelude.{
  ℕ, zero, suc, ◌+◌, ◌-◌, ◌*◌, ◌^◌, ◌==◌, Bool, true, false, ◌&&◌, ◌||◌, ltb, leb, if◌then◌else◌,
  List, [], ◌∷◌, ◌++◌, map, Option, none, some, ℤ, pos, negsuc,
}

-- `std::isspace`
abbrev pub is_space : ℕ → Bool
is_space b = b == 32 || (leb 9 b && leb b 13)

-- `IsWhitespaceString(const std::string&)`
unfoldable pub is_whitespace_string : List ℕ → Bool
is_whitespace_string [] = true
is_whitespace_string (b ∷ bs) = if is_space b then is_whitespace_string bs else false

-- `std::tolower`
abbrev pub to_lower : ℕ → ℕ
to_lower b = if leb b'A' b && leb b b'Z' then b + 32 else b

abbrev pub lowercase : List ℕ → List ℕ
lowercase = map to_lower

abbrev pub push : List ℕ → List (List ℕ) → List (List ℕ)
push [] rest = rest
push (b ∷ bs) rest = (b ∷ bs) ∷ rest

-- `SplitInput(const std::string&)`, with the token that is being read.
unfoldable pub tokens : List ℕ → List ℕ → List (List ℕ)
tokens token [] = push token []
tokens token (b ∷ bs) =
    if is_space b then push token (tokens [] bs) else tokens (token ++ b ∷ []) bs

unfoldable pub split_input : List ℕ → List (List ℕ)
unfolding tokens
split_input s = tokens [] s

-- What `std::stoi` reads: digits behind white space and a sign. It throws where there are none, and
-- where the number is out of the range of an `int`.
unfoldable pub digits : ℕ → List ℕ → ℕ
digits n [] = n
digits n (b ∷ bs) = if leb b'0' b && leb b b'9' then digits (n * 10 + (b - b'0')) bs else n

unfoldable pub number : List ℕ → Option ℕ
unfolding digits
number [] = none
number (b ∷ bs) = if leb b'0' b && leb b b'9' then some (digits 0 (b ∷ bs)) else none

abbrev pub positive : Option ℕ → Option ℤ
positive none = none
positive (some n) = if ltb n (2 ^ 31) then some (pos n) else none

abbrev pub negative : Option ℕ → Option ℤ
negative none = none
negative (some zero) = some (pos 0)
negative (some (suc n)) = if ltb n (2 ^ 31) then some (negsuc n) else none

unfoldable pub stoi : List ℕ → Option ℤ
unfolding number
stoi [] = none
stoi (b ∷ bs) =
    let rest = stoi bs in
    if is_space b
    then rest
    else (if b == b'-'
        then negative (number bs)
        else (if b == b'+' then positive (number bs) else positive (number (b ∷ bs))))

-- `TryParseInt(const std::string&)`
unfoldable pub try_parse_int : List ℕ → ℤ
unfolding stoi
try_parse_int s = elim (stoi s) [ none ↦ pos 0 | some i ↦ i ]
