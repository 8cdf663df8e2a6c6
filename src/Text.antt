-- ===== src/Text.antt =====
-- What the loaders use of C++ strings: a text is the list of its bytes, and a text file is the list of
-- its lines, as `std::getline` gives them.
pub mod Decimal
pub mod Split
pub mod Table
mod Tests
use Prim.Native.Char.{code}
use Prim.Native.String.{String}
use hy_gcn_a_gcn_accelerator.Base.{
  ℕ, zero, suc, ◌+◌, ◌-◌, ◌*◌, ◌/◌, ◌%◌, Bool, true, false, List, [], ◌∷◌, ◌++◌, leb, ltb, ◌==◌,
  ◌&&◌, ◌||◌, if◌then◌else◌, ℤ, pos, negsuc, sub_ℕ, Option, none, some, take, drop, length,
}

abbrev pub Text : Type 0
Text = List ℕ

-- The bytes of a literal.
abbrev pub codes : String → Text
codes String.[] = []
codes (String.◌∷◌ c s) = code c ∷ codes s

-- `==` of two texts.
unfoldable pub same_text : Text → Text → Bool
same_text [] [] = true
same_text [] (y ∷ ys) = false
same_text (x ∷ xs) [] = false
same_text (x ∷ xs) (y ∷ ys) = x == y && same_text xs ys

abbrev pub is_digit : ℕ → Bool
is_digit c = leb b'0' c && leb c b'9'

-- `isspace` of the C locale.
abbrev pub is_space : ℕ → Bool
is_space c = c == b' ' || (leb 9 c && leb c 13)

-- The digits at the head of a text, after those that make `n`.
unfoldable pub digits_from : ℕ → Text → ℕ
digits_from n [] = n
digits_from n (c ∷ s) =
    let rest = digits_from (n * 10 + (c - b'0')) s in if is_digit c then rest else n

-- A number with its sign.
unfoldable pub signed : Text → ℤ
signed [] = pos 0
signed (c ∷ s) =
    if c == b'-'
    then sub_ℕ 0 (digits_from 0 s)
    else if c == b'+'
    then pos (digits_from 0 s)
    else pos (digits_from 0 (c ∷ s))

-- `std::atoi`: a text with no number in front is 0. Values beyond `int` are outside the model.
unfoldable pub atoi : Text → ℤ
unfolding signed
atoi [] = pos 0
atoi (c ∷ s) = let rest = atoi s in if is_space c then rest else signed (c ∷ s)

-- The digits of a number, on fuel.
unfoldable pub decimal : ℕ → ℕ → Text
decimal zero n = []
decimal (suc fuel) n =
    let front = decimal fuel (n / 10) in
    if ltb n 10 then (b'0' + n) ∷ [] else front ++ ((b'0' + n % 10) ∷ [])

-- `std::to_string` of a number that is not negative. A number has fewer digits than units.
unfoldable pub to_string : ℕ → Text
unfolding decimal
to_string n = decimal (suc n) n

-- `s.find(c)` of one character, and the texts that `s.substr(0, pos)` and `s.substr(pos + 1, size)`
-- then give: where the character is not found, `npos` makes both the whole text.
unfoldable pub cut_at : ℕ → Text → Option (Text × Text)
cut_at c [] = none
cut_at c (x ∷ s) =
    if x == c
    then some ([], s)
    else elim (cut_at c s) [ none ↦ none | some (front, back) ↦ some (x ∷ front, back) ]

abbrev pub fields : Text → Text × Text
fields line = elim (cut_at b',' line) [ none ↦ (line, line) | some p ↦ p ]
