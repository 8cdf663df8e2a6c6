-- ===== src/Text/Decimal.antt =====
-- Numbers that are printed and read again.
use hy_gcn_a_gcn_accelerator.Base.{
  ℕ, zero, suc, ◌+◌, ◌-◌, ◌*◌, ◌/◌, ◌%◌, ◌<◌, ◌≡◌, refl, ap, ◌∙◌, inl, inr, true, false, [], ◌∷◌,
  ◌++◌, arith, ltb, pos, some, All, All-append, length, length-append, Bool-cases,
}
use hy_gcn_a_gcn_accelerator.Text.{
  Text, is_digit, digits_from, signed, atoi, decimal, to_string, cut_at, fields,
}

-- What begins with no digit.
abbrev pub Ends : Text → Type 0
Ends [] = Unit
Ends (c ∷ s) = is_digit c ≡ false

abbrev AllDigits : Text → Type 0
AllDigits s = All (λ c. is_digit c ≡ true) s

digits_from-snoc :
    (n c : ℕ) (s rest : Text)
    → AllDigits s
    → is_digit c ≡ true
    → Ends rest
    → digits_from n (s ++ (c ∷ rest)) ≡ digits_from n s * 10 + (c - b'0')
unfolding digits_from
digits_from-snoc n c [] [] a d e = ground arith
digits_from-snoc n c [] (r ∷ rest) a d e = ground arith
digits_from-snoc n c (x ∷ s) rest a d e =
    rw (a.0, digits_from) (digits_from-snoc (n * 10 + (x - b'0')) c s rest a.1 d e)

decimal-AllDigits : (fuel n : ℕ) → AllDigits (decimal fuel n)
unfolding decimal
decimal-AllDigits zero n = tt
decimal-AllDigits (suc fuel) n = elim (Bool-cases (ltb n 10)) [
  | inl h ↦ rw (h, decimal) (ground (arith, h), tt)
  | inr h ↦
      rw (h, decimal)
        (All-append _ (decimal fuel (n / 10)) _ (decimal-AllDigits fuel (n / 10))
          (ground arith, tt))
]

-- What follows the digits is not read.
digits_from-append :
    (n : ℕ) (s rest : Text) → AllDigits s → Ends rest → digits_from n (s ++ rest) ≡ digits_from n s
unfolding digits_from
digits_from-append n [] [] a e = refl
digits_from-append n [] (r ∷ rest) a e = rw (e, digits_from)
digits_from-append n (c ∷ s) rest a e =
    rw (a.0, digits_from) (digits_from-append (n * 10 + (c - b'0')) s rest a.1 e)

digits_from-decimal : (fuel n : ℕ) → n < fuel → digits_from 0 (decimal fuel n) ≡ n
unfolding decimal digits_from
digits_from-decimal zero n h = elim h [ ]
digits_from-decimal (suc fuel) n h = elim (Bool-cases (ltb n 10)) [
  | inl k ↦
      rw (k, decimal) (digits_from-snoc 0 (b'0' + n) [] [] tt (ground (arith, k)) tt ∙ omega arith)
  | inr k ↦
      let front = decimal fuel (n / 10) in
      let last =
        digits_from-snoc 0 (b'0' + n % 10) front [] (decimal-AllDigits fuel (n / 10)) (ground arith)
          tt in
      rw (k, decimal) (last ∙ omega (arith, digits_from-decimal fuel (n / 10) (ground (arith, k))))
]

-- A text that starts with a digit is read as a number with no sign.
atoi-digit : (c : ℕ) (s : Text) → is_digit c ≡ true → atoi (c ∷ s) ≡ pos (digits_from 0 (c ∷ s))
unfolding atoi signed
atoi-digit c s h = ground (arith, h)

decimal-pos : (fuel n : ℕ) → 0 < length (decimal (suc fuel) n)
unfolding decimal
decimal-pos fuel n = elim (Bool-cases (ltb n 10)) [
  | inl h ↦ rw (h, decimal) (omega arith)
  | inr h ↦
      rw (h, decimal) (omega (arith, length-append (decimal fuel (n / 10)) ((b'0' + n % 10) ∷ [])))
]

atoi-AllDigits :
    (s rest : Text)
    → AllDigits s
    → 0 < length s
    → Ends rest
    → atoi (s ++ rest) ≡ pos (digits_from 0 s)
atoi-AllDigits [] rest a h e = elim h [ ]
atoi-AllDigits (c ∷ s) rest a h e =
    atoi-digit c (s ++ rest) a.0 ∙ ap pos (digits_from-append 0 (c ∷ s) rest a e)

pub to_string-AllDigits : (n : ℕ) → All (λ c. is_digit c ≡ true) (to_string n)
unfolding to_string
to_string-AllDigits n = decimal-AllDigits (suc n) n

-- A number that is printed is read again, whatever follows that is no digit.
pub atoi-to_string : (n : ℕ) (rest : Text) → Ends rest → atoi (to_string n ++ rest) ≡ pos n
unfolding to_string
atoi-to_string n rest e =
    atoi-AllDigits (decimal (suc n) n) rest (decimal-AllDigits (suc n) n) (decimal-pos n n) e
    ∙ ap pos (digits_from-decimal (suc n) n (omega arith))

cut_at-AllDigits : (s rest : Text) → AllDigits s → cut_at b',' (s ++ (b',' ∷ rest)) ≡ some (s, rest)
unfolding cut_at
cut_at-AllDigits [] rest a = refl
cut_at-AllDigits (c ∷ s) rest a = ground (arith, cut_at-AllDigits s rest a.1)

-- The two fields of a line of two numbers.
pub fields-line :
    (a b : ℕ) → fields (to_string a ++ (b',' ∷ to_string b)) ≡ (to_string a, to_string b)
unfolding to_string
fields-line a b =
    rw (
      cut_at-AllDigits (decimal (suc a) a) (decimal (suc b) b) (decimal-AllDigits (suc a) a),
      fields,
    )
