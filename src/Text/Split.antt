-- ===== src/Text/Split.antt =====
-- hygcn/tool.cpp, `SplitString` and `str2int`.
pub mod Parts
use hy_gcn_a_gcn_accelerator.Base.{
  ℕ, zero, suc, ◌+◌, ◌≤◌, ◌<◌, ◌≡◌, ◌⊎◌, refl, ap, sym, subst, ◌∙◌, inl, inr, Bool, true, false,
  Option, none, some, List, [], ◌∷◌, ◌++◌, arith, ◌==◌, ◌&&◌, if◌then◌else◌, ◌>>=◌, length,
  length-drop, take, drop, take-append-drop, Bool-cases, Option-cases, some-eq, All, ℤ,
}
use mathlib.Core.List.{append_assoc, append-nil}
use hy_gcn_a_gcn_accelerator.Text.{Text, atoi}

-- `str2int`.
abbrev pub str2int : Text → ℤ
str2int = atoi

-- Whether a text starts with another.
unfoldable pub starts_with : Text → Text → Bool
starts_with [] s = true
starts_with (d ∷ ds) [] = false
starts_with (d ∷ ds) (c ∷ s) = d == c && starts_with ds s

-- `s.find(delimiter)`: the first place where it stands.
unfoldable pub find : Text → Text → Option ℕ
find delimiter [] = if starts_with delimiter [] then some 0 else none
find delimiter (c ∷ s) =
    let later = find delimiter s in
    if starts_with delimiter (c ∷ s)
    then some 0
    else elim later [ none ↦ none | some k ↦ some (suc k) ]

-- What is left after the last delimiter.
abbrev pub last_part : Text → List Text
last_part [] = []
last_part (c ∷ s) = (c ∷ s) ∷ []

-- The loop, for the text `s` from `pos1` on, on fuel: an empty delimiter is found for ever.
unfoldable pub split_from : ℕ → Text → Text → Option (List Text)
split_from zero delimiter s = none
split_from (suc fuel) delimiter s = elim (find delimiter s) [
  | none ↦ some (last_part s)
  | some k ↦ elim (split_from fuel delimiter (drop (k + length delimiter) s)) [
    | none ↦ none
    | some parts ↦ some (take k s ∷ parts)
  ]
]

-- With a delimiter that is not empty, a round more than the text has bytes is enough.
unfoldable pub split_string : Text → Text → Option (List Text)
unfolding split_from
split_string s delimiter = split_from (suc (length s)) delimiter s
