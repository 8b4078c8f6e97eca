-- ===== src/Shell/Text.antt =====
-- Words, as `strcmp` compares them, and the signs of the command line.
use linux_programming.Prelude.{
  ℕ, Bool, true, false, ◌&&◌, Option, none, some, List, [], ◌∷◌, ◌==◌, if◌then◌else◌,
}

abbrev pub Word : Type 0
Word = List ℕ

abbrev pub pipe_sign : Word
pipe_sign = b'|' ∷ []

abbrev pub from_sign : Word
from_sign = b'<' ∷ []

abbrev pub to_sign : Word
to_sign = b'>' ∷ []

-- `strcmp(v, w) == 0`
abbrev pub str_eq : Word → Word → Bool
str_eq [] [] = true
str_eq [] (d ∷ w) = false
str_eq (c ∷ v) [] = false
str_eq (c ∷ v) (d ∷ w) = c == d && str_eq v w

-- The word without the `&` that it ends with.
abbrev pub amp : Word → Option Word
amp [] = none
amp (c ∷ []) = if c == b'&' then some [] else none
amp (c ∷ d ∷ w) = elim (amp (d ∷ w)) [ none ↦ none | some v ↦ some (c ∷ v) ]
