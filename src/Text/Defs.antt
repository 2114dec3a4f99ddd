-- ===== src/Text/Defs.antt =====
-- Texts, literals, prefixes, splitting and searching.
use Prim.Native.Char.{code}
use nest_quickfix.Prelude.{
  ℕ, zero, suc, ◌-◌, String, Bool, true, false, ◌&&◌, List, [], ◌∷◌, Option, none, some, length,
  nat_eq, Eq, list_Eq, nat_Eq, if◌then◌else◌, ◌≡◌,
}

abbrev pub Text : Type 0
Text = List ℕ

-- `===` on strings.
instance abbrev pub text_Eq : Eq Text
text_Eq = list_Eq

-- A literal of the source.
abbrev pub text : String → Text
text String.[] = []
text (String.◌∷◌ c s) = code c ∷ text s

-- `'\x01'`
abbrev pub soh : ℕ
soh = 1

-- `s.startsWith(p)`
unfoldable pub starts_with : Text → Text → Bool
starts_with s [] = true
starts_with [] (p ∷ ps) = false
starts_with (c ∷ s) (p ∷ ps) = nat_eq c p && starts_with s ps

abbrev pub push_head : ℕ → List Text → List Text
push_head c [] = (c ∷ []) ∷ []
push_head c (t ∷ ts) = (c ∷ t) ∷ ts

-- `s.split(sep)` for a separator that is not empty; `skip` counts the characters of a separator
-- that was found and is being passed over.
unfoldable pub split_from : Text → ℕ → Text → List Text
split_from sep skip [] = [] ∷ []
split_from sep (suc skip) (c ∷ s) = split_from sep skip s
split_from sep zero (c ∷ s) =
    let found = split_from sep (length sep - 1) s in
    let other = split_from sep 0 s in
    if starts_with (c ∷ s) sep then [] ∷ found else push_head c other

unfoldable pub split : Text → Text → List Text
unfolding split_from starts_with
split sep s = split_from sep 0 s

-- `s.indexOf(c)` for one character; `none` is the source's -1.
unfoldable pub index_of : ℕ → Text → Option ℕ
index_of c [] = none
index_of c (d ∷ s) =
    let rest = index_of c s in
    if nat_eq d c then some 0 else elim rest [ none ↦ none | some i ↦ some (suc i) ]

-- The whole text has no occurrence of `c`.
abbrev pub Lacks : ℕ → Text → Type 0
Lacks c [] = Unit
Lacks c (d ∷ s) = (nat_eq d c ≡ false) × Lacks c s
