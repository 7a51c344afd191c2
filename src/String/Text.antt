-- ===== src/String/Text.antt =====
-- src/string.cpp: the characters of a block, and how they are printed.
use doost.Base.{ℕ, ◌≡◌, refl, Bool, true, false, if◌then◌else◌, ◌==◌, List, [], ◌∷◌, ◌++◌, arith}

-- What the C library reads of an array that holds a 0: the bytes before the first one.
abbrev pub c_string : List ℕ → List ℕ
c_string [] = []
c_string (x ∷ xs) = if x == 0 then [] else x ∷ c_string xs

-- The five characters that are written with a backslash, and what stands behind it.
abbrev pub escaped : ℕ → List ℕ
escaped c =
    if c == 92
    then 92 ∷ 92 ∷ []
    else if c == 34
    then 92 ∷ 34 ∷ []
    else if c == 10
    then 92 ∷ 110 ∷ []
    else if c == 13
    then 92 ∷ 114 ∷ []
    else if c == 9
    then 92 ∷ 116 ∷ []
    else c ∷ []

unfoldable pub print_escaped : List ℕ → List ℕ
print_escaped [] = []
print_escaped (c ∷ cs) = escaped c ++ print_escaped cs

-- A reader of the quoted form: it stops at the quote that closes it, and its argument says whether the
-- last character was a backslash that escapes the next.
abbrev pub unescape : ℕ → ℕ
unescape c = if c == 110 then 10 else if c == 114 then 13 else if c == 116 then 9 else c

unfoldable pub parse_quoted : (escape : Bool) → List ℕ → List ℕ × List ℕ
parse_quoted escape [] = ([], [])
parse_quoted true (c ∷ cs) = let rest = parse_quoted false cs in (unescape c ∷ rest.0, rest.1)
parse_quoted false (c ∷ cs) =
    let rest = parse_quoted (c == 92) cs in
    if c == 34 then ([], cs) else if c == 92 then rest else (c ∷ rest.0, rest.1)

-- What is printed between quotes reads back as the characters, whatever follows: two different
-- texts never print alike, and a quote among the characters does not close the text.
pub parse_quoted-print_escaped :
    (cs rest : List ℕ) → parse_quoted false (print_escaped cs ++ 34 ∷ rest) ≡ (cs, rest)
unfolding parse_quoted print_escaped
parse_quoted-print_escaped [] rest = refl
parse_quoted-print_escaped (c ∷ cs) rest = ground (arith, parse_quoted-print_escaped cs rest)
