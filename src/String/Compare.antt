-- ===== src/String/Compare.antt =====
-- include/doost/string.hpp: the comparisons of the class String, as an order of the values.
use doost.Base.{
  ℕ, ◌≡◌, refl, ap, Bool, true, false, ◌==◌, ltb, ◌&&◌, ◌||◌, not, if◌then◌else◌, arith, List, [],
  ◌∷◌, length, some, inl, inr, Bool-cases, ◌↔◌,
}
use doost.String.{Store, block_of}
use doost.String.Operations.{c_str, has_value}
use doost.String.Values.{value}

-- std::strcmp(a, b) == 0, and std::memcmp of two arrays of one length == 0.
unfoldable pub same_bytes : List ℕ → List ℕ → Bool
same_bytes [] [] = true
same_bytes [] (y ∷ ys) = false
same_bytes (x ∷ xs) [] = false
same_bytes (x ∷ xs) (y ∷ ys) = x == y && same_bytes xs ys

-- std::strcmp(a, b) < 0: the first bytes that differ decide, and the end comes before any byte.
unfoldable pub less_bytes : List ℕ → List ℕ → Bool
less_bytes xs [] = false
less_bytes [] (y ∷ ys) = true
less_bytes (x ∷ xs) (y ∷ ys) = ltb x y || (x == y && less_bytes xs ys)

-- operator==
abbrev pub equals : Store → (lhs rhs : ℕ) → Bool
equals s lhs rhs =
    if block_of s lhs == 0 || block_of s rhs == 0
    then block_of s lhs == block_of s rhs
    else same_bytes (c_str s lhs) (c_str s rhs)

-- operator== with a std::string_view
abbrev pub equals_view : Store → (lhs : ℕ) (rhs : List ℕ) → Bool
equals_view s lhs rhs =
    if not (has_value s lhs)
    then false
    else let text = c_str s lhs in
      length text == length rhs && (length text == 0 || same_bytes text rhs)

-- operator== with the text on the left.
abbrev pub view_equals : Store → (lhs : List ℕ) (rhs : ℕ) → Bool
view_equals s lhs rhs = equals_view s rhs lhs

-- operator<
abbrev pub less : Store → (lhs rhs : ℕ) → Bool
less s lhs rhs =
    if block_of s lhs == 0 || block_of s rhs == 0
    then block_of s lhs == 0 && not (block_of s rhs == 0)
    else less_bytes (c_str s lhs) (c_str s rhs)

same_bytes_refl : (xs : List ℕ) → same_bytes xs xs ≡ true
unfolding same_bytes
same_bytes_refl [] = refl
same_bytes_refl (x ∷ xs) = ground (arith, same_bytes_refl xs)

same_bytes_eq : (xs ys : List ℕ) → same_bytes xs ys ≡ true → xs ≡ ys
unfolding same_bytes
same_bytes_eq [] [] e = refl
same_bytes_eq [] (y ∷ ys) e = ground (arith, e)
same_bytes_eq (x ∷ xs) [] e = ground (arith, e)
same_bytes_eq (x ∷ xs) (y ∷ ys) e = ground (arith, same_bytes_eq xs ys (ground (arith, e)))

less_bytes-opposite :
    (xs ys : List ℕ) → less_bytes ys xs ≡ not (same_bytes xs ys || less_bytes xs ys)
unfolding same_bytes less_bytes
less_bytes-opposite [] [] = refl
less_bytes-opposite [] (y ∷ ys) = refl
less_bytes-opposite (x ∷ xs) [] = refl
less_bytes-opposite (x ∷ xs) (y ∷ ys) = ground (arith, less_bytes-opposite xs ys)

less_bytes_trans :
    (xs ys zs : List ℕ)
    → less_bytes xs ys ≡ true
    → less_bytes ys zs ≡ true
    → less_bytes xs zs ≡ true
unfolding less_bytes
less_bytes_trans xs [] zs d e = ground (arith, d)
less_bytes_trans xs (y ∷ ys) [] d e = ground (arith, e)
less_bytes_trans [] (y ∷ ys) (z ∷ zs) d e = refl
less_bytes_trans (x ∷ xs) (y ∷ ys) (z ∷ zs) d e =
    elim (Bool-cases (less_bytes xs ys && less_bytes ys zs)) [
      | inl both ↦
          ground
            (arith, d, e, less_bytes_trans xs ys zs (ground (arith, both)) (ground (arith, both)))
      | inr other ↦ ground (arith, d, e, other)
    ]

-- The lengths and then the bytes, or the bytes up to the end.
same_length :
    (xs ys : List ℕ)
    → (length xs == length ys && (length xs == 0 || same_bytes xs ys)) ≡ same_bytes xs ys
unfolding same_bytes
same_length [] [] = refl
same_length [] (y ∷ ys) = ground arith
same_length (x ∷ xs) [] = ground arith
same_length (x ∷ xs) (y ∷ ys) = elim (Bool-cases (same_bytes xs ys)) [
  | inl same ↦ ground (arith, same, same_bytes_eq xs ys same, ap length (same_bytes_eq xs ys same))
  | inr differ ↦ ground (arith, differ)
]

-- Two strings are equal where their values are.
equals-value : (s : Store) (lhs rhs : ℕ) → (equals s lhs rhs ≡ true) ↔ (value s lhs ≡ value s rhs)
equals-value s lhs rhs = (
  λ e. ground (arith, e, same_bytes_eq (c_str s lhs) (c_str s rhs)),
  λ e. ground (arith, e, same_bytes_refl (c_str s lhs)),
)

-- Two strings are equal exactly where their values are. The order is total and strict: of two strings
-- that are not equal exactly one is less, of two equal ones none, and an order through a third string
-- carries over.
pub less-order :
    (s : Store) (lhs mid rhs : ℕ)
    → ((equals s lhs rhs ≡ true) ↔ (value s lhs ≡ value s rhs))
      × (less s rhs lhs ≡ not (equals s lhs rhs || less s lhs rhs))
      × (less s lhs mid ≡ true → less s mid rhs ≡ true → less s lhs rhs ≡ true)
less-order s lhs mid rhs = (
  equals-value s lhs rhs,
  ground (arith, less_bytes-opposite (c_str s lhs) (c_str s rhs)),
  λ d e. ground (arith, d, e, less_bytes_trans (c_str s lhs) (c_str s mid) (c_str s rhs)),
)

-- A string equals a view where it has a value and that is the view's text.
pub equals_view-value :
    (s : Store) (lhs : ℕ) (rhs : List ℕ) → (equals_view s lhs rhs ≡ true) ↔ (value s lhs ≡ some rhs)
equals_view-value s lhs rhs = (
  λ e. ground (arith, e, same_length (c_str s lhs) rhs, same_bytes_eq (c_str s lhs) rhs),
  λ e. ground (arith, e, same_length (c_str s lhs) rhs, same_bytes_refl (c_str s lhs)),
)
