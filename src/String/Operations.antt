-- ===== src/String/Operations.antt =====
-- include/doost/string.hpp, src/string.cpp: construction, assignment and observers of the class String.
-- An object that is not constructed yet has its members at 0. `new_array` is operator new[], which
-- answers an address or throws. What may throw answers the object or the exception, and the state that
-- it leaves either way.
use doost.Base.{
  bytes_of, ℕ, Bool, true, false, ◌&&◌, ◌||◌, if◌then◌else◌, ◌==◌, not, List, [], ◌∷◌, ◌++◌, length,
  Option, none, some, Outcome, returned, thrown, bad_alloc,
}
use doost.Word.{add_word}
use doost.String.Text.{c_string, print_escaped}
use doost.String.{Store, block_of, unique_bit, update, attach, detach, move_from, swap}

-- sizeof(Block) + length + 1
abbrev pub block_size : ℕ → ℕ
block_size length = add_word (add_word 8 length) 1

abbrev pub make_block : (block : ℕ) (value : List ℕ) → Store → Store
make_block block value s = record s {
  first = update s.first block 0;
  chars = update s.chars block (value ++ 0 ∷ []);
  live = update s.live block true;
}

unfoldable pub own_new : (this : ℕ) (value : List ℕ) → Option ℕ → Store → Outcome ℕ × Store
own_new this value none s = (thrown bad_alloc, s)
own_new this value (some block) s = (returned this, attach this block (make_block block value s))

-- String(std::string_view)
unfoldable pub construct_view :
    (new_array : ℕ → Option ℕ) (this : ℕ) (value : List ℕ) → Store → Outcome ℕ × Store
unfolding own_new
construct_view new_array this value s = own_new this value (new_array (block_size (length value))) s

-- String(const std::string&), with the bytes of the text.
abbrev pub construct_string :
    (new_array : ℕ → Option ℕ) (this : ℕ) (value : List ℕ) → Store → Outcome ℕ × Store
construct_string = construct_view

-- String(const char*); `none` is nullptr.
unfoldable pub construct_chars :
    (new_array : ℕ → Option ℕ) (this : ℕ) (value : Option (List ℕ)) → Store → Outcome ℕ × Store
unfolding construct_view
construct_chars new_array this none s = (returned this, s)
construct_chars new_array this (some value) s = construct_view new_array this (c_string value) s

unfoldable pub copy_construct : (this other : ℕ) → Store → Store
unfolding attach
copy_construct this other s = attach this (block_of s other) s

unfoldable pub move_construct : (this other : ℕ) → Store → Store
unfolding move_from
move_construct this other s = move_from this other s

unfoldable pub reset : (debug : Bool) (this : ℕ) → Store → Store
unfolding detach
reset debug this s = detach debug this s

-- ~String
abbrev pub destroy : (debug : Bool) (this : ℕ) → Store → Store
destroy = detach

-- The function `swap`.
abbrev pub swap_objects : (lhs rhs : ℕ) → Store → Store
swap_objects lhs rhs s = swap lhs rhs s

unfoldable pub swap_in :
    (debug : Bool) (this replacement : ℕ) → Outcome ℕ × Store → Outcome ℕ × Store
unfolding swap detach
swap_in debug this replacement (thrown e, s) = (thrown e, s)
swap_in debug this replacement (returned made, s) =
    (returned this, detach debug replacement (swap this replacement s))

-- operator=(std::string_view), with the address of the local
-- `replacement`, which is destroyed at the end.
unfoldable pub assign_view :
    (debug : Bool) (new_array : ℕ → Option ℕ) (this replacement : ℕ) (value : List ℕ)
    → Store
    → Outcome ℕ × Store
unfolding construct_view swap_in
assign_view debug new_array this replacement value s =
    swap_in debug this replacement (construct_view new_array replacement value s)

-- operator=(const std::string&), which goes by a view of the text.
abbrev pub assign_string :
    (debug : Bool) (new_array : ℕ → Option ℕ) (this replacement : ℕ) (value : List ℕ)
    → Store
    → Outcome ℕ × Store
assign_string = assign_view

-- operator=(const char*)
unfoldable pub assign_chars :
    (debug : Bool) (new_array : ℕ → Option ℕ) (this replacement : ℕ) (value : Option (List ℕ))
    → Store
    → Outcome ℕ × Store
unfolding construct_chars swap_in reset
assign_chars debug new_array this replacement none s = (returned this, reset debug this s)
assign_chars debug new_array this replacement (some value) s =
    swap_in debug this replacement (construct_chars new_array replacement (some value) s)

unfoldable pub assign_copy : (debug : Bool) (this other : ℕ) → Store → Store
unfolding attach detach
assign_copy debug this other s =
    if this == other || block_of s this == block_of s other
    then s
    else let new_block = block_of s other in attach this new_block (detach debug this s)

unfoldable pub assign_move : (debug : Bool) (this other : ℕ) → Store → Store
unfolding detach move_from
assign_move debug this other s =
    if this == other then s else move_from this other (detach debug this s)

abbrev pub has_value : Store → ℕ → Bool
has_value s x = not (block_of s x == 0)

abbrev pub unique : Store → ℕ → Bool
unique s x = not (block_of s x == 0) && unique_bit (s.tagged x)

-- The bytes from the address behind the block on.
abbrev pub block_data : Store → ℕ → List ℕ
block_data s block = s.chars block

-- The bytes that c_str points to, up to the terminating 0.
abbrev pub c_str : Store → ℕ → List ℕ
c_str s x = if block_of s x == 0 then [] else c_string (block_data s (block_of s x))

abbrev pub size : Store → ℕ → ℕ
size s x = length (c_str s x)

abbrev pub empty : Store → ℕ → Bool
empty s x = elim (c_str s x) [ [] ↦ true | _ ∷ _ ↦ false ]

-- operator<< of the object at an address.
unfoldable pub print : Store → ℕ → List ℕ
print s x =
    bytes_of "String{unique="
    ++ ((if unique s x then bytes_of "1" else bytes_of "0")
        ++ (bytes_of ", value="
            ++ (if block_of s x == 0
                then bytes_of "<null>}"
                else bytes_of "\"" ++ (print_escaped (c_str s x) ++ bytes_of "\"}"))))

unfoldable pub set_debug_trace : (output : ℕ) → Store → ℕ × Store
set_debug_trace output s = (s.debug_trace_stream, record s { debug_trace_stream = output })
