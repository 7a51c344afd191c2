-- ===== src/String.antt =====
-- include/doost/string.hpp, src/string.cpp: the class String. Strings that share a block of
-- characters stand in a list through `previous_` and `next_`, and the lowest bit of the block's address
-- says that there is one owner. Address 0 is nullptr.
pub mod Text
pub mod Attach
pub mod Detach
pub mod Moves
pub mod Operations
pub mod Values
pub mod MovedValues
pub mod Assign
pub mod Compare
pub mod Ring
pub mod Programs
pub mod Texts
pub mod Performed
pub mod Independent
use doost.Base.{
  bytes_of, ℕ, suc, ◌+◌, ◌-◌, ◌%◌, Bool, true, false, if◌then◌else◌, ◌==◌, not, List, [], ◌∷◌, ◌++◌,
  ◌&&◌,
}
use doost.String.Text.{print_escaped, c_string}

-- TaggedBlockPointer: tagged_address & ~1 and tagged_address & 1.
abbrev pub pointer : ℕ → ℕ
pointer tagged_address = tagged_address - tagged_address % 2

abbrev pub unique_bit : ℕ → Bool
unique_bit tagged_address = not (tagged_address % 2 == 0)

-- tagged_address | 1, or tagged_address & ~1.
abbrev pub with_unique : Bool → ℕ → ℕ
with_unique unique_block tagged_address =
    if unique_block then pointer tagged_address + 1 else pointer tagged_address

abbrev pub update {ℓ} : {A : Type ℓ} → (ℕ → A) → ℕ → A → ℕ → A
update f x v y = if y == x then v else f y

-- The members of the String objects and of the Blocks, by the object's address; `chars` are the bytes
-- after the block, `live` are the blocks that are not deleted. `written` is what each stream has
-- received; stream 0 is none.
pub record Store : Type 0 where
  pub tagged : ℕ → ℕ
  pub previous : ℕ → ℕ
  pub next : ℕ → ℕ
  pub first : ℕ → ℕ
  pub chars : ℕ → List ℕ
  pub live : ℕ → Bool
  pub debug_trace_stream : ℕ
  pub written : ℕ → List ℕ

abbrev pub set_tagged : ℕ → ℕ → Store → Store
set_tagged x v s = record s { tagged = update s.tagged x v }

abbrev pub set_unique : ℕ → Bool → Store → Store
set_unique x u s = set_tagged x (with_unique u (s.tagged x)) s

abbrev pub set_previous : ℕ → ℕ → Store → Store
set_previous x v s = record s { previous = update s.previous x v }

abbrev pub set_next : ℕ → ℕ → Store → Store
set_next x v s = record s { next = update s.next x v }

abbrev pub set_first : ℕ → ℕ → Store → Store
set_first b v s = record s { first = update s.first b v }

-- The block of the object at an address.
abbrev pub block_of : Store → ℕ → ℕ
block_of s x = pointer (s.tagged x)

abbrev pub put_before : (this old_first : ℕ) → Store → Store
put_before this old_first s =
    if old_first == 0 then s else set_unique old_first false (set_previous old_first this s)

unfoldable pub attach : (this block : ℕ) → Store → Store
attach this block s =
    let cleared =
      set_next this 0 (set_previous this 0 (set_tagged this (with_unique false block) s)) in
    if block == 0
    then cleared
    else let old_first = cleared.first block in
      let linked = put_before this old_first (set_next this old_first cleared) in
      set_unique this (old_first == 0) (set_first block this linked)

-- Everything up to the end of the destruction of the block.
abbrev pub unlink : (this block : ℕ) → Store → Store
unlink this block s =
    let previous = s.previous this in
    let next = s.next this in
    let s₁ = if previous == 0 then set_first block next s else set_next previous next s in
    let s₂ = if next == 0 then s₁ else set_previous next previous s₁ in
    set_next this 0 (set_previous this 0 (set_tagged this 0 s₂))

-- The debug build traces the release where a stream is set.
abbrev pub trace_release : (debug : Bool) (block : ℕ) → Store → Store
trace_release debug block s =
    let stream = s.debug_trace_stream in
    let line =
      bytes_of "String release: \""
      ++ (print_escaped (c_string (s.chars block)) ++ bytes_of "\"\n") in
    if debug && not (stream == 0)
    then record s { written = update s.written stream (s.written stream ++ line) }
    else s

abbrev pub delete_block : ℕ → Store → Store
delete_block block s = record s { live = update s.live block false }

abbrev pub mark_single : (block : ℕ) → Store → Store
mark_single block s =
    let first = s.first block in if s.next first == 0 then set_unique first true s else s

unfoldable pub detach : (debug : Bool) (this : ℕ) → Store → Store
detach debug this s =
    let block = block_of s this in
    if block == 0
    then s
    else let unlinked = unlink this block s in
      if unlinked.first block == 0
      then delete_block block (trace_release debug block unlinked)
      else mark_single block unlinked

unfoldable pub replace_owner : (block previous next replacement : ℕ) → Store → Store
replace_owner block previous next replacement s =
    if block == 0
    then s
    else let s₁ =
        if previous == 0 then set_first block replacement s else set_next previous replacement s in
      if next == 0 then s₁ else set_previous next replacement s₁

unfoldable pub move_from : (this other : ℕ) → Store → Store
unfolding replace_owner
move_from this other s =
    let moved = set_tagged other 0 (set_tagged this (s.tagged other) s) in
    let moved = set_previous other 0 (set_previous this (moved.previous other) moved) in
    let moved = set_next other 0 (set_next this (moved.next other) moved) in
    replace_owner (block_of moved this) (moved.previous this) (moved.next this) this moved

unfoldable pub swap : (this other : ℕ) → Store → Store
unfolding replace_owner
swap this other s =
    if this == other
    then s
    else if block_of s this == block_of s other
    then s
    else let s₁ = replace_owner (block_of s this) (s.previous this) (s.next this) other s in
      let s₂ = replace_owner (block_of s other) (s.previous other) (s.next other) this s₁ in
      let s₃ =
        set_next this (s.next other)
          (set_previous this (s.previous other) (set_tagged this (s.tagged other) s₂)) in
      set_next other (s.next this)
        (set_previous other (s.previous this) (set_tagged other (s.tagged this) s₃))
