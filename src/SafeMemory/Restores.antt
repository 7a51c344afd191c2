-- ===== src/SafeMemory/Restores.antt =====
-- safe_read_uint8 answers the byte or nothing, and leaves no trace.
use doost.Base.{ℕ, ◌≡◌, arith, if◌then◌else◌, ◌||◌, Option, none, some}
use doost.SafeMemory.{
  install_segv, install_bus, undo_segv, restore_bus, restore_segv, Environment, Process, goes_on,
  fails, safe_read_uint8,
}

-- Putting an action back does not fail.
pub record RestoresWork (env : Environment) : Type 0 where
  pub undo : env.failure undo_segv ≡ none
  pub bus : env.failure restore_bus ≡ none
  pub segv : env.failure restore_segv ≡ none

-- What the caller is told: the byte where both handlers went in and the address can be read.
abbrev pub readable_byte : Environment → ℕ → Option ℕ
readable_byte env address = elim (env.fault address) [
  | none ↦ some (env.byte address)
  | some _ ↦ none
]

abbrev pub answer : Environment → ℕ → Option ℕ
answer env address =
    if fails (env.failure install_segv) || fails (env.failure install_bus)
    then none
    else readable_byte env address

-- On every path, a fault and a failing sigaction included, the call comes back with the byte or
-- nothing, and both signal actions and errno are what they were before; if no read was under way,
-- none is afterwards.
pub safe_read_uint8-answer :
    (env : Environment) (address : ℕ) (p : Process)
    → RestoresWork env
    → p.read_active ≡ 0
    → safe_read_uint8 env address p ≡ goes_on (answer env address) p
unfolding safe_read_uint8
safe_read_uint8-answer env address p works quiet = ground (arith, works.undo, works.bus, works.segv)
