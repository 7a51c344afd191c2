-- ===== src/Signals/Report.antt =====
-- What the handler does with a fault, and what its installation leaves.
use doost.Base.{
  bytes_of, ℕ, zero, suc, List, ◌∷◌, ◌++◌, ◌+◌, ◌≤◌, ◌<◌, ◌==◌, ◌⊎◌, inl, inr, if◌then◌else◌,
  length, get_elem?, get_elem?-length, ◌≡◌, ◌≢◌, refl, ap, ◌∙◌, arith, Bool, true, false, [], some,
  pos, Bool-cases,
}
use mathlib.Core.Option
use doost.Word.{word_mod}
use doost.Registry.{Entry, Registry, max_registered_pools, entry_contains}
use doost.Registry.Lookup.{guarded}
use doost.Signals.{
  Disposition, sig_dfl, sig_ign, pool_handler, Ending, killed, exited, handled, Handling, sigsegv,
  sigbus, signal_name, write_all, write_size, report, install_pool_overflow_signal_handler,
}
use doost.Signals.Digits.{parse_digits, write_size-parse}

-- An entry that contains the address is one of those that guard it.
pub guarded-entry :
    (r : Registry) (d : ℕ) (x : Entry) (a : ℕ)
    → get_elem? r d ≡ some x
    → entry_contains x a ≡ true
    → guarded r a ≡ true
unfolding guarded
guarded-entry [] d x a e hit = ground arith
guarded-entry (y ∷ ys) zero x a e hit = rw (ap (λ o. Option.get_or o y) e, hit) refl
guarded-entry (y ∷ ys) (suc d) x a e hit = ground (arith, guarded-entry ys d x a e hit)

-- An entry in use whose range, from its begin up to its end, holds the address.
abbrev pub Guards : Registry → ℕ → ℕ → Type 0
Guards r a k =
    (x : Entry) × (get_elem? r k ≡ some x)
    × (x.guard_begin ≢ 0)
    × (x.guard_begin ≤ a)
    × (a < x.guard_end)

-- What is written for a pool: the signal, and a number that reads as that of the pool.
abbrev pub Names : (signal_number index : ℕ) → List ℕ → Type 0
Names n index text =
    (digits : List ℕ) × (parse_digits 0 digits ≡ index)
    × (text
        ≡ bytes_of "doost: "
          ++ (signal_name n
              ++ (bytes_of " while accessing protected pool #" ++ (digits ++ bytes_of "\n"))))

-- The report names the pool, and the signal's default action ends the process.
abbrev pub Reports : (signal_number index : ℕ) → List ℕ × Ending → Type 0
Reports n index (text, ending) = Names n index text × (ending ≡ killed n)

signal_name_text : (n : ℕ) → write_all (some (signal_name n)) ≡ signal_name n
unfolding write_all signal_name
signal_name_text n = elim (Bool-cases (n == sigsegv)) [
  | inl segv ↦ rw segv refl
  | inr other ↦ elim (Bool-cases (n == sigbus)) [
    | inl bus ↦ rw (other, bus) refl
    | inr neither ↦ rw (other, neither) refl
  ]
]

pub report-Reports :
    (n : ℕ) (h : Handling) (k : ℕ) → k < word_mod → Reports n k (report n h (pos k))
unfolding report write_all
report-Reports n h k small =
    let (digits, written, reads) = write_size-parse k small in
    (
      (
        digits,
        reads,
        ap
              (λ name.
                bytes_of "doost: "
                ++ (name
                    ++ (bytes_of " while accessing protected pool #"
                        ++ (Option.get_or (write_size k) [] ++ bytes_of "\n"))))
              (signal_name_text n)
            ∙ ap
                (λ o.
                  bytes_of "doost: "
                  ++ (signal_name n
                      ++ (bytes_of " while accessing protected pool #"
                          ++ (Option.get_or o [] ++ bytes_of "\n"))))
                written,
      ),
      refl,
    )

-- The numbers of the registry's entries are values of std::size_t.
pub index_small :
    (r : Registry) (k : ℕ) (x : Entry)
    → length r ≤ max_registered_pools
    → get_elem? r k ≡ some x
    → k < word_mod
index_small r k x short at = omega (arith, short, get_elem?-length r k x at)

-- How a process goes on that is left to an action: the default action and a return from a handler end
-- it, and an ignored fault does.
abbrev pub left_to : (signal_number : ℕ) → Disposition → Ending
left_to n sig_dfl = killed n
left_to n sig_ign = exited (128 + n)
left_to n d = handled d (128 + n)

-- The action of a signal of the two.
abbrev pub action_of : (signal_number : ℕ) → Handling → Disposition
action_of n h = if n == sigsegv then h.sigsegv_action else h.sigbus_action

-- A fault where no entry guards the address is left to the action, and one where an entry does is
-- reported with the first such entry.
abbrev pub Handles : (n a : ℕ) → Registry → Disposition → List ℕ × Ending → Type 0
Handles n a r action answer =
    (((k : ℕ) → ¬ Guards r a k) × (answer ≡ ([], left_to n action)))
    ⊎ ((k : ℕ) × Guards r a k × ((j : ℕ) → j < k → ¬ Guards r a j) × Reports n k answer)

-- Where the handler counts as installed, it is in place for both signals and is not among the saved
-- actions; where it does not, it is in place for neither.
abbrev pub Consistent : Handling → Type 0
Consistent h =
    (h.installed ≡ true
      → (h.sigsegv_action ≡ pool_handler)
        × (h.sigbus_action ≡ pool_handler)
        × (h.previous_sigsegv ≢ pool_handler)
        × (h.previous_sigbus ≢ pool_handler))
    × (h.installed ≡ false → (h.sigsegv_action ≢ pool_handler) × (h.sigbus_action ≢ pool_handler))

-- An installation keeps the handling consistent, whichever call of sigaction fails; where it
-- fails, both actions are those of before; once it succeeded, another one changes nothing.
pub install-Consistent :
    (segv_fails bus_fails : Bool) (h : Handling)
    → Consistent h
    → let g = install_pool_overflow_signal_handler segv_fails bus_fails h in
      Consistent g
      × (g.installed ≡ false
          → (g.sigsegv_action ≡ h.sigsegv_action) × (g.sigbus_action ≡ h.sigbus_action))
      × ((a b : Bool) → g.installed ≡ true → install_pool_overflow_signal_handler a b g ≡ g)
unfolding install_pool_overflow_signal_handler
install-Consistent segv_fails bus_fails h c = ground (arith, c)
