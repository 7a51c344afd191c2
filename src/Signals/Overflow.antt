-- ===== src/Signals/Overflow.antt =====
-- A pool whose blocks run into its guard pages, from its construction to the report: the classes
-- DownwardPool and its storage, the registry, and pool_signal_handler.
use doost.Base.{
  ℕ, zero, suc, ◌∷◌, get_elem?, ◌≤◌, ◌≡◌, inl, inr, refl, sym, ap, ◌∙◌, subst, length, arith, true,
  false, [], some, ℤ, pos, negsuc, ◌==◌, Bool-cases,
}
use doost.Posix.{Posix, PosixLaws, in_range}
use doost.Registry.{
  Entry, entry, Registry, max_registered_pools, register_pool_guard, find_pool_index,
  entry_contains,
}
use doost.Registry.Lookup.{guarded, has_free, guarded-register, Finds, find_pool_index-Finds}
use doost.Storage.{Storage, Process}
use doost.Storage.Make.{LaidOut}
use doost.DownwardPool.{DownwardPool}
use doost.DownwardPool.Room.{floor}
use doost.Signals.{Handling, report, pool_signal_handler}
use doost.Signals.Report.{guarded-entry, Reports, report-Reports, index_small}

-- An entry that contains an address which was not guarded before is the new one.
new_entry :
    (b e : ℕ) (r : Registry) (d : ℕ) (x : Entry) (a : ℕ)
    → guarded r a ≡ false
    → get_elem? (register_pool_guard b e r) d ≡ some x
    → entry_contains x a ≡ true
    → x ≡ entry b e
unfolding guarded register_pool_guard
new_entry b e [] d x a out at hit = ground arith
new_entry b e (y ∷ ys) zero x a out at hit = ground (arith, out, hit, at)
new_entry b e (y ∷ ys) (suc d) x a out at hit = elim (Bool-cases (y.guard_begin == 0)) [
  | inl empty ↦ absurd (ground (arith, empty, out, at, hit, guarded-entry ys d x a))
  | inr used ↦ new_entry b e ys d x a (ground (arith, out)) (ground (arith, used, at)) hit
]

-- A fault is reported with the index of the entry from `b` to `e`, and ends the process.
abbrev pub Reported : (n : ℕ) (h : Handling) (b e a : ℕ) → Registry → Type 0
Reported n h b e a r =
    (k : ℕ) × (get_elem? r k ≡ some (entry b e)) × Reports n k (pool_signal_handler n (some a) r h)

length-register : (b e : ℕ) (r : Registry) → length (register_pool_guard b e r) ≡ length r
unfolding register_pool_guard
length-register b e [] = refl
length-register b e (y ∷ ys) = ground (arith, length-register b e ys)

-- So it is where the range was registered with a free entry, and no other entry contains the address.
module _ (n : ℕ) (h : Handling) (b e a : ℕ) (r : Registry) (free : has_free r ≡ true)
    (short : length r ≤ max_registered_pools) (out : guarded r a ≡ false)
    (inside : entry_contains (entry b e) a ≡ true) where
  abbrev registered : Registry
  registered = register_pool_guard b e r

  found-Reported :
      (z : ℤ)
      → find_pool_index registered a ≡ z
      → Finds 0 registered a z
      → Reported n h b e a registered
  unfolding pool_signal_handler
  found-Reported (pos k) at (d, x, here, found, hit, _) =
      let same : k ≡ d = omega (arith, here) in
      (
        d,
        subst (λ y. get_elem? registered d ≡ some y) (new_entry b e r d x a out found hit) found,
        subst (λ z. Reports n d (report n h z)) (sym (at ∙ ap pos same))
            (report-Reports n h d
              (index_small registered d x (omega (arith, short, length-register b e r)) found)),
      )
  found-Reported (negsuc m) at (_, none_contains) =
      absurd (ground (arith, none_contains, guarded-register b e r a, free, inside))

  registered-Reported : Reported n h b e a registered
  registered-Reported = found-Reported _ refl (find_pool_index-Finds registered a)

module _ (os : Posix) (laws : PosixLaws os) where
  open os use {accessible}
  open laws use {page, page_power}

  -- A fault at an address in the guard pages of a new storage, whose range got an entry.
  pub guard_page-Reported :
      {usable max_alloc : ℕ} {p q : Process os} {st : Storage} (n : ℕ) (h : Handling) (a : ℕ)
      (l : LaidOut os laws usable max_alloc p st q)
      → has_free p.registry ≡ true
      → length p.registry ≤ max_registered_pools
      → guarded p.registry a ≡ false
      → in_range st.mapping_begin l.guard a ≡ true
      → (accessible q.system a ≡ false)
        × Reported n h st.mapping_begin (floor l.guard st) a q.registry
  guard_page-Reported {p} {st} n h a l free short out inside = (
    l.access a ∙ rw inside refl,
    subst (Reported n h st.mapping_begin (floor l.guard st) a) (sym l.registers) (
        registered-Reported n h st.mapping_begin (floor l.guard st) a p.registry free short out
          (ground (arith, inside, l.begin_pos))),
  )
