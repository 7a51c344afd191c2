-- ===== src/DownwardPool/Moves.antt =====
-- Moves between pool objects, and who owns a mapping.
use doost.Base.{ℕ, ◌≡◌, ◌≢◌, refl, inl, inr, false, Bool-cases, arith, ◌==◌}
use doost.Posix.{Posix, null}
use doost.Storage.{Process}
use doost.DownwardPool.{empty_pool, Pools, move_construct, release, move_assign}

-- No two pool objects hold one mapping.
abbrev pub Exclusive : Pools → Type 0
Exclusive pools =
    (i j : ℕ)
    → (pools i).storage.mapping_begin ≡ (pools j).storage.mapping_begin
    → (pools i).storage.mapping_begin ≢ null
    → i ≡ j

-- After a move `this` holds what `other` held, `other` is empty and no other object changes.
abbrev pub Moved : (this other : ℕ) → Pools → Pools → Type 0
Moved this other before after =
    (after this ≡ before other)
    × (after other ≡ empty_pool)
    × ((k : ℕ) → k ≢ this → k ≢ other → after k ≡ before k)

Moved-Exclusive :
    (this other : ℕ) (before after : Pools)
    → Moved this other before after
    → Exclusive before
    → Exclusive after
Moved-Exclusive this other before after m ex i j e ne =
    ground (arith, m.0, m.1, m.2 i, m.2 j, ex i j, ex other j, ex i other, ex other other)

move_construct-Moved :
    (this other : ℕ) (pools : Pools)
    → this ≢ other
    → Moved this other pools (move_construct this other pools)
unfolding move_construct
move_construct-Moved this other pools ne = (ground arith, ground arith, λ k a b. ground arith)

module _ (os : Posix) where
  -- Move assignment between two pools gives the target's own mapping back, moves the other pool's
  -- state over and leaves the other pool empty.
  pub move_assign-Moved :
      (this other : ℕ) (pools : Pools) (p : Process os)
      → this ≢ other
      → let (after, q) = move_assign os this other (pools, p) in
        Moved this other pools after × (q ≡ (release os (pools this) p).1)
  unfolding move_assign
  move_assign-Moved this other pools p ne =
      let differ : (this == other) ≡ false = ground arith in
      rw differ ((ground arith, ground arith, λ k a b. ground arith), refl)

  -- Where no two pool objects own one mapping, none do after a move assignment, to itself included.
  pub move_assign-Exclusive :
      (this other : ℕ) (pools : Pools) (p : Process os)
      → Exclusive pools
      → Exclusive (move_assign os this other (pools, p)).0
  unfolding move_assign
  move_assign-Exclusive this other pools p ex = elim (Bool-cases (this == other)) [
    | inl same ↦ rw same ex
    | inr differ ↦
        Moved-Exclusive this other pools _ (move_assign-Moved this other pools p (ground arith)).0
          ex
  ]
