-- ===== src/NodeList/Required.antt =====
-- The storage that a number of nodes needs.
use native.Mathlib.Nat.{div-lt_iff_lt-mul, mod-eq_of_lt}
use doost.Base.{
  ℕ, ◌*◌, ◌-◌, ◌/◌, ◌<◌, ◌≡◌, if◌then◌else◌, ltb, arith, inl, inr, Bool-cases, returned, thrown,
  length_error,
}
use doost.Word.{word_mod}
use doost.NodeList.{required_storage}

-- The bytes of the nodes, or length_error where they would overflow std::size_t.
pub required_storage_fits :
    (node_size node_count : ℕ)
    → 0 < node_size
    → required_storage node_size node_count ≡ (
        if ltb (node_count * node_size) word_mod
        then returned (node_count * node_size)
        else thrown length_error)
unfolding required_storage
required_storage_fits node_size node_count size_pos =
    elim (Bool-cases (ltb ((word_mod - 1) / node_size) node_count)) [
      | inl over ↦
          let past =
            (div-lt_iff_lt-mul {k = node_size} {x = word_mod - 1} {y = node_count} size_pos).0
              (ground (arith, over)) in
          rw over (ground (arith, past))
      | inr fits ↦
          let below : node_count * node_size < word_mod = ground (
            arith,
            fits,
            (div-lt_iff_lt-mul {k = node_size} {x = word_mod - 1} {y = node_count} size_pos).1,
          ) in
          rw (fits, mod-eq_of_lt below) (ground (arith, below))
    ]
