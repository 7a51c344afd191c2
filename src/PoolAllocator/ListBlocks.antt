-- ===== src/PoolAllocator/ListBlocks.antt =====
-- Where the nodes of a List lie in a pool.
use native.Mathlib.Nat.{add-mod, suc-mul, zero-mod, mod-eq_of_lt}
use doost.Base.{
  ℕ, suc, ◌+◌, ◌*◌, ◌%◌, ◌≤◌, ◌<◌, ◌≡◌, ◌≢◌, refl, sym, ap, ◌∙◌, subst, false, ◌==◌, arith, List,
  [], ◌∷◌, length, none, some, returned, dec_lt,
}
use doost.Word.{word_mod, add_word, mul_word, IsPowerOfTwo, multiple_gap}
use doost.Posix.{null}
use doost.NodeList.{emplace_front, create_node, put_node}
use doost.NodeList.Cells.{Chain, Holds, free-has, Chain-put_node}
use doost.NodeList.Filling.{values}
use doost.DownwardPool.{DownwardPool, pool, allocate}
use doost.DownwardPool.Room.{floor, ceiling, align_cursor-RoundsDown}
use doost.DownwardPool.Allocate.{IsPool}
use doost.PoolAllocator.{DownwardPoolAllocator, downward_allocate, allocated}
use doost.PoolAllocator.PoolList.{PoolList, pool_emplace_front, pool_emplace_all}

-- The cells lie one behind the other from the address.
abbrev pub Packed {ℓ} : {A : Type ℓ} → (size p : ℕ) → List (ℕ × A) → Type 0
Packed size p [] = Unit
Packed size p (c ∷ cs) = (c.0 ≡ p) × Packed size (p + size) cs

-- The elements put in front of a list one after the other.
abbrev pub pushed {ℓ} : {A : Type ℓ} → List A → List A → List A
pushed [] vs = vs
pushed (x ∷ xs) vs = pushed xs (x ∷ vs)

pub sum_multiple : (m a b : ℕ) → a % m ≡ 0 → b % m ≡ 0 → (a + b) % m ≡ 0
sum_multiple m a b ha hb = add-mod a b m ∙ rw (ha, hb) (zero-mod m)

-- Rounding down wastes nothing where everything is a multiple.
no_waste :
    (m c size block : ℕ)
    → c % m ≡ 0
    → size % m ≡ 0
    → block % m ≡ 0
    → block + size ≤ c
    → c < block + size + m
    → block + size ≡ c
no_waste m c size block hc hs hb le close = elim (dec_lt (block + size) c) [
  | yes lt ↦ absurd (
      omega (arith, close, multiple_gap m (block + size) c (sum_multiple m block size hb hs) hc lt))
  | no ge ↦ omega (arith, le, ge)
]

module _ {A : Type 0} (page guard size_of align_of : ℕ) (a : DownwardPoolAllocator) where
  -- The nodes of the list are those in the pool, packed from its cursor.
  pub record Stands (s : PoolList A) (cs : List (ℕ × A)) : Type 0 where
    pub is_pool : IsPool page guard (s.pools a.pool)
    pub holds : Holds s.heap s.nodes cs
    pub free : (b : ℕ) → b < (s.pools a.pool).cursor → s.heap b ≡ none
    pub packed : Packed size_of (s.pools a.pool).cursor cs
    pub aligned : (s.pools a.pool).cursor % align_of ≡ 0
    pub bounded : (s.pools a.pool).cursor + length cs ≤ ceiling (s.pools a.pool).storage
    pub ends : (s.pools a.pool).cursor + length cs * size_of ≤ ceiling (s.pools a.pool).storage

  module _ (power : IsPowerOfTwo align_of) (multiple : size_of % align_of ≡ 0)
      (positive : 0 < size_of) (not_null : a.pool ≢ null) where
    module _ (x : A) (s : PoolList A) (cs : List (ℕ × A)) (stands : Stands s cs)
        (room : floor guard (s.pools a.pool).storage + size_of ≤ (s.pools a.pool).cursor) where
      abbrev before : DownwardPool
      before = s.pools a.pool

      abbrev answer : ℕ × DownwardPool
      answer = allocate size_of align_of before

      abbrev after : PoolList A
      after = record {
        nodes = record { head = answer.0; size = add_word s.nodes.size 1 };
        heap = put_node answer.0 (some (record { next = s.nodes.head; value = x })) s.heap;
        pools = (allocated allocate a.pool s.pools answer).1;
      }

      block_below :
          (answer.0 + size_of ≡ before.cursor)
          × (answer.1 ≡ pool before.storage answer.0)
          × (answer.0 % align_of ≡ 0)
      unfolding allocate
      block_below =
          let down =
            align_cursor-RoundsDown before.cursor size_of power (omega (arith, room))
              (omega (arith, stands.is_pool.below, stands.is_pool.laid.in_space)) in
          (
            no_waste align_of before.cursor size_of answer.0 stands.aligned multiple down.multiple
                (omega (arith, down.le, room)) (omega (arith, down.close, room)),
            refl,
            down.multiple,
          )

      here : after.pools a.pool ≡ pool before.storage answer.0
      here = ground arith ∙ block_below.1

      emplaced_returned :
          pool_emplace_front size_of align_of a none x s ≡ some (returned after.nodes, after)
      unfolding pool_emplace_front downward_allocate emplace_front create_node
      emplaced_returned =
          let present : (a.pool == null) ≡ false = ground (arith, not_null) in
          let whole : mul_word 1 size_of ≡ size_of =
            ap (λ n. n % word_mod) (omega arith)
            ∙ mod-eq_of_lt
                (omega (arith, room, stands.is_pool.below, stands.is_pool.laid.in_space)) in
          rw (present, whole) refl

      block_free : s.heap answer.0 ≡ none
      block_free = stands.free answer.0 (omega (arith, block_below.0, positive))

      new_Chain : Chain after.heap answer.0 ((answer.0, x) ∷ cs)
      new_Chain =
          let out = free-has s.heap answer.0 s.nodes.head cs block_free stands.holds.0 in
          (
            s.nodes.head,
            refl,
            ground (arith, block_below.0, room, stands.is_pool.laid.begin_pos),
            ground arith,
            out,
            Chain-put_node s.heap answer.0 s.nodes.head _ cs out stands.holds.0,
          )

      emplaced-Stands : Stands after ((answer.0, x) ∷ cs)
      emplaced-Stands =
          let cursor : (after.pools a.pool).cursor ≡ answer.0 = ap (λ p. p.cursor) here in
          let storage : (after.pools a.pool).storage ≡ before.storage = ap (λ p. p.storage) here in
          let below = block_below.0 in
          record {
            is_pool = subst (IsPool page guard) (sym here) (record {
              laid = stands.is_pool.laid;
              above = omega (arith, below, room);
              below = omega (arith, below, stands.is_pool.below);
            });
            holds = (
              new_Chain,
              ground (
                arith, stands.holds.1, stands.bounded, stands.is_pool.laid.in_space, below,
                positive,
              ),
            );
            free = λ b lt.
                ground (arith, stands.free b (omega (arith, lt, cursor, below)), lt, cursor);
            packed = (
              sym cursor,
              subst (λ q. Packed size_of q cs) (sym (ap (λ q. q + size_of) cursor ∙ below))
                  stands.packed,
            );
            aligned = ap (λ c. c % align_of) cursor ∙ block_below.2;
            bounded =
                subst (λ st. (after.pools a.pool).cursor + suc (length cs) ≤ ceiling st)
                  (sym storage) (omega (arith, cursor, below, stands.bounded, positive));
            ends =
                subst (λ st. (after.pools a.pool).cursor + suc (length cs) * size_of ≤ ceiling st)
                  (sym storage)
                  (omega (arith, cursor, below, stands.ends, suc-mul (length cs) size_of));
          }

    pub emplace_all-Stands :
        (xs : List A) (s : PoolList A) (cs : List (ℕ × A))
        → Stands s cs
        → floor guard (s.pools a.pool).storage + length xs * size_of ≤ (s.pools a.pool).cursor
        → (t : PoolList A) × (ds : List (ℕ × A)) × (pool_emplace_all size_of align_of a xs s
            ≡ some t)
          × Stands t ds
          × (values ds ≡ pushed xs (values cs))
          × ((t.pools a.pool).storage ≡ (s.pools a.pool).storage)
    unfolding pool_emplace_all
    emplace_all-Stands [] s cs stands room = (s, cs, refl, stands, refl, refl)
    emplace_all-Stands (x ∷ xs) s cs stands room =
        let one : floor guard (s.pools a.pool).storage + length xs * size_of + size_of
            ≤ (s.pools a.pool).cursor =
          omega (arith, room, suc-mul (length xs) size_of) in
        let fits : floor guard (s.pools a.pool).storage + size_of ≤ (s.pools a.pool).cursor =
          omega (arith, one) in
        let (below, same, _) = block_below x s cs stands fits in
        let (t, ds, run, end, order, storage) =
          emplace_all-Stands xs (after x s cs stands fits) (((answer x s cs stands fits).0, x) ∷ cs)
            (emplaced-Stands x s cs stands fits)
            (subst (λ p. floor guard p.storage + length xs * size_of ≤ p.cursor)
              (sym (here x s cs stands fits)) (omega (arith, one, below))) in
        (
          t,
          ds,
          rw (emplaced_returned x s cs stands fits) run,
          end,
          order,
          storage ∙ ap (λ p. p.storage) (here x s cs stands fits),
        )
