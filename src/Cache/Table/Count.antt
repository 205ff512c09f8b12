-- ===== src/Cache/Table/Count.antt =====
-- leveldb/cache.cc: the count that `handle_table::resize` asserts.
use simple_leveldb.Base.{
  ℕ, ◌+◌, ◌^◌, ◌≤◌, ◌<◌, ◌≡◌, ◌∙◌, arith, List, [], ◌∷◌, length, ◌==◌, true, u32,
}
use simple_leveldb.Cache.{Handle}
use simple_leveldb.Cache.Table.{Table, count_chain, count_handles}
use simple_leveldb.Cache.Table.Slots.{size, IsFilled}

count_chain_lem : (c : List Handle) (n : ℕ) → n + length c < 2 ^ 32 → count_chain c n ≡ n + length c
unfolding count_chain
count_chain_lem [] n h = omega arith
count_chain_lem (e ∷ c) n h =
    let one : u32 (n + 1) ≡ n + 1 = omega arith in
    rw one (count_chain_lem c (n + 1) (omega arith) ∙ omega arith)

count_handles_lem :
    (list : List (List Handle)) (n : ℕ)
    → n + size list < 2 ^ 32
    → count_handles list n ≡ n + size list
unfolding count_handles
count_handles_lem [] n h = omega arith
count_handles_lem (c ∷ list) n h =
    rw (count_chain_lem c n (omega arith))
      (count_handles_lem list (n + length c) (omega arith) ∙ omega arith)

-- The assertion of `resize` holds.
pub counted_handles :
    (t : Table) → IsFilled t → t.elems ≤ 2 ^ 31 → (t.elems == count_handles t.list 0) ≡ true
counted_handles t v b =
    let e = count_handles_lem t.list 0 (omega (arith, v.counted)) in ground (arith, v.counted)
