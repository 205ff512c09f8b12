-- ===== src/Cache/Table.antt =====
-- leveldb/cache.cc: `handle_table`. A bucket is the list of the handles that its chain of
-- `next_hash` links, and `length_` is the number of the buckets.
pub mod Chains
pub mod Slots
pub mod Rehash
pub mod Count
pub mod Resize
pub mod Laws
pub mod Refines
use simple_leveldb.Base.{
  ℕ, zero, suc, ◌+◌, ◌-◌, ◌*◌, ◌%◌, ◌^◌, bit_and, Option, none, some, List, [], ◌∷◌, Bytes, length,
  get_or, set, replicate, ltb, ◌==◌, if◌then◌else◌, ◌>>=◌, u32,
}
use simple_leveldb.Cache.{Handle, differs}

pub record Table : Type 0 where
  pub elems : ℕ
  pub list : List (List Handle)

-- What `*find_pointer( key, hash )` is in a chain. The assertion of `key()` asks that a handle is not
-- the head of an empty list; a `Handle` is never a list's head.
unfoldable pub find_in : Bytes → ℕ → List Handle → Option Handle
find_in key hash [] = none
find_in key hash (h ∷ rest) = if differs key hash h then find_in key hash rest else some h

-- `*ptr = h` behind `find_pointer`, with the link of the old entry kept.
unfoldable pub replace_in : Bytes → ℕ → Handle → List Handle → List Handle
replace_in key hash new [] = new ∷ []
replace_in key hash new (h ∷ rest) =
    if differs key hash h then h ∷ replace_in key hash new rest else new ∷ rest

-- `*ptr = result->next_hash`
unfoldable pub remove_in : Bytes → ℕ → List Handle → List Handle
remove_in key hash [] = []
remove_in key hash (h ∷ rest) = if differs key hash h then h ∷ remove_in key hash rest else rest

-- `hash & ( length_ - 1 )`
abbrev pub index : List (List Handle) → ℕ → ℕ
index list hash = bit_and hash (length list - 1)

abbrev pub chain : List (List Handle) → ℕ → List Handle
chain list hash = get_or list (index list hash) []

unfoldable pub look_up : Bytes → ℕ → Table → Option Handle
unfolding find_in
look_up key hash t = find_in key hash (chain t.list hash)

-- The doubling of the new length; `none` means that the fuel ran out.
unfoldable pub grow : ℕ → ℕ → ℕ → Option ℕ
grow zero new_length elems = none
grow (suc f) new_length elems =
    let rest = grow f (u32 (new_length * 2)) elems in
    if ltb new_length elems then rest else some new_length

-- The handles of a chain move to the front of their new chains.
unfoldable pub rehash_chain : List Handle → List (List Handle) → List (List Handle)
rehash_chain [] new_list = new_list
rehash_chain (h ∷ rest) new_list =
    rehash_chain rest (set new_list (index new_list h.hash) (h ∷ chain new_list h.hash))

unfoldable pub rehash : List (List Handle) → List (List Handle) → List (List Handle)
rehash [] new_list = new_list
rehash (c ∷ list) new_list = rehash list (rehash_chain c new_list)

-- `count`, which the same loops count up.
unfoldable pub count_chain : List Handle → ℕ → ℕ
count_chain [] count = count
count_chain (h ∷ rest) count = count_chain rest (u32 (count + 1))

unfoldable pub count_handles : List (List Handle) → ℕ → ℕ
unfolding count_chain
count_handles [] count = count
count_handles (c ∷ list) count = count_handles list (count_chain c count)

-- The 30 doublings reach `2 ^ 31`. `none` also means that `assert( elems_ == count )` failed.
unfoldable pub resize : Table → Option Table
unfolding grow rehash count_handles
resize t = do
  new_length ← grow 30 4 t.elems
  let moved = record t { list = rehash t.list (replicate new_length []) }
  (if t.elems == count_handles t.list 0 then some moved else none)

-- The constructor.
unfoldable pub new_table : Option Table
unfolding resize
new_table = resize (record { elems = 0; list = [] })

-- `if ( elems_ > length_ )`
unfoldable pub resize_full : Table → Option Table
unfolding resize
resize_full t = if ltb (length t.list) t.elems then resize t else some t

-- The old entry, or nothing, and the table.
unfoldable pub insert : Handle → Table → Option (Table × Option Handle)
unfolding look_up replace_in resize_full
insert h t =
    let slots = replace_in h.key h.hash h (chain t.list h.hash) in
    let list' = set t.list (index t.list h.hash) slots in
    elim (look_up h.key h.hash t) [
      | none ↦ do
        t' ← resize_full (record { elems = u32 (t.elems + 1); list = list' })
        some (t', none)
      | some old ↦ some (record t { list = list' }, some old)
    ]

unfoldable pub remove : Bytes → ℕ → Table → Table × Option Handle
unfolding look_up remove_in
remove key hash t = elim (look_up key hash t) [
  | none ↦ (t, none)
  | some result ↦ (
    record {
      elems = u32 (t.elems + 2 ^ 32 - 1);
      list = set t.list (index t.list hash) (remove_in key hash (chain t.list hash));
    },
    some result,
  )
]
