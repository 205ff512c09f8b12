-- ===== src/Slice.antt =====
-- include/leveldb/slice.h: a view of bytes. The pointer and the size are the list of the bytes
-- that they refer to; a byte is a number below 256, as `memcmp` compares unsigned characters.
pub mod Order
pub mod Prefix
use simple_leveldb.Base.{
  ℕ, zero, suc, ◌≤◌, arith, Bool, ◌&&◌, not, ltb, leb, ◌==◌, if◌then◌else◌, [], ◌∷◌, Bytes, length,
  take, drop,
}

-- The sign of the `int` that a comparison returns.
pub data Sign : Type 0 where
  less same greater : Sign

abbrev pub is_same : Sign → Bool
is_same same = Bool.true
is_same _ = Bool.false

-- The standard `memcmp` on the first bytes of two buffers that are long enough.
unfoldable pub memcmp : Bytes → Bytes → ℕ → Sign
memcmp (x ∷ a) (y ∷ b) (suc n) = if ltb x y then less else if ltb y x then greater else memcmp a b n
memcmp _ _ _ = same

abbrev pub empty : Bytes → Bool
empty s = length s == 0

-- Requires `n <= size()`.
abbrev pub remove_prefix : ℕ → Bytes → Bytes
remove_prefix n s = drop n s

unfoldable pub starts_with : Bytes → Bytes → Bool
unfolding memcmp
starts_with s x = leb (length x) (length s) && is_same (memcmp s x (length x))

-- `operator==` and `operator!=`
unfoldable pub equal : Bytes → Bytes → Bool
unfolding memcmp
equal x y = length x == length y && is_same (memcmp x y (length x))

unfoldable pub not_equal : Bytes → Bytes → Bool
unfolding equal
not_equal x y = not (equal x y)

-- The second test, made where the common bytes are equal.
by_size : ℕ → ℕ → Sign → Sign
by_size m n same = if ltb m n then less else if ltb n m then greater else same
by_size m n r = r

unfoldable pub compare : Bytes → Bytes → Sign
unfolding memcmp by_size
compare a b =
    let min_len = if ltb (length a) (length b) then length a else length b in
    by_size (length a) (length b) (memcmp a b min_len)
