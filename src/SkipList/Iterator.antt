-- ===== src/SkipList/Iterator.antt =====
-- leveldb/__detail/skip_list.h: the iterator, a pointer to a node or null.
pub mod Steps
pub mod Last
use simple_leveldb.Base.{ℕ, Bool, true, false, Option, none, some, ◌==◌, if◌then◌else◌, ◌>>=◌}
use simple_leveldb.Slice.{Sign}
use simple_leveldb.SkipList.{SkipList, head, find_greater_or_equal, find_less_than, find_last}

-- The constructor.
abbrev pub new_iterator : Option ℕ
new_iterator = none

abbrev pub valid : Option ℕ → Bool
valid none = false
valid (some n) = true

-- The head is no position.
abbrev pub not_head : ℕ → Option ℕ
not_head n = if n == head then none else some n

module _ {K : Type 0} where
  -- Requires `valid()`, as do `next` and `prev`.
  abbrev pub key : SkipList K → ℕ → K
  key s n = s.key n

  abbrev pub next : SkipList K → ℕ → Option ℕ
  next s n = s.next n 0

  unfoldable pub prev : (K → K → Sign) → ℕ → SkipList K → ℕ → Option (Option ℕ)
  prev compare f s n = find_less_than compare f (s.key n) s >>= (λ m. some (not_head m))

  unfoldable pub seek : (K → K → Sign) → ℕ → K → SkipList K → Option (Option ℕ)
  seek compare f target s = find_greater_or_equal compare f target (λ i. head) s >>= (λ r. some r.0)

  unfoldable pub seek_to_last : ℕ → SkipList K → Option (Option ℕ)
  seek_to_last f s = find_last f s >>= (λ m. some (not_head m))
