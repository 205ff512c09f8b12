-- ===== src/DbFormat/Between.antt =====
-- The assertions of `find_shortest_separator` and `find_short_successor`.
use simple_leveldb.Base.{
  ◌-◌, ◌<◌, ◌≤◌, arith, Bool, true, false, ◌&&◌, ltb, Bool-cases, Bytes, length, ◌≡◌, refl, sym, ap,
  ◌∙◌, ◌⊎◌, inl, inr, subst, length-append, length-take,
}
use simple_leveldb.Coding.{encode_fixed64, put_fixed64}
use simple_leveldb.Slice.{Sign, less, same, greater}
use simple_leveldb.DbFormat.{
  value_type_for_seek, max_sequence_number, pack_sequence_and_type, extract_user_key, Comparator,
  is_less, compare, find_shortest_separator,
}
use simple_leveldb.DbFormat.Order.{
  internal_key, extract_user_key-internal_key, length-encode_fixed64,
}

is_less→less : (s : Sign) → is_less s ≡ true → s ≡ less
unfolding is_less
is_less→less less h = refl
is_less→less same h = absurd (ground (arith, h))
is_less→less greater h = absurd (ground (arith, h))

compare_less :
    (user : Comparator) (a b : Bytes)
    → user.compare (extract_user_key a) (extract_user_key b) ≡ less
    → compare user a b ≡ less
unfolding compare
compare_less user a b e = rw e refl

and→both : (x y : Bool) → (x && y) ≡ true → (x ≡ true) × (y ≡ true)
and→both true y h = (refl, h)
and→both false y h = absurd (ground (arith, h))

-- The tag that a shortened key gets.
abbrev seek_key : Bytes → Bytes
seek_key tmp = internal_key tmp (pack_sequence_and_type max_sequence_number value_type_for_seek)

shorter :
    (start tmp : Bytes)
    → 8 ≤ length start
    → length tmp < length (extract_user_key start)
    → length (seek_key tmp) < length start
unfolding extract_user_key
shorter start tmp h k = omega (
  arith,
  length-take (length start - 8) start,
  length-append tmp
      (encode_fixed64 (pack_sequence_and_type max_sequence_number value_type_for_seek)),
  length-encode_fixed64 (pack_sequence_and_type max_sequence_number value_type_for_seek),
)

-- If the user's separator is below the limit, as its documentation promises, then for a key that the
-- user orders before the limit `find_shortest_separator` leaves the key as it is, or puts a shorter one
-- in its place that comes after it and before the limit.
pub find_shortest_separator_between :
    (user : Comparator) (start limit : Bytes)
    → ((s l : Bytes)
        → user.compare s l ≡ less
        → user.compare (user.find_shortest_separator s l) l ≡ less)
    → 8 ≤ length start
    → user.compare (extract_user_key start) (extract_user_key limit) ≡ less
    → (find_shortest_separator user start limit ≡ start)
      ⊎ ((compare user start (find_shortest_separator user start limit) ≡ less)
          × (compare user (find_shortest_separator user start limit) limit ≡ less)
          × (length (find_shortest_separator user start limit) < length start))
find_shortest_separator_between user start limit contract long ordered = elim (Bool-cases test) [
  | inl e ↦ inr (subst Good (sym (taken e)) (found (and→both _ _ e)))
  | inr e ↦ inl (kept e)
]
  where
    user_start : Bytes
    user_start = extract_user_key start

    tmp : Bytes
    tmp = user.find_shortest_separator user_start (extract_user_key limit)

    test : Bool
    test = ltb (length tmp) (length user_start) && is_less (user.compare user_start tmp)

    Good : Bytes → Type 0
    Good r =
        (compare user start r ≡ less) × (compare user r limit ≡ less) × (length r < length start)

    taken : test ≡ true → find_shortest_separator user start limit ≡ seek_key tmp
    taken e = unfold find_shortest_separator in rw e (unfold put_fixed64 in refl)

    kept : test ≡ false → find_shortest_separator user start limit ≡ start
    kept e = unfold find_shortest_separator in rw e refl

    found :
        (ltb (length tmp) (length user_start) ≡ true)
          × (is_less (user.compare user_start tmp) ≡ true)
        → Good (seek_key tmp)
    found (short, after) = (
      compare_less user start (seek_key tmp) (
          ap (user.compare user_start) (extract_user_key-internal_key tmp _)
          ∙ is_less→less _ after),
      compare_less user (seek_key tmp) limit (
          ap (λ k. user.compare k (extract_user_key limit)) (extract_user_key-internal_key tmp _)
          ∙ contract user_start (extract_user_key limit) ordered),
      shorter start tmp long (ground arith),
    )
