-- ===== src/Arena.antt =====
-- util/arena.h and util/arena.cc: the allocator of the memory table. A pointer is an address, a block
-- its address and its size. `new char[]` is a function of the blocks that there are and of the size.
pub mod Regions
pub mod Sound
pub mod Aligned
use simple_leveldb.Base.{
  ℕ, ◌+◌, ◌-◌, ◌*◌, ◌/◌, ◌%◌, ◌^◌, leb, ltb, ◌==◌, if◌then◌else◌, bit_and, List, [], ◌∷◌, ◌++◌, u64,
}

abbrev pub Region : Type 0
Region = ℕ × ℕ

pub record Arena : Type 0 where
  pub alloc_ptr : ℕ
  pub alloc_bytes_remaining : ℕ
  pub blocks : List Region
  pub memory_usage : ℕ

-- The constructor.
abbrev pub empty_arena : Arena
empty_arena = record { alloc_ptr = 0; alloc_bytes_remaining = 0; blocks = []; memory_usage = 0 }

abbrev pub block_size : ℕ
block_size = 4096

-- `align`, and the size of a pointer.
abbrev pub pointer_size : ℕ
pointer_size = 8

abbrev pub New : Type 0
New = List Region → ℕ → ℕ

module _ (new_char : New) where
  unfoldable pub allocate_new_block : Arena → ℕ → ℕ × Arena
  allocate_new_block a block_bytes =
      let result = new_char a.blocks block_bytes in
      (
        result,
        record a {
          blocks = a.blocks ++ (result, block_bytes) ∷ [];
          memory_usage = u64 (a.memory_usage + (block_bytes + pointer_size));
        },
      )

  unfoldable pub allocate_fallback : Arena → ℕ → ℕ × Arena
  unfolding allocate_new_block
  allocate_fallback a bytes =
      let (result, a₁) = allocate_new_block a block_size in
      if ltb (block_size / 4) bytes then allocate_new_block a bytes else (
        result,
        record a₁ { alloc_ptr = result + bytes; alloc_bytes_remaining = block_size - bytes },
      )

  unfoldable pub allocate : Arena → ℕ → ℕ × Arena
  unfolding allocate_fallback
  allocate a bytes =
      if leb bytes a.alloc_bytes_remaining
      then (
        a.alloc_ptr,
        record a {
          alloc_ptr = a.alloc_ptr + bytes;
          alloc_bytes_remaining = a.alloc_bytes_remaining - bytes;
        },
      )
      else allocate_fallback a bytes

  unfoldable pub allocate_aligned : Arena → ℕ → ℕ × Arena
  unfolding allocate_fallback
  allocate_aligned a bytes =
      let current_mod = bit_and a.alloc_ptr (pointer_size - 1) in
      let slop = if current_mod == 0 then 0 else pointer_size - current_mod in
      let needed = u64 (bytes + slop) in
      if leb needed a.alloc_bytes_remaining
      then (
        a.alloc_ptr + slop,
        record a {
          alloc_ptr = a.alloc_ptr + needed;
          alloc_bytes_remaining = a.alloc_bytes_remaining - needed;
        },
      )
      else allocate_fallback a bytes
