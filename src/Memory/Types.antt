-- ===== src/Memory/Types.antt =====
-- cpp/include/rapidsmpf/memory/memory_type.hpp and content_description.hpp.
use rapidsmpf.Prelude.{
  ℕ, ◌+◌, ◌≡◌, refl, Bool, true, false, List, [], ◌∷◌, arith, ltb, if◌then◌else◌,
}

-- In decreasing order of preference.
pub data MemoryType : Type 0 where
  device pinned_host host disk : MemoryType

abbrev pub same_type : MemoryType → MemoryType → Bool
same_type device device = true
same_type pinned_host pinned_host = true
same_type host host = true
same_type disk disk = true
same_type _ _ = false

abbrev pub memory_types : List MemoryType
memory_types = device ∷ pinned_host ∷ host ∷ disk ∷ []

abbrev pub addressable_memory_types : List MemoryType
addressable_memory_types = device ∷ pinned_host ∷ host ∷ []

abbrev pub spill_target_memory_types : List MemoryType
spill_target_memory_types = pinned_host ∷ host ∷ []

-- contains(range, value) of utils/misc.hpp
unfoldable pub contains_type : List MemoryType → MemoryType → Bool
contains_type [] t = false
contains_type (x ∷ xs) t = if same_type x t then true else contains_type xs t

drop_while_ne : MemoryType → List MemoryType → List MemoryType
drop_while_ne t [] = []
drop_while_ne t (x ∷ xs) = if same_type x t then x ∷ xs else drop_while_ne t xs

unfoldable pub leq_memory_types : MemoryType → List MemoryType
unfolding drop_while_ne
leq_memory_types t = drop_while_ne t addressable_memory_types

pub same_type_sound : (a b : MemoryType) → same_type a b ≡ true → a ≡ b
same_type_sound a b h = ground arith

pub same_type_refl : (a : MemoryType) → same_type a a ≡ true
same_type_refl a = ground arith

-- ContentDescription: sizes by memory type, and whether the content can be spilled.
pub record ContentDescription : Type 0 where
  pub content_sizes : MemoryType → ℕ
  pub spillable : Bool

first_nonempty : ContentDescription → List MemoryType → MemoryType
first_nonempty c [] = device
first_nonempty c (t ∷ ts) = if ltb 0 (c.content_sizes t) then t else first_nonempty c ts

unfoldable pub principal_memory_type : ContentDescription → MemoryType
unfolding first_nonempty
principal_memory_type c = first_nonempty c memory_types

unfoldable pub content_size : ContentDescription → ℕ
content_size c =
    c.content_sizes device
    + c.content_sizes pinned_host
    + c.content_sizes host
    + c.content_sizes disk

-- The memory types tried for a copy are addressable and start with the principal one, whenever
-- that one is addressable; from disk there is none.
pub leq_memory_types-principal :
    (t : MemoryType)
    → (contains_type (leq_memory_types t) t ≡ contains_type addressable_memory_types t)
      × ((u : MemoryType)
          → contains_type (leq_memory_types t) u ≡ true
          → contains_type addressable_memory_types u ≡ true)
unfolding leq_memory_types contains_type
leq_memory_types-principal device = (refl, λ u h. h)
leq_memory_types-principal pinned_host = (refl, λ u h. ground arith)
leq_memory_types-principal host = (refl, λ u h. ground arith)
leq_memory_types-principal disk = (refl, λ u h. ground arith)
