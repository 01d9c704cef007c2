-- ===== src/Operators.antt =====
-- operators_support.cpp: `operator new` and `operator delete` of the kernel module, over the memory
-- functions of kern_lib.c. `akl_cmalloc` takes an `unsigned int`, to which a `size_t` is cut.
pub mod Blocks
pub mod Stdlib
use akl.Base.{ℕ, ◌%◌, Option}
use akl.Machine.Words.{u32}
use akl.KernLib.Memory.{Heap, LinuxMemory, akl_cmalloc, akl_cfree}

module _ (linux : LinuxMemory) where
  unfoldable pub operator_new : ℕ → Heap → Option ℕ × Heap
  operator_new sz h = akl_cmalloc linux (sz % u32) h

  -- `operator new[]`
  unfoldable pub operator_new_array : ℕ → Heap → Option ℕ × Heap
  operator_new_array sz h = akl_cmalloc linux (sz % u32) h

  unfoldable pub operator_delete : Option ℕ → Heap → Heap
  operator_delete p h = akl_cfree linux p h

  -- `operator delete` with the size
  unfoldable pub operator_delete_sized : Option ℕ → ℕ → Heap → Heap
  operator_delete_sized p sz h = akl_cfree linux p h

  -- `operator delete[]`
  unfoldable pub operator_delete_array : Option ℕ → Heap → Heap
  operator_delete_array p h = akl_cfree linux p h
