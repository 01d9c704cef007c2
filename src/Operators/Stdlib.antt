-- ===== src/Operators/Stdlib.antt =====
-- delete-me/stdlib/memory.cpp: another `operator new` and `operator delete`, over the kernel's
-- `__kmalloc` and `kfree`. The forms with `std::nothrow_t` and `std::align_val_t` do not use it.
use akl.Base.{ℕ, Option}
use akl.KernLib.Memory.{Heap, LinuxMemory}

abbrev pub gfp_kernel : ℕ
gfp_kernel = 3264  -- 0x400u | 0x800u | 0x40u | 0x80u

module _ (linux : LinuxMemory) where
  unfoldable pub operator_new : ℕ → Heap → Option ℕ × Heap
  operator_new size h = linux.kmalloc size gfp_kernel h

  unfoldable pub operator_new_nothrow : ℕ → Heap → Option ℕ × Heap
  operator_new_nothrow size h = linux.kmalloc size gfp_kernel h

  unfoldable pub operator_new_aligned : (size alignment : ℕ) → Heap → Option ℕ × Heap
  operator_new_aligned size alignment h = linux.kmalloc size gfp_kernel h

  unfoldable pub operator_new_array : ℕ → Heap → Option ℕ × Heap
  operator_new_array size h = linux.kmalloc size gfp_kernel h

  unfoldable pub operator_delete : Option ℕ → Heap → Heap
  operator_delete pointer h = linux.kfree pointer h

  unfoldable pub operator_delete_aligned : Option ℕ → ℕ → Heap → Heap
  operator_delete_aligned pointer alignment h = linux.kfree pointer h

  unfoldable pub operator_delete_array : Option ℕ → Heap → Heap
  operator_delete_array pointer h = linux.kfree pointer h
