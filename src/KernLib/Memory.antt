-- ===== src/KernLib/Memory.antt =====
-- kern_lib.c, "memory": the wrappers round the kernel's allocator and its functions on bytes. The
-- kernel's functions are parameters, over a heap that has the bytes and, for each address at which a
-- block begins, how many bytes were asked for. A pointer is its address, or `none` for NULL.
use akl.Base.{ℕ, ◌<◌, ◌≡◌, ◌≢◌, Option, none, some}

pub record Heap : Type 0 where
  pub bytes : ℕ → ℕ
  pub blocks : ℕ → Option ℕ

-- The kernel's functions, and what is documented of the allocator: a `kmalloc` of more than no
-- bytes gives a new block or NULL, `kfree` takes a block away, and both leave the other blocks.
pub record LinuxMemory : Type 0 where
  pub kmalloc : (size flags : ℕ) → Heap → Option ℕ × Heap
  pub krealloc : (mem : Option ℕ) (size flags : ℕ) → Heap → Option ℕ × Heap
  pub kfree : Option ℕ → Heap → Heap
  pub memset : (dst c len : ℕ) → Heap → Heap
  pub memcpy : (dst src len : ℕ) → Heap → Heap
  pub memmove : (dst src len : ℕ) → Heap → Heap
  pub memcmp : (p1 p2 len : ℕ) → Heap → ℕ  -- int
  pub gfp_atomic : ℕ
  pub kmalloc_fresh :
      (size flags : ℕ) (h h' : Heap) (p : ℕ)
      → 0 < size
      → kmalloc size flags h ≡ (some p, h')
      → h.blocks p ≡ none
  pub kmalloc_size :
      (size flags : ℕ) (h h' : Heap) (p : ℕ)
      → 0 < size
      → kmalloc size flags h ≡ (some p, h')
      → h'.blocks p ≡ some size
  pub kmalloc_others :
      (size flags : ℕ) (h h' : Heap) (p q : ℕ)
      → 0 < size
      → kmalloc size flags h ≡ (some p, h')
      → q ≢ p
      → h'.blocks q ≡ h.blocks q
  pub kfree_block : (p : ℕ) (h : Heap) → (kfree (some p) h).blocks p ≡ none
  pub kfree_others : (p q : ℕ) (h : Heap) → q ≢ p → (kfree (some p) h).blocks q ≡ h.blocks q

-- A `len` or `size` here is an `unsigned int`.
module _ (linux : LinuxMemory) where
  unfoldable pub akl_cmemset : (dst c len : ℕ) → Heap → Heap
  akl_cmemset dst c len h = linux.memset dst c len h

  unfoldable pub akl_cmemcpy : (dst src len : ℕ) → Heap → ℕ × Heap
  akl_cmemcpy dst src len h = (dst, linux.memcpy dst src len h)

  unfoldable pub akl_cmemmove : (dst src len : ℕ) → Heap → ℕ × Heap
  akl_cmemmove dst src len h = (dst, linux.memmove dst src len h)

  unfoldable pub akl_cmemcmp : (p1 p2 len : ℕ) → Heap → ℕ
  akl_cmemcmp p1 p2 len h = linux.memcmp p1 p2 len h

  unfoldable pub akl_cmalloc : ℕ → Heap → Option ℕ × Heap
  akl_cmalloc size h = linux.kmalloc size linux.gfp_atomic h

  unfoldable pub akl_crealloc : Option ℕ → ℕ → Heap → Option ℕ × Heap
  akl_crealloc mem size h = linux.krealloc mem size linux.gfp_atomic h

  unfoldable pub akl_cfree : Option ℕ → Heap → Heap
  akl_cfree mem h = linux.kfree mem h
