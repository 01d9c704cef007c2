-- ===== src/Operators/Blocks.antt =====
-- operators_support.cpp: the blocks that `operator new` gives and `operator delete` takes.
use akl.Base.{ℕ, ◌%◌, ◌<◌, ◌≤◌, ◌≡◌, ◌↔◌, ◌∙◌, sym, none, some, Bool-cases, inl, inr, ◌==◌, arith}
use akl.Machine.Words.{u32}
use akl.KernLib.Memory.{Heap, LinuxMemory, akl_cmalloc, akl_cfree}
use akl.Operators.{operator_new, operator_delete}

module _ (linux : LinuxMemory) where
  -- `operator new` of a size whose last 32 bits are not all 0, when it does not return NULL: the block is new. It has as many bytes as
  -- the last 32 bits of the size say, which are enough if and only if the size is below 2 ^ 32; and
  -- after `operator delete` of it the blocks are those from before.
  pub operator_new-operator_delete :
      (sz p : ℕ) (h h' : Heap)
      → 0 < sz % u32
      → operator_new linux sz h ≡ (some p, h')
      → (h.blocks p ≡ none)
        × (h'.blocks p ≡ some (sz % u32))
        × ((sz ≤ sz % u32) ↔ (sz < u32))
        × ((q : ℕ) → (operator_delete linux (some p) h').blocks q ≡ h.blocks q)
  unfolding operator_new operator_delete akl_cmalloc akl_cfree
  operator_new-operator_delete sz p h h' pos e =
      let fresh = linux.kmalloc_fresh (sz % u32) linux.gfp_atomic h h' p pos e in
      (
        fresh,
        linux.kmalloc_size (sz % u32) linux.gfp_atomic h h' p pos e,
        (λ l. omega arith, λ l. omega arith),
        λ q. elim (Bool-cases (q == p)) [
          | inl t ↦ let same : q ≡ p = ground arith in rw same (linux.kfree_block p h' ∙ sym fresh)
          | inr f ↦
              linux.kfree_others p q h' (ground arith)
              ∙ linux.kmalloc_others (sz % u32) linux.gfp_atomic h h' p q pos e (ground arith)
        ],
      )
