-- ===== src/Examples/Memories.antt =====
-- operators_support.cpp: a heap that has room for one block, at the address 4096.
use akl.Base.{
  ℕ, ◌+◌, ◌^◌, ◌<◌, ◌≤◌, ◌≡◌, ◌≢◌, ◌↔◌, refl, sym, ◌∙◌, ap, Option, none, some, ◌==◌, if◌then◌else◌,
  arith,
}
use akl.Machine.Words.{u32}
use akl.KernLib.Memory.{Heap, LinuxMemory, akl_cmalloc}
use akl.Operators.{operator_new, operator_delete}
use akl.Operators.Blocks.{operator_new-operator_delete}

abbrev place : ℕ
place = 4096

abbrev set_block : Option ℕ → Heap → Heap
set_block o h = record h { blocks = λ q. if q == place then o else h.blocks q }

abbrev give : Option ℕ → ℕ → Heap → Option ℕ × Heap
give none size h = (some place, set_block (some size) h)
give (some _) size h = (none, h)

abbrev take : Option ℕ → Heap → Heap
take none h = h
take (some p) h = record h { blocks = λ q. if q == p then none else h.blocks q }

-- The block that is given is the one at `place`, which was free.
given :
    (o : Option ℕ) (size : ℕ) (h h' : Heap) (p : ℕ)
    → give o size h ≡ (some p, h')
    → (o ≡ none) × (place ≡ p) × (set_block (some size) h ≡ h')
given none size h h' p e = (refl, ground (arith, ap (λ w. w.0) e), ap (λ w. w.1) e)
given (some k) size h h' p e = ground (arith, ap (λ w. w.0) e)

set_others :
    (o : Option ℕ) (p q : ℕ) (h : Heap) → place ≡ p → q ≢ p → (set_block o h).blocks q ≡ h.blocks q
set_others o p q h e ne = ground arith

take_block : (p : ℕ) (h : Heap) → (take (some p) h).blocks p ≡ none
take_block p h = ground arith

take_others : (p q : ℕ) (h : Heap) → q ≢ p → (take (some p) h).blocks q ≡ h.blocks q
take_others p q h ne = ground arith

abbrev linux : LinuxMemory
linux = record {
  kmalloc = λ size flags h. give (h.blocks place) size h;
  krealloc = λ mem size flags h. (none, h);
  kfree = take;
  memset = λ dst c len h. h;
  memcpy = λ dst src len h. h;
  memmove = λ dst src len h. h;
  memcmp = λ p1 p2 len h. 0;
  gfp_atomic = 32;
  kmalloc_fresh = λ size flags h h' p pos e.
      let g = given (h.blocks place) size h h' p e in ap h.blocks (sym (g.1)) ∙ g.0;
  kmalloc_size = λ size flags h h' p pos e.
      let g = given (h.blocks place) size h h' p e in
      ap (λ (k : Heap). k.blocks p) (sym g.2) ∙ ap (set_block (some size) h).blocks (sym g.1);
  kmalloc_others = λ size flags h h' p q pos e ne.
      let g = given (h.blocks place) size h h' p e in
      ap (λ (k : Heap). k.blocks q) (sym g.2) ∙ set_others (some size) p q h (g.1) ne;
  kfree_block = take_block;
  kfree_others = take_others;
}

abbrev empty : Heap
empty = record { bytes = λ _. 0; blocks = λ _. none }

-- A size of 2 ^ 32 + 8 gives a block of 8 bytes.
operator_new-operator_delete_example :
    (empty.blocks place ≡ none)
    × ((set_block (some 8) empty).blocks place ≡ some 8)
    × ((2 ^ 32 + 8 ≤ 8) ↔ (2 ^ 32 + 8 < u32))
    × ((q : ℕ)
        → (operator_delete linux (some place) (set_block (some 8) empty)).blocks q ≡ empty.blocks q)
unfolding operator_new akl_cmalloc
operator_new-operator_delete_example =
    operator_new-operator_delete linux (2 ^ 32 + 8) place empty (set_block (some 8) empty)
      (omega arith) refl
