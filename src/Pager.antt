-- ===== src/Pager.antt =====
-- What the kernel heap asks of the page allocator (src/pmm) and of the page tables (src/vmm).
use titanix.Base.{ℕ}

-- `pmm_alloc_page`, `paging_map_page` and `paging_invlpg`, each with the state that it changes.
pub record Pager : Type 1 where
  pub State : Type 0
  pub alloc_page : State → ℕ × State
  pub map_page : (virtual physical flags : ℕ) → State → State
  pub invlpg : ℕ → State → State
