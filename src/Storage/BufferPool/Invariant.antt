-- ===== src/Storage/BufferPool/Invariant.antt =====
-- The invariant of the buffer pool: the page table, the frames, the free list and the replacer
-- agree.
use grmdb.Base.{
  ℕ, ◌≡◌, ◌⊎◌, Bool, true, false, List, Option, none, some, ℕ_discrete, contains, Distinct, lookup,
}
use grmdb.Storage.Disk.{PageId, PageId_discrete, invalid_page_id}
use grmdb.Replacer.{LruReplacer}
use grmdb.Replacer.Laws.{IsLinked, frames}
use grmdb.Storage.BufferPool.{Page, BufferPool}

-- The pool without the disk and the log.
pub record Core (D : Type 0) : Type 0 where
  pub pages : ℕ → Page D
  pub page_table : List (PageId × ℕ)
  pub free_list : List ℕ
  pub replacer : LruReplacer

module _ {D : Type 0} where
  abbrev pub core : BufferPool D → Core D
  core p = record {
    pages = p.pages;
    page_table = p.page_table;
    free_list = p.free_list;
    replacer = p.replacer;
  }

  abbrev pub at : Core D → PageId → Option ℕ
  at c page_id = lookup PageId_discrete page_id c.page_table

  abbrev pub is_free : Core D → ℕ → Bool
  is_free c f = contains ℕ_discrete f c.free_list

  abbrev pub is_evictable : Core D → ℕ → Bool
  is_evictable c f = contains ℕ_discrete f (frames c.replacer)

  -- What holds of every frame, also while one frame is being given a new page.
  pub record IsTable (c : Core D) : Type 0 where
    pub linked : IsLinked c.replacer
    pub free_distinct : Distinct ℕ_discrete c.free_list
    -- A page is mapped to the frame that carries its identity, which is not free.
    pub mapped : (q : PageId) (g : ℕ) → at c q ≡ some g → (c.pages g).id ≡ q
    pub used : (q : PageId) (g : ℕ) → at c q ≡ some g → is_free c g ≡ false
    -- No page is mapped under the invalid page number.
    pub proper : (q : PageId) → q.page_no ≡ invalid_page_id → at c q ≡ none
    -- A free frame carries no page, is clean, and nobody uses it.
    pub idle :
        (g : ℕ)
        → is_free c g ≡ true
        → ((c.pages g).id.page_no ≡ invalid_page_id)
          × ((c.pages g).is_dirty ≡ false)
          × ((c.pages g).pin_count ≡ 0)
    -- A frame that the replacer may give away is pinned by nobody.
    pub unpinned : (g : ℕ) → is_evictable c g ≡ true → (c.pages g).pin_count ≡ 0

  -- A frame that the replacer may give away holds a mapped page or is free.
  pub record IsValid (c : Core D) : Type 0 where
    pub table : IsTable c
    pub evictable :
        (g : ℕ) → is_evictable c g ≡ true → (at c (c.pages g).id ≡ some g) ⊎ (is_free c g ≡ true)

  -- Frame f has been taken for another page: the frame of a mapped page, or a frame with none.
  pub record IsClaimed (c : Core D) (f : ℕ) : Type 0 where
    pub table : IsTable c
    pub taken : is_free c f ≡ false
    pub nobody : (c.pages f).pin_count ≡ 0
    pub owner :
        (at c (c.pages f).id ≡ some f)
        ⊎ ((at c (c.pages f).id ≡ none) × ((c.pages f).is_dirty ≡ false))
    pub others :
        (g : ℕ)
        → is_evictable c g ≡ true
        → (g ≡ f) ⊎ (at c (c.pages g).id ≡ some g) ⊎ (is_free c g ≡ true)
