-- ===== src/Storage/BufferPool/Remap.antt =====
-- update_page: what it does to the frames and the page table, and that it keeps the invariant.
use grmdb.Base.{
  ℕ, ◌≡◌, ◌≢◌, ap, ◌∙◌, false, none, some, arith, ite, ℕ_discrete, lookup-put, lookup-erase, erase,
  put,
}
use grmdb.Base.Int.{ℤ}
use grmdb.Storage.Disk.{PageId, PageId_discrete, invalid_page_id}
use grmdb.Storage.BufferPool.{Page, BufferPool, flush_log, write_back, update_page}
use grmdb.Storage.BufferPool.Invariant.{Core, core, at, IsTable, IsValid, IsClaimed}

module _ {D : Type 0} where
  pub core-write_back : (p : BufferPool D) (f : ℕ) → core (write_back p f) ≡ core p
  unfolding write_back
  core-write_back p f = ground arith

module _ {D : Type 0} (zeroed : D) (page_lsn : D → ℤ) where
  pub core-flush_log : (p : BufferPool D) (x : D) → core (flush_log zeroed page_lsn p x) ≡ core p
  unfolding flush_log
  core-flush_log p x = ground arith

  unfoldable pub fresh_page : PageId → Page D
  fresh_page page_id = record { id = page_id; content = zeroed; is_dirty = false; pin_count = 0 }

  -- What update_page does to the frames and the page table; `old` is the page that leaves.
  abbrev pub remap : PageId → ℕ → PageId → Core D → Core D
  unfolding fresh_page
  remap old f page_id c = record c {
    pages = λ g. ite (ℕ_discrete f g) (fresh_page page_id) (c.pages g);
    page_table = put PageId_discrete page_id f (erase PageId_discrete old c.page_table);
  }

  pub core-update_page :
      (p : BufferPool D) (f : ℕ) (page_id : PageId)
      → core (update_page zeroed page_lsn p f page_id) ≡ remap (p.pages f).id f page_id (core p)
  unfolding update_page fresh_page
  core-update_page p f page_id =
      ap (remap (p.pages f).id f page_id) (core-write_back _ f ∙ core-flush_log p _)

  -- Where the pages lie after it.
  pub at-remap :
      (c : Core D) (old : PageId) (f : ℕ) (page_id q : PageId)
      → at (remap old f page_id c) q
        ≡ ite (PageId_discrete page_id q) (some f) (ite (PageId_discrete old q) none (at c q))
  unfolding fresh_page
  at-remap c old f page_id q = rw (
    lookup-put PageId_discrete page_id q f (erase PageId_discrete old c.page_table),
    lookup-erase PageId_discrete old q c.page_table,
  )

  -- The claimed frame with its new page in it is an ordinary frame again.
  module _ (c : Core D) (f : ℕ) (page_id : PageId) (v : IsClaimed c f)
      (proper : page_id.page_no ≢ invalid_page_id) (absent : at c page_id ≡ none) where
    remap-IsTable : IsTable (remap (c.pages f).id f page_id c)
    unfolding fresh_page
    remap-IsTable = record {
      linked = v.table.linked;
      free_distinct = v.table.free_distinct;
      mapped = λ q g h. ground (arith, at-remap c (c.pages f).id f page_id q, v.table.mapped q g);
      used =
          λ q g h. ground (arith, at-remap c (c.pages f).id f page_id q, v.table.used q g, v.taken);
      proper =
          λ q h. ground (arith, at-remap c (c.pages f).id f page_id q, v.table.proper q, proper);
      idle = λ g h. ground (arith, v.table.idle g, v.taken);
      unpinned = λ g h. ground (arith, v.table.unpinned g);
    }

    pub remap-IsValid : IsValid (remap (c.pages f).id f page_id c)
    unfolding fresh_page
    remap-IsValid = record {
      table = remap-IsTable;
      evictable = λ g h. ground (
        arith,
        at-remap c (c.pages f).id f page_id page_id,
        at-remap c (c.pages f).id f page_id (c.pages g).id,
        v.others g h,
        v.owner,
        absent,
      );
    }
