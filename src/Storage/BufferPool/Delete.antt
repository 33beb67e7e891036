-- ===== src/Storage/BufferPool/Delete.antt =====
-- delete_page. The frame of a deleted page goes to the free list while the replacer still lists it:
-- the invariant holds because a free frame is taken before the replacer is asked.
use grmdb.Base.{
  ℕ, ◌≡◌, refl, ap, false, some, arith, ite, ℕ_discrete, List, [], ◌∷◌, ◌++◌, Option-cases,
  Bool-cases, inl, inr, contains, Distinct, ltb, erase, lookup-erase,
}
use grmdb.Base.Int.{ℤ}
use grmdb.Storage.Disk.{PageId, PageId_discrete}
use grmdb.Storage.BufferPool.{BufferPool, find, write_back, free_frame, delete_page, no_page}
use grmdb.Storage.BufferPool.Invariant.{Core, core, is_free, at, IsTable, IsValid}
use grmdb.Storage.BufferPool.Remap.{core-write_back}
use grmdb.Storage.BufferPool.Claim.{contains-append_last}

append_last-Distinct :
    (f : ℕ) (xs : List ℕ)
    → Distinct ℕ_discrete xs
    → contains ℕ_discrete f xs ≡ false
    → Distinct ℕ_discrete (xs ++ f ∷ [])
unfolding contains
append_last-Distinct f [] d h = (refl, tt)
append_last-Distinct f (x ∷ xs) d h =
    (ground (arith, contains-append_last x f xs), append_last-Distinct f xs d.1 (ground arith))

module _ {D : Type 0} (zeroed : D) (page_lsn : D → ℤ) where
  -- What free_frame does to the frames and the page table.
  abbrev freed : PageId → ℕ → Core D → Core D
  freed page_id f c = record c {
    pages = λ g.
        ite (ℕ_discrete f g)
          (record { id = no_page; content = zeroed; is_dirty = false; pin_count = 0 }) (c.pages g);
    page_table = erase PageId_discrete page_id c.page_table;
    free_list = c.free_list ++ f ∷ [];
  }

  module _ (c : Core D) (page_id : PageId) (f : ℕ) (v : IsValid c) (mapped : at c page_id ≡ some f)
      (nobody : (c.pages f).pin_count ≡ 0) where
    in_use : is_free c f ≡ false
    in_use = v.table.used page_id f mapped

    freed-IsTable : IsTable (freed page_id f c)
    freed-IsTable = record {
      linked = v.table.linked;
      free_distinct = append_last-Distinct f c.free_list v.table.free_distinct in_use;
      mapped = λ q g h. ground (
        arith,
        lookup-erase PageId_discrete page_id q c.page_table,
        v.table.mapped q g,
        v.table.mapped page_id f mapped,
      );
      used = λ q g h. ground (
        arith,
        lookup-erase PageId_discrete page_id q c.page_table,
        v.table.used q g,
        v.table.mapped q g,
        v.table.mapped page_id f mapped,
        contains-append_last g f c.free_list,
      );
      proper = λ q h.
          ground (arith, lookup-erase PageId_discrete page_id q c.page_table, v.table.proper q h);
      idle = λ g h. ground (arith, v.table.idle g, contains-append_last g f c.free_list);
      unpinned = λ g h. ground (arith, v.table.unpinned g h);
    }

    freed-IsValid : IsValid (freed page_id f c)
    freed-IsValid = record {
      table = freed-IsTable;
      evictable = λ g h. ground (
        arith,
        v.evictable g h,
        mapped,
        lookup-erase PageId_discrete page_id (c.pages g).id c.page_table,
        contains-append_last g f c.free_list,
      );
    }

  core-free_frame :
      (p : BufferPool D) (page_id : PageId) (f : ℕ)
      → core (free_frame zeroed page_lsn (write_back p f) page_id f) ≡ freed page_id f (core p)
  unfolding free_frame
  core-free_frame p page_id f = ap (freed page_id f) (core-write_back p f)

  -- On a valid pool, delete_page keeps the table, the frames, the free list and the replacer in
  -- agreement.
  pub delete_page-IsValid :
      (p : BufferPool D) (page_id : PageId)
      → IsValid (core p)
      → IsValid (core (delete_page zeroed page_lsn p page_id).1)
  unfolding delete_page
  delete_page-IsValid p page_id v = elim (Option-cases (find p page_id)) [
    | inl e ↦ rw (e, delete_page) v
    | inr (f, e) ↦
        rw (e, delete_page)
          (elim (Bool-cases (ltb 0 (p.pages f).pin_count)) [
            | inl pinned ↦ rw pinned v
            | inr free ↦
                rw (free, core-free_frame) (freed-IsValid (core p) page_id f v e (ground arith))
          ])
  ]
