-- ===== src/Storage/BufferPool/Contents.antt =====
-- The pages that the pool stands for, under unpin_page, flush_page and delete_page.
use grmdb.Base.{
  ℕ, sym, subst, ◌≡◌, ◌≢◌, refl, ◌⊎◌, Bool, false, none, some, arith, ite, if◌then◌else◌,
  Option-cases, Bool-cases, inl, inr, ltb, ◌==◌, lookup-erase,
}
use grmdb.Base.Int.{ℤ}
use grmdb.Storage.Disk.{PageId, PageId_discrete, block}
use grmdb.Storage.Disk.Blocks.{InFile, block-write_page}
use grmdb.Storage.BufferPool.{
  BufferPool, find, drop_pin, unpin_page, write_frame, flush_page, write_back, free_frame,
  delete_page,
}
use grmdb.Storage.BufferPool.Invariant.{core, IsValid}
use grmdb.Storage.BufferPool.Coherent.{logical, IsCoherent, AreInFile}

-- Every page has the content that it had, and the pool is coherent.
pub record KeepsPages {D : Type 0} (p p' : BufferPool D) : Type 0 where
  pub unchanged : (q : PageId) → logical p' q ≡ logical p q
  pub coherent : IsCoherent p'

-- Every page that lies in its file has the content that it had, and the pool is coherent; the pages
-- in the pool lie in their files.
pub record KeepsFilePages {D : Type 0} (p p' : BufferPool D) : Type 0 where
  pub unchanged : (q : PageId) → InFile q → logical p' q ≡ logical p q
  pub coherent : IsCoherent p'
  pub reach : AreInFile p'

module _ {D : Type 0} where
  self-KeepsFilePages : (p : BufferPool D) → IsCoherent p → AreInFile p → KeepsFilePages p p
  self-KeepsFilePages p c r = record { unchanged = λ q _. refl; coherent = c; reach = r }

  self-KeepsPages : (p : BufferPool D) → IsCoherent p → KeepsPages p p
  self-KeepsPages p c = record { unchanged = λ q. refl; coherent = c }

  module _ (p : BufferPool D) (page_id : PageId) (v : IsValid (core p))
      (coherent : IsCoherent p) where
    drop_pin-KeepsPages :
        (f : ℕ) (is_dirty : Bool)
        → find p page_id ≡ some f
        → (is_dirty ≡ false
            → (p.pages f).is_dirty ≡ false
            → block p.disk page_id ≡ some (p.pages f).content)
        → KeepsPages p (drop_pin p f is_dirty)
    unfolding drop_pin logical
    drop_pin-KeepsPages f is_dirty e said = record {
      unchanged = λ q. ground arith;
      coherent = λ q g found unpinned clean.
          ground (arith, coherent q g, said, v.table.mapped q g found, v.table.mapped page_id f e);
    }

    -- On a valid and coherent pool, a client that unpins a page changes the content of no page, and
    -- the pool stays coherent, as long as the client reports as dirty a page whose content is not
    -- that of the disk.
    pub unpin_page-KeepsPages :
        (is_dirty : Bool)
        → ((f : ℕ)
            → find p page_id ≡ some f
            → is_dirty ≡ false
            → (p.pages f).is_dirty ≡ false
            → block p.disk page_id ≡ some (p.pages f).content)
        → KeepsPages p (unpin_page p page_id is_dirty).1
    unfolding unpin_page
    unpin_page-KeepsPages is_dirty said = elim (Option-cases (find p page_id)) [
      | inl e ↦ rw (e, unpin_page) (self-KeepsPages p coherent)
      | inr (f, e) ↦
          rw (e, unpin_page)
            (elim (Bool-cases ((p.pages f).pin_count == 0)) [
              | inl none_left ↦ rw none_left (self-KeepsPages p coherent)
              | inr some_left ↦ rw some_left (drop_pin-KeepsPages f is_dirty e (said f e))
            ])
    ]

    module _ (reach : AreInFile p) where
      write_frame-KeepsFilePages :
          (f : ℕ) → find p page_id ≡ some f → KeepsFilePages p (write_frame p page_id f)
      unfolding write_frame logical
      write_frame-KeepsFilePages f e =
          let wrote = block-write_page p.disk (p.pages f).content page_id in
          record {
            unchanged = λ q there. ground (arith, wrote q (reach page_id f e) there);
            coherent = λ q g found unpinned clean. ground (
              arith,
              wrote q (reach page_id f e) (reach q g found),
              coherent q g,
              v.table.mapped q g found,
              v.table.mapped page_id f e,
            );
            reach = reach;
          }

      -- On a valid and coherent pool whose pages lie in their files, flushing a page changes the
      -- content of no page that does; it fails on a page that is not in the pool, and otherwise the
      -- disk then holds the page's content.
      pub flush_page-KeepsFilePages :
          KeepsFilePages p (flush_page p page_id).1
          × (((flush_page p page_id).0 ≡ false)
              ⊎ (block (flush_page p page_id).1.disk page_id ≡ logical p page_id))
      unfolding flush_page logical write_frame
      flush_page-KeepsFilePages = elim (Option-cases (find p page_id)) [
        | inl e ↦ rw (e, flush_page) (self-KeepsFilePages p coherent reach, inl refl)
        | inr (f, e) ↦
            let wrote =
              block-write_page p.disk (p.pages f).content page_id page_id (reach page_id f e)
                (reach page_id f e) in
            rw (e, flush_page) (write_frame-KeepsFilePages f e, inr (ground (arith, wrote)))
      ]

  -- Unpinning leaves the pages where they are.
  pub unpin_page-AreInFile :
      (p : BufferPool D) (page_id : PageId) (is_dirty : Bool)
      → AreInFile p
      → AreInFile (unpin_page p page_id is_dirty).1
  unfolding unpin_page drop_pin
  unpin_page-AreInFile p page_id is_dirty reach q g e = reach q g (ground arith)

module _ {D : Type 0} (zeroed : D) (page_lsn : D → ℤ) where
  module _ (p : BufferPool D) (page_id : PageId) (v : IsValid (core p)) (coherent : IsCoherent p)
      (reach : AreInFile p) where
    find-freed :
        (f : ℕ) (q : PageId)
        → find (free_frame zeroed page_lsn (write_back p f) page_id f) q
          ≡ ite (PageId_discrete page_id q) none (find p q)
    unfolding free_frame write_back
    find-freed f q = ground (arith, lookup-erase PageId_discrete page_id q p.page_table)

    block-freed :
        (f : ℕ) (q : PageId)
        → find p page_id ≡ some f
        → InFile q
        → block (free_frame zeroed page_lsn (write_back p f) page_id f).disk q ≡ (
            if (p.pages f).is_dirty
            then ite (PageId_discrete (p.pages f).id q) (some (p.pages f).content) (block p.disk q)
            else block p.disk q)
    unfolding free_frame write_back
    block-freed f q e there =
        let id = v.table.mapped page_id f e in
        let here = subst InFile (sym id) (reach page_id f e) in
        ground (arith, block-write_page p.disk (p.pages f).content (p.pages f).id q here there)

    pages-freed :
        (f g : ℕ)
        → f ≢ g
        → (free_frame zeroed page_lsn (write_back p f) page_id f).pages g ≡ p.pages g
    unfolding free_frame write_back
    pages-freed f g other = ground arith

    -- Another page is in another frame.
    other_frame :
        (f g : ℕ) (q : PageId) → find p page_id ≡ some f → page_id ≢ q → find p q ≡ some g → f ≢ g
    other_frame f g q e other found =
        ground (arith, v.table.mapped q g found, v.table.mapped page_id f e)

    free_frame-KeepsFilePages :
        (f : ℕ)
        → find p page_id ≡ some f
        → (p.pages f).pin_count ≡ 0
        → KeepsFilePages p (free_frame zeroed page_lsn (write_back p f) page_id f)
    unfolding logical
    free_frame-KeepsFilePages f e nobody = record {
      unchanged = λ q there. elim (Option-cases (find p q)) [
        | inl absent ↦
            ground
              (arith, find-freed f q, block-freed f q e there, v.table.mapped page_id f e, absent)
        | inr (g, found) ↦ ground (
          arith,
          find-freed f q,
          block-freed f q e there,
          pages-freed f g,
          other_frame f g q e,
          found,
          v.table.mapped page_id f e,
          coherent page_id f e nobody,
        )
      ];
      coherent = λ q g found unpinned clean.
          let before : find p q ≡ some g = ground (arith, find-freed f q) in
          ground (
            arith,
            find-freed f q,
            block-freed f q e (reach q g before),
            pages-freed f g,
            other_frame f g q e,
            v.table.mapped page_id f e,
            coherent q g,
          );
      reach = λ q g found. reach q g (ground (arith, find-freed f q));
    }

    -- On a valid and coherent pool whose pages lie in their files, deleting a page changes the
    -- content of no page that does: a dirty page goes to disk.
    pub delete_page-KeepsFilePages : KeepsFilePages p (delete_page zeroed page_lsn p page_id).1
    unfolding delete_page
    delete_page-KeepsFilePages = elim (Option-cases (find p page_id)) [
      | inl e ↦ rw (e, delete_page) (self-KeepsFilePages p coherent reach)
      | inr (f, e) ↦
          rw (e, delete_page)
            (elim (Bool-cases (ltb 0 (p.pages f).pin_count)) [
              | inl pinned ↦ rw pinned (self-KeepsFilePages p coherent reach)
              | inr free ↦ rw free (free_frame-KeepsFilePages f e (ground arith))
            ])
    ]
