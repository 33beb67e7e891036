-- ===== src/Storage/BufferPool/Coherent.antt =====
-- What the buffer pool stands for: a file of pages. The content of a page is that of its frame, or
-- that of the disk when no frame holds it.
use grmdb.Base.{
  ℕ, true, sym, subst, Bool-cases, ◌≡◌, ◌≢◌, ap, ◌∙◌, Option-cases, inl, inr, false, Option, none,
  some, arith, ite, ℕ_discrete, if◌then◌else◌,
}
use grmdb.Base.Int.{ℤ}
use grmdb.Storage.Disk.{PageId, PageId_discrete, block, write_page}
use grmdb.Storage.Disk.Blocks.{InFile, block-write_page, block-none-write_page}
use grmdb.Recovery.LogManager.{flush_log_to_disk}
use grmdb.Storage.BufferPool.{BufferPool, find, flush_log, write_back, update_page}
use grmdb.Storage.BufferPool.Invariant.{Core, core, at, IsClaimed}
use grmdb.Storage.BufferPool.Remap.{core-update_page, core-flush_log, at-remap, fresh_page}

module _ {D : Type 0} where
  -- The content of a page, as a client of the pool sees it.
  unfoldable pub logical : BufferPool D → PageId → Option D
  logical p q = elim (find p q) [ none ↦ block p.disk q | some f ↦ some (p.pages f).content ]

  -- The pages in the pool are pages that the offsets of their files reach.
  abbrev pub AreInFile : BufferPool D → Type 0
  AreInFile p = (q : PageId) (g : ℕ) → find p q ≡ some g → InFile q

  -- The frame of an unpinned page that is not dirty holds what the disk holds.
  abbrev pub IsCoherent : BufferPool D → Type 0
  IsCoherent p =
      (q : PageId) (g : ℕ)
      → find p q ≡ some g
      → (p.pages g).pin_count ≡ 0
      → (p.pages g).is_dirty ≡ false
      → block p.disk q ≡ some (p.pages g).content

module _ {D : Type 0} (zeroed : D) (page_lsn : D → ℤ) where
  blocks-flush_log :
      (p : BufferPool D) (x : D) → (flush_log zeroed page_lsn p x).disk.blocks ≡ p.disk.blocks
  unfolding flush_log flush_log_to_disk grmdb.Storage.Disk.write_log
  blocks-flush_log p x = ground arith

  block-flush_log :
      (p : BufferPool D) (x : D) (q : PageId)
      → block (flush_log zeroed page_lsn p x).disk q ≡ block p.disk q
  unfolding block
  block-flush_log p x q = ground (arith, blocks-flush_log p x)

  -- The disk after update_page.
  disk-update_page :
      (p : BufferPool D) (f : ℕ) (page_id : PageId)
      → let flushed = (flush_log zeroed page_lsn p (p.pages f).content).disk in
        (update_page zeroed page_lsn p f page_id).disk ≡ (
          if (p.pages f).is_dirty
          then write_page flushed (p.pages f).id (p.pages f).content
          else flushed)
  unfolding update_page write_back
  disk-update_page p f page_id =
      ground
        (arith, ap (λ (c : Core D). c.pages) (core-flush_log zeroed page_lsn p (p.pages f).content))

  -- Of the blocks, update_page writes that of the page that leaves, if it is dirty.
  block-update_page :
      (p : BufferPool D) (f : ℕ) (page_id q : PageId)
      → ((p.pages f).is_dirty ≡ true → InFile (p.pages f).id)
      → InFile q
      → block (update_page zeroed page_lsn p f page_id).disk q ≡ (
          if (p.pages f).is_dirty
          then ite (PageId_discrete (p.pages f).id q) (some (p.pages f).content) (block p.disk q)
          else block p.disk q)
  block-update_page p f page_id q reached here =
      let flushed = (flush_log zeroed page_lsn p (p.pages f).content).disk in
      let same = block-flush_log p (p.pages f).content q in
      ap (λ d. block d q) (disk-update_page p f page_id) ∙ elim (Bool-cases (p.pages f).is_dirty) [
        | inl dirty ↦ rw dirty (
            block-write_page flushed (p.pages f).content (p.pages f).id q (reached dirty) here
            ∙ ap (ite (PageId_discrete (p.pages f).id q) (some (p.pages f).content)) same)
        | inr clean ↦ rw clean same
      ]

  -- What cannot be read after update_page could not be read before.
  pub block-none-update_page :
      (p : BufferPool D) (f : ℕ) (page_id q : PageId)
      → block (update_page zeroed page_lsn p f page_id).disk q ≡ none
      → block p.disk q ≡ none
  block-none-update_page p f page_id q gone =
      let flushed = (flush_log zeroed page_lsn p (p.pages f).content).disk in
      let gone' = sym (ap (λ d. block d q) (disk-update_page p f page_id)) ∙ gone in
      sym (block-flush_log p (p.pages f).content q) ∙ elim (Bool-cases (p.pages f).is_dirty) [
        | inl dirty ↦ block-none-write_page flushed (p.pages f).content (p.pages f).id q (
            ap
              (λ b.
                block (if b then write_page flushed (p.pages f).id (p.pages f).content else flushed)
                  q)
              (sym dirty)
            ∙ gone')
        | inr clean ↦
            ap
              (λ b.
                block (if b then write_page flushed (p.pages f).id (p.pages f).content else flushed)
                  q)
              (sym clean)
            ∙ gone'
      ]

  -- The counters of the disk are left alone.
  pub fd2pageno-update_page :
      (p : BufferPool D) (f : ℕ) (page_id : PageId)
      → (update_page zeroed page_lsn p f page_id).disk.fd2pageno ≡ p.disk.fd2pageno
  unfolding update_page write_back write_page flush_log flush_log_to_disk
      grmdb.Storage.Disk.write_log
  fd2pageno-update_page p f page_id = ground arith

  pub find-update_page :
      (p : BufferPool D) (f : ℕ) (page_id q : PageId)
      → find (update_page zeroed page_lsn p f page_id) q
        ≡ ite
            (PageId_discrete page_id q)
            (some f)
            (ite (PageId_discrete (p.pages f).id q) none (find p q))
  find-update_page p f page_id q =
      ap (λ c. at c q) (core-update_page zeroed page_lsn p f page_id)
      ∙ at-remap zeroed page_lsn (core p) (p.pages f).id f page_id q

  pub pages-update_page :
      (p : BufferPool D) (f : ℕ) (page_id : PageId) (g : ℕ)
      → (update_page zeroed page_lsn p f page_id).pages g
        ≡ ite (ℕ_discrete f g) (fresh_page zeroed page_lsn page_id) (p.pages g)
  unfolding fresh_page
  pages-update_page p f page_id g =
      ap (λ (c : Core D). c.pages g) (core-update_page zeroed page_lsn p f page_id)

  module _ (p : BufferPool D) (f : ℕ) (page_id : PageId) (v : IsClaimed (core p) f)
      (coherent : IsCoherent p) (absent : find p page_id ≡ none) (reach : AreInFile p) where
    -- A dirty frame holds a page of the pool.
    dirty-InFile : (p.pages f).is_dirty ≡ true → InFile (p.pages f).id
    dirty-InFile dirty = elim v.owner [
      | inl mapped ↦ reach (p.pages f).id f mapped
      | inr (_, clean) ↦ absurd (cc)
    ]

    logical_of_found :
        (q : PageId) (g : ℕ)
        → q ≢ page_id
        → find p q ≡ some g
        → logical (update_page zeroed page_lsn p f page_id) q ≡ some (p.pages g).content
    unfolding logical
    logical_of_found q g other e = ground (
      arith,
      find-update_page p f page_id q,
      pages-update_page p f page_id g,
      block-update_page p f page_id q dirty-InFile (reach q g e),
      v.table.mapped q g e,
      v.owner,
      v.nobody,
      coherent q f,
      other,
    )

    logical_of_absent :
        (q : PageId)
        → InFile q
        → q ≢ page_id
        → find p q ≡ none
        → logical (update_page zeroed page_lsn p f page_id) q ≡ block p.disk q
    unfolding logical
    logical_of_absent q here other e = ground (
      arith,
      find-update_page p f page_id q,
      block-update_page p f page_id q dirty-InFile here,
      v.owner,
      other,
    )

    -- Every page but the new one keeps its content: the page that leaves is on disk.
    pub logical-update_page :
        (q : PageId)
        → InFile q
        → q ≢ page_id
        → logical (update_page zeroed page_lsn p f page_id) q ≡ logical p q
    unfolding logical
    logical-update_page q here other = elim (Option-cases (find p q)) [
      | inl e ↦ rw (e, logical) (logical_of_absent q here other e)
      | inr (g, e) ↦ rw (e, logical) (logical_of_found q g other e)
    ]

    -- The disk still holds what it held of the page that comes in.
    pub block-update_page_self :
        InFile page_id
        → block (update_page zeroed page_lsn p f page_id).disk page_id ≡ block p.disk page_id
    block-update_page_self here =
        ground (arith, block-update_page p f page_id page_id dirty-InFile here, v.owner, absent)

    -- The pages in the pool stay within their files.
    pub update_page-AreInFile : InFile page_id → AreInFile (update_page zeroed page_lsn p f page_id)
    update_page-AreInFile here q g e = elim (PageId_discrete page_id q) [
      | yes same ↦ subst InFile same here
      | no other ↦ reach q g (ground (arith, find-update_page p f page_id q, other))
    ]

    pub coherent-update_page :
        (q : PageId) (g : ℕ)
        → q ≢ page_id
        → find (update_page zeroed page_lsn p f page_id) q ≡ some g
        → let u = update_page zeroed page_lsn p f page_id in
          (u.pages g).pin_count ≡ 0
          → (u.pages g).is_dirty ≡ false
          → block u.disk q ≡ some (u.pages g).content
    coherent-update_page q g other e unpinned clean =
        let found : find p q ≡ some g = ground (arith, find-update_page p f page_id q, other) in
        ground (
          arith,
          find-update_page p f page_id q,
          pages-update_page p f page_id g,
          block-update_page p f page_id q dirty-InFile (reach q g found),
          v.table.mapped q g,
          v.owner,
          coherent q g,
          other,
        )
