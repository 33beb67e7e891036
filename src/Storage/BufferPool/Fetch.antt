-- ===== src/Storage/BufferPool/Fetch.antt =====
-- fetch_page as a whole: by cases, what it returns, and what it leaves behind.
use grmdb.Base.{
  ℕ, ◌≤◌, ◌<◌, ◌≡◌, ◌≢◌, refl, subst, sym, ◌∙◌, inl, inr, none, some, arith, Option-cases, List, [],
}
use grmdb.Base.Int.{ℤ}
use grmdb.Replacer.{LruReplacer}
use grmdb.Replacer.Laws.{frames}
use grmdb.Storage.Disk.{PageId, invalid_page_id, block, read_page}
use grmdb.Storage.Disk.Blocks.{InFile}
use grmdb.Storage.BufferPool.{
  BufferPool, Fetched, frame, null, thrown, find, update_page, find_victim_page, pin_frame,
  load_page, fetch_page, set_page,
}
use grmdb.Storage.BufferPool.Invariant.{core, IsValid, IsClaimed}
use grmdb.Storage.BufferPool.Claim.{
  find_victim_page-IsClaimed, find_victim_page-none, pin_frame-IsValid,
}
use grmdb.Storage.BufferPool.Coherent.{
  IsCoherent, AreInFile, block-none-update_page, pages-update_page, block-update_page_self,
  find-update_page,
}
use grmdb.Storage.BufferPool.Remap.{fresh_page}
use grmdb.Storage.BufferPool.Access.{
  IsFetched, with_frames, find_victim_page_keeps, IsFetched-with_frames, pin_frame-IsFetched,
  updated, updated-IsValid, fetched-IsValid, updated_self, loaded-IsFetched,
}

module _ {D : Type 0} (zeroed : D) (page_lsn : D → ℤ) where
  module _ {ℓ} (P : Fetched × BufferPool D → Type ℓ) (p : BufferPool D) (page_id : PageId)
      (v : IsValid (core p)) where
    by_read :
        (q : BufferPool D) (f : ℕ)
        → (block q.disk page_id ≡ none → P (thrown, q))
        → ((x : D)
            → block q.disk page_id ≡ some x
            → P (frame f, pin_frame (set_page q f (record (q.pages f) { content = x })) f))
        → P (load_page zeroed page_lsn q f page_id)
    unfolding load_page read_page
    by_read q f failed found = elim (Option-cases (block q.disk page_id)) [
      | inl e ↦ rw (e, load_page) (failed e)
      | inr (x, e) ↦ rw (e, load_page) (found x e)
    ]

    -- The four ways that a fetch ends.
    fetch_page_cases :
        ((f : ℕ) → find p page_id ≡ some f → P (frame f, pin_frame p f))
        → (find p page_id ≡ none → p.free_list ≡ [] → frames p.replacer ≡ [] → P (null, p))
        → ((fs : List ℕ) (r : LruReplacer) (f : ℕ)
            → find p page_id ≡ none
            → IsClaimed (core (with_frames p fs r)) f
            → P (
                load_page zeroed page_lsn
                  (update_page zeroed page_lsn (with_frames p fs r) f page_id)
                  f
                  page_id))
        → P (fetch_page zeroed page_lsn p page_id)
    unfolding fetch_page
    fetch_page_cases hit full miss = elim (Option-cases (find p page_id)) [
      | inr (f, e) ↦ rw (e, fetch_page) (hit f e)
      | inl e ↦
          rw (e, fetch_page)
            (elim (Option-cases (find_victim_page p).0) [
              | inl gone ↦
                  let (same, no_free, no_frame) = find_victim_page-none p v.table.linked gone in
                  rw (gone, same) (full e no_free no_frame)
              | inr (f, got) ↦
                  let (fs, r, keeps) = find_victim_page_keeps p in
                  rw (got, keeps)
                    (miss fs r f e (rw keeps at (find_victim_page-IsClaimed p f v got)))
            ])
    ]

  -- What each outcome of a fetch promises.
  abbrev pub IsFetch : BufferPool D → PageId → Fetched × BufferPool D → Type 0
  IsFetch p page_id (frame f, p') = IsFetched p p' page_id f
  IsFetch p page_id (null, p') = (p' ≡ p) × (p.free_list ≡ []) × (frames p.replacer ≡ [])
  IsFetch p page_id (thrown, p') =
      (block p.disk page_id ≡ none)
      × ((f : ℕ) × (find p' page_id ≡ some f) × ((p'.pages f).content ≡ zeroed))

  -- What an exception leaves.
  abbrev IsThrown : BufferPool D → PageId → Fetched × BufferPool D → Type 0
  IsThrown p page_id (frame f, p') = Unit {0}
  IsThrown p page_id (null, p') = Unit {0}
  IsThrown p page_id (thrown, p') =
      (block p.disk page_id ≡ none)
      × ((f : ℕ) × (find p' page_id ≡ some f) × ((p'.pages f).content ≡ zeroed))

  module _ (p : BufferPool D) (page_id : PageId) (v : IsValid (core p))
      (proper : page_id.page_no ≢ invalid_page_id) where
    -- On a valid pool, and for a page number that is not the invalid one, the table, the frames, the
    -- free list and the replacer agree after a fetch, however it ends.
    pub fetch_page-IsValid : IsValid (core (fetch_page zeroed page_lsn p page_id).1)
    unfolding updated
    fetch_page-IsValid =
        fetch_page_cases (λ r. IsValid (core r.1)) p page_id v
          (λ f e. pin_frame-IsValid p f v (v.table.used page_id f e)) (λ _ _ _. v)
          (λ fs r f absent claimed.
            let q = with_frames p fs r in
            by_read (λ s. IsValid (core s.1)) p page_id v _ f
              (λ _. updated-IsValid zeroed page_lsn q f page_id claimed proper absent)
              (λ x _. fetched-IsValid zeroed page_lsn q f page_id claimed proper absent x))

    missed-IsThrown :
        (fs : List ℕ) (r : LruReplacer) (f : ℕ)
        → find p page_id ≡ none
        → IsClaimed (core (with_frames p fs r)) f
        → let q = update_page zeroed page_lsn (with_frames p fs r) f page_id in
          block q.disk page_id ≡ none → IsThrown p page_id (thrown, q)
    unfolding updated fresh_page
    missed-IsThrown fs r f absent claimed e =
        let q = with_frames p fs r in
        (
          block-none-update_page zeroed page_lsn q f page_id page_id e,
          (
            f,
            updated_self zeroed page_lsn q f page_id claimed proper absent,
            ground (arith, pages-update_page zeroed page_lsn q f page_id f),
          ),
        )

    fetch_page-IsThrown : IsThrown p page_id (fetch_page zeroed page_lsn p page_id)
    fetch_page-IsThrown =
        fetch_page_cases (IsThrown p page_id) p page_id v (λ f e. tt) (λ _ _ _. tt)
          (λ fs r f absent claimed.
            by_read (IsThrown p page_id) p page_id v _ f (missed-IsThrown fs r f absent claimed)
              (λ x e. tt))

    -- On a valid and coherent pool whose pages lie in their files, for a page that does too: a
    -- fetched page has the content that it had before, in the pool or on disk, and no other page
    -- that lies in its file changes; no frame is found only if none is free and none can be
    -- evicted, and then nothing changes; an exception means that the disk has no such page. A page
    -- lies in its file if its number is below 2^19.
    pub fetch_page-IsFetch :
        IsCoherent p
        → AreInFile p
        → InFile page_id
        → IsFetch p page_id (fetch_page zeroed page_lsn p page_id)
    unfolding updated fresh_page
    fetch_page-IsFetch coherent reach here =
        fetch_page_cases (IsFetch p page_id) p page_id v
          (λ f e. pin_frame-IsFetched p page_id f v coherent reach e)
          (λ _ no_free no_frame. (refl, no_free, no_frame))
          (λ fs r f absent claimed.
            let q = with_frames p fs r in
            let before =
              block-update_page_self zeroed page_lsn q f page_id claimed coherent absent reach
                here in
            by_read (IsFetch p page_id) p page_id v _ f (missed-IsThrown fs r f absent claimed)
              (λ x e. IsFetched-with_frames p _ fs r page_id f (
                loaded-IsFetched zeroed page_lsn q f page_id claimed proper absent coherent reach
                  here x (sym before ∙ e))))

    -- On a valid pool, and for a page number that is not the invalid one, a fetch that ends by an
    -- exception leaves the page mapped to a zeroed frame: the next fetch of the same page finds it
    -- there and returns the zeroed content, though the disk has no such page.
    pub fetch_page_after_throw :
        (p' : BufferPool D)
        → fetch_page zeroed page_lsn p page_id ≡ (thrown, p')
        → (block p.disk page_id ≡ none)
          × ((f : ℕ) × (fetch_page zeroed page_lsn p' page_id ≡ (frame f, pin_frame p' f))
              × (((pin_frame p' f).pages f).content ≡ zeroed))
    unfolding fetch_page
    fetch_page_after_throw p' e =
        let (no_block, kept) = subst (IsThrown p page_id) e fetch_page-IsThrown in
        let (f, found, blank) = kept in (no_block, (f, rw (found, fetch_page), ground arith))

  -- Frame g still holds page q, with the same content and no fewer pins.
  abbrev pub KeepsFrame : BufferPool D → PageId → ℕ → BufferPool D → Type 0
  KeepsFrame p q g p' =
      (find p' q ≡ some g)
      × ((p'.pages g).content ≡ (p.pages g).content)
      × ((p.pages g).pin_count ≤ (p'.pages g).pin_count)

  update_page_keeps :
      (p : BufferPool D) (page_id q : PageId) (f g : ℕ)
      → IsClaimed (core p) f
      → find p page_id ≡ none
      → find p q ≡ some g
      → f ≢ g
      → KeepsFrame p q g (update_page zeroed page_lsn p f page_id)
  update_page_keeps p page_id q f g claimed absent e other =
      let pages = pages-update_page zeroed page_lsn p f page_id g in
      (
        ground (
          arith,
          find-update_page zeroed page_lsn p f page_id q,
          claimed.owner,
          absent,
          other,
          claimed.table.mapped q g e,
        ),
        ground (arith, pages, other),
        ground (arith, pages, other),
      )

  -- On a valid pool, a page that somebody has pinned stays in its frame over a fetch of any page,
  -- with its content and no fewer pins.
  pub fetch_page_keeps_pinned :
      (p : BufferPool D) (page_id q : PageId) (g : ℕ)
      → IsValid (core p)
      → find p q ≡ some g
      → 0 < (p.pages g).pin_count
      → KeepsFrame p q g (fetch_page zeroed page_lsn p page_id).1
  fetch_page_keeps_pinned p page_id q g v e pinned =
      fetch_page_cases (λ r. KeepsFrame p q g r.1) p page_id v
        (λ f hit. (e, ground arith, ground arith)) (λ _ _ _. (e, refl, omega arith))
        (λ fs r f absent claimed.
          let w = with_frames p fs r in
          let other : f ≢ g = λ same. ground (arith, claimed.nobody) in
          let kept = update_page_keeps w page_id q f g claimed absent e other in
          by_read (λ s. KeepsFrame p q g s.1) p page_id v _ f (λ _. kept)
            (λ x _. (kept.0, ground (arith, kept.1, other), ground (arith, kept.2, other))))
