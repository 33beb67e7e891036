-- ===== src/Storage/BufferPool/Access.antt =====
-- The parts of fetch_page: a page that is in the pool, and a page that is read into a frame.
use grmdb.Replacer.{LruReplacer}
use grmdb.Base.{ℕ, List, ◌<◌, ◌≡◌, ◌≢◌, sym, ◌∙◌, inl, inr, none, some, arith, Option-cases}
use grmdb.Base.Int.{ℤ}
use grmdb.Storage.Disk.{PageId, PageId_discrete, invalid_page_id, block}
use grmdb.Storage.Disk.Blocks.{InFile}
use grmdb.Storage.BufferPool.{BufferPool, find, update_page, find_victim_page, pin_frame, set_page}
use grmdb.Storage.BufferPool.Invariant.{core, IsValid, IsClaimed}
use grmdb.Storage.BufferPool.Remap.{core-update_page, remap-IsValid}
use grmdb.Storage.BufferPool.Claim.{pin_frame-IsValid, set_content-IsValid}
use grmdb.Storage.BufferPool.Coherent.{
  logical, IsCoherent, AreInFile, update_page-AreInFile, logical-update_page, coherent-update_page,
  find-update_page,
}

-- What a client gets: the page in its frame, pinned, with its content; all pages that lie in their
-- files as before.
pub record IsFetched {D : Type 0} (p p' : BufferPool D) (page_id : PageId) (f : ℕ) : Type 0 where
  pub resident : find p' page_id ≡ some f
  pub pinned : 0 < (p'.pages f).pin_count
  pub content : logical p page_id ≡ some (p'.pages f).content
  pub unchanged : (q : PageId) → InFile q → logical p' q ≡ logical p q
  pub coherent : IsCoherent p'
  pub reach : AreInFile p'

module _ {D : Type 0} where
  abbrev pub with_frames : BufferPool D → List ℕ → LruReplacer → BufferPool D
  with_frames p fs r = record p { free_list = fs; replacer = r }

  -- Taking a frame changes neither the pages nor the table nor the disk.
  pub find_victim_page_keeps :
      (p : BufferPool D)
      → (fs : List ℕ) × (r : LruReplacer) × ((find_victim_page p).1 ≡ with_frames p fs r)
  unfolding find_victim_page
  find_victim_page_keeps p =
      ((find_victim_page p).1.free_list, (find_victim_page p).1.replacer, ground arith)

  pub IsFetched-with_frames :
      (p p' : BufferPool D) (fs : List ℕ) (r : LruReplacer) (page_id : PageId) (f : ℕ)
      → IsFetched (with_frames p fs r) p' page_id f
      → IsFetched p p' page_id f
  unfolding logical
  IsFetched-with_frames p p' fs r page_id f v = record {
    resident = v.resident;
    pinned = v.pinned;
    content = v.content;
    unchanged = v.unchanged;
    coherent = v.coherent;
    reach = v.reach;
  }

  pub pin_frame-IsFetched :
      (p : BufferPool D) (page_id : PageId) (f : ℕ)
      → IsValid (core p)
      → IsCoherent p
      → AreInFile p
      → find p page_id ≡ some f
      → IsFetched p (pin_frame p f) page_id f
  unfolding logical
  pin_frame-IsFetched p page_id f v coherent reach e = record {
    resident = e;
    pinned = ground arith;
    content = ground arith;
    unchanged = λ q _. ground arith;
    coherent = λ q g. ground (arith, coherent q g);
    reach = reach;
  }

module _ {D : Type 0} (zeroed : D) (page_lsn : D → ℤ) where
  module _ (p : BufferPool D) (f : ℕ) (page_id : PageId) (v : IsClaimed (core p) f)
      (proper : page_id.page_no ≢ invalid_page_id) (absent : find p page_id ≡ none) where
    unfoldable pub updated : BufferPool D
    updated = update_page zeroed page_lsn p f page_id

    abbrev pub loaded : D → BufferPool D
    unfolding updated
    loaded x = set_page updated f (record (updated.pages f) { content = x })

    pub updated-IsValid : IsValid (core updated)
    unfolding updated
    updated-IsValid =
        rw core-update_page (remap-IsValid zeroed page_lsn (core p) f page_id v proper absent)

    pub loaded-IsValid : (x : D) → IsValid (core (loaded x))
    unfolding updated
    loaded-IsValid x = set_content-IsValid updated f x updated-IsValid

    pub updated_self : find updated page_id ≡ some f
    unfolding updated
    updated_self = ground (arith, find-update_page zeroed page_lsn p f page_id page_id)

    -- Frame f holds the new page and no other.
    pub other_frame : (q : PageId) (g : ℕ) → q ≢ page_id → find updated q ≡ some g → f ≢ g
    other_frame q g other e same = other (
        sym (updated-IsValid.table.mapped q g e)
        ∙ (rw (← same) (updated-IsValid.table.mapped page_id f updated_self)))

    logical-loaded :
        (x : D) (q : PageId) → q ≢ page_id → logical (pin_frame (loaded x) f) q ≡ logical updated q
    unfolding updated logical
    logical-loaded x q other = elim (Option-cases (find updated q)) [
      | inl e ↦ ground arith
      | inr (g, e) ↦ ground (arith, other_frame q g other e)
    ]

    -- The frame with the page in it, pinned, keeps the invariant.
    pub fetched-IsValid : (x : D) → IsValid (core (pin_frame (loaded x) f))
    unfolding updated
    fetched-IsValid x =
        pin_frame-IsValid (loaded x) f (loaded-IsValid x)
          (updated-IsValid.table.used page_id f updated_self)

    module _ (coherent : IsCoherent p) (reach : AreInFile p) (here : InFile page_id) where
      pub loaded-IsFetched :
          (x : D) → block p.disk page_id ≡ some x → IsFetched p (pin_frame (loaded x) f) page_id f
      unfolding updated logical
      loaded-IsFetched x e = record {
        resident = updated_self;
        pinned = ground arith;
        content = ground (arith, absent);
        unchanged = λ q there. elim (PageId_discrete q page_id) [
          | yes same ↦ rw same (ground (arith, updated_self, absent))
          | no other ↦
              logical-loaded x q other
              ∙ logical-update_page zeroed page_lsn p f page_id v coherent absent reach q there
                  other
        ];
        coherent = λ q g found unpinned clean. elim (PageId_discrete q page_id) [
          | yes same ↦ absurd (ground (arith, updated_self))
          | no other ↦ ground (
            arith,
            other_frame q g other found,
            coherent-update_page zeroed page_lsn p f page_id v coherent absent reach q g other
                found,
          )
        ];
        reach = update_page-AreInFile zeroed page_lsn p f page_id v coherent absent reach here;
      }
