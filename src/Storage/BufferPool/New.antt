-- ===== src/Storage/BufferPool/New.antt =====
-- new_page: a fresh page number of the file, in a frame of its own and on disk, zeroed.
use grmdb.Base.{
  ℕ, ap, sym, ite, ◌<◌, ◌≡◌, ◌≢◌, refl, ◌∙◌, inl, inr, Option, none, some, arith, List, [],
  Option-cases,
}
use grmdb.Base.Int.{ℤ, pos, incr}
use grmdb.Replacer.{LruReplacer}
use grmdb.Replacer.Laws.{frames}
use grmdb.Storage.Disk.{PageId, PageId_discrete, invalid_page_id, block, allocate_page, write_page}
use grmdb.Storage.Disk.Blocks.{InFile, block-write_page, fd2pageno-write_page}
use grmdb.Storage.BufferPool.{BufferPool, find, update_page, find_victim_page, pin_frame, new_page}
use grmdb.Storage.BufferPool.Invariant.{core, IsValid, IsClaimed}
use grmdb.Storage.BufferPool.Claim.{
  find_victim_page-IsClaimed, find_victim_page-none, pin_frame-IsValid,
}
use grmdb.Storage.BufferPool.Coherent.{
  logical, IsCoherent, AreInFile, update_page-AreInFile, logical-update_page, coherent-update_page,
  pages-update_page, fd2pageno-update_page,
}
use grmdb.Storage.BufferPool.Remap.{fresh_page}
use grmdb.Storage.BufferPool.Access.{
  with_frames, find_victim_page_keeps, updated, updated-IsValid, updated_self, other_frame,
}

-- The new page in its frame, and what it leaves as it was.
pub record IsNew {D : Type 0} (zeroed : D) (p p' : BufferPool D) (page_id : PageId) (f : ℕ)
    : Type 0 where
  pub resident : find p' page_id ≡ some f
  pub pinned : 0 < (p'.pages f).pin_count
  pub blank : (p'.pages f).content ≡ zeroed
  pub on_disk : block p'.disk page_id ≡ some zeroed
  pub counted : p'.disk.fd2pageno page_id.fd ≡ incr (p.disk.fd2pageno page_id.fd)
  pub unchanged : (q : PageId) → InFile q → q ≢ page_id → logical p' q ≡ logical p q
  pub reach : AreInFile p'
  pub coherent : IsCoherent p'
  pub valid : IsValid (core p')

-- A page in its file is not the invalid one.
InFile-proper : (page_id : PageId) → InFile page_id → page_id.page_no ≢ invalid_page_id
InFile-proper page_id (n, e, lt) invalid =
    let same : pos n ≡ invalid_page_id = sym e ∙ invalid in ground (arith, same)

-- The page that the file's counter names.
abbrev pub allocated : {D : Type 0} → BufferPool D → ℤ → PageId
allocated p fd = record { fd = fd; page_no = p.disk.fd2pageno fd }

module _ {D : Type 0} (zeroed : D) (page_lsn : D → ℤ) where
  -- What each outcome of new_page promises, for the page that the file's counter names.
  abbrev pub IsNewPage : BufferPool D → PageId → Option (ℕ × PageId) × BufferPool D → Type 0
  IsNewPage p page_id (none, p') = (p' ≡ p) × (p.free_list ≡ []) × (frames p.replacer ≡ [])
  IsNewPage p page_id (some (f, page_id'), p') = (page_id' ≡ page_id) × IsNew zeroed p p' page_id f

  -- The steps of new_page from update_page on.
  unfoldable written : BufferPool D → ℕ → PageId → BufferPool D
  written w f page_id =
      let q = pin_frame (update_page zeroed page_lsn w f page_id) f in
      record q { disk = write_page q.disk page_id (q.pages f).content }

  module _ (w : BufferPool D) (f : ℕ) (page_id : PageId) (coherent : IsCoherent w)
      (proper : page_id.page_no ≢ invalid_page_id) (absent : find w page_id ≡ none)
      (claimed : IsClaimed (core w) f) (reach : AreInFile w) (in_file : InFile page_id) where
    here : find (update_page zeroed page_lsn w f page_id) page_id ≡ some f
    unfolding updated
    here = updated_self zeroed page_lsn w f page_id claimed proper absent

    elsewhere :
        (q : PageId) (g : ℕ)
        → q ≢ page_id
        → find (update_page zeroed page_lsn w f page_id) q ≡ some g
        → f ≢ g
    unfolding updated
    elsewhere = other_frame zeroed page_lsn w f page_id claimed proper absent

    blank_page :
        (update_page zeroed page_lsn w f page_id).pages f ≡ fresh_page zeroed page_lsn page_id
    blank_page = ground (arith, pages-update_page zeroed page_lsn w f page_id f)

    written-IsValid : IsValid (core (written w f page_id))
    unfolding written updated
    written-IsValid =
        let valid = updated-IsValid zeroed page_lsn w f page_id claimed proper absent in
        pin_frame-IsValid (update_page zeroed page_lsn w f page_id) f valid
          (valid.table.used page_id f here)

    wrote :
        (q : PageId)
        → InFile q
        → block (written w f page_id).disk q
          ≡ ite
              (PageId_discrete page_id q)
              (some zeroed)
              (block (update_page zeroed page_lsn w f page_id).disk q)
    unfolding written fresh_page
    wrote q there =
        let u = update_page zeroed page_lsn w f page_id in
        block-write_page u.disk ((pin_frame u f).pages f).content page_id q in_file there
        ∙ ap (λ x. ite (PageId_discrete page_id q) (some x) (block u.disk q))
            (ground (arith, blank_page))

    logical-written :
        (q : PageId)
        → InFile q
        → q ≢ page_id
        → logical (written w f page_id) q ≡ logical (update_page zeroed page_lsn w f page_id) q
    unfolding written logical
    logical-written q there other =
        elim (Option-cases (find (update_page zeroed page_lsn w f page_id) q)) [
          | inl e ↦ ground (arith, other, wrote q there)
          | inr (g, e) ↦ ground (arith, elsewhere q g other e)
        ]

    written-IsCoherent : IsCoherent (written w f page_id)
    unfolding written
    written-IsCoherent q g found unpinned clean = elim (PageId_discrete q page_id) [
      | yes same ↦ absurd (ground (arith, here))
      | no other ↦ ground (
        arith,
        other,
        elsewhere q g other found,
        wrote q (
            update_page-AreInFile zeroed page_lsn w f page_id claimed coherent absent reach in_file
              q g found),
        coherent-update_page zeroed page_lsn w f page_id claimed coherent absent reach q g other
            found,
      )
    ]

  -- The pool with the frame taken and the file's counter moved on.
  abbrev counted : BufferPool D → List ℕ → LruReplacer → ℤ → BufferPool D
  counted p fs r fd = record (with_frames p fs r) { disk = (allocate_page p.disk fd).1 }

  counted-IsNew :
      (p : BufferPool D) (fd : ℤ) (fs : List ℕ) (r : LruReplacer) (f : ℕ)
      → IsCoherent p
      → p.disk.fd2pageno fd ≢ invalid_page_id
      → find p (allocated p fd) ≡ none
      → IsClaimed (core (with_frames p fs r)) f
      → AreInFile p
      → InFile (allocated p fd)
      → IsNew zeroed p (written (counted p fs r fd) f (allocated p fd)) (allocated p fd) f
  unfolding written logical allocate_page fresh_page block
  counted-IsNew p fd fs r f coherent proper absent claimed reach in_file =
      let w = counted p fs r fd in
      let id = allocated p fd in
      let blank = blank_page w f id coherent proper absent claimed reach in_file in
      record {
        resident = here w f id coherent proper absent claimed reach in_file;
        pinned = ground arith;
        blank = ground (arith, blank);
        on_disk =
            ground (arith, wrote w f id coherent proper absent claimed reach in_file id in_file);
        counted = ground (
          arith,
          fd2pageno-update_page zeroed page_lsn w f id,
          (let q = pin_frame (update_page zeroed page_lsn w f id) f in
              fd2pageno-write_page q.disk (q.pages f).content id),
        );
        unchanged = λ q there other.
            logical-written w f id coherent proper absent claimed reach in_file q there other
            ∙ logical-update_page zeroed page_lsn w f id claimed coherent absent reach q there
                other;
        reach = update_page-AreInFile zeroed page_lsn w f id claimed coherent absent reach in_file;
        coherent = written-IsCoherent w f id coherent proper absent claimed reach in_file;
        valid = written-IsValid w f id coherent proper absent claimed reach in_file;
      }

  -- On a valid and coherent pool whose pages lie in their files, where the page that the file's
  -- counter names lies in its file too and is not resident: new_page hands out that page, in a
  -- frame of its own, pinned, zeroed there and on disk, moves the counter on and changes no other
  -- page that lies in its file; it fails only if no frame is free and none can be evicted, and then
  -- changes nothing. A page lies in its file if its number is below 2^19.
  pub new_page-IsNewPage :
      (p : BufferPool D) (fd : ℤ)
      → IsValid (core p)
      → IsCoherent p
      → AreInFile p
      → InFile (allocated p fd)
      → find p (allocated p fd) ≡ none
      → IsNewPage p (allocated p fd) (new_page zeroed page_lsn p fd)
  unfolding new_page written allocate_page
  new_page-IsNewPage p fd v coherent reach in_file absent =
      elim (Option-cases (find_victim_page p).0) [
        | inl gone ↦
            let (same, no_free, no_frame) = find_victim_page-none p v.table.linked gone in
            rw (gone, new_page) (same, no_free, no_frame)
        | inr (f, got) ↦
            let (fs, r, keeps) = find_victim_page_keeps p in
            rw (got, new_page, keeps)
              (
                refl,
                counted-IsNew p fd fs r f coherent (InFile-proper (allocated p fd) in_file) absent
                    (rw keeps at (find_victim_page-IsClaimed p f v got)) reach in_file,
              )
      ]
