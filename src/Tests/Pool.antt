-- ===== src/Tests/Pool.antt =====
-- Runs of the buffer pool: two frames, and a disk with one page.
use grmdb.Base.{
  ℕ, ◌+◌, ◌*◌, ◌-◌, ◌^◌, ◌≡◌, ◌≢◌, refl, [], ◌∷◌, true, none, some, arith, ite, ℕ_discrete, lookup,
  erase, put,
}
use grmdb.Base.Int.{pos, negsuc, ℤ_discrete}
use grmdb.Storage.Disk.{Disk, PageId, PageId_discrete, block, read_page, invalid_page_id}
use grmdb.Storage.Disk.Blocks.{InFile}
use grmdb.Storage.Disk.Offset.{
  seek, offset_in_file, offset_in_file-lt, offset_in_file_wraps, page_size,
}
use grmdb.Recovery.LogManager.{LogManager, flush_log_to_disk, append_record}
use grmdb.Storage.BufferPool.{
  BufferPool, frame, thrown, frames_from, init, find, fetch_page, find_victim_page, update_page,
  flush_log, write_back, load_page, pin_frame, unpin_page, delete_page, new_page,
}
use grmdb.Storage.BufferPool.Invariant.{core, IsValid}
use grmdb.Storage.BufferPool.Coherent.{IsCoherent, AreInFile}
use grmdb.Storage.BufferPool.Init.{init-IsValid}
use grmdb.Storage.BufferPool.Fetch.{
  fetch_page-IsValid, fetch_page-IsFetch, fetch_page_after_throw, fetch_page_keeps_pinned, IsFetch,
  KeepsFrame,
}
use grmdb.Storage.BufferPool.Release.{unpin_page-IsValid}
use grmdb.Storage.BufferPool.Delete.{delete_page-IsValid}
use grmdb.Storage.BufferPool.Contents.{
  KeepsPages, KeepsFilePages, unpin_page-KeepsPages, unpin_page-AreInFile,
  delete_page-KeepsFilePages,
}
use grmdb.Storage.BufferPool.New.{IsNewPage, allocated, new_page-IsNewPage}
use grmdb.Storage.BufferPool.Wal.{flush_log_misses_next_record}

abbrev page : PageId
page = record { fd = pos 3; page_no = pos 0 }

abbrev missing : PageId
missing = record { fd = pos 3; page_no = pos 8 }

abbrev disk : Disk ℕ
disk = record {
  blocks = λ fd offset. ite (ℤ_discrete (pos 3) fd) (ite (ℕ_discrete 0 offset) (some 42) none) none;
  fd2pageno = λ fd. pos 1;
  log_file = [];
}

-- A page's content is a number, and its LSN too.
abbrev pool : BufferPool ℕ
pool = init 0 pos 2 (pos 9) disk none

pool-IsValid : IsValid (core pool)
pool-IsValid = (init-IsValid 0 pos 2 (pos 9) disk none).0

pool-IsCoherent : IsCoherent pool
pool-IsCoherent = (init-IsValid 0 pos 2 (pos 9) disk none).1

page_proper : page.page_no ≢ invalid_page_id
page_proper e = ground arith

missing_proper : missing.page_no ≢ invalid_page_id
missing_proper e = ground arith

pool-AreInFile : AreInFile pool
unfolding init lookup
pool-AreInFile q g e = absurd (cc)

page-InFile : InFile page
page-InFile = (0, refl, omega arith)

abbrev fetched : BufferPool ℕ
fetched = (fetch_page 0 pos pool page).1

fetched-IsValid : IsValid (core fetched)
fetched-IsValid = fetch_page-IsValid 0 pos pool page pool-IsValid page_proper

fetched-IsCoherent : IsCoherent fetched
unfolding fetch_page find_victim_page update_page flush_log write_back load_page read_page block
    seek offset_in_file lookup init frames_from erase put PageId_discrete ℕ_discrete
fetched-IsCoherent =
    (fetch_page-IsFetch 0 pos pool page pool-IsValid page_proper pool-IsCoherent pool-AreInFile
      page-InFile).coherent

fetched-AreInFile : AreInFile fetched
unfolding fetch_page find_victim_page update_page flush_log write_back load_page read_page block
    seek offset_in_file lookup init frames_from erase put PageId_discrete ℕ_discrete
fetched-AreInFile =
    (fetch_page-IsFetch 0 pos pool page pool-IsValid page_proper pool-IsCoherent pool-AreInFile
      page-InFile).reach

found_fetched : find fetched page ≡ some 0
unfolding fetch_page find_victim_page update_page flush_log write_back load_page read_page block
    seek offset_in_file lookup init frames_from erase put PageId_discrete ℕ_discrete
found_fetched = refl

pinned_fetched : (fetched.pages 0).pin_count ≡ 1
unfolding fetch_page find_victim_page update_page flush_log write_back load_page read_page block
    seek offset_in_file lookup init frames_from erase put PageId_discrete ℕ_discrete
pinned_fetched = refl

fetch_missing : fetch_page 0 pos pool missing ≡ (thrown, (fetch_page 0 pos pool missing).1)
unfolding fetch_page find_victim_page update_page flush_log write_back load_page read_page block
    seek offset_in_file lookup init frames_from erase put PageId_discrete ℕ_discrete
fetch_missing = refl

fetch_page-IsValid_example : IsValid (core (fetch_page 0 pos pool page).1)
fetch_page-IsValid_example = fetch_page-IsValid 0 pos pool page pool-IsValid page_proper

fetch_page-IsFetch_example : IsFetch 0 pos pool page (fetch_page 0 pos pool page)
fetch_page-IsFetch_example =
    fetch_page-IsFetch 0 pos pool page pool-IsValid page_proper pool-IsCoherent pool-AreInFile
      page-InFile

fetch_page_after_throw_example :
    (block pool.disk missing ≡ none)
    × ((f : ℕ) × (fetch_page 0 pos (fetch_page 0 pos pool missing).1 missing
          ≡ (frame f, pin_frame (fetch_page 0 pos pool missing).1 f))
        × (((pin_frame (fetch_page 0 pos pool missing).1 f).pages f).content ≡ 0))
fetch_page_after_throw_example =
    fetch_page_after_throw 0 pos pool missing pool-IsValid missing_proper _ fetch_missing

fetch_page_keeps_pinned_example :
    KeepsFrame 0 pos fetched page 0 (fetch_page 0 pos fetched missing).1
fetch_page_keeps_pinned_example =
    fetch_page_keeps_pinned 0 pos fetched missing page 0 fetched-IsValid found_fetched
      (rw pinned_fetched (omega arith))

new_page-IsNewPage_example :
    IsNewPage 0 pos pool (allocated pool (pos 3)) (new_page 0 pos pool (pos 3))
unfolding init lookup
new_page-IsNewPage_example =
    new_page-IsNewPage 0 pos pool (pos 3) pool-IsValid pool-IsCoherent pool-AreInFile
      (1, refl, omega arith) refl

unpin_page-IsValid_example : IsValid (core (unpin_page fetched page true).1)
unpin_page-IsValid_example = unpin_page-IsValid fetched page fetched-IsValid true

unpin_page-KeepsPages_example : KeepsPages fetched (unpin_page fetched page true).1
unpin_page-KeepsPages_example =
    unpin_page-KeepsPages fetched page fetched-IsValid fetched-IsCoherent true
      (λ f found said clean. absurd (ground arith))

-- The page is dirty, unpinned and still in its frame.
abbrev released : BufferPool ℕ
released = (unpin_page fetched page true).1

released-KeepsPages : KeepsPages fetched released
released-KeepsPages =
    unpin_page-KeepsPages fetched page fetched-IsValid fetched-IsCoherent true
      (λ f found said clean. absurd (ground arith))

released-AreInFile : AreInFile released
released-AreInFile = unpin_page-AreInFile fetched page true fetched-AreInFile

released-IsValid : IsValid (core released)
released-IsValid = unpin_page-IsValid fetched page fetched-IsValid true

delete_page-IsValid_example : IsValid (core (delete_page 0 pos released page).1)
delete_page-IsValid_example = delete_page-IsValid 0 pos released page released-IsValid

delete_page-KeepsFilePages_example : KeepsFilePages released (delete_page 0 pos released page).1
delete_page-KeepsFilePages_example =
    delete_page-KeepsFilePages 0 pos released page released-IsValid released-KeepsPages.coherent
      released-AreInFile

offset_in_file-lt_example : offset_in_file 5 ≡ pos 20480
offset_in_file-lt_example = offset_in_file-lt 5 (omega arith)

offset_in_file_wraps_example :
    (offset_in_file (2 ^ 19 + 0) ≡ negsuc (2 ^ 31 - 0 * page_size - 1))
    × (offset_in_file (2 ^ 20 + 0) ≡ offset_in_file 0)
offset_in_file_wraps_example = offset_in_file_wraps 0 (omega arith)

-- A log with three bytes in the buffer, of which nothing is persistent.
abbrev logging : LogManager
logging = record { global_lsn = pos 4; log_buffer = 1 ∷ 2 ∷ 3 ∷ []; persist_lsn = pos 1 }

abbrev logged_pool : BufferPool ℕ
logged_pool = record pool { log_manager = some logging }

abbrev next_record : LogManager
next_record = append_record (flush_log_to_disk logging disk).0 (λ lsn. 9 ∷ [])

abbrev stamped_pool : BufferPool ℕ
stamped_pool = record pool { log_manager = some next_record }

flush_log_misses_next_record_example :
    (flush_log 0 pos stamped_pool 4 ≡ stamped_pool) × (next_record.log_buffer ≡ 9 ∷ [])
flush_log_misses_next_record_example =
    flush_log_misses_next_record 0 pos stamped_pool 4 logging disk (λ lsn. 9 ∷ []) (omega arith)
      refl refl
