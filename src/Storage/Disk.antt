-- ===== src/Storage/Disk.antt =====
-- src/storage/disk_manager.cpp and PageId of src/storage/page.h. The files are the operating
-- system's: a file is its pages, each absent until it is written, and the log file is its bytes.
-- A page is read and written whole, at its offset; opening, closing and naming files is left out.
pub mod Offset
pub mod Blocks
use grmdb.Base.{ℕ, suc, ◌+◌, ◌-◌, ◌*◌, ◌%◌, ◌^◌, List, ◌++◌, Option, none, some, ite, ℕ_discrete}
use grmdb.Base.Int.{ℤ, negsuc, ℤ_discrete, incr}
use grmdb.Storage.Disk.Offset.{seek}

abbrev pub invalid_page_id : ℤ
invalid_page_id = negsuc 0

pub record PageId : Type 0 where
  pub fd : ℤ
  pub page_no : ℤ

unfoldable pub PageId_discrete : Discrete PageId
unfolding ℤ_discrete
PageId_discrete = hlevel ℤ_discrete

-- D is the content of a page. A file holds a page at an offset, or nothing there.
pub record Disk (D : Type 0) : Type 0 where
  pub blocks : ℤ → ℕ → Option D
  pub fd2pageno : ℤ → ℤ
  pub log_file : List ℕ

module _ {D : Type 0} where
  -- What the disk holds where a page lies.
  unfoldable pub block : Disk D → PageId → Option D
  unfolding seek
  block disk page_id = elim (seek page_id.page_no) [
    | none ↦ none
    | some offset ↦ disk.blocks page_id.fd offset
  ]

  -- A page whose `lseek` fails, by an exception in the source, is not written.
  unfoldable pub write_page : Disk D → PageId → D → Disk D
  unfolding seek
  write_page disk page_id content = elim (seek page_id.page_no) [
    | none ↦ disk
    | some offset ↦ record disk {
      blocks = λ fd at.
          ite (ℤ_discrete page_id.fd fd)
            (ite (ℕ_discrete offset at) (some content) (disk.blocks fd at)) (disk.blocks fd at);
    }
  ]

  -- `none` is the InternalError of a failed `lseek` or of a short read. A file is made of whole
  -- pages, so that a read that is short reads nothing.
  unfoldable pub read_page : Disk D → PageId → Option D
  unfolding block
  read_page disk page_id = block disk page_id

  unfoldable pub allocate_page : Disk D → ℤ → ℤ × Disk D
  allocate_page disk fd = (
    disk.fd2pageno fd,
    record disk {
      fd2pageno = λ g. ite (ℤ_discrete fd g) (incr (disk.fd2pageno fd)) (disk.fd2pageno g);
    },
  )

  unfoldable pub write_log : Disk D → List ℕ → Disk D
  write_log disk log_data = record disk { log_file = disk.log_file ++ log_data }
