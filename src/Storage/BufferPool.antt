-- ===== src/Storage/BufferPool.antt =====
-- src/storage/buffer_pool_manager.h and .cpp, and Page of page.h. `pages_[f]` is frame f; a `Page*`
-- that an operation returns is the frame. The content type D, the zeroed page and the LSN that a
-- page carries are parameters. Each operation runs under the pool's latch, so it is one step.
pub mod Invariant
mod Remap
mod Claim
mod Access
pub mod Fetch
pub mod New
pub mod Release
pub mod Delete
pub mod Contents
pub mod Init
pub mod Wal
pub mod Coherent
use grmdb.Base.{
  ℕ, zero, suc, ◌-◌, Bool, true, false, ◌&&◌, List, [], ◌∷◌, ◌++◌, Option, none, some, ite, ltb,
  ◌==◌, ℕ_discrete, if◌then◌else◌, holds, lookup, erase, put,
}
use grmdb.Base.Int.{ℤ, negsuc, ltb_ℤ, ℤ_discrete}
use grmdb.Storage.Disk.{
  PageId, PageId_discrete, Disk, write_page, read_page, allocate_page, invalid_page_id,
}
use grmdb.Replacer.{LruReplacer, victim, pin, unpin, init as init_replacer}
use grmdb.Recovery.LogManager.{LogManager, flush_log_to_disk}

-- `data_` is `content`.
pub record Page (D : Type 0) : Type 0 where
  pub id : PageId
  pub content : D
  pub is_dirty : Bool
  pub pin_count : ℕ

pub record BufferPool (D : Type 0) : Type 0 where
  pub pool_size : ℕ
  pub pages : ℕ → Page D
  pub page_table : List (PageId × ℕ)
  pub free_list : List ℕ
  pub disk : Disk D
  pub replacer : LruReplacer
  pub log_manager : Option LogManager

-- A frame, `nullptr`, or an exception of the disk.
pub data Fetched : Type 0 where
  frame : ℕ → Fetched
  null : Fetched
  thrown : Fetched

-- The frames of the constructor's loop, i, i + 1, ….
unfoldable pub frames_from : ℕ → ℕ → List ℕ
frames_from i zero = []
frames_from i (suc rounds) = i ∷ frames_from (suc i) rounds

abbrev pub no_page : PageId
no_page = record { fd = negsuc 0; page_no = invalid_page_id }

module _ {D : Type 0} where
  abbrev pub set_page : BufferPool D → ℕ → Page D → BufferPool D
  set_page p f page = record p { pages = λ g. ite (ℕ_discrete f g) page (p.pages g) }

  abbrev pub find : BufferPool D → PageId → Option ℕ
  find p page_id = lookup PageId_discrete page_id p.page_table

  unfoldable pub mark_dirty : BufferPool D → ℕ → BufferPool D
  mark_dirty p f = set_page p f (record (p.pages f) { is_dirty = true })

  unfoldable pub write_back : BufferPool D → ℕ → BufferPool D
  write_back p f =
      if (p.pages f).is_dirty
      then record p { disk = write_page p.disk (p.pages f).id (p.pages f).content }
      else p

  -- `page->pin_count_++; replacer_->pin(frame_id);`
  abbrev pub pin_frame : BufferPool D → ℕ → BufferPool D
  pin_frame p f =
      record (set_page p f (record (p.pages f) { pin_count = suc (p.pages f).pin_count })) {
        replacer = pin p.replacer f;
      }

  unfoldable pub find_victim_page : BufferPool D → Option ℕ × BufferPool D
  find_victim_page p = elim p.free_list [
    | [] ↦ let (frame_id, r) = victim p.replacer in (frame_id, record p { replacer = r })
    | f ∷ rest ↦ (some f, record p { free_list = rest })
  ]

  -- One pin less; without pins the frame can be evicted.
  unfoldable pub drop_pin : BufferPool D → ℕ → Bool → BufferPool D
  drop_pin p f is_dirty =
      let page = p.pages f in
      record (set_page p f (record page {
        pin_count = page.pin_count - 1;
        is_dirty = if is_dirty then true else page.is_dirty;
      })) { replacer = if page.pin_count - 1 == 0 then unpin p.replacer f else p.replacer }

  unfoldable pub unpin_page : BufferPool D → PageId → Bool → Bool × BufferPool D
  unpin_page p page_id is_dirty = elim (find p page_id) [
    | none ↦ (false, p)
    | some f ↦ if (p.pages f).pin_count == 0 then (false, p) else (true, drop_pin p f is_dirty)
  ]

  -- The page goes to disk, dirty or not, and its frame is clean.
  unfoldable pub write_frame : BufferPool D → PageId → ℕ → BufferPool D
  write_frame p page_id f = record (set_page p f (record (p.pages f) { is_dirty = false })) {
    disk = write_page p.disk page_id (p.pages f).content;
  }

  unfoldable pub flush_page : BufferPool D → PageId → Bool × BufferPool D
  flush_page p page_id = elim (find p page_id) [
    | none ↦ (false, p)
    | some f ↦ (true, write_frame p page_id f)
  ]

  -- The loop of `flush_all_pages`, over the entries of the page table.
  flush_entries : ℤ → List (PageId × ℕ) → BufferPool D → BufferPool D
  flush_entries fd [] p = p
  flush_entries fd ((page_id, f) ∷ entries) p =
      flush_entries fd entries (ite (ℤ_discrete fd page_id.fd) (write_frame p page_id f) p)

  unfoldable pub flush_all_pages : BufferPool D → ℤ → BufferPool D
  unfolding flush_entries
  flush_all_pages p fd = flush_entries fd p.page_table p

module _ {D : Type 0} (zeroed : D) (page_lsn : D → ℤ) where
  -- `fd` of an identity that was never set is left as it is found.
  unfoldable pub init : ℕ → ℤ → Disk D → Option LogManager → BufferPool D
  unfolding frames_from
  init pool_size garbage disk log_manager = record {
    pool_size = pool_size;
    pages = λ f. record {
      id = record { fd = garbage; page_no = invalid_page_id };
      content = zeroed;
      is_dirty = false;
      pin_count = 0;
    };
    page_table = [];
    free_list = frames_from 0 pool_size;
    disk = disk;
    replacer = init_replacer pool_size;
    log_manager = log_manager;
  }

  -- The log is flushed first if the page is younger than what of the log is on disk.
  unfoldable pub flush_log : BufferPool D → D → BufferPool D
  flush_log p content = elim p.log_manager [
    | none ↦ p
    | some lm ↦
        if ltb_ℤ lm.persist_lsn (page_lsn content)
        then (let (lm', disk') = flush_log_to_disk lm p.disk in
            record p { log_manager = some lm'; disk = disk' })
        else p
  ]

  unfoldable pub update_page : BufferPool D → ℕ → PageId → BufferPool D
  update_page p f new_page_id =
      let old = p.pages f in
      let p' = write_back (flush_log p old.content) f in
      record (set_page p' f
        (record { id = new_page_id; content = zeroed; is_dirty = false; pin_count = 0 })) {
          page_table =
              put PageId_discrete new_page_id f (erase PageId_discrete old.id p'.page_table);
        }

  -- The read after `update_page`; a short read throws, with the frame taken and mapped.
  unfoldable pub load_page : BufferPool D → ℕ → PageId → Fetched × BufferPool D
  load_page p f page_id = elim (read_page p.disk page_id) [
    | none ↦ (thrown, p)
    | some content ↦
        (frame f, pin_frame (set_page p f (record (p.pages f) { content = content })) f)
  ]

  unfoldable pub fetch_page : BufferPool D → PageId → Fetched × BufferPool D
  fetch_page p page_id = elim (find p page_id) [
    | some f ↦ (frame f, pin_frame p f)
    | none ↦
        (let (victim_frame, p') = find_victim_page p in
          elim victim_frame [
            | none ↦ (null, p')
            | some f ↦ load_page (update_page p' f page_id) f page_id
          ])
  ]

  -- The frame and the identity of the new page, or `nullptr`.
  unfoldable pub new_page : BufferPool D → ℤ → Option (ℕ × PageId) × BufferPool D
  new_page p fd =
      let (victim_frame, p') = find_victim_page p in
      elim victim_frame [
        | none ↦ (none, p')
        | some f ↦
            let (page_no, disk') = allocate_page p'.disk fd in
            let page_id : PageId = record { fd = fd; page_no = page_no } in
            let q = pin_frame (update_page (record p' { disk = disk' }) f page_id) f in
            (some (f, page_id), record q { disk = write_page q.disk page_id (q.pages f).content })
      ]

  -- The frame loses its page and goes to the end of the free list; the replacer is left alone.
  unfoldable pub free_frame : BufferPool D → PageId → ℕ → BufferPool D
  free_frame p page_id f =
      record (set_page p f
        (record { id = no_page; content = zeroed; is_dirty = false; pin_count = 0 })) {
          page_table = erase PageId_discrete page_id p.page_table;
          free_list = p.free_list ++ f ∷ [];
        }

  unfoldable pub delete_page : BufferPool D → PageId → Bool × BufferPool D
  delete_page p page_id = elim (find p page_id) [
    | none ↦ (true, p)
    | some f ↦
        if ltb 0 (p.pages f).pin_count
        then (false, p)
        else (true, free_frame (write_back p f) page_id f)
  ]
