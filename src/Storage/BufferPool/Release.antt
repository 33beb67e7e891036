-- ===== src/Storage/BufferPool/Release.antt =====
-- unpin_page, flush_page, flush_all_pages and delete_page.
use grmdb.Base.{
  ℕ, ◌-◌, ◌≡◌, inl, inr, Bool, true, false, some, arith, ℕ_discrete, if◌then◌else◌, Option-cases,
  Bool-cases, contains, holds, ◌==◌,
}
use grmdb.Replacer.{LruReplacer, unpin}
use grmdb.Replacer.Laws.{IsLinked, frames, frames-unpin}
use grmdb.Storage.Disk.{PageId}
use grmdb.Storage.BufferPool.{
  BufferPool, find, set_page, drop_pin, unpin_page, write_frame, flush_page,
}
use grmdb.Storage.BufferPool.Invariant.{Core, core, is_evictable, is_free, at, IsTable, IsValid}

contains-unpinned :
    (r : LruReplacer) (f g : ℕ)
    → IsLinked r
    → contains ℕ_discrete g (frames (unpin r f))
      ≡ (if contains ℕ_discrete g (frames r) then true else holds (ℕ_discrete f g))
unfolding contains
contains-unpinned r f g l = rw (frames-unpin r f l).1 (ground arith)

module _ {D : Type 0} where
  -- Changing the pins, the content and the dirty flag of a frame in use.
  repinned-IsTable :
      (p : BufferPool D) (f : ℕ) (n : ℕ) (d : Bool)
      → IsTable (core p)
      → is_free (core p) f ≡ false
      → (is_evictable (core p) f ≡ true → n ≡ 0)
      → IsTable (core (set_page p f (record (p.pages f) { pin_count = n; is_dirty = d })))
  repinned-IsTable p f n d v taken idle = record {
    linked = v.linked;
    free_distinct = v.free_distinct;
    mapped = λ q g h. ground (arith, v.mapped q g h);
    used = v.used;
    proper = v.proper;
    idle = λ g h. ground (arith, v.idle g h, taken);
    unpinned = λ g h. ground (arith, v.unpinned g h, idle);
  }

  repinned-IsValid :
      (p : BufferPool D) (f : ℕ) (n : ℕ) (d : Bool)
      → IsValid (core p)
      → is_free (core p) f ≡ false
      → (is_evictable (core p) f ≡ true → n ≡ 0)
      → IsValid (core (set_page p f (record (p.pages f) { pin_count = n; is_dirty = d })))
  repinned-IsValid p f n d v taken idle = record {
    table = repinned-IsTable p f n d v.table taken idle;
    evictable = λ g h. ground (arith, v.evictable g h);
  }

  -- A mapped frame that nobody pins may go to the replacer.
  unpinned-IsValid :
      (c : Core D) (f : ℕ)
      → IsValid c
      → (c.pages f).pin_count ≡ 0
      → at c (c.pages f).id ≡ some f
      → IsValid (record c { replacer = unpin c.replacer f })
  unpinned-IsValid c f v nobody mapped = record {
    table = record {
      linked = (frames-unpin c.replacer f v.table.linked).0;
      free_distinct = v.table.free_distinct;
      mapped = v.table.mapped;
      used = v.table.used;
      proper = v.table.proper;
      idle = v.table.idle;
      unpinned = λ g h.
          ground
            (arith, v.table.unpinned g, contains-unpinned c.replacer f g v.table.linked, nobody);
    };
    evictable = λ g h.
        ground (arith, v.evictable g, contains-unpinned c.replacer f g v.table.linked, mapped);
  }

  drop_pin-IsValid :
      (p : BufferPool D) (f : ℕ) (is_dirty : Bool)
      → IsValid (core p)
      → find p (p.pages f).id ≡ some f
      → IsValid (core (drop_pin p f is_dirty))
  unfolding drop_pin
  drop_pin-IsValid p f is_dirty v mapped =
      let lowered =
        repinned-IsValid p f ((p.pages f).pin_count - 1)
          (if is_dirty then true else (p.pages f).is_dirty) v (v.table.used _ f mapped)
          (λ h. omega (arith, v.table.unpinned f h)) in
      elim (Bool-cases ((p.pages f).pin_count - 1 == 0)) [
        | inl last ↦ rw last (unpinned-IsValid _ f lowered (ground arith) (ground (arith, mapped)))
        | inr more ↦ rw more lowered
      ]

  module _ (p : BufferPool D) (page_id : PageId) (v : IsValid (core p)) where
    -- On a valid pool, the table, the frames, the free list and the replacer agree after unpin_page.
    pub unpin_page-IsValid : (is_dirty : Bool) → IsValid (core (unpin_page p page_id is_dirty).1)
    unfolding unpin_page
    unpin_page-IsValid is_dirty = elim (Option-cases (find p page_id)) [
      | inl e ↦ rw (e, unpin_page) v
      | inr (f, e) ↦
          let kept = drop_pin-IsValid p f is_dirty v (rw (v.table.mapped page_id f e) e) in
          rw (e, unpin_page)
            (elim (Bool-cases ((p.pages f).pin_count == 0)) [
              | inl none_left ↦ rw none_left v
              | inr some_left ↦ rw some_left kept
            ])
    ]

    -- On a valid pool, the table, the frames, the free list and the replacer agree after flush_page.
    pub flush_page-IsValid : IsValid (core (flush_page p page_id).1)
    unfolding flush_page write_frame
    flush_page-IsValid = elim (Option-cases (find p page_id)) [
      | inl e ↦ rw (e, flush_page) v
      | inr (f, e) ↦
          rw (e, flush_page)
            (repinned-IsValid p f (p.pages f).pin_count false v (v.table.used page_id f e)
              (v.table.unpinned f))
    ]
