-- ===== src/Storage/BufferPool/Claim.antt =====
-- Taking a frame for a page, and pinning it.
use grmdb.Base.{
  ℕ, ◌≡◌, refl, ◌⊎◌, inl, inr, ◌++◌, true, false, List, [], ◌∷◌, none, some, arith, ite, ℕ_discrete,
  contains, contains-remove, if◌then◌else◌, holds,
}
use grmdb.Replacer.{LruReplacer, pin, victim}
use grmdb.Replacer.Laws.{IsLinked, frames, frames-pin, frames-victim}
use grmdb.Storage.BufferPool.{BufferPool, find_victim_page, pin_frame, set_page, set_page}
use grmdb.Storage.BufferPool.Invariant.{Core, core, is_free, is_evictable, IsValid, IsClaimed}

-- The last element of a list of distinct frames.
pub contains-append_last :
    (g f : ℕ) (xs : List ℕ)
    → contains ℕ_discrete g (xs ++ f ∷ [])
      ≡ (if contains ℕ_discrete g xs then true else holds (ℕ_discrete f g))
unfolding contains
contains-append_last g f [] = ground arith
contains-append_last g f (x ∷ xs) = ground (arith, contains-append_last g f xs)

module _ {D : Type 0} where
  from_free :
      (c : Core D) (f : ℕ) (fs : List ℕ)
      → IsValid (record c { free_list = f ∷ fs })
      → IsClaimed (record c { free_list = fs }) f
  unfolding contains
  from_free c f fs v =
      let idle = v.table.idle f (ground arith) in
      record {
        table = record {
          linked = v.table.linked;
          free_distinct = v.table.free_distinct.1;
          mapped = v.table.mapped;
          used = λ q g h. ground (arith, v.table.used q g h);
          proper = v.table.proper;
          idle = λ g h. ground (arith, v.table.idle g);
          unpinned = v.table.unpinned;
        };
        taken = v.table.free_distinct.0;
        nobody = idle.2;
        owner = inr (v.table.proper _ idle.0, idle.1);
        others = λ g h. ground (arith, v.evictable g h);
      }

  module _ (c : Core D) (f : ℕ) (r : LruReplacer) (v : IsValid (record c { free_list = [] }))
      (linked : IsLinked r) (last : frames c.replacer ≡ frames r ++ f ∷ []) where
    victim_evictable : is_evictable c f ≡ true
    victim_evictable = rw (last, contains-append_last) (ground arith)

    still_evictable : (g : ℕ) → contains ℕ_discrete g (frames r) ≡ true → is_evictable c g ≡ true
    still_evictable g h = rw (last, contains-append_last, h) refl

    from_replacer : IsClaimed (record c { free_list = []; replacer = r }) f
    unfolding contains
    from_replacer = record {
      table = record {
        linked = linked;
        free_distinct = tt;
        mapped = v.table.mapped;
        used = v.table.used;
        proper = v.table.proper;
        idle = v.table.idle;
        unpinned = λ g h. v.table.unpinned g (still_evictable g h);
      };
      taken = refl;
      nobody = v.table.unpinned f victim_evictable;
      owner = ground (arith, v.evictable f victim_evictable);
      others = λ g h. ground (arith, v.evictable g (still_evictable g h));
    }

  by_free_list :
      (p : BufferPool D) (f : ℕ) (fs : List ℕ)
      → IsValid (core (record p { free_list = fs }))
      → (find_victim_page (record p { free_list = fs })).0 ≡ some f
      → IsClaimed (core (find_victim_page (record p { free_list = fs })).1) f
  unfolding find_victim_page
  by_free_list p f [] v e = by_victim (frames-victim p.replacer v.table.linked).1
    where
      by_victim :
          ((frames p.replacer ≡ []) × (victim p.replacer ≡ (none, p.replacer)))
            ⊎ ((g : ℕ) × ((victim p.replacer).0 ≡ some g)
                × (frames p.replacer ≡ frames (victim p.replacer).1 ++ g ∷ []))
          → IsClaimed (record (core p) { free_list = []; replacer = (victim p.replacer).1 }) f
      by_victim (inl (_, nobody)) = absurd (ground (arith, nobody))
      by_victim (inr (g, found, last)) =
          let same : g ≡ f = ground arith in
          from_replacer (core p) f (victim p.replacer).1 v
            (frames-victim p.replacer v.table.linked).0 (rw (← same) last)
  by_free_list p f (g ∷ fs) v e =
      let same : g ≡ f = ground arith in rw (← same) (from_free (core p) g fs v)

  -- Taking a frame from the free list, or from the replacer when no frame is free.
  pub find_victim_page-IsClaimed :
      (p : BufferPool D) (f : ℕ)
      → IsValid (core p)
      → (find_victim_page p).0 ≡ some f
      → IsClaimed (core (find_victim_page p).1) f
  find_victim_page-IsClaimed p f v e = by_free_list p f p.free_list v e

  none_left :
      (p : BufferPool D) (fs : List ℕ)
      → IsLinked p.replacer
      → (find_victim_page (record p { free_list = fs })).0 ≡ none
      → ((find_victim_page (record p { free_list = fs })).1 ≡ record p { free_list = fs })
        × (fs ≡ [])
        × (frames p.replacer ≡ [])
  unfolding find_victim_page
  none_left p [] l e = ground (arith, (frames-victim p.replacer l).1)
  none_left p (g ∷ fs) l e = absurd (cc)

  -- No frame is found exactly when none is free and none can be evicted; then nothing changes.
  pub find_victim_page-none :
      (p : BufferPool D)
      → IsLinked p.replacer
      → (find_victim_page p).0 ≡ none
      → ((find_victim_page p).1 ≡ p) × (p.free_list ≡ []) × (frames p.replacer ≡ [])
  find_victim_page-none p l e = none_left p p.free_list l e

contains-pinned :
    (r : LruReplacer) (f g : ℕ)
    → IsLinked r
    → contains ℕ_discrete g (frames (pin r f))
      ≡ ite (ℕ_discrete f g) false (contains ℕ_discrete g (frames r))
contains-pinned r f g l =
    rw ((frames-pin r f l).1, contains-remove ℕ_discrete f g (frames r) l.distinct) refl

module _ {D : Type 0} where
  -- Pinning a frame that is not free takes it from the replacer.
  pub pin_frame-IsValid :
      (p : BufferPool D) (f : ℕ)
      → IsValid (core p)
      → is_free (core p) f ≡ false
      → IsValid (core (pin_frame p f))
  pin_frame-IsValid p f v taken = record {
    table = record {
      linked = (frames-pin p.replacer f v.table.linked).0;
      free_distinct = v.table.free_distinct;
      mapped = λ q g h. ground (arith, v.table.mapped q g h);
      used = v.table.used;
      proper = v.table.proper;
      idle = λ g h. ground (arith, v.table.idle g h, taken);
      unpinned =
          λ g h. ground (arith, v.table.unpinned g, contains-pinned p.replacer f g v.table.linked);
    };
    evictable = λ g h. ground (arith, v.evictable g, contains-pinned p.replacer f g v.table.linked);
  }

  -- A client may change the content of a frame.
  pub set_content-IsValid :
      (p : BufferPool D) (f : ℕ) (x : D)
      → IsValid (core p)
      → IsValid (core (set_page p f (record (p.pages f) { content = x })))
  set_content-IsValid p f x v = record {
    table = record {
      linked = v.table.linked;
      free_distinct = v.table.free_distinct;
      mapped = λ q g h. ground (arith, v.table.mapped q g h);
      used = v.table.used;
      proper = v.table.proper;
      idle = λ g h. ground (arith, v.table.idle g h);
      unpinned = λ g h. ground (arith, v.table.unpinned g h);
    };
    evictable = λ g h. ground (arith, v.evictable g h);
  }
