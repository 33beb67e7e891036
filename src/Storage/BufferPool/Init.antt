-- ===== src/Storage/BufferPool/Init.antt =====
-- The constructor of the buffer pool.
use grmdb.Base.{
  ℕ, zero, suc, ◌≤◌, ◌≡◌, refl, true, Option, arith, ℕ_discrete, contains, Distinct, lookup,
}
use grmdb.Base.Int.{ℤ}
use grmdb.Storage.Disk.{Disk}
use grmdb.Recovery.LogManager.{LogManager}
use grmdb.Replacer.{init as init_replacer}
use grmdb.Replacer.Laws.{init-IsLinked}
use grmdb.Storage.BufferPool.{frames_from, init}
use grmdb.Storage.BufferPool.Invariant.{core, IsValid}
use grmdb.Storage.BufferPool.Coherent.{IsCoherent}

below-frames_from : (g i n : ℕ) → contains ℕ_discrete g (frames_from i n) ≡ true → i ≤ g
unfolding contains frames_from
below-frames_from g i zero h = absurd (cc)
below-frames_from g i (suc n) h = ground (arith, below-frames_from g (suc i) n)

frames_from-Distinct : (i n : ℕ) → Distinct ℕ_discrete (frames_from i n)
unfolding frames_from
frames_from-Distinct i zero = tt
frames_from-Distinct i (suc n) =
    (ground (arith, below-frames_from i (suc i) n), frames_from-Distinct (suc i) n)

module _ {D : Type 0} (zeroed : D) (page_lsn : D → ℤ) where
  -- A new pool is valid and coherent, whatever the uninitialised identities hold.
  pub init-IsValid :
      (pool_size : ℕ) (garbage : ℤ) (disk : Disk D) (log_manager : Option LogManager)
      → let p = init zeroed page_lsn pool_size garbage disk log_manager in
        IsValid (core p) × IsCoherent p
  unfolding init lookup contains init_replacer
  init-IsValid pool_size garbage disk log_manager = (
    record {
      table = record {
        linked = init-IsLinked pool_size;
        free_distinct = frames_from-Distinct 0 pool_size;
        mapped = λ q g h. cc;
        used = λ q g h. cc;
        proper = λ q h. refl;
        idle = λ g h. (refl, refl, refl);
        unpinned = λ g h. refl;
      };
      evictable = λ g h. absurd (cc);
    },
    λ q g h. absurd (cc),
  )
