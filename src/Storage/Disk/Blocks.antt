-- ===== src/Storage/Disk/Blocks.antt =====
-- What a write leaves of the other pages: below page 2^19 no two of them lie at one offset.
use grmdb.Base.{
  ℕ, ◌<◌, ◌^◌, ◌*◌, ◌≡◌, ◌≢◌, refl, sym, ap, ◌∙◌, Option, none, some, ite, if_pos, if_neg, arith,
  ℕ_discrete,
}
use grmdb.Base.Int.{ℤ, pos, pos_part, ℤ_discrete}
use grmdb.Storage.Disk.{PageId, PageId_discrete, Disk, block, write_page}
use grmdb.Storage.Disk.Offset.{seek, seek-lt, page_size}

-- A page that the offsets of a file reach.
abbrev pub InFile : PageId → Type 0
InFile page_id = (n : ℕ) × (page_id.page_no ≡ pos n) × (n < 2 ^ 19)

module _ {D : Type 0} (disk : Disk D) (content : D) where
  block_at :
      (d : Disk D) (q : PageId) (m : ℕ)
      → q.page_no ≡ pos m
      → m < 2 ^ 19
      → block d q ≡ d.blocks q.fd (m * page_size)
  unfolding block
  block_at d q m e lt = rw (block, e, seek-lt m lt) refl

  -- The block of a file at an offset, after a write.
  abbrev after : PageId → ℕ → ℤ → ℕ → Option D
  after p offset fd at =
      ite (ℤ_discrete p.fd fd) (ite (ℕ_discrete offset at) (some content) (disk.blocks fd at))
        (disk.blocks fd at)

  written :
      (p : PageId) (offset : ℕ)
      → seek p.page_no ≡ some offset
      → write_page disk p content ≡ record disk { blocks = after p offset }
  unfolding write_page
  written p offset e = rw (write_page, e) refl

  after-ite :
      (p q : PageId) (n m : ℕ)
      → p.page_no ≡ pos n
      → q.page_no ≡ pos m
      → after p (n * page_size) q.fd (m * page_size)
        ≡ ite (PageId_discrete p q) (some content) (disk.blocks q.fd (m * page_size))
  after-ite p q n m e e' = elim (PageId_discrete p q) [
    | yes same ↦
        let at : n * page_size ≡ m * page_size =
          ap (λ x. pos_part x * page_size) (sym e ∙ ap (λ x. x.page_no) same ∙ e') in
        if_pos (ℤ_discrete p.fd q.fd) (ap (λ x. x.fd) same) _ _
        ∙ if_pos (ℕ_discrete (n * page_size) (m * page_size)) at _ _
        ∙ sym (if_pos (PageId_discrete p q) same _ _)
    | no other ↦ elim (ℤ_discrete p.fd q.fd) [
      | no apart ↦
          if_neg (ℤ_discrete p.fd q.fd) apart _ _ ∙ sym (if_neg (PageId_discrete p q) other _ _)
      | yes same ↦
          let differ : n * page_size ≢ m * page_size = λ at.
            let no_same : n ≡ m = omega (arith, at) in
            other (
              ap (λ x. record { fd = x; page_no = p.page_no }) same
              ∙ ap (λ x. record { fd = q.fd; page_no = x }) (e ∙ ap pos no_same ∙ sym e')) in
          if_pos (ℤ_discrete p.fd q.fd) same _ _
          ∙ if_neg (ℕ_discrete (n * page_size) (m * page_size)) differ _ _
          ∙ sym (if_neg (PageId_discrete p q) other _ _)
    ]
  ]

  pub block-write_page :
      (p q : PageId)
      → InFile p
      → InFile q
      → block (write_page disk p content) q
        ≡ ite (PageId_discrete p q) (some content) (block disk q)
  block-write_page p q (n, e, lt) (m, e', lt') =
      ap (λ d. block d q) (written p (n * page_size) (ap seek e ∙ seek-lt n lt))
      ∙ block_at (record disk { blocks = after p (n * page_size) }) q m e' lt'
      ∙ after-ite p q n m e e'
      ∙ ap (ite (PageId_discrete p q) (some content)) (sym (block_at disk q m e' lt'))

  -- A page that cannot be read after a write could not be read before.
  pub block-none-write_page :
      (p q : PageId) → block (write_page disk p content) q ≡ none → block disk q ≡ none
  unfolding write_page block
  block-none-write_page p q e = ground arith

  -- The counters are left alone.
  pub fd2pageno-write_page : (p : PageId) → (write_page disk p content).fd2pageno ≡ disk.fd2pageno
  unfolding write_page
  fd2pageno-write_page p = ground arith
