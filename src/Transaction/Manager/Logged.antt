-- ===== src/Transaction/Manager/Logged.antt =====
-- The records of the tables, and what the write set of a transaction says of them.
use grmdb.Base.{
  ℕ, ◌<◌, ◌≡◌, ◌≢◌, refl, sym, ap, subst, ◌∙◌, ◌⊎◌, inl, inr, List, [], ◌∷◌, true, false, Option,
  none, some, holds, if◌then◌else◌, ℕ_discrete,
}
use grmdb.Base.Int.{ℤ, ℤ_discrete}
use grmdb.System.Meta.{name_discrete}
use grmdb.Record.File.{RmFile, slot_of}
use grmdb.Record.File.Contents.{record_at, Writes}
use grmdb.Record.File.Room.{IsRoomy}
use grmdb.Transaction.Manager.{WType, WriteRecord, Database, Services, set_file}

-- The records of every table, by page and slot.
abbrev pub Records : Type 0
Records = List ℕ → ℤ → ℕ → Option (List ℕ)

-- What a record of the write set says of its slot: what was there before the write, and is after it.
abbrev pub Logs :
    WType → Option (List ℕ) → Option (List ℕ) → Option (List ℕ) → Option (List ℕ) → Type 0
Logs WType.insert_tuple tuple old before after =
    (t : List ℕ) × (tuple ≡ some t) × (before ≡ none) × (after ≡ some t)
Logs WType.delete_tuple tuple old before after =
    (t : List ℕ) × (tuple ≡ some t) × (before ≡ some t) × (after ≡ none)
Logs WType.update_tuple tuple old before after =
    (t t' : List ℕ) × (tuple ≡ some t') × (old ≡ some t) × (before ≡ some t) × (after ≡ some t')

-- A write, which leaves every other slot.
abbrev pub Step : WriteRecord → Records → Records → Type 0
Step w before after =
    Logs w.wtype w.tuple w.tuple_old (before w.tab_name w.rid.page_no (slot_of w.rid))
      (after w.tab_name w.rid.page_no (slot_of w.rid))
    × ((name : List ℕ) (p : ℤ) (i : ℕ)
        → (name ≢ w.tab_name) ⊎ ((p ≢ w.rid.page_no) ⊎ (i ≢ slot_of w.rid))
        → after name p i ≡ before name p i)

abbrev pub Same : Records → Records → Type 0
Same before after = (name : List ℕ) (p : ℤ) (i : ℕ) → after name p i ≡ before name p i

-- The write set of a transaction logs what it did, in slots that the tables have.
abbrev pub IsLogged : (List ℕ → ℕ) → Records → List WriteRecord → Records → Type 0
IsLogged limit before [] after = Same before after
IsLogged limit before (w ∷ write_set) after =
    (between : Records) × (slot_of w.rid < limit w.tab_name)
    × IsLogged limit before write_set between
    × Step w between after

holds_yes : {P : Type 0} (d : Dec P) → P → holds d ≡ true
holds_yes (yes p) h = refl
holds_yes (no n) h = absurd (n h)

holds_no : {P : Type 0} (d : Dec P) → (P → ⊥) → holds d ≡ false
holds_no (yes p) h = absurd (h p)
holds_no (no n) h = refl

abbrev pub records : {L Ix : Type 0} → Database L Ix → Records
records db name p i = record_at (db.fhs name) p i

abbrev pub AreRoomy : {L Ix : Type 0} → (List ℕ → ℕ) → Database L Ix → Type 0
AreRoomy limit db = (name : List ℕ) → IsRoomy (limit name) (db.fhs name)

module _ {L Ix : Type 0} (services : Services L Ix) where
  pub file_here :
      (db : Database L Ix) (name : List ℕ) (file : RmFile)
      → (set_file services db name file).fhs name ≡ file
  unfolding set_file
  file_here db name file =
      ap (λ b. if b then file else db.fhs name) (holds_yes (name_discrete name name) refl)

  pub file_other :
      (db : Database L Ix) (name other : List ℕ) (file : RmFile)
      → other ≢ name
      → (set_file services db name file).fhs other ≡ db.fhs other
  unfolding set_file
  file_other db name other file apart =
      ap (λ b. if b then file else db.fhs other)
        (holds_no (name_discrete name other) (λ e. apart (sym e)))

  -- A change of one slot of the file of a table.
  pub set_file-Writes :
      (db : Database L Ix) (name : List ℕ) (file : RmFile) (p : ℤ) (s : ℕ) (o : Option (List ℕ))
      (target : Records)
      → Writes (db.fhs name) file p s o
      → target name p s ≡ o
      → ((other : List ℕ) (q : ℤ) (i : ℕ)
          → (other ≢ name) ⊎ ((q ≢ p) ⊎ (i ≢ s))
          → records db other q i ≡ target other q i)
      → Same target (records (set_file services db name file))
  set_file-Writes db name file p s o target (here, others) at outside other q i =
      elim (name_discrete other name) [
        | no apart ↦
            ap (λ x. record_at x q i) (file_other db name other file apart)
            ∙ outside other q i (inl apart)
        | yes e ↦
            subst (λ x. records (set_file services db name file) x q i ≡ target x q i) (sym e)
              (ap (λ x. record_at x q i) (file_here db name file) ∙ elim (ℤ_discrete q p) [
                | no apart ↦ others q i (inl apart) ∙ outside name q i (inr (inl apart))
                | yes e' ↦ elim (ℕ_discrete i s) [
                  | no apart ↦ others q i (inr apart) ∙ outside name q i (inr (inr apart))
                  | yes e'' ↦
                      subst (λ x. record_at file x i ≡ target name x i) (sym e')
                        (subst (λ x. record_at file p x ≡ target name p x) (sym e'')
                          (here ∙ sym at))
                ]
              ])
      ]

  pub set_file-AreRoomy :
      (limit : List ℕ → ℕ) (db : Database L Ix) (name : List ℕ) (file : RmFile)
      → IsRoomy (limit name) file
      → AreRoomy limit db
      → AreRoomy limit (set_file services db name file)
  set_file-AreRoomy limit db name file this room other = elim (name_discrete other name) [
    | no apart ↦
        subst (IsRoomy (limit other)) (sym (file_other db name other file apart)) (room other)
    | yes e ↦
        subst (λ x. IsRoomy (limit x) ((set_file services db name file).fhs x)) (sym e)
          (subst (IsRoomy (limit name)) (sym (file_here db name file)) this)
  ]

  -- A change of one slot of one table leaves every other slot of every table.
  pub set_file_outside :
      (db : Database L Ix) (name : List ℕ) (file : RmFile) (p : ℤ) (s : ℕ) (o : Option (List ℕ))
      → Writes (db.fhs name) file p s o
      → (other : List ℕ) (q : ℤ) (i : ℕ) → (other ≢ name) ⊎ ((q ≢ p) ⊎ (i ≢ s))
      → records (set_file services db name file) other q i ≡ records db other q i
  set_file_outside db name file p s o (here, others) other q i apart =
      elim (name_discrete other name) [
        | no named ↦ ap (λ x. record_at x q i) (file_other db name other file named)
        | yes e ↦
            let inside : (q ≢ p) ⊎ (i ≢ s) = elim apart [
              | inl named ↦ absurd (named e)
              | inr inside ↦ inside
            ] in
            subst (λ x. records (set_file services db name file) x q i ≡ records db x q i) (sym e)
              (ap (λ x. record_at x q i) (file_here db name file) ∙ others q i inside)
      ]
