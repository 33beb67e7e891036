-- ===== src/Execution/Change/Targets.antt =====
-- The records that a statement is going to change, and what the reads and writes of records keep of
-- them.
use grmdb.Base.{
  ℕ, ◌<◌, ◌≡◌, ◌≢◌, refl, sym, ◌∙◌, ◌⊎◌, inl, inr, List, [], ◌∷◌, true, Bool-cases, Option, none,
  some, some_injective,
}
use grmdb.Defs.{Rid}
use grmdb.Record.Bitmap.{is_set}
use grmdb.Record.Page.{RmPage}
use grmdb.Record.File.{RmFile, slot_of, page_at, get_record, fetch_page_handle}
use grmdb.Record.File.Contents.{
  record_in, record_at, SameRecords, Writes, fetch_page_handle-SameRecords, unpin_dirty-SameRecords,
}
use grmdb.Record.File.Room.{IsRoomy, fetch_page_handle-IsRoomy, unpin_dirty-IsRoomy}

-- A page with a record in a slot.
record_in-slot :
    (page : RmPage) (i : ℕ) (t : List ℕ)
    → record_in page i ≡ some t
    → (is_set page.bitmap i ≡ true) × (page.slots i ≡ t)
record_in-slot page i t at = elim (Bool-cases (is_set page.bitmap i)) [
  | inl set ↦
      let here : record_in page i ≡ some (page.slots i) = rw set refl in
      (set, some_injective (page.slots i) t (sym here ∙ at))
  | inr free ↦ let nothing : record_in page i ≡ none = rw free refl in absurd (cc)
]

pub record_at-is_set :
    (file : RmFile) (rid : Rid) (t : List ℕ)
    → record_at file rid.page_no (slot_of rid) ≡ some t
    → is_set (page_at file rid.page_no).bitmap (slot_of rid) ≡ true
record_at-is_set file rid t at = (record_in-slot (page_at file rid.page_no) (slot_of rid) t at).0

-- `get_record` gives the record that is there, and keeps all records.
pub get_record-reads :
    (file : RmFile) (rid : Rid) (t : List ℕ)
    → record_at file rid.page_no (slot_of rid) ≡ some t
    → (get_record file rid).0 ≡ t
unfolding get_record
get_record-reads file rid t at =
    let fetched = fetch_page_handle file rid.page_no in
    (record_in-slot (page_at fetched rid.page_no) (slot_of rid) t
      (fetch_page_handle-SameRecords file rid.page_no rid.page_no (slot_of rid) ∙ at)).1

pub get_record-keeps :
    (limit : ℕ) (file : RmFile) (rid : Rid)
    → IsRoomy limit file
    → IsRoomy limit (get_record file rid).1 × SameRecords file (get_record file rid).1
unfolding get_record
get_record-keeps limit file rid room =
    let p = rid.page_no in
    let fetched = fetch_page_handle file p in
    (
      unpin_dirty-IsRoomy limit fetched p (fetch_page_handle-IsRoomy limit file p room),
      λ q i. unpin_dirty-SameRecords fetched p q i ∙ fetch_page_handle-SameRecords file p q i,
    )

-- Records that a statement is going to change, each with what it holds; they lie in slots that the
-- table has, no two of them in one.
abbrev pub Elsewhere : Rid → List (Rid × List ℕ) → Type 0
Elsewhere rid [] = Unit {0}
Elsewhere rid ((other, _) ∷ targets) =
    ((other.page_no ≢ rid.page_no) ⊎ (slot_of other ≢ slot_of rid)) × Elsewhere rid targets

abbrev pub rids_of : List (Rid × List ℕ) → List Rid
rids_of [] = []
rids_of ((rid, _) ∷ targets) = rid ∷ rids_of targets

abbrev pub AreTargets : ℕ → List (Rid × List ℕ) → Type 0
AreTargets limit [] = Unit {0}
AreTargets limit ((rid, _) ∷ targets) =
    (slot_of rid < limit) × Elsewhere rid targets × AreTargets limit targets

abbrev pub Holds : RmFile → List (Rid × List ℕ) → Type 0
Holds file [] = Unit {0}
Holds file ((rid, t) ∷ targets) =
    (record_at file rid.page_no (slot_of rid) ≡ some t) × Holds file targets

pub Holds-Same :
    (a b : RmFile) (targets : List (Rid × List ℕ))
    → SameRecords a b
    → Holds a targets
    → Holds b targets
Holds-Same a b [] same held = tt
Holds-Same a b ((rid, t) ∷ targets) same (at, held) =
    (same rid.page_no (slot_of rid) ∙ at, Holds-Same a b targets same held)

pub Holds-Writes :
    (a b : RmFile) (rid : Rid) (o : Option (List ℕ)) (targets : List (Rid × List ℕ))
    → Writes a b rid.page_no (slot_of rid) o
    → Elsewhere rid targets
    → Holds a targets
    → Holds b targets
Holds-Writes a b rid o [] writes apart held = tt
Holds-Writes a b rid o ((other, t) ∷ targets) writes (apart, aparts) (at, held) = (
  writes.1 other.page_no (slot_of other) apart ∙ at,
  Holds-Writes a b rid o targets writes aparts held,
)
