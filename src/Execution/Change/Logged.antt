-- ===== src/Execution/Change/Logged.antt =====
-- What a statement keeps at each step, also where it throws: the write set of its transaction logs
-- what has been done to the tables.
use grmdb.Base.{
  ℕ, ◌<◌, ◌≡◌, refl, sym, ap, subst, ◌∙◌, List, ◌∷◌, Bool, true, false, Option, none, some,
}
use grmdb.Base.Int.{ℤ}
use grmdb.Defs.{Rid}
use grmdb.System.Meta.{name_discrete}
use grmdb.Record.File.{RmFile, slot_of, get_record}
use grmdb.Record.File.Contents.{record_at, SameRecords, Writes}
use grmdb.Record.File.Room.{IsRoomy}
use grmdb.Transaction.Defs.{Transaction}
use grmdb.Transaction.Manager.{WType, Database, Services, set_file}
use grmdb.Transaction.Manager.Logged.{
  Records, Logs, Same, IsLogged, records, AreRoomy, file_here, file_other, set_file-AreRoomy,
  set_file_outside,
}
use grmdb.Transaction.Manager.Abort.{IsLogged-Same}
use grmdb.Execution.Change.{
  state_of, try_catch, Session, Outcome, done, threw, and_then, with_value, RecordLocks, locked,
  read_tuple,
}
use grmdb.Execution.Change.Targets.{get_record-keeps, Elsewhere, Holds, Holds-Same, Holds-Writes}

-- What holds of the state that a call leaves: Q if it returns, R if it throws.
abbrev pub Leaves : {S : Type 0} → (S → Type 0) → (S → Type 0) → Outcome S → Type 0
Leaves Q R (done s) = Q s
Leaves Q R (threw s) = R s

pub and_then-Leaves :
    {S : Type 0} (P Q R : S → Type 0) (o : Outcome S) (f : S → Outcome S)
    → Leaves P R o
    → ((s : S) → P s → Leaves Q R (f s))
    → Leaves Q R (and_then o f)
unfolding and_then
and_then-Leaves P Q R (done s) f left next_one = next_one s left
and_then-Leaves P Q R (threw s) f left next_one = left

pub state_of-Leaves : {S : Type 0} (P : S → Type 0) (o : Outcome S) → Leaves P P o → P (state_of o)
state_of-Leaves P (done s) left = left
state_of-Leaves P (threw s) left = left

pub with_value-Leaves :
    {A S : Type 0} (Q R : S → Type 0) (o : Option A) (s : S) (f : A → Outcome S)
    → R s
    → ((a : A) → o ≡ some a → Leaves Q R (f a))
    → Leaves Q R (with_value o s f)
unfolding with_value
with_value-Leaves Q R none s f left next_one = left
with_value-Leaves Q R (some a) s f left next_one = next_one a refl

pub try_catch-Leaves :
    {A S : Type 0} (Q R : S → Type 0) (o : Option A) (handler : Outcome S) (f : A → Outcome S)
    → Leaves Q R handler
    → ((a : A) → Leaves Q R (f a))
    → Leaves Q R (try_catch o handler f)
unfolding try_catch
try_catch-Leaves Q R none handler f left next_one = left
try_catch-Leaves Q R (some a) handler f left next_one = next_one a

module _ {L Ix : Type 0} (services : Services L Ix) (tab_name : List ℕ) where
  set_file-Same :
      (db : Database L Ix) (file : RmFile)
      → SameRecords (db.fhs tab_name) file
      → Same (records db) (records (set_file services db tab_name file))
  set_file-Same db file same other q i = elim (name_discrete other tab_name) [
    | no apart ↦ ap (λ x. record_at x q i) (file_other services db tab_name other file apart)
    | yes e ↦
        subst (λ x. records (set_file services db tab_name file) x q i ≡ records db x q i) (sym e)
          (ap (λ x. record_at x q i) (file_here services db tab_name file) ∙ same q i)
  ]

module _ {L Ix D : Type 0} (services : Services L Ix) (locks : RecordLocks L Ix)
    (limit : List ℕ → ℕ) (before : Records) (tab_name : List ℕ) where
  -- The write set logs what has been done to the tables, which have room.
  abbrev pub IsSound : Session L Ix D → Type 0
  IsSound s = AreRoomy limit s.db × IsLogged limit before s.txn.write_set (records s.db)

  abbrev pub IsReady : List (Rid × List ℕ) → Session L Ix D → Type 0
  IsReady targets s = IsSound s × Holds (s.db.fhs tab_name) targets

  pub locked-Leaves :
      (targets : List (Rid × List ℕ)) (s : Session L Ix D) (reply : Bool × L × Transaction)
      → IsReady targets s
      → Leaves (IsReady targets) IsSound (locked services locks s reply)
  unfolding locked
  locked-Leaves targets s (true, l, txn) ready = ready
  locked-Leaves targets s (false, l, txn) ready = ready.0

  pub read_tuple-Leaves :
      (targets : List (Rid × List ℕ)) (s : Session L Ix D) (fd : ℤ) (rid : Rid)
      → IsReady targets s
      → Leaves (IsReady targets) IsSound (read_tuple services locks s tab_name fd rid)
  unfolding read_tuple set_file
  read_tuple-Leaves targets s fd rid ready =
      and_then-Leaves (IsReady targets) (IsReady targets) IsSound
        (locked services locks s (locks.lock_shared s.db.locks s.txn.locking rid fd)) _
        (locked-Leaves targets s (locks.lock_shared s.db.locks s.txn.locking rid fd) ready)
        (λ s' ready'.
          let ((room, logged), held) = ready' in
          let file = s'.db.fhs tab_name in
          let (room', same) = get_record-keeps (limit tab_name) file rid (room tab_name) in
          let read = (get_record file rid).1 in
          (
            (
              set_file-AreRoomy services limit s'.db tab_name read room' room,
              IsLogged-Same limit before s'.txn.write_set (records s'.db) _ logged
                  (set_file-Same services tab_name s'.db read same),
            ),
            subst (λ x. Holds x targets) (sym (file_here services s'.db tab_name read))
                (Holds-Same file read targets same held),
          ))

  -- A write to one target, with its record in the write set.
  pub write-IsReady :
      (targets : List (Rid × List ℕ)) (s : Session L Ix D) (rid : Rid) (file : RmFile) (t : List ℕ)
      (wtype : WType) (tuple old o : Option (List ℕ))
      → IsReady ((rid, t) ∷ targets) s
      → slot_of rid < limit tab_name
      → Elsewhere rid targets
      → Logs wtype tuple old (some t) o
      → IsRoomy (limit tab_name) file
      → Writes (s.db.fhs tab_name) file rid.page_no (slot_of rid) o
      → IsReady targets (record s {
        db = set_file services s.db tab_name file;
        txn = record (s.txn) {
          write_set =
              record {
                wtype = wtype;
                tab_name = tab_name;
                rid = rid;
                tuple = tuple;
                tuple_old = old;
              }
              ∷ s.txn.write_set;
        };
      })
  unfolding set_file
  write-IsReady targets s rid file t wtype tuple old o ready inside apart logs room' writes =
      let ((room, logged), (at, held)) = ready in
      let p = rid.page_no in
      let i = slot_of rid in
      let here = file_here services s.db tab_name file in
      let now : records (set_file services s.db tab_name file) tab_name p i ≡ o =
        ap (λ x. record_at x p i) here ∙ writes.0 in
      (
        (
          set_file-AreRoomy services limit s.db tab_name file room' room,
          (
            records s.db,
            inside,
            logged,
            (
              subst
                  (λ x.
                    Logs wtype tuple old x
                      (records (set_file services s.db tab_name file) tab_name p i))
                  (sym at) (subst (Logs wtype tuple old (some t)) (sym now) logs),
              set_file_outside services s.db tab_name file p i o writes,
            ),
          ),
        ),
        subst (λ x. Holds x targets) (sym here)
            (Holds-Writes (s.db.fhs tab_name) file rid o targets writes apart held),
      )
