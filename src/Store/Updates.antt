-- ===== src/Store/Updates.antt =====
-- `OpenStore`, `Store.Update`, `Store.Replace` and `Store.Save` of management/store.go. The lock
-- makes the calls a sequence; a callback works on a copy of the document.
use kplayer_go.Prelude.{ℕ, Bool, false, Option, none, some, if◌then◌else◌}
use kplayer_go.Model.{Data, empty_data, io, plain, invalid}
use kplayer_go.Result.{Result, ok, err, Txn, commit, keep, fail}
use kplayer_go.Store.Disk.{Disk, Content, blank, torn, whole, Faults, apply_ops, write_file_atomic}

pub record Store : Type 0 where
  pub doc : Data
  pub dirty : Bool
  pub disk : Disk

-- The file after a write, and what the caller goes on with.
unfoldable pub written : {A : Type 0} → Faults → Data → Store → A → Store × Result A
written f d s a =
    let (ops, e) = write_file_atomic f d in
    let disk = apply_ops ops s.disk in
    elim e [
      | none ↦ (record { doc = d; dirty = false; disk = disk }, ok a)
      | some x ↦ (record s { disk = disk }, err x)
    ]

-- `copy.UpdatedAt = time.Now()`
abbrev pub stamp : ℕ → Data → Data
stamp now d = record d { updated_at = now }

unfoldable pub settle : {A : Type 0} → Faults → ℕ → Store → Txn Data A → Store × Result A
unfolding written
settle f now s (fail e) = (s, err e)
settle f now s (keep a) = (s, ok a)
settle f now s (commit d a) = written f (stamp now d) s a

unfoldable pub update : {A : Type 0} → Faults → ℕ → Store → (Data → Txn Data A) → Store × Result A
unfolding settle
update f now s fn = if f.clone then settle f now s (fn s.doc) else (s, err plain)

-- A nil document is `none`.
unfoldable pub replace : Faults → Store → Option Data → Store × Result (Unit {0})
unfolding written
replace f s none = (s, err invalid)
replace f s (some d) = written f d s tt

unfoldable pub save : Faults → Store → Store × Result (Unit {0})
unfolding written
save f s = if s.dirty then written f s.doc s tt else (s, ok tt)

-- What the parser of `OpenStore` makes of the bytes of the file.
parse_content : Content → Result Data
parse_content blank = ok empty_data
parse_content (torn d) = err plain
parse_content (whole d) = ok d

opened : Disk → Result Data → Result Store
opened disk (ok d) = ok (record { doc = d; dirty = false; disk = disk })
opened disk (err e) = err e

-- A new store is written at once, so that its file exists.
create_store : Faults → Disk → Result Store
unfolding written
create_store f disk =
    let (s, r) =
      written f empty_data (record { doc = empty_data; dirty = false; disk = disk }) tt in
    elim r [ ok u ↦ ok s | err e ↦ err e ]

-- `readable` is whether the file can be read where it exists.
unfoldable pub open_store : Faults → Bool → Disk → Result Store
unfolding parse_content opened create_store
open_store f readable disk =
    if readable
    then (elim disk.target [ none ↦ create_store f disk | some c ↦ opened disk (parse_content c) ])
    else err io
