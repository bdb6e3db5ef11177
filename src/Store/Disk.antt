-- ===== src/Store/Disk.antt =====
-- `writeFileAtomic` and `renameFile` of management/store.go, as the sequence of file-system
-- operations that a call makes, so that a crash is a prefix of it.
use kplayer_go.Prelude.{
  ℕ, zero, suc, ◌+◌, Bool, not, ◌||◌, Option, none, some, List, [], ◌∷◌, ◌++◌, if◌then◌else◌,
}
use kplayer_go.Model.{Data, Err, io, plain}

-- What a file holds: nothing, a proper part of a document's JSON text, or all of it. JSON is
-- taken to read back what it wrote.
pub data Content : Type 0 where
  blank : Content
  torn : Data → Content
  whole : Data → Content

-- The store's file, and the temporary file of the last call that made one. A file that an earlier
-- call could not remove has its own name; nothing reads it, and it is not kept here.
pub record Disk : Type 0 where
  pub target : Option Content
  pub temp : Option Content

-- The operations that change the disk. `write_part` is the state of a write under way.
pub data DiskOp : Type 0 where
  create_temp rename remove_temp : DiskOp
  write_part write_whole : Data → DiskOp

unfoldable pub apply_op : DiskOp → Disk → Disk
apply_op create_temp k = record k { temp = some blank }
apply_op (write_part d) k = record k { temp = some (torn d) }
apply_op (write_whole d) k = record k { temp = some (whole d) }
apply_op rename k = record k { target = k.temp; temp = none }
apply_op remove_temp k = record k { temp = none }

unfoldable pub apply_ops : List DiskOp → Disk → Disk
unfolding apply_op
apply_ops [] k = k
apply_ops (o ∷ os) k = apply_ops os (apply_op o k)

-- Which calls of the operating system, and which encodings, succeed; a rename is asked by the number of its attempt.
pub record Faults : Type 0 where
  pub clone : Bool
  pub mkdir : Bool
  pub marshal : Bool
  pub create : Bool
  pub write : Bool
  pub sync : Bool
  pub close : Bool
  pub rename : ℕ → Bool
  pub remove : Bool

-- The loop of `renameFile`, `n` attempts left.
rename_attempts : (ℕ → Bool) → ℕ → ℕ → List DiskOp × Option Err
rename_attempts succeeds zero attempt = ([], some io)
rename_attempts succeeds (suc n) attempt =
    let again = rename_attempts succeeds n (attempt + 1) in
    if succeeds attempt then (rename ∷ [], none) else again

abbrev pub rename_limit : ℕ
rename_limit = 4

rename_file : (ℕ → Bool) → List DiskOp × Option Err
unfolding rename_attempts
rename_file succeeds = rename_attempts succeeds rename_limit 0

-- The deferred clean-up runs when the rename did not commit. Whether the removal succeeds is
-- ignored.
with_cleanup : Bool → List DiskOp × Option Err → List DiskOp × Option Err
with_cleanup removes (ops, none) = (ops, none)
with_cleanup removes (ops, some e) = (if removes then ops ++ remove_temp ∷ [] else ops, some e)

-- From the write of the temporary file to its rename. A failed write may leave a part behind.
write_and_rename : Faults → Data → List DiskOp × Option Err
unfolding rename_file
write_and_rename f d =
    if not f.write
    then (write_part d ∷ [], some io)
    else if not f.sync || not f.close
    then (write_part d ∷ write_whole d ∷ [], some io)
    else (let (ops, e) = rename_file f.rename in (write_part d ∷ write_whole d ∷ ops, e))

-- The operations of one call, in order, and its error.
unfoldable pub write_file_atomic : Faults → Data → List DiskOp × Option Err
unfolding write_and_rename with_cleanup
write_file_atomic f d =
    if not f.mkdir
    then ([], some io)
    else if not f.marshal
    then ([], some plain)
    else if not f.create
    then ([], some io)
    else (let (ops, e) = with_cleanup f.remove (write_and_rename f d) in (create_temp ∷ ops, e))
