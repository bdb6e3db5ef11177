-- ===== src/Store/Atomic.antt =====
-- The atomic write of the store's file: what a crash, a failure and a success leave behind.
use kplayer_go.Prelude.{
  ℕ, zero, suc, ◌≡◌, true, false, none, some, List, arith, ◌⊎◌, ◌↔◌, ◌&&◌, ◌||◌,
}
use kplayer_go.Prelude.Lists.{take}
use kplayer_go.Model.{Data, Err}
use kplayer_go.Store.Disk.{Disk, DiskOp, whole, Faults, apply_ops, write_file_atomic}

-- The file after a crash in the middle of the operations `ops`: `k` of them were made.
abbrev pub crash : ℕ → List DiskOp → Disk → Disk
crash k ops disk = apply_ops (take k ops) disk

abbrev pub OldOrNew : Disk → Data → Disk → Type 0
OldOrNew old d new = (new.target ≡ old.target) ⊎ (new.target ≡ some (whole d))

-- A crash at any point of the write, successful or not, leaves the old file or the whole new one.
pub write_file_atomic-crash :
    (f : Faults) (d : Data) (disk : Disk) (k : ℕ)
    → OldOrNew disk d (crash k (write_file_atomic f d).0 disk)
unfolding write_file_atomic apply_ops
write_file_atomic-crash f d disk zero = ground arith
write_file_atomic-crash f d disk (suc zero) = ground arith
write_file_atomic-crash f d disk (suc (suc zero)) = ground arith
write_file_atomic-crash f d disk (suc (suc (suc zero))) = ground arith
write_file_atomic-crash f d disk (suc (suc (suc (suc zero)))) = ground arith
write_file_atomic-crash f d disk (suc (suc (suc (suc (suc k))))) = ground arith

-- A call without an error leaves the whole new document in the file and no temporary file.
pub write_file_atomic-succeeds :
    (f : Faults) (d : Data) (disk : Disk)
    → (write_file_atomic f d).1 ≡ none
    → apply_ops (write_file_atomic f d).0 disk ≡ record { target = some (whole d); temp = none }
unfolding write_file_atomic apply_ops
write_file_atomic-succeeds f d disk p = ground arith

-- What a call with an error leaves: the file as it was, and no new temporary file unless its
-- removal failed too.
pub record Abandoned (f : Faults) (old new : Disk) : Type 0 where
  pub target : new.target ≡ old.target
  pub temp : (new.temp ≡ none) ⊎ (new.temp ≡ old.temp) ⊎ (f.remove ≡ false)

pub write_file_atomic-fails :
    (f : Faults) (d : Data) (disk : Disk) (e : Err)
    → (write_file_atomic f d).1 ≡ some e
    → Abandoned f disk (apply_ops (write_file_atomic f d).0 disk)
unfolding write_file_atomic apply_ops
write_file_atomic-fails f d disk e p = record { target = ground arith; temp = ground arith }

-- The call fails only where one of the first six operations fails, or the rename fails in each
-- of its four attempts.
pub write_file_atomic-retries :
    (f : Faults) (d : Data)
    → ((write_file_atomic f d).1 ≡ none) ↔ (
        f.mkdir
          && f.marshal
          && f.create
          && f.write
          && f.sync
          && f.close
          && (f.rename 0 || f.rename 1 || f.rename 2 || f.rename 3)
        ≡ true)
unfolding write_file_atomic
write_file_atomic-retries f d = (λ p. ground arith, λ p. ground arith)
