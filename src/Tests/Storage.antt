-- ===== src/Tests/Storage.antt =====
-- The store of management/store.go on concrete documents and faults.
use kplayer_go.Prelude.{
  ℕ, ◌≡◌, refl, true, false, none, some, [], ◌∷◌, ◌⊎◌, ◌↔◌, ◌&&◌, ◌||◌, not, ◌==◌,
}
use kplayer_go.Model.{Data, empty_data}
use kplayer_go.Result.{ok, Txn, commit}
use kplayer_go.Store.Disk.{Disk, Faults, whole, write_file_atomic}
use kplayer_go.Store.Atomic.{crash, OldOrNew, write_file_atomic-crash, write_file_atomic-retries}
use kplayer_go.Store.Updates.{Store, update, open_store}
use kplayer_go.Store.Durability.{
  InSync, Settled, updating, saving, after_calls, update-atomic, reopen-after_calls, reopen-crash,
  open_store-gives-InSync,
}

-- The first rename fails.
abbrev shaky : Faults
shaky = record {
  clone = true;
  mkdir = true;
  marshal = true;
  create = true;
  write = true;
  sync = true;
  close = true;
  rename = λ n. not (n == 0);
  remove = false;
}

abbrev later : Data
later = record empty_data { updated_at = 9 }

abbrev store : Store
store = record {
  doc = empty_data;
  dirty = false;
  disk = record { target = some (whole empty_data); temp = none };
}

store-InSync : InSync store
store-InSync = record { saved = refl; not_dirty = refl }

abbrev touch : Data → Txn Data ℕ
touch d = commit d 3

update-atomic_example : Settled shaky 7 store (touch store.doc) (update shaky 7 store touch)
update-atomic_example = update-atomic shaky 7 store touch

reopen-after_calls_example :
    open_store shaky true (after_calls (updating shaky 7 touch ∷ saving shaky ∷ []) store).disk
    ≡ ok (after_calls (updating shaky 7 touch ∷ saving shaky ∷ []) store)
reopen-after_calls_example =
    reopen-after_calls shaky (updating shaky 7 touch ∷ saving shaky ∷ []) store store-InSync

abbrev crashed : Disk
crashed = crash 2 (write_file_atomic shaky later).0 store.disk

reopen-crash_example :
    (open_store shaky true crashed
      ≡ ok (record { doc = empty_data; dirty = false; disk = crashed }))
    ⊎ (open_store shaky true crashed ≡ ok (record { doc = later; dirty = false; disk = crashed }))
reopen-crash_example = reopen-crash shaky shaky later store 2 store-InSync

write_file_atomic-crash_test : OldOrNew store.disk later crashed
write_file_atomic-crash_test = write_file_atomic-crash shaky later store.disk 2

write_file_atomic-retries_test : ((write_file_atomic shaky later).1 ≡ none) ↔ (
    shaky.mkdir
      && shaky.marshal
      && shaky.create
      && shaky.write
      && shaky.sync
      && shaky.close
      && (shaky.rename 0 || shaky.rename 1 || shaky.rename 2 || shaky.rename 3)
    ≡ true)
write_file_atomic-retries_test = write_file_atomic-retries shaky later

abbrev opened_file : Store
opened_file = record {
  doc = later;
  dirty = false;
  disk = record { target = some (whole later); temp = none };
}

open_store-gives-InSync_test : InSync opened_file
unfolding open_store
open_store-gives-InSync_test =
    open_store-gives-InSync shaky true opened_file.disk opened_file (λ e. cc) refl
