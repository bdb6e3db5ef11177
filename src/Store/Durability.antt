-- ===== src/Store/Durability.antt =====
-- What the store promises: an update happens whole or not at all, in memory and on disk alike,
-- and the file reads back as the live document.
use kplayer_go.Prelude.{
  ℕ, ◌≡◌, refl, Bool, true, false, Option, none, some, List, [], ◌∷◌, arith, Option-cases, ◌≢◌, ◌⊎◌,
  inl, inr, ◌∙◌, if◌then◌else◌,
}
use kplayer_go.Model.{Data, Err, plain, empty_data}
use kplayer_go.Result.{Result, ok, err, Txn, commit, keep, fail}
use kplayer_go.Store.Disk.{Disk, blank, whole, Faults, write_file_atomic, apply_ops}
use kplayer_go.Store.Atomic.{
  crash, Abandoned, write_file_atomic-crash, write_file_atomic-succeeds, write_file_atomic-fails,
}
use kplayer_go.Store.Updates.{Store, stamp, written, settle, update, replace, save, open_store}

-- The file holds the live document.
pub record InSync (s : Store) : Type 0 where
  pub saved : s.disk.target ≡ some (whole s.doc)
  pub not_dirty : s.dirty ≡ false

-- The store after the document `d` was written.
abbrev pub holding : Data → Store
holding d = record {
  doc = d;
  dirty = false;
  disk = record { target = some (whole d); temp = none };
}

-- A write installs the document everywhere, or fails: then document, flag and file stay, and a
-- temporary file is left over only if its removal failed too.
abbrev pub WholeOrNothing {ℓ} : {A : Type ℓ} → Faults → Store → Data → A → Store × Result A → Type ℓ
WholeOrNothing f s d a r =
    (r ≡ (holding d, ok a))
    ⊎ ((e : Err) × (disk : Disk) × (r ≡ (record s { disk = disk }, err e))
        × Abandoned f s.disk disk)

written_cases :
    {A : Type 0} (f : Faults) (d : Data) (s : Store) (a : A)
    → WholeOrNothing f s d a (written f d s a)
unfolding written
written_cases f d s a = elim (Option-cases (write_file_atomic f d).1) [
  | inl p ↦ inl (ground (arith, write_file_atomic-succeeds f d s.disk p, p))
  | inr (e, p) ↦ inr (
    e,
    apply_ops (write_file_atomic f d).0 s.disk,
    ground (arith, p),
    write_file_atomic-fails f d s.disk e p,
  )
]

-- What `update` does, with the outcome of the callback: an error or `errNoop` leaves the store
-- alone, a commit is stamped and written whole or reported as failed.
abbrev pub Settled {ℓ} : {A : Type ℓ} → Faults → ℕ → Store → Txn Data A → Store × Result A → Type ℓ
Settled f now s (fail e) r = r ≡ (s, err e)
Settled f now s (keep a) r = r ≡ (s, ok a)
Settled f now s (commit d a) r = WholeOrNothing f s (stamp now d) a r

settle_cases :
    {A : Type 0} (f : Faults) (now : ℕ) (s : Store) (t : Txn Data A)
    → Settled f now s t (settle f now s t)
unfolding settle
settle_cases f now s (commit d a) = written_cases f (stamp now d) s a
settle_cases f now s (keep a) = refl
settle_cases f now s (fail e) = refl

-- An update is atomic, whatever calls of the operating system fail: a document that cannot be
-- copied is reported and nothing is changed; an error of the callback or
-- `errNoop` leaves document, flag and disk as they were; a commit either installs the stamped
-- document in memory and in the file, or reports an error and leaves document, flag and file as
-- they were. A temporary file is left over by the call only where it reports an error and the
-- removal of that file failed too.
pub update-atomic :
    {A : Type 0} (f : Faults) (now : ℕ) (s : Store) (fn : Data → Txn Data A)
    → Settled f now s (if f.clone then fn s.doc else fail plain) (update f now s fn)
unfolding update settle
update-atomic f now s fn =
    elim f.clone
      as (λ b.
        Settled f now s (if b then fn s.doc else fail plain)
          (if b then settle f now s (fn s.doc) else (s, err plain))) [
            | true ↦ settle_cases f now s (fn s.doc)
            | false ↦ refl
          ]

-- One call on the store, with the outcomes of the operating system during it.
pub data Call : Type 1 where
  updating : Faults → ℕ → {A : Type 0} → (Data → Txn Data A) → Call
  replacing : Faults → Option Data → Call
  saving : Faults → Call

unfoldable pub after_call : Call → Store → Store
after_call (updating f now fn) s = (update f now s fn).0
after_call (replacing f d) s = (replace f s d).0
after_call (saving f) s = (save f s).0

unfoldable pub after_calls : List Call → Store → Store
unfolding after_call
after_calls [] s = s
after_calls (c ∷ cs) s = after_calls cs (after_call c s)

written-InSync :
    {A : Type 0} (f : Faults) (d : Data) (s : Store) (a : A) → InSync s → InSync (written f d s a).0
written-InSync f d s a v = elim (written_cases f d s a) [
  | inl p ↦ rw p (record { saved = refl; not_dirty = refl })
  | inr (e, disk, p, left) ↦
      rw p (record { saved = left.target ∙ v.saved; not_dirty = v.not_dirty })
]

settle-InSync :
    {A : Type 0} (f : Faults) (now : ℕ) (s : Store) (t : Txn Data A)
    → InSync s
    → InSync (settle f now s t).0
unfolding settle
settle-InSync f now s (commit d a) v = written-InSync f (stamp now d) s a v
settle-InSync f now s (keep a) v = v
settle-InSync f now s (fail e) v = v

after_call-InSync : (c : Call) (s : Store) → InSync s → InSync (after_call c s)
unfolding after_call update replace save
after_call-InSync (updating f now fn) s v =
    elim f.clone as (λ b. InSync (if b then settle f now s (fn s.doc) else (s, err plain)).0) [
      | true ↦ settle-InSync f now s (fn s.doc) v
      | false ↦ v
    ]
after_call-InSync (replacing f none) s v = v
after_call-InSync (replacing f (some d)) s v = written-InSync f d s tt v
after_call-InSync (saving f) s v = ground arith

after_calls-InSync : (cs : List Call) (s : Store) → InSync s → InSync (after_calls cs s)
unfolding after_calls
after_calls-InSync [] s v = v
after_calls-InSync (c ∷ cs) s v = after_calls-InSync cs (after_call c s) (after_call-InSync c s v)

open_store-InSync : (f : Faults) (s : Store) → InSync s → open_store f true s.disk ≡ ok s
unfolding open_store
open_store-InSync f s v = ground (arith, v)

-- After any sequence of updates, replacements and saves, with any failures of the operating
-- system, opening the file again gives the live store, if the first store was in step with its
-- file.
pub reopen-after_calls :
    (f : Faults) (cs : List Call) (s : Store)
    → InSync s
    → open_store f true (after_calls cs s).disk ≡ ok (after_calls cs s)
reopen-after_calls f cs s v = open_store-InSync f (after_calls cs s) (after_calls-InSync cs s v)

-- A crash at any point of the write of `d` is recovered from: opening the file gives the old
-- document or the whole new one, if the store was in step with its file.
pub reopen-crash :
    (f g : Faults) (d : Data) (s : Store) (k : ℕ)
    → InSync s
    → let disk = crash k (write_file_atomic f d).0 s.disk in
      (open_store g true disk ≡ ok (record { doc = s.doc; dirty = false; disk = disk }))
      ⊎ (open_store g true disk ≡ ok (record { doc = d; dirty = false; disk = disk }))
unfolding open_store
reopen-crash f g d s k v = ground (arith, write_file_atomic-crash f d s.disk k, v)

-- Opening a store that has no file, or whose file is whole or empty, gives a store in step with
-- its file, unless it reports an error.
pub open_store-gives-InSync :
    (f : Faults) (readable : Bool) (disk : Disk) (s : Store)
    → disk.target ≢ some blank
    → open_store f readable disk ≡ ok s
    → InSync s
unfolding open_store
open_store-gives-InSync f readable disk s n p = ground (
  arith,
  written_cases f empty_data (record { doc = empty_data; dirty = false; disk = disk }) tt,
  p,
  n,
)
