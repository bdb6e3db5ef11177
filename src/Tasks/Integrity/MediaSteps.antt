-- ===== src/Tasks/Integrity/MediaSteps.antt =====
-- Adding and updating media, by management/media.go, keeps the references of the document alive.
use mathlib.Core.Path.{subst}
use kplayer_go.Prelude.{
  ℕ, ◌≡◌, refl, ap, String, Bool, true, some, List, [], ◌∷◌, ◌++◌, arith, str_eq, inl, inr,
  Option-cases, Bool-cases, ◌∙◌,
}
use kplayer_go.Prelude.Lists.{any, any-append, All-mono}
use kplayer_go.Model.{Data, Media}
use kplayer_go.Result.{ok, Txn, commit, keep, fail, check-commit, Result-cases}
use kplayer_go.Collection.{find, put_first, has_id}
use kplayer_go.Collection.Laws.{any-put_first}
use kplayer_go.Catalog.{changed, change, within}
use kplayer_go.Playlist.{media_id}
use kplayer_go.MediaLibrary
use kplayer_go.MediaLibrary.{
  Files, path_key, validate_media, registered, add_all, id_of, stamped, refreshed, change_last,
  merge_one, merge,
}
use kplayer_go.Tasks.Integrity.{HasRefs, GoodPlaylist-mono, GoodTask-mono}
use kplayer_go.Tasks.Integrity.Steps.{CommitsRefs}

-- A library that has every id that there was.
media-HasRefs :
    (d : Data) (library : List Media)
    → HasRefs d
    → ((x : String) → any (media_id x) d.media ≡ true → any (media_id x) library ≡ true)
    → HasRefs (record d { media = library })
media-HasRefs d library h kept = record {
  playlists = All-mono _ _ (GoodPlaylist-mono kept (λ i l. l)) d.playlists h.playlists;
  tasks = All-mono _ _ (GoodTask-mono kept (λ i l. l)) d.tasks h.tasks;
}

add_all-keeps :
    (files : Files) (now : ℕ) (items : List (String × Media)) (before after : List Media)
    (x : String)
    → add_all files now items before ≡ ok after
    → any (media_id x) before ≡ true
    → any (media_id x) after ≡ true
unfolding add_all
add_all-keeps files now [] before after x h k =
    let same : before ≡ after = cc in subst (λ l. any (media_id x) l ≡ true) same k
add_all-keeps files now ((fresh, m) ∷ items) before after x h k =
    elim (Result-cases (validate_media files m)) [
      | inr (y, e) ↦ absurd (ground (arith, e, h))
      | inl (valid, e) ↦
          let mm : Media = record valid { path = files.clean valid.path } in
          let entry = registered files now fresh mm in
          elim (Bool-cases (any (has_id (path_key files) (path_key files mm)) before)) [
            | inl taken ↦ absurd (ground (arith, e, taken, h))
            | inr free ↦
                add_all-keeps files now items (before ++ entry ∷ []) after x
                  (ground (arith, e, free, h))
                  (ground (arith, any-append (media_id x) before (entry ∷ []), k))
          ]
    ]

pub add_many-HasRefs :
    (files : Files) (now : ℕ) (items : List (String × Media)) (d : Data)
    → HasRefs d
    → CommitsRefs (MediaLibrary.add_many files now items d)
unfolding MediaLibrary.add_many
add_many-HasRefs files now items d h e a c =
    let (library, g, c') = check-commit (add_all files now items d.media) _ c in
    let same : record d { media = library } ≡ e = cc in
    subst HasRefs same
      (media-HasRefs d library h (λ x. add_all-keeps files now items d.media library x g))

-- A callback that keeps the id.
abbrev pub KeepsId : (Media → Txn Media (Unit {0})) → Type 0
KeepsId fn = (m n : Media) → fn m ≡ commit n tt → n.id ≡ m.id

abbrev put_media : Data → List Media → Data
put_media d ms = record d { media = ms }

changed-HasRefs :
    (id : String) (now : ℕ) (d : Data) (m : Media) (r : Txn Media (Unit {0}))
    → HasRefs d
    → find (has_id id_of id) d.media ≡ some m
    → ((n : Media) → r ≡ commit n tt → n.id ≡ m.id)
    → CommitsRefs (within (put_media d) (changed id_of id (stamped now) d.media r))
changed-HasRefs id now d m (commit n u) h f g e a c =
    let own = g n refl in
    let library = put_first (has_id id_of id) (stamped now n) d.media in
    let same : record d { media = library } ≡ e = cc in
    subst HasRefs same (
      media-HasRefs d library h (λ x k.
        any-put_first (has_id id_of id) (media_id x) (stamped now n) d.media m f
          (ap (λ i. str_eq i x) own)
        ∙ k))
changed-HasRefs id now d m (keep u) h f g e a c = cc
changed-HasRefs id now d m (fail x) h f g e a c = cc

pub update_media-HasRefs :
    (id : String) (now : ℕ) (fn : Media → Txn Media (Unit {0})) (d : Data)
    → HasRefs d
    → KeepsId fn
    → CommitsRefs (MediaLibrary.update id now fn d)
unfolding MediaLibrary.update change
update_media-HasRefs id now fn d h g e a c = elim (Option-cases (find (has_id id_of id) d.media)) [
  | inl gone ↦ absurd (ground (arith, gone, c))
  | inr (m, f) ↦ changed-HasRefs id now d m (fn m) h f (λ n k. g m n k) e a (ground (arith, f, c))
]

any-change_last :
    (p q : Media → Bool) (fn : Media → Media) (xs : List Media)
    → ((x : Media) → q (fn x) ≡ q x)
    → any q (change_last p fn xs) ≡ any q xs
unfolding change_last
any-change_last p q fn [] h = refl
any-change_last p q fn (x ∷ xs) h = ground (arith, h x, any-change_last p q fn xs h)

merge_one-keeps :
    (files : Files) (now : ℕ) (fresh : String) (m : Media) (library : List Media) (x : String)
    → any (media_id x) library ≡ true
    → any (media_id x) (merge_one files now fresh m library) ≡ true
unfolding merge_one
merge_one-keeps files now fresh m library x k =
    let known = has_id (path_key files) (path_key files m) in
    let entry : Media = record m { id = fresh; created_at = now; updated_at = now } in
    elim (Bool-cases (any known library)) [
      | inl e ↦
          let same =
            any-change_last known (media_id x) (refreshed now m) library (λ y. ground arith) in
          ground (arith, e, same, k)
      | inr e ↦ ground (arith, e, any-append (media_id x) library (entry ∷ []), k)
    ]

merge-keeps :
    (files : Files) (now : ℕ) (found : List (String × Media)) (library : List Media) (x : String)
    → any (media_id x) library ≡ true
    → any (media_id x) (merge files now found library) ≡ true
unfolding merge
merge-keeps files now [] library x k = k
merge-keeps files now ((fresh, m) ∷ found) library x k =
    merge-keeps files now found (merge_one files now fresh m library) x
      (merge_one-keeps files now fresh m library x k)

pub scan-HasRefs :
    (files : Files) (now : ℕ) (found : List (String × Media)) (d : Data)
    → HasRefs d
    → CommitsRefs (MediaLibrary.scan files now found d)
unfolding MediaLibrary.scan
scan-HasRefs files now found d h e a c =
    let same : record d { media = merge files now found d.media } ≡ e = cc in
    subst HasRefs same (
      media-HasRefs d (merge files now found d.media) h
        (λ x k. merge-keeps files now found d.media x k))
