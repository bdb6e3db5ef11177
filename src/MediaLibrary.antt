-- ===== src/MediaLibrary.antt =====
-- management/media.go: `MediaService`, of which `Delete` stands in Tasks and `ResolveMedia` in
-- Playlist. Paths and the file system are parameters; no entry of a batch is nil. Each operation is
-- the callback of `Store.Update` that it runs.
pub mod Paths
use kplayer_go.Prelude.{
  ℕ, String, Bool, true, false, not, ◌&&◌, ◌||◌, Option, none, some, List, [], ◌∷◌, ◌++◌, str_eq,
  if◌then◌else◌, ◌==◌,
}
use kplayer_go.Prelude.Lists.{any}
use kplayer_go.Prelude.Int.{ℤ, pos, eq_ℤ, is_zero_time}
use kplayer_go.Prelude.Text.{is_blank, less_text}
use kplayer_go.Model.{Data, Media, MediaSortOrder}
use kplayer_go.Model.Err.{not_found, invalid, already_exists}
use kplayer_go.Result.{Result, ok, err, Txn, commit, refuse, check, ◌>>◌, ◌>>=◌}
use kplayer_go.Collection.{find, has_id}
use kplayer_go.Ordering.{sort_by}
use kplayer_go.Catalog.{change, within}

-- `filepath.Clean` and `filepath.Base`, the extension in lower case, what `strings.ToLower` adds to
-- `Clean` in `normPath`, and what `os.Stat` tells of a path.
pub record Files : Type 0 where
  pub clean : String → String
  pub base : String → String
  pub lower_ext : String → String
  pub fold_case : String → String
  pub is_dir : String → Bool
  pub stat : String → Option (ℤ × ℕ)

abbrev pub id_of : Media → String
id_of m = m.id

-- `List`, `ListSorted` and `Get`
unfoldable pub list : Data → List Media
list d = d.media

unfoldable pub list_sorted : Data → List Media
unfolding list
list_sorted d = sort_by (λ (a b : Media). less_text a.name b.name) (list d)

unfoldable pub get : String → Data → Result Media
get id d = elim (find (has_id id_of id) d.media) [ none ↦ err not_found | some m ↦ ok m ]

abbrev pub known_order : MediaSortOrder → Bool
known_order (MediaSortOrder.other s) = false
known_order _ = true

abbrev pub or_by_name : MediaSortOrder → MediaSortOrder
or_by_name MediaSortOrder.unset = MediaSortOrder.by_name
or_by_name o = o

module _ (files : Files) where
  -- `normPath`
  abbrev pub norm_path : String → String
  norm_path p = files.fold_case (files.clean p)

  abbrev pub path_key : Media → String
  path_key m = norm_path m.path

  -- What `validateMedia` changes: the name, and a path that is a directory.
  abbrev pub named : Media → Media
  named m = if str_eq m.name "" then record m { name = files.base m.path } else m

  abbrev pub as_entry : Media → Media
  as_entry m =
      if files.is_dir m.path then record m { is_dir = true; sort_by = or_by_name m.sort_by } else m

  -- `validateMedia`
  unfoldable pub validate_media : Media → Result Media
  validate_media m = do
    refuse (is_blank m.path) invalid
    refuse (not (known_order (as_entry (named m)).sort_by)) invalid
    ok (as_entry (named m))

  -- `fillMediaStat`
  abbrev pub with_stat : Option (ℤ × ℕ) → Media → Media
  with_stat none m = m
  with_stat (some (size, mod_time)) m = record m { size = size; mod_time = mod_time }

  unfoldable pub fill_stat : ℕ → Media → Media
  fill_stat now m =
      let lacking = is_zero_time m.mod_time || eq_ℤ m.size (pos 0) in
      let found = if lacking then with_stat (files.stat m.path) m else m in
      let timed = if is_zero_time found.mod_time then record found { mod_time = now } else found in
      named timed

  -- The entry that `addMany` appends, of a validated one with a cleaned path and a new id.
  unfoldable pub registered : ℕ → String → Media → Media
  unfolding fill_stat
  registered now fresh m =
      let id = if str_eq m.id "" then fresh else m.id in
      let ext = if str_eq m.ext "" then files.lower_ext m.path else m.ext in
      record (fill_stat now (record m { id = id; ext = ext })) {
        created_at = now;
        updated_at = now;
      }

  -- The loop of `addMany`, each entry with the id that is drawn if it has none
  unfoldable pub add_all : ℕ → List (String × Media) → List Media → Result (List Media)
  unfolding validate_media registered
  add_all now [] library = ok library
  add_all now ((fresh, m) ∷ items) library = do
    valid ← validate_media m
    let mm : Media = record valid { path = files.clean valid.path }
    refuse (any (has_id path_key (path_key mm)) library) already_exists
    add_all now items (library ++ registered now fresh mm ∷ [])

  -- `addMany`; `Add` is a batch of one
  unfoldable pub add_many : ℕ → List (String × Media) → Data → Txn Data (Unit {0})
  unfolding add_all
  add_many now items d =
      check (add_all now items d.media) λ library. commit (record d { media = library }) tt

-- What `Scan` takes from a file that it found again.
abbrev pub refreshed : ℕ → Media → Media → Media
refreshed now m exist =
    let basic : Media = record exist {
      name = m.name;
      ext = m.ext;
      size = m.size;
      mod_time = m.mod_time;
      updated_at = now;
    } in
    if m.probed then record basic { duration = m.duration; probed = true } else basic

-- The last entry that passes is changed, as through the map by path, in which later entries win.
unfoldable pub change_last : (Media → Bool) → (Media → Media) → List Media → List Media
change_last p fn [] = []
change_last p fn (x ∷ xs) =
    let rest = change_last p fn xs in
    if any p xs then x ∷ rest else if p x then fn x ∷ xs else x ∷ xs

module _ (files : Files) where
  -- One round of the loop of `Scan`
  unfoldable pub merge_one : ℕ → String → Media → List Media → List Media
  unfolding change_last
  merge_one now fresh m library =
      let known = has_id (path_key files) (path_key files m) in
      if any known library
      then change_last known (refreshed now m) library
      else library ++ record m { id = fresh; created_at = now; updated_at = now } ∷ []

  -- The loop of `Scan` over the files found, each with the id that is drawn if it is new
  unfoldable pub merge : ℕ → List (String × Media) → List Media → List Media
  unfolding merge_one
  merge now [] library = library
  merge now ((fresh, m) ∷ found) library = merge now found (merge_one now fresh m library)

  -- `Scan`, of the files that `ScanDirectory` gives
  unfoldable pub scan : ℕ → List (String × Media) → Data → Txn Data (Unit {0})
  unfolding merge
  scan now found d = commit (record d { media = merge now found d.media }) tt

abbrev pub stamped : ℕ → Media → Media
stamped now m = record m { updated_at = now }

-- `Update`
unfoldable pub update : String → ℕ → (Media → Txn Media (Unit {0})) → Data → Txn Data (Unit {0})
update id now fn d =
    within (λ ms. record d { media = ms }) (change id_of id (stamped now) fn d.media)
