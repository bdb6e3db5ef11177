-- ===== src/Playlist.antt =====
-- management/playlist.go: playlists as ordered lists of media references with a fallback
-- playlist. The operations are
-- the callbacks of `Store.Update`, from the document to the outcome; the time of the call and the random id of a new playlist are arguments.
pub mod Moves
pub mod Fallback
use kplayer_go.Prelude.{
  ℕ, zero, suc, ◌-◌, String, Bool, true, false, not, ◌||◌, Option, none, some, List, [], ◌∷◌, ◌++◌,
  leb, ltb, ◌==◌, str_eq, if◌then◌else◌,
}
use kplayer_go.Prelude.Lists.{length, any, select, get_elem?, take, drop}
use kplayer_go.Prelude.Int.{ℤ, pos, negsuc}
use kplayer_go.Prelude.Text.{trim_space, is_blank}
use kplayer_go.Model.{Data, Media, Playlist, PlayMode, Err, not_found, in_use, invalid, plain}
use kplayer_go.Result.{Result, ok, err, ◌>>=◌, ◌>>◌, refuse, Txn, commit, keep, fail, check}
use kplayer_go.Collection.{find, put_first, cut_first, has_id}

-- `EffectiveMode`
by_mode : PlayMode → Bool → PlayMode
by_mode PlayMode.loop l = PlayMode.loop
by_mode PlayMode.random l = PlayMode.random
by_mode PlayMode.random_loop l = PlayMode.random_loop
by_mode _ l = if l then PlayMode.loop else PlayMode.order

unfoldable pub effective_mode : Playlist → PlayMode
unfolding by_mode
effective_mode p = by_mode p.mode p.loop

abbrev pub media_id : String → Media → Bool
media_id = has_id (λ m. m.id)

abbrev pub playlist_id : String → Playlist → Bool
playlist_id = has_id (λ p. p.id)

abbrev pub or_not_found {ℓ} : {A : Type ℓ} → Option A → Result A
or_not_found none = err not_found
or_not_found (some x) = ok x

-- `ResolveMedia` of media.go and `ResolvePlaylist` of schedule.go
unfoldable pub resolve_media : Data → String → Result Media
resolve_media d id = or_not_found (find (media_id id) d.media)

unfoldable pub resolve_playlist : Data → String → Result Playlist
resolve_playlist d id = or_not_found (find (playlist_id id) d.playlists)

-- `Get`
unfoldable pub get : String → Data → Result Playlist
get id d = or_not_found (find (playlist_id id) d.playlists)

-- The loop of `setPlaylistItems`; a nil document is never passed.
unfoldable pub check_items : Data → List String → Result (List String)
unfolding resolve_media
check_items d [] = ok []
check_items d (id ∷ ids) =
    let rest = check_items d ids in
    let name = trim_space id in
    if str_eq name "" then rest else (do m ← resolve_media d name; items ← rest; ok (name ∷ items))

-- `setPlaylistItems`: the ids are trimmed and blank ones dropped; `p` is changed only if all exist.
unfoldable pub set_playlist_items : Data → Playlist → List String → Result Playlist
unfolding check_items
set_playlist_items d p ids = do items ← check_items d ids; ok (record p { items = items })

-- `validateFallbackRef`
unfoldable pub validate_fallback_ref : Data → Playlist → Result (Unit {0})
unfolding resolve_playlist
validate_fallback_ref d p = if str_eq p.fallback_playlist_id "" then ok tt else (do
  refuse (str_eq p.fallback_playlist_id p.id) invalid
  other ← resolve_playlist d p.fallback_playlist_id
  ok tt)

abbrev pub new_playlist : String → ℕ → String → String → Bool → Playlist
new_playlist id now name desc loop = record {
  id = id;
  name = name;
  desc = desc;
  fallback_playlist_id = "";
  items = [];
  mode = PlayMode.unset;
  loop = loop;
  created_at = now;
  updated_at = now;
}

-- `Create`: the new playlist is not yet in the document when its reference is checked.
unfoldable pub create : String → ℕ → String → String → List String → Bool → Data → Txn Data Playlist
unfolding set_playlist_items validate_fallback_ref
create id now name desc media_ids loop d =
    if is_blank name
    then fail invalid
    else check (set_playlist_items d (new_playlist id now name desc loop) media_ids) λ p.
      check (validate_fallback_ref d p)
        λ _. commit (record d { playlists = d.playlists ++ p ∷ [] }) p

-- The document after the playlist with the id was changed through its pointer.
abbrev pub put_playlist : String → Playlist → Data → Data
put_playlist id p d = record d { playlists = put_first (playlist_id id) p d.playlists }

-- The loop that looks for the playlist to change.
abbrev pub on_playlist : String → Data → (Playlist → Txn Data (Unit {0})) → Txn Data (Unit {0})
on_playlist id d k = elim (find (playlist_id id) d.playlists) [
  | none ↦ fail not_found
  | some p ↦ k p
]

-- The end of `Update` and of `SetItems`: the reference is checked and the playlist is stamped.
unfoldable pub finish : String → ℕ → Data → Playlist → Txn Data (Unit {0})
unfolding validate_fallback_ref
finish id now d p =
    check (validate_fallback_ref (put_playlist id p d) p)
      λ _. commit (put_playlist id (record p { updated_at = now }) d) tt

abbrev pub change_with : String → ℕ → Data → Txn Playlist (Unit {0}) → Txn Data (Unit {0})
change_with id now d (commit p u) = finish id now d p
change_with id now d (keep u) = keep u
change_with id now d (fail e) = fail e

-- `Update`
unfoldable pub update :
    String → ℕ → (Playlist → Txn Playlist (Unit {0})) → Data → Txn Data (Unit {0})
unfolding finish
update id now fn d = on_playlist id d (λ p. change_with id now d (fn p))

-- `SetFallback`
unfoldable pub set_fallback : String → ℕ → String → Data → Txn Data (Unit {0})
unfolding update
set_fallback id now fallback =
    update id now (λ p. commit (record p { fallback_playlist_id = fallback }) tt)

-- `Delete`
unfoldable pub delete : String → Data → Txn Data (Unit {0})
delete id d = on_playlist id d (λ p.
    if any (λ t. str_eq t.playlist_id id) d.tasks
    then fail in_use
    else if any (λ o. str_eq o.fallback_playlist_id id) d.playlists
    then fail in_use
    else commit (record d { playlists = cut_first (playlist_id id) d.playlists }) tt)

-- `SetItems`
unfoldable pub set_items : String → ℕ → List String → Data → Txn Data (Unit {0})
unfolding set_playlist_items finish
set_items id now media_ids d =
    on_playlist id d (λ p. check (set_playlist_items d p media_ids) λ p'. finish id now d p')

-- `AddItem`, which does not stamp the playlist.
unfoldable pub add_item : String → String → Data → Txn Data (Unit {0})
unfolding resolve_media
add_item id media d = on_playlist id d (λ p.
    if str_eq media ""
    then fail invalid
    else check (resolve_media d media) λ _.
      if any (λ i. str_eq i media) p.items
      then keep tt
      else commit (put_playlist id (record p { items = p.items ++ media ∷ [] }) d) tt)

-- `RemoveItem`
abbrev pub without_item : String → Playlist → Txn Playlist (Unit {0})
without_item media p =
    if any (λ i. str_eq i media) p.items
    then commit (record p { items = select (λ i. not (str_eq i media)) p.items }) tt
    else keep tt

unfoldable pub remove_item : String → ℕ → String → Data → Txn Data (Unit {0})
unfolding update
remove_item id now media = update id now (without_item media)

-- The slice operations of `MoveItem`: the item at `i` is cut out, then put back before position `j`.
unfoldable pub cut_at {ℓ} : {A : Type ℓ} → ℕ → List A → List A
cut_at zero [] = []
cut_at zero (x ∷ xs) = xs
cut_at (suc i) [] = []
cut_at (suc i) (x ∷ xs) = x ∷ cut_at i xs

unfoldable pub insert_at {ℓ} : {A : Type ℓ} → ℕ → A → List A → List A
insert_at zero a xs = a ∷ xs
insert_at (suc j) a [] = a ∷ []
insert_at (suc j) a (x ∷ xs) = x ∷ insert_at j a xs

-- `to`, clamped to the slice.
abbrev pub clamp_to : ℕ → ℤ → ℕ
clamp_to n (negsuc k) = 0
clamp_to n (pos k) = if leb n k then n - 1 else k

unfoldable pub moved_from : ℕ → ℕ → ℤ → Playlist → Txn Playlist (Unit {0})
unfolding cut_at insert_at
moved_from n from to p =
    if leb n from
    then fail invalid
    else (let j = clamp_to n to in
        if from == j then keep tt else (elim (get_elem? p.items from) [
          | none ↦ fail invalid
          | some item ↦ commit (record p { items = insert_at j item (cut_at from p.items) }) tt
        ]))

-- The callback of `MoveItem`. (The item at an index below the length is there.)
unfoldable pub moved : ℤ → ℤ → Playlist → Txn Playlist (Unit {0})
unfolding moved_from
moved from to p =
    let n = length p.items in
    if ltb n 2
    then keep tt
    else (elim from [ negsuc k ↦ fail invalid | pos i ↦ moved_from n i to p ])

unfoldable pub move_item : String → ℕ → ℤ → ℤ → Data → Txn Data (Unit {0})
unfolding update moved
move_item id now from to = update id now (moved from to)

-- `ClearItems`
unfoldable pub clear_items : String → ℕ → Data → Txn Data (Unit {0})
unfolding update
clear_items id now = update id now (λ p. commit (record p { items = [] }) tt)

-- The loop of `resolvePlaylistItems`; its error wraps no sentinel.
unfoldable pub resolve_items : Data → List String → Result (List Media)
unfolding resolve_media
resolve_items d [] = ok []
resolve_items d (id ∷ ids) =
    let rest = resolve_items d ids in
    elim (resolve_media d id) [ err e ↦ err plain | ok m ↦ (do ms ← rest; ok (m ∷ ms)) ]

-- `Resolve`, which is `resolvePlaylistItems` under the read lock
unfoldable pub resolve_playlist_items : Data → String → Result (List Media)
unfolding resolve_items
resolve_playlist_items d id = elim (find (playlist_id id) d.playlists) [
  | none ↦ err not_found
  | some p ↦ resolve_items d p.items
]
