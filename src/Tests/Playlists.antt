-- ===== src/Tests/Playlists.antt =====
-- Playlists and their references on a concrete document.
use kplayer_go.Prelude.{
  ℕ, ◌≤◌, ◌≡◌, ◌≢◌, refl, ap, sym, String, true, false, none, some, List, [], ◌∷◌, arith, ltb,
  str_eq, ◌⊎◌, ◌↔◌, if◌then◌else◌,
}
use kplayer_go.Prelude.Int.{pos}
use kplayer_go.Prelude.Lists.{any, length}
use kplayer_go.Model.{Data, Media, MediaSortOrder, Playlist, PlayMode, empty_data}
use kplayer_go.Result.{ok, Txn, commit, keep}
use kplayer_go.Collection.{find}
use kplayer_go.Playlist.{clamp_to, without_item, put_playlist, move_item, validate_fallback_ref}
use kplayer_go.Playlist.Moves.{IsMove, move_item-IsMove, without_item_lem}
use kplayer_go.Playlist.Fallback.{resolve_with_fallback, max_fallback_depth}
use kplayer_go.Playlist.Fallback.Chain.{
  Chain, resolve_with_fallback_total, resolve_with_fallback_iff,
}
use kplayer_go.MediaLibrary.{Files}
use kplayer_go.Tasks.Integrity.{HasRefs}
use kplayer_go.Tasks.Integrity.Runs.{
  Op, update_media, add_media, scan_media, add_item, delete_playlist, delete_media_op, set_fallback,
  after_ops, after_ops-HasRefs,
}

abbrev film : Media
film = record {
  id = "m1";
  name = "film";
  path = "film.mp4";
  ext = ".mp4";
  size = pos 1;
  mod_time = 1;
  is_dir = false;
  sort_by = MediaSortOrder.unset;
  audio_path = "";
  subtitle_path = "";
  duration = 0;
  probed = false;
  tags = [];
  created_at = 1;
  updated_at = 1;
}

abbrev playlist_with : String → String → List String → Playlist
playlist_with id fallback items = record {
  id = id;
  name = id;
  desc = "";
  fallback_playlist_id = fallback;
  items = items;
  mode = PlayMode.order;
  loop = false;
  created_at = 1;
  updated_at = 1;
}

-- An empty playlist that falls back to one with a film.
abbrev document : Data
document = record empty_data {
  media = film ∷ [];
  playlists = playlist_with "main" "spare" [] ∷ playlist_with "spare" "" ("m1" ∷ []) ∷ [];
}

document-HasRefs : HasRefs document
document-HasRefs = record {
  playlists = (
    record { items = tt; fallback = λ h. refl },
    (record { items = (refl, tt); fallback = λ h. absurd (ground (arith, h)) }, tt),
  );
  tasks = tt;
}

-- Paths that are clean, of files that are not there.
abbrev here : Files
here = record {
  clean = λ p. p;
  base = λ p. p;
  lower_ext = λ p. ".mp4";
  fold_case = λ p. p;
  is_dir = λ p. false;
  stat = λ p. none;
}

abbrev registered_film : Media
registered_film = record film { id = "m2"; path = "other.mp4"; created_at = 8; updated_at = 8 }

abbrev rename_to : String → Media → Txn Media (Unit {0})
rename_to name m = commit (record m { name = name }) tt

abbrev ops : List Op
ops =
    add_item "main" 5 "m1"
    ∷ delete_playlist "spare"
    ∷ delete_media_op "m1"
    ∷ set_fallback "main" 6 ""
    ∷ update_media "m1" 7 (rename_to "feature")
    ∷ add_media here 8 (("m2", record film { id = ""; path = "other.mp4" }) ∷ [])
    ∷ scan_media here 9 (("m3", film) ∷ ("m4", record film { path = "third.mp4" }) ∷ [])
    ∷ []

renamed : (m n : Media) → rename_to "feature" m ≡ commit n tt → n.id ≡ m.id
renamed m n e =
    let same : record m { name = "feature" } ≡ n = cc in ap (λ (x : Media). x.id) (sym same)

after_ops-HasRefs_example : HasRefs (after_ops ops document)
after_ops-HasRefs_example =
    after_ops-HasRefs ops document (tt, (tt, (tt, (tt, (renamed, (tt, (tt, tt)))))))
      document-HasRefs

resolve_with_fallback_total_example : resolve_with_fallback document "main" ≢ none
resolve_with_fallback_total_example = resolve_with_fallback_total document "main"

resolve_with_fallback_iff_example :
    (resolve_with_fallback document "main" ≡ some (ok (film ∷ []), true))
    ↔ ((n : ℕ) × Chain document (film ∷ []) "main" n × (n ≤ max_fallback_depth) × (true ≡ ltb 0 n))
resolve_with_fallback_iff_example = resolve_with_fallback_iff document "main" film [] true

abbrev three : Playlist
three = playlist_with "three" "" ("a" ∷ "b" ∷ "c" ∷ [])

abbrev shelf : Data
shelf = record empty_data { playlists = playlist_with "two" "three" [] ∷ three ∷ [] }

move_item-IsMove_example :
    let j = clamp_to (length three.items) (pos 9) in
    ((0 ≡ j) × (move_item "three" 7 (pos 0) (pos 9) shelf ≡ keep tt))
    ⊎ ((ys : List String) × IsMove 0 j three.items ys
        × (move_item "three" 7 (pos 0) (pos 9) shelf
            ≡ commit (put_playlist "three" (record three { items = ys; updated_at = 7 }) shelf) tt))
unfolding find validate_fallback_ref
move_item-IsMove_example =
    move_item-IsMove "three" 7 0 (pos 9) shelf three refl refl (omega arith) (omega arith)

without_item_lem_test :
    ((any (λ i. str_eq i "b") three.items ≡ false) × (without_item "b" three ≡ keep tt))
    ⊎ ((ys : List String) × (without_item "b" three ≡ commit (record three { items = ys }) tt)
        × (any (λ i. str_eq i "c") ys
            ≡ (if str_eq "b" "c" then false else any (λ i. str_eq i "c") three.items)))
without_item_lem_test = without_item_lem "b" "c" three
