-- ===== src/Suggestions.antt =====
-- management/suggestion.go: `SuggestionService`. Each operation is the callback of `Store.Update`
-- that it runs, after its checks; the fresh ids and the time are arguments. A payload is the list
-- of the entries of its map, a key once.
pub mod Review
use kplayer_go.Prelude.{
  ℕ, String, Bool, true, false, not, Option, none, some, List, [], ◌∷◌, ◌++◌, str_eq, if◌then◌else◌,
}
use kplayer_go.Prelude.Lists.{any}
use kplayer_go.Prelude.Text.{is_blank}
use kplayer_go.Model.{Data, Playlist, Suggestion, SuggestionKind, SuggestionStatus}
use kplayer_go.Model.Err.{not_found, invalid}
use kplayer_go.Result.{Result, ok, err, Txn, commit, fail, refuse, check, ◌>>◌}
use kplayer_go.Collection.{find, put_first, has_id}
use kplayer_go.Ordering.{sort_by, newer}
use kplayer_go.Playlist.{new_playlist, set_playlist_items, validate_fallback_ref}

abbrev pub Payload : Type 0
Payload = List (String × String)

-- `payload[key]`, which is "" for a missing key
unfoldable pub value : String → Payload → String
value key [] = ""
value key (e ∷ es) = if str_eq e.0 key then e.1 else value key es

-- `payload[key] = v`
unfoldable pub with_value : String → String → Payload → Payload
with_value key v [] = (key, v) ∷ []
with_value key v (e ∷ es) =
    let rest = with_value key v es in if str_eq e.0 key then (key, v) ∷ es else e ∷ rest

-- `validateSuggestionKind`
abbrev pub known_kind : SuggestionKind → Bool
known_kind SuggestionKind.media_recommend = true
known_kind SuggestionKind.title_generate = true
known_kind (SuggestionKind.other s) = false

abbrev pub is_pending : SuggestionStatus → Bool
is_pending SuggestionStatus.pending = true
is_pending _ = false

abbrev pub is_empty : Payload → Bool
is_empty [] = true
is_empty (_ ∷ _) = false

abbrev pub suggestion_id : String → Suggestion → Bool
suggestion_id = has_id (λ s. s.id)

-- `findSuggestion`, `List` and `Get`
abbrev pub find_suggestion : Data → String → Option Suggestion
find_suggestion d id = find (suggestion_id id) d.suggestions

unfoldable pub list : Data → List Suggestion
list d = sort_by (newer (λ (s : Suggestion). s.created_at) (λ s. s.id)) d.suggestions

unfoldable pub get : String → Data → Result Suggestion
get id d = elim (find_suggestion d id) [ none ↦ err not_found | some s ↦ ok s ]

abbrev pub new_suggestion : String → ℕ → SuggestionKind → String → Payload → Suggestion
new_suggestion id now kind title payload = record {
  id = id;
  kind = kind;
  title = title;
  payload = payload;
  status = SuggestionStatus.pending;
  reason = "";
  created_at = now;
  applied_at = none;
  updated_at = now;
}

-- `Create`
unfoldable pub create : String → ℕ → SuggestionKind → String → Payload → Data → Txn Data Suggestion
create id now kind title payload d =
    let s = new_suggestion id now kind title payload in
    if not (known_kind kind)
    then fail invalid
    else if is_empty payload
    then fail invalid
    else commit (record d { suggestions = d.suggestions ++ s ∷ [] }) s

-- The suggestion that both reviews look for, which must be pending.
abbrev pub on_pending : String → Data → (Suggestion → Txn Data Suggestion) → Txn Data Suggestion
on_pending id d k = elim (find_suggestion d id) [
  | none ↦ fail not_found
  | some s ↦ if not (is_pending s.status) then fail invalid else k s
]

abbrev pub put_suggestion : String → Suggestion → Data → Data
put_suggestion id s d = record d { suggestions = put_first (suggestion_id id) s d.suggestions }

abbrev pub applied : ℕ → String → Suggestion → Suggestion
applied now playlist s = record s {
  payload = with_value "playlist_id" playlist s.payload;
  status = SuggestionStatus.applied;
  applied_at = some now;
  updated_at = now;
}

-- `Approve`: a playlist of the one media item is added.
unfoldable pub approve : String → ℕ → String → String → Data → Txn Data Suggestion
unfolding set_playlist_items validate_fallback_ref
approve list_id now id name d = on_pending id d λ s.
    let media = value "media_id" s.payload in
    let p = new_playlist list_id now name "" false in
    if is_blank media
    then fail invalid
    else if is_blank name
    then fail invalid
    else check (set_playlist_items d p (media ∷ [])) λ filled.
      check (validate_fallback_ref d filled) λ _.
        commit
          (put_suggestion id (applied now list_id s)
            (record d { playlists = d.playlists ++ filled ∷ [] }))
          (applied now list_id s)

abbrev pub reason_or_default : String → String
reason_or_default reason = if is_blank reason then "rejected by operator" else reason

-- `Reject`
unfoldable pub reject : String → ℕ → String → Data → Txn Data Suggestion
reject id now reason d = on_pending id d λ s.
    let s' : Suggestion = record s {
      status = SuggestionStatus.rejected;
      reason = reason_or_default reason;
      updated_at = now;
    } in
    commit (put_suggestion id s' d) s'
