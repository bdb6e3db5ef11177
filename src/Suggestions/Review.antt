-- ===== src/Suggestions/Review.antt =====
-- A suggestion of management/suggestion.go is decided once, and an approval adds its playlist.
use kplayer_go.Prelude.{
  ℕ, ◌≡◌, refl, true, false, String, some, [], ◌∷◌, ◌++◌, arith, Bool-cases, Option-cases, inl, inr,
  ap, sym, ◌∙◌,
}
use kplayer_go.Prelude.Text.{trim_space, is_blank}
use kplayer_go.Model.{Data, Playlist, Media, Suggestion, SuggestionStatus}
use kplayer_go.Model.Err.{invalid}
use kplayer_go.Result.{ok, Txn, commit, keep, fail, check, check-commit, Result-cases}
use kplayer_go.Collection.{find, put_first}
use kplayer_go.Collection.Laws.{find-passes, find-put_first}
use kplayer_go.Playlist.{
  new_playlist, check_items, set_playlist_items, resolve_media, validate_fallback_ref,
}
use kplayer_go.Suggestions.{
  is_pending, suggestion_id, on_pending, put_suggestion, applied, approve, reject,
  reason_or_default, value,
}

-- The two ways to decide.
pub data Decision : Type 0 where
  approving : String → ℕ → String → Decision
  rejecting : ℕ → String → Decision

unfoldable pub decide : Decision → String → Data → Txn Data Suggestion
decide (approving list_id now name) id d = approve list_id now id name d
decide (rejecting now reason) id d = reject id now reason d

-- What a decision that is carried out did: it found the suggestion pending and put one in its place
-- that is not.
pub record Decided (id : String) (d e : Data) : Type 0 where
  pub before : Suggestion
  pub after : Suggestion
  pub found : find (suggestion_id id) d.suggestions ≡ some before
  pub open_before : is_pending before.status ≡ true
  pub same_id : after.id ≡ before.id
  pub closed : is_pending after.status ≡ false
  pub stored : e.suggestions ≡ put_first (suggestion_id id) after d.suggestions

on_pending-inverts :
    (id : String) (d e : Data) (s : Suggestion) (k : Suggestion → Txn Data Suggestion)
    → on_pending id d k ≡ commit e s
    → (x : Suggestion) × (find (suggestion_id id) d.suggestions ≡ some x)
      × (is_pending x.status ≡ true)
      × (k x ≡ commit e s)
on_pending-inverts id d e s k h = elim (Option-cases (find (suggestion_id id) d.suggestions)) [
  | inl gone ↦ absurd (ground (arith, gone, h))
  | inr (x, f) ↦ elim (Bool-cases (is_pending x.status)) [
    | inl open_still ↦ (x, f, open_still, ground (arith, f, open_still, h))
    | inr closed ↦ absurd (ground (arith, f, closed, h))
  ]
]

-- What an approval that is carried out did.
pub record Approved (id list_id name : String) (now : ℕ) (d e : Data) (s : Suggestion)
    : Type 0 where
  pub media : Media
  pub before : Suggestion
  pub list : Playlist
  pub found : find (suggestion_id id) d.suggestions ≡ some before
  pub was_pending : is_pending before.status ≡ true
  pub resolved : resolve_media d (trim_space (value "media_id" before.payload)) ≡ ok media
  pub items : list.items ≡ trim_space (value "media_id" before.payload) ∷ []
  pub named : (list.id ≡ list_id) × (list.name ≡ name)
  pub added : e.playlists ≡ d.playlists ++ list ∷ []
  pub decided : Decided id d e
  pub result : s ≡ applied now list_id before
  pub stored : e.suggestions ≡ put_first (suggestion_id id) s d.suggestions
  pub is_applied : (s.status ≡ SuggestionStatus.applied) × (s.applied_at ≡ some now)

set_one :
    (d : Data) (p filled : Playlist) (m : String)
    → is_blank m ≡ false
    → set_playlist_items d p (m ∷ []) ≡ ok filled
    → (x : Media) × (resolve_media d (trim_space m) ≡ ok x)
      × (record p { items = trim_space m ∷ [] } ≡ filled)
unfolding set_playlist_items check_items
set_one d p filled m h e = elim (Result-cases (resolve_media d (trim_space m))) [
  | inl (x, r) ↦ (x, r, ground (arith, h, r, e))
  | inr (x, r) ↦ absurd (ground (arith, h, r, e))
]

commit-same {ℓ κ} :
    {D : Type ℓ} {A : Type κ} {d e : D} {a b : A} → commit d a ≡ commit e b → (d ≡ e) × (a ≡ b)
commit-same {d = d} {a = a} h = (
  ap (λ t. elim t [ commit x y ↦ x | keep y ↦ d | fail z ↦ d ]) h,
  ap (λ t. elim t [ commit x y ↦ y | keep y ↦ y | fail z ↦ a ]) h,
)

-- An approval that is carried out found the suggestion with the id in the document, pending. It
-- adds one playlist with the name, at the end, whose one item is the media item of that
-- suggestion's payload, which is in the document, and puts in the suggestion's place, and reports,
-- the same suggestion marked as applied.
pub approve-Approved :
    (list_id : String) (now : ℕ) (id name : String) (d e : Data) (s : Suggestion)
    → approve list_id now id name d ≡ commit e s
    → Approved id list_id name now d e s
unfolding approve
approve-Approved list_id now id name d e s h =
    let (x, found, pending, h1) = on_pending-inverts id d e s _ h in
    let m = value "media_id" x.payload in
    let p = new_playlist list_id now name "" false in
    let has_media : is_blank m ≡ false = ground (arith, h1) in
    let has_name : is_blank name ≡ false = ground (arith, has_media, h1) in
    let h2 : check (set_playlist_items d p (m ∷ [])) (λ filled.
      check (validate_fallback_ref d filled) λ _.
        commit
          (put_suggestion id (applied now list_id x)
            (record d { playlists = d.playlists ++ filled ∷ [] }))
          (applied now list_id x))
        ≡ commit e s =
      ground (arith, has_media, has_name, h1) in
    let (filled, set, h3) = check-commit (set_playlist_items d p (m ∷ [])) _ h2 in
    let (_, refs, h4) = check-commit (validate_fallback_ref d filled) _ h3 in
    let (doc, out) = commit-same h4 in
    let (media, there, made) = set_one d p filled m has_media set in
    record {
      media = media;
      before = x;
      found = found;
      was_pending = pending;
      list = filled;
      resolved = there;
      items = ap (λ (l : Playlist). l.items) (sym made);
      named = (ap (λ (l : Playlist). l.id) (sym made), ap (λ (l : Playlist). l.name) (sym made));
      added = ap (λ (y : Data). y.playlists) (sym doc);
      decided = record {
        before = x;
        after = applied now list_id x;
        found = found;
        open_before = pending;
        same_id = refl;
        closed = refl;
        stored = ap (λ (y : Data). y.suggestions) (sym doc);
      };
      result = sym out;
      stored =
          ap (λ (y : Data). y.suggestions) (sym doc)
          ∙ ap (λ y. put_first (suggestion_id id) y d.suggestions) out;
      is_applied = (
        ap (λ (y : Suggestion). y.status) (sym out),
        ap (λ (y : Suggestion). y.applied_at) (sym out),
      );
    }

decide-Decided :
    (r : Decision) (id : String) (d e : Data) (s : Suggestion)
    → decide r id d ≡ commit e s
    → Decided id d e
unfolding decide reject
decide-Decided (approving list_id now name) id d e s h =
    let a = approve-Approved list_id now id name d e s h in a.decided
decide-Decided (rejecting now reason) id d e s h =
    let (x, found, pending, h1) = on_pending-inverts id d e s _ h in
    let (doc, out) = commit-same h1 in
    record {
      before = x;
      after = record x {
        status = SuggestionStatus.rejected;
        reason = reason_or_default reason;
        updated_at = now;
      };
      found = found;
      open_before = pending;
      same_id = refl;
      closed = refl;
      stored = ap (λ (y : Data). y.suggestions) (sym doc);
    }

closed-refused :
    (q : Decision) (id : String) (e : Data) (y : Suggestion)
    → find (suggestion_id id) e.suggestions ≡ some y
    → is_pending y.status ≡ false
    → decide q id e ≡ fail invalid
unfolding decide approve reject
closed-refused (approving list_id now name) id e y f closed = ground (arith, f, closed)
closed-refused (rejecting now reason) id e y f closed = ground (arith, f, closed)

-- A suggestion is decided once: after an approval or a rejection that is carried out, every
-- further one of the same suggestion is refused as invalid.
pub decide-once :
    (r q : Decision) (id : String) (d e : Data) (s : Suggestion)
    → decide r id d ≡ commit e s
    → decide q id e ≡ fail invalid
decide-once r q id d e s h =
    let w = decide-Decided r id d e s h in
    let own = find-passes (suggestion_id id) d.suggestions w.before w.found in
    let now_found : find (suggestion_id id) e.suggestions ≡ some w.after =
      ap (find (suggestion_id id)) w.stored
      ∙ find-put_first (suggestion_id id) w.after d.suggestions w.before w.found
          (ground (arith, own, w.same_id)) in
    closed-refused q id e w.after now_found w.closed
