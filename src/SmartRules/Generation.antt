-- ===== src/SmartRules/Generation.antt =====
-- management/smart_generate.go: `GeneratePlaylist` and `ApplyGenerated`. The comparison of a
-- float64 with an int is a parameter; no entry of the library is nil.
pub mod Selection
use kplayer_go.Prelude.{
  ℕ, zero, suc, String, Bool, true, false, not, ◌&&◌, Option, none, some, List, [], ◌∷◌, ◌++◌,
  if◌then◌else◌, leb, str_eq,
}
use kplayer_go.Prelude.Int.{ℤ, pos, negsuc, leb_ℤ, ltb_ℤ}
use kplayer_go.Prelude.Lists.{any, take, length}
use kplayer_go.Model.{Data, Media, Playlist, SmartRule, TimeSlot}
use kplayer_go.Model.Err.{invalid}
use kplayer_go.Result.{Result, ok, err, Txn, fail}
use kplayer_go.Playlist.{create}

abbrev pub default_repeat_lookback : ℕ
default_repeat_lookback = 10

abbrev pub default_max_items : ℕ
default_max_items = 20

-- A limit that is not positive is replaced by the default.
abbrev pub or_default : ℕ → ℤ → ℕ
or_default default (pos (suc n)) = suc n
or_default default _ = default

-- `inTimeSlots`
abbrev pub in_time_slots : List TimeSlot → ℤ → Bool
in_time_slots [] hour = true
in_time_slots (s ∷ slots) hour =
    any (λ (t : TimeSlot). leb_ℤ t.start_hour hour && leb_ℤ hour t.end_hour) (s ∷ slots)

-- `matchesTags`
abbrev pub matches_tags : List String → List String → Bool
matches_tags [] media_tags = true
matches_tags (r ∷ rule_tags) media_tags =
    any (λ rt. any (λ mt. str_eq rt mt) media_tags) (r ∷ rule_tags)

-- `inRecent`: a history that is shorter is read to its end.
abbrev pub in_recent : List String → String → ℕ → Bool
in_recent recent id lookback = any (λ x. str_eq x id) (take lookback recent)

module _ (exceeds : ℕ → ℤ → Bool) where
  -- `knownDuration`
  abbrev pub known_duration : Media → Bool
  known_duration m = m.probed && exceeds m.duration (pos 0)

  -- The filters of the loop, in their order
  unfoldable pub qualifies : SmartRule → List String → Media → Bool
  qualifies r recent m =
      matches_tags r.tags m.tags
      && not (
          ltb_ℤ (pos 0) r.max_duration_sec
          && known_duration m
          && exceeds m.duration r.max_duration_sec)
      && not (
          r.avoid_repeat
          && in_recent recent m.id (or_default default_repeat_lookback r.repeat_lookback))

-- The loop over the library, with the ids found so far: it breaks when they are as many as
-- allowed, tested after an append.
unfoldable pub collect : (Media → Bool) → ℕ → List String → List Media → List String
collect p max out [] = out
collect p max out (m ∷ media) =
    let found = p m in
    let next = if found then out ++ m.id ∷ [] else out in
    let rest = collect p max next media in if found && leb max (length next) then next else rest

-- `GeneratePlaylist`
unfoldable pub generate_playlist :
    (ℕ → ℤ → Bool) → Option SmartRule → List Media → List String → ℤ → Result (List String)
unfolding collect qualifies
generate_playlist exceeds none media recent hour = err invalid
generate_playlist exceeds (some r) media recent hour =
    if in_time_slots r.time_slots hour
    then ok
        (collect (qualifies exceeds r recent) (or_default default_max_items r.max_items) [] media)
    else ok []

-- `ApplyGenerated`
unfoldable pub apply_generated : String → ℕ → String → List String → Data → Txn Data Playlist
unfolding create
apply_generated id now name [] d = fail invalid
apply_generated id now name (m ∷ media_ids) d = create id now name "" (m ∷ media_ids) false d
