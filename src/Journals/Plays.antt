-- ===== src/Journals/Plays.antt =====
-- management/play_event.go: `PlayEventService`, and the sums of metrics.go over its log. Each
-- operation that writes is the callback of `Store.Update` that it runs, after its checks.
use kplayer_go.Prelude.{
  ℕ, zero, suc, String, Bool, true, false, not, ◌&&◌, List, [], ◌∷◌, ◌++◌, str_eq, if◌then◌else◌,
  ltb, ◌==◌,
}
use kplayer_go.Prelude.Lists.{count, take}
use kplayer_go.Prelude.Int.{ℤ, pos, negsuc, is_zero_time}
use kplayer_go.Prelude.Text.{is_blank, less_text}
use kplayer_go.Model.{Data, PlayEvent, PlayResult}
use kplayer_go.Model.Err.{invalid}
use kplayer_go.Result.{Result, ok, Txn, commit, refuse, check, ◌>>◌}
use kplayer_go.Ordering.{sort_by, newer}
use kplayer_go.Catalog.{within}
use kplayer_go.Journals as Journals

abbrev pub default_result : PlayResult → PlayResult
default_result PlayResult.unset = PlayResult.success
default_result r = r

-- `validatePlayResult`
abbrev pub known_result : PlayResult → Bool
known_result PlayResult.success = true
known_result PlayResult.failure = true
known_result _ = false

abbrev pub is_success : PlayResult → Bool
is_success PlayResult.success = true
is_success _ = false

abbrev pub is_failure : PlayResult → Bool
is_failure PlayResult.failure = true
is_failure _ = false

-- The event that `Record` stores, or its refusal.
unfoldable pub prepare : String → ℕ → PlayEvent → Result PlayEvent
prepare id now e =
    let r = default_result e.result in
    (do
      refuse (is_blank e.media_id && is_blank e.playlist_id) invalid
      refuse (not (known_result r)) invalid
      ok (record e { id = id; result = r; time = if is_zero_time e.time then now else e.time }))

-- `Record`
unfoldable pub record_event : String → ℕ → PlayEvent → Data → Txn Data PlayEvent
unfolding prepare
record_event id now event d =
    check (prepare id now event) λ e. commit (record d { play_events = d.play_events ++ e ∷ [] }) e

abbrev pub limited : ℤ → List PlayEvent → List PlayEvent
limited (negsuc n) es = es
limited (pos zero) es = es
limited (pos (suc n)) es = take (suc n) es

-- `sortPlayEvents`, `List`
unfoldable pub list : ℤ → Data → List PlayEvent
list limit d = limited limit (sort_by (newer (λ (e : PlayEvent). e.time) (λ e. e.id)) d.play_events)

-- `CountByResult`
pub record ResultCounts : Type 0 where
  pub successes : ℕ
  pub failures : ℕ

unfoldable pub count_by_result : Data → ResultCounts
count_by_result d = record {
  successes = count (λ (e : PlayEvent). is_success e.result) d.play_events;
  failures = count (λ (e : PlayEvent). is_failure e.result) d.play_events;
}

pub record MediaCount : Type 0 where
  pub media_id : String
  pub plays : ℕ

-- The map of counts: each event adds one to the entry of its media item.
abbrev pub bump : String → List MediaCount → List MediaCount
bump id [] = record { media_id = id; plays = 1 } ∷ []
bump id (c ∷ cs) =
    let rest = bump id cs in
    if str_eq c.media_id id then record c { plays = suc c.plays } ∷ cs else c ∷ rest

unfoldable pub tally : List MediaCount → List PlayEvent → List MediaCount
tally cs [] = cs
tally cs (e ∷ es) = tally (if str_eq e.media_id "" then cs else bump e.media_id cs) es

abbrev pub more_plays : MediaCount → MediaCount → Bool
more_plays a b = if a.plays == b.plays then less_text a.media_id b.media_id else ltb b.plays a.plays

-- `TopMedia`
unfoldable pub top_media : ℤ → Data → List MediaCount
unfolding tally
top_media (negsuc n) d = []
top_media (pos n) d = take n (sort_by more_plays (tally [] d.play_events))

-- `PlaysByHour`, with the hour of an instant in the local zone
unfoldable pub plays_by_hour : (ℕ → ℕ) → Data → ℕ → ℕ
plays_by_hour hour_of d h =
    count (λ (e : PlayEvent). not (is_zero_time e.time) && hour_of e.time == h) d.play_events

-- `Prune`
unfoldable pub prune : ℤ → Data → Txn Data ℕ
prune max_entries d =
    within (λ es. record d { play_events = es })
      (Journals.prune (λ (e : PlayEvent). e.time) (λ e. e.id) max_entries d.play_events)

-- The counts behind `MediaFailureRate` of metrics.go: plays, and failures
unfoldable pub media_plays : String → Data → ℕ × ℕ
media_plays id d = (
  count (λ (e : PlayEvent). str_eq e.media_id id && known_result e.result) d.play_events,
  count (λ (e : PlayEvent). str_eq e.media_id id && is_failure e.result) d.play_events,
)
