-- ===== src/Playlist/Fallback.antt =====
-- `ResolveWithFallback` of management/playlist.go: the bounded walk along the fallback chain.
pub mod Chain
use kplayer_go.Prelude.{
  ℕ, zero, suc, ◌+◌, String, Bool, true, false, Option, none, some, List, [], ◌∷◌, leb, str_eq,
  if◌then◌else◌,
}
use kplayer_go.Prelude.Lists.{any}
use kplayer_go.Model.{Data, Media, Playlist, Err, invalid}
use kplayer_go.Result.{Result, ok, err}
use kplayer_go.Playlist.{resolve_playlist, resolve_playlist_items}

abbrev pub max_fallback_depth : ℕ
max_fallback_depth = 5

-- The media, whether a fallback was used, or the error beside that flag.
abbrev pub Resolved : Type 0
Resolved = Result (List Media) × Bool

abbrev pub is_satisfied : Result (List Media) → Bool
is_satisfied (ok (m ∷ ms)) = true
is_satisfied _ = false

-- What a round returns for a playlist that has no fallback to go to.
unfoldable pub no_fallback : Result (List Media) → Result (List Media)
no_fallback (ok ms) = ok ms
no_fallback (err e) = err e

-- The loop, with the variables that it carries; `none` would be a lack of fuel.
unfoldable pub follow : ℕ → Data → List String → String → ℕ → Bool → Option Resolved
unfolding no_fallback
follow zero d seen cur hops used = none
follow (suc fuel) d seen cur hops used =
    if any (λ s. str_eq s cur) seen
    then some (err invalid, used)
    else (let items = resolve_playlist_items d cur in
        if is_satisfied items then some (items, used) else (elim (resolve_playlist d cur) [
          | err e ↦ some (items, used)
          | ok p ↦
              if str_eq p.fallback_playlist_id ""
              then some (no_fallback items, used)
              else if leb max_fallback_depth hops
              then some (err invalid, used)
              else follow fuel d (cur ∷ seen) p.fallback_playlist_id (hops + 1) true
        ]))

-- One round more than the hops that are allowed.
unfoldable pub resolve_with_fallback : Data → String → Option Resolved
unfolding follow
resolve_with_fallback d id = follow (suc max_fallback_depth) d [] id 0 false
