-- ===== src/Tests/Rules.antt =====
-- Smart rules and generation on a concrete library. Durations are compared as if their bits were
-- a number of seconds.
use kplayer_go.Prelude.{ℕ, ◌≡◌, refl, Bool, true, false, String, some, List, [], ◌∷◌}
use kplayer_go.Prelude.Int.{ℤ, pos, ltb_ℤ}
use kplayer_go.Prelude.Text.{trim_space}
use kplayer_go.Model.{Data, Media, MediaSortOrder, SmartRule, empty_data}
use kplayer_go.Result.{ok, commit}
use kplayer_go.Playlist.{new_playlist}
use kplayer_go.SmartRules.Generation.{qualifies, collect, generate_playlist, apply_generated}
use kplayer_go.SmartRules.Generation.Selection.{
  program, generate_playlist-program, generate_playlist-apply_generated,
}

abbrev seconds_exceed : ℕ → ℤ → Bool
seconds_exceed bits z = ltb_ℤ z (pos bits)

abbrev clip : String → ℕ → List String → Media
clip id duration tags = record {
  id = id;
  name = id;
  path = "/clip.mp4";
  ext = ".mp4";
  size = pos 1;
  mod_time = 1;
  is_dir = false;
  sort_by = MediaSortOrder.unset;
  audio_path = "";
  subtitle_path = "";
  duration = duration;
  probed = true;
  tags = tags;
  created_at = 1;
  updated_at = 1;
}

-- The second clip was just played, the third is too long, the fourth has another tag.
abbrev library : Data
library = record empty_data {
  media =
      clip "m1" 30 ("news" ∷ [])
      ∷ clip "m2" 30 ("news" ∷ [])
      ∷ clip "m3" 90 ("news" ∷ [])
      ∷ clip "m4" 30 ("film" ∷ [])
      ∷ clip "m5" 60 ("film" ∷ "news" ∷ [])
      ∷ clip "m6" 30 ("news" ∷ [])
      ∷ [];
}

abbrev morning : SmartRule
morning = record {
  id = "r1";
  name = "morning";
  description = "";
  time_slots = record { start_hour = pos 6; end_hour = pos 9 } ∷ [];
  tags = "news" ∷ [];
  max_duration_sec = pos 60;
  avoid_repeat = true;
  repeat_lookback = pos 0;
  max_items = pos 2;
  enabled = true;
  created_at = 1;
  updated_at = 1;
}

generated_test :
    generate_playlist seconds_exceed (some morning) library.media ("m2" ∷ []) (pos 9)
    ≡ ok ("m1" ∷ "m5" ∷ [])
unfolding generate_playlist collect qualifies
generated_test = refl

off_hours_test :
    generate_playlist seconds_exceed (some morning) library.media ("m2" ∷ []) (pos 10) ≡ ok []
unfolding generate_playlist
off_hours_test = refl

generate_playlist-program_example :
    generate_playlist seconds_exceed (some morning) library.media ("m2" ∷ []) (pos 9)
    ≡ ok (program seconds_exceed morning library.media ("m2" ∷ []) (pos 9))
generate_playlist-program_example =
    generate_playlist-program seconds_exceed morning library.media ("m2" ∷ []) (pos 9)

abbrev programmed : Data
programmed = record library {
  playlists = record (new_playlist "p1" 7 "breakfast" "" false) { items = "m1" ∷ "m5" ∷ [] } ∷ [];
}

generate_playlist-apply_generated_example :
    apply_generated "p1" 7 "breakfast" ("m1" ∷ "m5" ∷ []) library
    ≡ commit programmed
        (record (new_playlist "p1" 7 "breakfast" "" false) { items = "m1" ∷ "m5" ∷ [] })
unfolding trim_space
generate_playlist-apply_generated_example =
    generate_playlist-apply_generated seconds_exceed morning ("m2" ∷ []) (pos 9) library "m1"
      ("m5" ∷ []) "p1" 7 "breakfast"
      (
        (refl, refl),
        ((refl, refl), ((refl, refl), ((refl, refl), ((refl, refl), ((refl, refl), tt))))),
      )
      refl generated_test
