-- ===== src/MediaLibrary/Paths.antt =====
-- What `addMany` of management/media.go does to the paths of the library.
use kplayer_go.Prelude.{ℕ, ◌≡◌, List, ◌++◌}
use kplayer_go.Prelude.Lists.{length}
use kplayer_go.Model.{Media}
use kplayer_go.Collection.Distinct.{Distinct}
use kplayer_go.MediaLibrary.{Files, path_key}

-- What a batch leaves: no two paths agree, if none did, and as many entries are added at the end.
pub record Added (files : Files) (n : ℕ) (before after : List Media) : Type 0 where
  pub paths : Distinct (path_key files) after
  pub added : List Media
  pub as_many : length added ≡ n
  pub at_end : after ≡ before ++ added
