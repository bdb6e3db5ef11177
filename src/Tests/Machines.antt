-- ===== src/Tests/Machines.antt =====
-- Nodes with their instances, webhook deliveries and suggestions, on concrete documents.
use kplayer_go.Prelude.{none, false, ◌-◌, ◌≤◌, ◌≡◌, refl, Bool, true, [], ◌∷◌, String, ltb}
use kplayer_go.Prelude.Int.{pos}
use kplayer_go.Model.{
  Data, Node, NodeStatus, Instance, InstanceStatus, WebhookSubscription, WebhookEvent, empty_data,
  Suggestion, SuggestionKind, SuggestionStatus, Media, MediaSortOrder,
}
use kplayer_go.Model.Err.{invalid}
use kplayer_go.Result.{commit, fail}
use kplayer_go.Prelude.Text.{trim_space}
use kplayer_go.Collection.{find, put_first}
use kplayer_go.Playlist.{new_playlist}
use kplayer_go.Suggestions.{applied, approve, with_value, value}
use kplayer_go.Suggestions.Review.{
  Approved, decide, approving, rejecting, approve-Approved, decide-once,
}
use kplayer_go.Nodes.Integrity.{deleting, after_call, after_node_call-WellFormed}
use kplayer_go.Nodes.References.{WellFormed}
use kplayer_go.Webhooks.Deliveries.{
  Dispatcher, Surroundings, attempts_allowed, status_of, delivery_of,
}
use kplayer_go.Webhooks.Deliveries.Attempts.{Attempted, delivery_of-attempts}

abbrev node : String → String → Node
node id name = record {
  id = id;
  name = name;
  address = "10.0.0.1:80";
  status = NodeStatus.online;
  last_seen = 4;
  enabled = true;
  created_at = 1;
  updated_at = 4;
}

abbrev instance_of : String → Instance
instance_of node_id = record {
  id = "i1";
  node_id = node_id;
  name = "channel";
  status = InstanceStatus.running;
  channel_id = "";
  created_at = 2;
  updated_at = 2;
}

abbrev cluster : Data
cluster = record empty_data {
  nodes = node "n1" "east" ∷ node "n2" "west" ∷ [];
  instances = instance_of "n1" ∷ [];
}

after_node_call-WellFormed_example : WellFormed (after_call (deleting "n2") cluster)
after_node_call-WellFormed_example = after_node_call-WellFormed (deleting "n2") cluster tt (record {
  nodes_kept = record {
    ids = (refl, (refl, tt));
    names = (refl, (refl, tt));
    each = ((refl, refl, refl), ((refl, refl, refl), tt));
  };
  refs_live = (refl, tt);
})

abbrev dispatcher : Dispatcher
dispatcher = record { max_retries = pos 3; max_history = pos 500 }

abbrev second_works : Surroundings
second_works = record { marshals = true; live = true; posts = λ k. ltb 1 k; waits = λ k. true }

abbrev subscription : WebhookSubscription
subscription = record {
  id = "s1";
  name = "ops";
  url = "https://example.org/hook";
  events = WebhookEvent.engine_exited ∷ [];
  enabled = true;
  created_at = 1;
  updated_at = 1;
}

delivery_of-attempts_example :
    (b : Bool) × Attempted
      (λ k. ltb 1 k)
      (λ k. true)
      (attempts_allowed (pos 3) - 1)
      1
      b
      (delivery_of dispatcher second_works "d" 8 9 subscription WebhookEvent.engine_exited).attempts
    × ((delivery_of dispatcher second_works "d" 8 9 subscription WebhookEvent.engine_exited).status
        ≡ status_of b)
    × (1
        ≤ (delivery_of dispatcher second_works "d" 8 9 subscription
            WebhookEvent.engine_exited).attempts)
    × ((delivery_of dispatcher second_works "d" 8 9 subscription
          WebhookEvent.engine_exited).attempts
        ≤ attempts_allowed (pos 3))
delivery_of-attempts_example =
    delivery_of-attempts dispatcher second_works "d" 8 9 subscription WebhookEvent.engine_exited
      refl refl

abbrev suggestion : Suggestion
suggestion = record {
  id = "s1";
  kind = SuggestionKind.media_recommend;
  title = "";
  payload = ("media_id", " m1 ") ∷ [];
  status = SuggestionStatus.pending;
  reason = "";
  created_at = 1;
  applied_at = none;
  updated_at = 1;
}

abbrev film : Media
film = record {
  id = "m1";
  name = "film";
  path = "/film.mp4";
  ext = ".mp4";
  size = pos 1;
  mod_time = 1;
  is_dir = false;
  sort_by = MediaSortOrder.unset;
  audio_path = "";
  subtitle_path = "";
  duration = 0;
  probed = false;
  tags = [];
  created_at = 0;
  updated_at = 0;
}

abbrev open_case : Data
open_case = record empty_data { media = film ∷ []; suggestions = suggestion ∷ [] }

abbrev decided_case : Data
decided_case = record open_case {
  playlists = record (new_playlist "p1" 7 "evening" "" false) { items = "m1" ∷ [] } ∷ [];
  suggestions = applied 7 "p1" suggestion ∷ [];
}

approved_test :
    approve "p1" 7 "s1" "evening" open_case ≡ commit decided_case (applied 7 "p1" suggestion)
unfolding approve trim_space find put_first with_value value
approved_test = refl

approved_again_test :
    decide (approving "p1" 7 "evening") "s1" open_case
    ≡ commit decided_case (applied 7 "p1" suggestion)
unfolding decide
approved_again_test = approved_test

approve-Approved_example :
    Approved "s1" "p1" "evening" 7 open_case decided_case (applied 7 "p1" suggestion)
approve-Approved_example =
    approve-Approved "p1" 7 "s1" "evening" open_case decided_case (applied 7 "p1" suggestion)
      approved_test

decide-once_example : decide (rejecting 9 "") "s1" decided_case ≡ fail invalid
decide-once_example =
    decide-once (approving "p1" 7 "evening") (rejecting 9 "") "s1" open_case decided_case
      (applied 7 "p1" suggestion) approved_again_test
