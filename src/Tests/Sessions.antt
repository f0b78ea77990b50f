-- ===== src/Tests/Sessions.antt =====
-- Files, nodes and connections of a small session.
use garuda_tunnel.Base.{
  ℕ, ◌+◌, ◌*◌, ◌≤◌, ◌<◌, ◌≡◌, refl, Bool, true, false, [], ◌∷◌, none, some, Text, text, text_eq,
  nat_eq, ℕ_discrete, arith, ◌==◌, if◌then◌else◌, Result, ok, err, pos,
}
use garuda_tunnel.Base.Dict.{Dict, NodupKeys, insert, lookup}
use garuda_tunnel.Base64.{b64encode, sextet_char}
use garuda_tunnel.Messages.{RemoteError, files_failed}
use garuda_tunnel.Schemas.{FileSpec, failed_file, read_file, NodeInput, default_ssh_options}
use garuda_tunnel.Fetcher.{Sftp, Gathered, fetch_files, is_transport}
use garuda_tunnel.Fetcher.Added.{Fetched}
use garuda_tunnel.Fetcher.Fetched.{fetch_files-Fetched}
use garuda_tunnel.Manager.{NodeRuntime, Sockets, Peer, start_one}
use garuda_tunnel.Manager.Closing.{IsTidy, HasDistinctTargets, start_one-IsTidy}
use garuda_tunnel.Activity.{
  ActivityTracker, activity_tracker, is_idle, time_since_activity, poll_interval,
  IdleConnectionTracker, make_tracker, connection_made, Forwards, Step, accepted, made, Reachable,
  started, then_step, Watch, fired, idle_watchdog,
}
use garuda_tunnel.Activity.Counting.{live, active_count-live}
use garuda_tunnel.Activity.Watching.{idle_watchdog-fires}
use garuda_tunnel.Tests.Targets.{remote, denied}

-- A channel on which one file can be read, and the other cannot.
unfoldable pub read_one : Text → ℕ → Result RemoteError Text
read_one path n = if path == text "/a" then ok (text "abc") else err denied

abbrev sftp : Sftp
sftp = record {
  start = ok tt;
  enter = ok tt;
  stat = λ path. ok (some 3);
  read = read_one;
  leave = ok tt;
}

abbrev digest : Text → Text
digest raw = text "d"

abbrev specs : Dict Text FileSpec
specs =
    (text "a", record { path = text "/a"; required = true })
    ∷ (text "b", record { path = text "/b"; required = true })
    ∷ []

specs-NodupKeys : NodupKeys specs
unfolding lookup text text_eq ℕ_discrete
specs-NodupKeys = (refl, (refl, tt))

abbrev gathered : Gathered
gathered = record {
  results =
      (text "a", read_file (text "YWJj") 3 (text "d"))
      ∷ (text "b", failed_file (text "SSH_FX_PERMISSION_DENIED"))
      ∷ [];
  required_failures = text "b" ∷ [];
}

gathers : fetch_files sftp digest specs ≡ ok gathered
unfolding fetch_files text garuda_tunnel.Fetcher.with_channel garuda_tunnel.Fetcher.fetch_specs
    garuda_tunnel.Fetcher.fetch_spec garuda_tunnel.Fetcher.read_capped
    garuda_tunnel.Fetcher.size_over garuda_tunnel.Fetcher.max_fetch_bytes read_one text_eq
    ℕ_discrete is_transport garuda_tunnel.Fetcher.guarded garuda_tunnel.Fetcher.put_failed insert
    garuda_tunnel.Fetcher.put_read b64encode garuda_tunnel.Fetcher.classify_error sextet_char
    garuda_tunnel.Fetcher.classify_kind garuda_tunnel.Fetcher.sftp_errno_name
gathers = refl

fetch_files-Fetched_example : Fetched specs gathered.results gathered.required_failures
fetch_files-Fetched_example = fetch_files-Fetched sftp digest specs gathered specs-NodupKeys gathers

-- A node with one forward, whose second file cannot be read.
abbrev pub peer : Peer
peer = record {
  open_connection = ok 7;
  forward_local_port = λ host port. ok 40001;
  probe_local_port = λ port. true;
  sftp = sftp;
  hexdigest = digest;
  remote = remote;
  materialize = none;
}

abbrev pub node : NodeInput
node = record {
  host = text "h";
  port = pos 22;
  user = text "u";
  ssh_pkey = none;
  ssh_password = some (text "p");
  ssh_pkey_passphrase = none;
  remote_targets = (text "t", record { host = text "i"; port = pos 80 }) ∷ [];
  ssh_options = default_ssh_options;
  required = true;
  fetch_files = some specs;
  kube_targets = none;
}

abbrev pub given_up : NodeRuntime
given_up = record {
  name = text "n";
  success = false;
  ports = (text "t", 40001) ∷ [];
  fetched_files = gathered.results;
  conn = none;
  listeners = [];
  error = some (files_failed (text "b" ∷ []));
  kube_targets = [];
  kube_warnings = [];
}

pub starts : (start_one peer (text "n") node).outcome ≡ ok given_up
unfolding start_one text garuda_tunnel.Manager.start_connected garuda_tunnel.Manager.start_forwarded
    garuda_tunnel.Manager.open_local_forwards garuda_tunnel.Manager.forward_targets
    garuda_tunnel.Manager.conclude garuda_tunnel.Manager.fetch_stage
    garuda_tunnel.Manager.guard_startup fetch_files garuda_tunnel.Fetcher.with_channel
    garuda_tunnel.Fetcher.fetch_specs garuda_tunnel.Fetcher.fetch_spec
    garuda_tunnel.Fetcher.read_capped garuda_tunnel.Fetcher.size_over
    garuda_tunnel.Fetcher.max_fetch_bytes read_one text_eq ℕ_discrete is_transport
    garuda_tunnel.Fetcher.guarded garuda_tunnel.Fetcher.put_failed garuda_tunnel.Fetcher.put_read
    garuda_tunnel.Manager.node_runtime insert b64encode garuda_tunnel.Fetcher.classify_error
    sextet_char garuda_tunnel.Fetcher.classify_kind garuda_tunnel.Fetcher.sftp_errno_name
starts = refl

node-HasDistinctTargets : HasDistinctTargets node
node-HasDistinctTargets ts h = cc

start_one-IsTidy_example : IsTidy peer given_up (start_one peer (text "n") node).sockets
start_one-IsTidy_example =
    start_one-IsTidy peer (text "n") node given_up node-HasDistinctTargets starts

abbrev nodes : Dict Text NodeInput
nodes = (text "n", node) ∷ []

-- One connection, accepted and opened.
abbrev one_open : Forwards
one_open = record {
  aggregate = record { active_count = 1; last_activity_at = 9 };
  trackers = record { opened = true; closed = false } ∷ [];
}

one_open-Reachable : Reachable 0 one_open
unfolding activity_tracker make_tracker connection_made garuda_tunnel.Activity.note_connection_made
one_open-Reachable =
    then_step _ one_open
      (then_step (record { aggregate = activity_tracker 0; trackers = [] }) _ started
        (accepted (activity_tracker 0) []))
      (made 9 (activity_tracker 0) [] make_tracker [])

active_count-live_example : one_open.aggregate.active_count ≡ live one_open.trackers
active_count-live_example = active_count-live 0 one_open one_open-Reachable

-- A tracker that is idle from the time 2 on.
abbrev quiet_tracker : ℕ → ActivityTracker
quiet_tracker t = record { active_count = 0; last_activity_at = 2 }

abbrev never : ℕ → Bool
never t = false

stays_quiet :
    (t : ℕ) → 3 ≤ t → (is_idle (quiet_tracker t) ≡ true) × ((quiet_tracker t).last_activity_at ≡ 2)
unfolding is_idle nat_eq ℕ_discrete
stays_quiet t h = (refl, refl)

enough_polls : 2 + 4 * 8 ≤ 3 + 9 * poll_interval 8
unfolding poll_interval
enough_polls = omega arith

idle_watchdog-fires_example :
    (t : ℕ) × (idle_watchdog quiet_tracker 8 never 9 3 ≡ fired t)
    × (t < 2 + 4 * 8 + poll_interval 8)
idle_watchdog-fires_example =
    idle_watchdog-fires quiet_tracker 8 never 9 3 2 stays_quiet (λ t. refl) (omega arith)
      enough_polls
