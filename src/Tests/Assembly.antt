-- ===== src/Tests/Assembly.antt =====
-- A worker over a session and a manager, whose only node is required and fails.
use garuda_tunnel.Base.{
  ℕ, ◌<◌, ◌≡◌, ◌↔◌, ◌⊎◌, refl, true, false, [], ◌∷◌, none, some, Text, text, arith, All, Result, ok,
  err, pos,
}
use garuda_tunnel.Value.{dict, end}
use garuda_tunnel.Schemas.{InputSchema}
use garuda_tunnel.Session.{Disk, SessionDir, Host, won, vacant, create}
use garuda_tunnel.Manager.Output.{start_all}
use garuda_tunnel.Manager.Output.Required.{is_borne}
use garuda_tunnel.Worker.Ipc.{OsWrite}
use garuda_tunnel.Worker.Ipc.Whole.{IsOpen}
use garuda_tunnel.Worker.Life.{read_schema, main}
use garuda_tunnel.Worker.Assembled.{Site, assembled}
use garuda_tunnel.Worker.Assembled.Exit.{main-code}
use garuda_tunnel.Tests.Sessions.{node, peer, given_up, starts}

abbrev schema : InputSchema
schema = record {
  nodes = (text "n", node) ∷ [];
  daemon = record {
    log_file = none;
    shutdown_grace_seconds = pos 10;
    auto_stop_idle_seconds = none;
    materialize = false;
  };
}

abbrev byte_write : OsWrite
byte_write bytes = ok 1

byte_write-IsOpen : IsOpen byte_write
byte_write-IsOpen bytes more = (1, λ e. ground arith, refl)

abbrev site : Site
site = record {
  host = record {
    mkdtemp = none;
    resolve_and_mkdir = λ path. some path;
    flock = won;
    rmtree = λ files. none;
    mkdir = true;
  };
  supplied = some (text "/s");
  disk = record { root_exists = true; lock_exists = false; slot = vacant };
  pid = 5;
  stdin = text "{}";
  validate = λ raw. ok schema;
  peer_of = λ name. peer;
  model_dump = λ report. dict end;
  dumps = λ v. text "{m}";
  os_write = byte_write;
  closes = true;
}

abbrev session : SessionDir
session = record { session_dir = text "/s"; generated = false }

is_made : (create site.host site.supplied site.disk).outcome ≡ ok session
unfolding create garuda_tunnel.Session.is_absolute garuda_tunnel.Str.starts_with text
    garuda_tunnel.Base.nat_eq garuda_tunnel.Base.ℕ_discrete garuda_tunnel.Session.rooted
    garuda_tunnel.Session.take_lock garuda_tunnel.Session.claim
    garuda_tunnel.Session.reclaim_data_slot
is_made = refl

is_read : read_schema (assembled site) ≡ ok schema
unfolding read_schema garuda_tunnel.Worker.Life.schema_max_bytes assembled text
is_read = refl

has_started : start_all site.peer_of schema.nodes ≡ ok (given_up ∷ [])
unfolding start_all garuda_tunnel.Manager.start_one text
has_started = rw (starts) refl

main-code_example :
    (let t = main (assembled site) in
      (t.cleaned ≡ true)
      × ((t.code ≡ some 0) ⊎ (t.code ≡ some 2))
      × ((t.code ≡ some 0) ↔ All (λ r. is_borne schema.nodes r ≡ true) (given_up ∷ [])))
unfolding assembled
main-code_example =
    main-code site (byte_write-IsOpen, refl) session schema (given_up ∷ []) is_made (omega arith)
      is_read has_started
