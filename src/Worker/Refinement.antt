-- ===== src/Worker/Refinement.antt =====
-- The worker of tunstrap/_worker.py against what it promises to the parent in tunstrap/daemon.py.
use garuda_tunnel.Worker.Verdict.{
  Verdict, failed, occupied, verdict_of, verdict_read, verdict_identified, verdict_created, verdict,
}
use garuda_tunnel.Base.{
  ◌≡◌, refl, ap, sym, ◌∙◌, Bool, true, false, none, some, Text, text_eq, nat_eq, arith, Result, ok,
  err,
}
use garuda_tunnel.Value.{Value}
use garuda_tunnel.Schemas.{InputSchema}
use garuda_tunnel.Manager.Output.{Report, error_output, output}
use garuda_tunnel.Worker.Ipc.{
  Written, closing, write_message, line, frame, Failure, other_failure, swallow,
  report_pre_run_failure,
}
use garuda_tunnel.Worker.Ipc.Whole.{IsOpen, write_message-open}
use garuda_tunnel.Worker.Life.{
  Refusal, active, refused, World, Trace, read_schema, ended, left, serve, run_read, run,
  run_identified, main_created, main,
}

-- A session that was created is cleaned up.
unfoldable pub is_created : Result Refusal (Unit {0}) → Bool
is_created (ok _) = true
is_created (err _) = false

-- The message of the verdict is in the pipe, and its code is the exit code.
pub record Meets (w : World) (v : Verdict) (t : Trace) : Type 0 where
  pub message : t.piped ≡ line w.dumps (frame v.kind v.payload)
  pub exit : t.code ≡ some v.code
  pub tidy : t.cleaned ≡ is_created w.create_session

-- The parent keeps reading, and the pipe can be closed.
abbrev pub HasReader : World → Type 0
HasReader w = IsOpen w.os_write × (w.closes ≡ true)

module _ (w : World) (pipe : HasReader w) where
  ended-written :
      (written : Written) (good bad : Trace) (v : Value)
      → written.outcome ≡ ok tt
      → written.taken ≡ line w.dumps v
      → ended written good bad ≡ record good { piped = line w.dumps v }
  unfolding ended
  ended-written written good bad v done all = ground (arith, done, all)

  swallow-ok : (written : Written) → written.outcome ≡ ok tt → swallow written ≡ written
  unfolding swallow
  swallow-ok written done = ground (arith, done)

  closing-ok : (written : Written) → written.outcome ≡ ok tt → closing w.closes written ≡ written
  unfolding closing
  closing-ok written done = let closes = pipe.1 in ground (arith, done, closes)

  written_whole :
      (kind : Text) (payload : Value) (good bad : Trace)
      → ended (write_message w.dumps w.os_write (frame kind payload)) good bad
        ≡ record good { piped = line w.dumps (frame kind payload) }
  written_whole kind payload good bad =
      let (done, all) = write_message-open w.dumps w.os_write (frame kind payload) (pipe.0) in
      ended-written _ good bad (frame kind payload) done all

  swallowed :
      (kind : Text) (payload : Value) (good bad : Trace)
      → ended (swallow (write_message w.dumps w.os_write (frame kind payload))) good bad
        ≡ record good { piped = line w.dumps (frame kind payload) }
  swallowed kind payload good bad =
      let (done, all) = write_message-open w.dumps w.os_write (frame kind payload) (pipe.0) in
      ap (λ written. ended written good bad) (swallow-ok _ done)
      ∙ written_whole kind payload good bad

  closed :
      (kind : Text) (payload : Value) (good bad : Trace)
      → ended (closing w.closes (write_message w.dumps w.os_write (frame kind payload))) good bad
        ≡ record good { piped = line w.dumps (frame kind payload) }
  closed kind payload good bad =
      let (done, _) = write_message-open w.dumps w.os_write (frame kind payload) (pipe.0) in
      ap (λ written. ended written good bad) (closing-ok _ done)
      ∙ written_whole kind payload good bad

  closed-swallowed :
      (kind : Text) (payload : Value) (good bad : Trace)
      → ended
          (swallow (closing w.closes (write_message w.dumps w.os_write (frame kind payload))))
          good
          bad
        ≡ record good { piped = line w.dumps (frame kind payload) }
  closed-swallowed kind payload good bad =
      let (done, _) = write_message-open w.dumps w.os_write (frame kind payload) (pipe.0) in
      ap (λ written. ended (swallow written) good bad) (closing-ok _ done)
      ∙ swallowed kind payload good bad

  Meets-of :
      (v : Verdict) (good t : Trace)
      → t ≡ record good { piped = line w.dumps (frame v.kind v.payload) }
      → good.code ≡ some v.code
      → good.cleaned ≡ is_created w.create_session
      → Meets w v t
  Meets-of v good t same exit tidy = record {
    message = ap (λ t. t.piped) same;
    exit = ap (λ t. t.code) same ∙ exit;
    tidy = ap (λ t. t.cleaned) same ∙ tidy;
  }

  sent-Meets :
      (v : Verdict) (good bad : Trace)
      → good.code ≡ some v.code
      → good.cleaned ≡ is_created w.create_session
      → Meets w v (
          ended
            (closing w.closes (write_message w.dumps w.os_write (frame v.kind v.payload)))
            good
            bad)
  sent-Meets v good bad = Meets-of v good _ (closed v.kind v.payload good bad)

  closed-Meets :
      (v : Verdict) (good bad : Trace)
      → good.code ≡ some v.code
      → good.cleaned ≡ is_created w.create_session
      → Meets w v (
          ended
            (swallow (closing w.closes (write_message w.dumps w.os_write (frame v.kind v.payload))))
            good
            bad)
  closed-Meets v good bad = Meets-of v good _ (closed-swallowed v.kind v.payload good bad)

  swallowed-Meets :
      (v : Verdict) (good bad : Trace)
      → good.code ≡ some v.code
      → good.cleaned ≡ is_created w.create_session
      → Meets w v
          (ended (swallow (write_message w.dumps w.os_write (frame v.kind v.payload))) good bad)
  swallowed-Meets v good bad = Meets-of v good _ (swallowed v.kind v.payload good bad)

  reported-Meets :
      (failure : Failure) (good bad : Trace)
      → good.code ≡ some 4
      → good.cleaned ≡ is_created w.create_session
      → Meets w
          (failed failure)
          (ended (report_pre_run_failure w.dumps w.os_write failure) good bad)
  unfolding report_pre_run_failure
  reported-Meets failure = swallowed-Meets (failed failure)

  module _ (created : is_created w.create_session ≡ true) where
    serve-Meets : (report : Result Text Report) → Meets w (verdict_of w report) (serve w report)
    unfolding serve verdict_of
    serve-Meets (err name) =
        reported-Meets (other_failure name) (left true true (some 4)) (left true false none) refl
          (sym created)
    serve-Meets (ok (error_output nodes)) =
        sent-Meets (verdict_of w (ok (error_output nodes))) (left true true (some 2))
          (left true false none) refl (sym created)
    serve-Meets (ok (output connections warnings)) =
        sent-Meets (verdict_of w (ok (output connections warnings))) (left true true (some 0))
          (left false false none) refl (sym created)

    read-Meets :
        (read : Result Failure InputSchema) → Meets w (verdict_read w read) (run_read w read)
    unfolding verdict_read run_read
    read-Meets (ok schema) = serve-Meets (w.start_all schema)
    read-Meets (err failure) =
        reported-Meets failure (left false true (some 4)) (left false false none) refl (sym created)

    identified-Meets :
        (identity : Result Text (Unit {0}))
        → Meets w (verdict_identified w identity) (run_identified w identity)
    unfolding verdict_identified run_identified run
    identified-Meets (ok _) = read-Meets (read_schema w)
    identified-Meets (err name) =
        reported-Meets (other_failure name) (left false true (some 4)) (left false true none) refl
          (sym created)

  created-Meets :
      (session : Result Refusal (Unit {0}))
      → w.create_session ≡ session
      → Meets w (verdict_created w session) (main_created w session)
  unfolding verdict_created main_created is_created
  created-Meets (ok _) h = identified-Meets (rw (h)) w.write_identity
  created-Meets (err (active dir)) h =
      closed-Meets (occupied dir) (left false false (some 3)) (left false false none) refl (rw (h))
  created-Meets (err (refused name)) h =
      reported-Meets (other_failure name) (left false false (some 4)) (left false false none) refl
        (rw (h))

  -- If the parent keeps reading and the pipe can be closed, the worker puts exactly the message of its verdict into the pipe, exits
  -- with the code of the verdict, and has cleaned up the session if it created one.
  pub main-verdict : Meets w (verdict w) (main w)
  unfolding main verdict
  main-verdict = created-Meets w.create_session refl
