-- ===== src/Worker/Assembled/Exit.antt =====
-- The exit code of a worker of tunstrap/_worker.py against the nodes of its manager.
use garuda_tunnel.Base.{
  ℕ, ◌<◌, ◌≡◌, refl, ap, ◌∙◌, ◌↔◌, ◌⊎◌, inl, inr, Bool, true, false, List, Option, some, is_empty,
  arith, All, Bool-cases, ok,
}
use garuda_tunnel.Schemas.{InputSchema}
use garuda_tunnel.Session.{SessionDir, create}
use garuda_tunnel.Session.Identified.{read_identity-write_identity}
use garuda_tunnel.Manager.{NodeRuntime}
use garuda_tunnel.Manager.Output.{
  start_all, build_output, failed_required, start_all_and_build_output,
}
use garuda_tunnel.Manager.Output.Required.{is_borne, failed_required-none, borne-none}
use garuda_tunnel.Worker.Life.{World, read_schema, main}
use garuda_tunnel.Worker.Verdict.{
  verdict_of, verdict_read, verdict_identified, verdict_created, verdict,
}
use garuda_tunnel.Worker.Refinement.{HasReader, is_created, main-verdict}
use garuda_tunnel.Worker.Assembled.{Site, created, identified, reported, assembled}

-- The code for a list of nodes.
unfoldable pub code_for : Bool → ℕ
code_for true = 0
code_for false = 2

module _ (w : World) where
  verdict-schema :
      (schema : InputSchema)
      → w.create_session ≡ ok tt
      → w.write_identity ≡ ok tt
      → read_schema w ≡ ok schema
      → verdict w ≡ verdict_of w (w.start_all schema)
  unfolding verdict verdict_created verdict_identified verdict_read read_schema verdict_of
  verdict-schema schema made wrote read = rw (made, wrote, read) refl

reported-code :
    (w : World) (s : Site) (schema : InputSchema) (results : List NodeRuntime)
    → start_all s.peer_of schema.nodes ≡ ok results
    → (verdict_of w (reported (start_all_and_build_output s.peer_of schema.nodes))).code
      ≡ code_for (is_empty (failed_required schema.nodes results))
unfolding verdict_of reported start_all_and_build_output build_output code_for
reported-code w s schema results started =
    elim (Bool-cases (is_empty (failed_required schema.nodes results))) [
      | inl empty ↦ rw (started, empty) refl
      | inr failed ↦ rw (started, failed) refl
    ]

exit-cases :
    (code : Option ℕ) (b : Bool) → code ≡ some (code_for b) → (code ≡ some 0) ⊎ (code ≡ some 2)
unfolding code_for
exit-cases code true h = inl h
exit-cases code false h = inr h

exit-zero : (code : Option ℕ) (n : ℕ) → code ≡ some n → code ≡ some 0 → n ≡ 0
exit-zero code n h z = cc

code_for-borne :
    (schema : InputSchema) (results : List NodeRuntime)
    → (code_for (is_empty (failed_required schema.nodes results)) ≡ 0)
      ↔ All (λ r. is_borne schema.nodes r ≡ true) results
unfolding code_for
code_for-borne schema results = (
  λ h. failed_required-none schema.nodes results (ground arith),
  λ h. rw (borne-none schema.nodes results h) refl,
)

module _ (s : Site) (pipe : HasReader (assembled s)) where
  assembled-code :
      (session : SessionDir) (schema : InputSchema) (results : List NodeRuntime)
      → (create s.host s.supplied s.disk).outcome ≡ ok session
      → s.pid < 10000000
      → read_schema (assembled s) ≡ ok schema
      → start_all s.peer_of schema.nodes ≡ ok results
      → (verdict (assembled s)).code ≡ code_for (is_empty (failed_required schema.nodes results))
  unfolding assembled created identified
  assembled-code session schema results made small read started =
      let (_, _, wrote, _) =
        read_identity-write_identity s.host s.supplied s.disk session s.pid made small in
      let session_made : (assembled s).create_session ≡ ok tt = rw (made) refl in
      let identity_written : (assembled s).write_identity ≡ ok tt = rw (wrote) refl in
      ap (λ v. v.code) (verdict-schema (assembled s) schema session_made identity_written read)
      ∙ reported-code (assembled s) s schema results started

  -- A worker whose session is made, whose input is a schema and whose nodes come to their ends,
  -- whose parent keeps reading and whose pipe can be closed, with a process id below ten million,
  -- cleans up its session, and exits with 0 or 2: with 0 exactly when each node succeeded or is
  -- optional.
  pub main-code :
      (session : SessionDir) (schema : InputSchema) (results : List NodeRuntime)
      → (create s.host s.supplied s.disk).outcome ≡ ok session
      → s.pid < 10000000
      → read_schema (assembled s) ≡ ok schema
      → start_all s.peer_of schema.nodes ≡ ok results
      → (let t = main (assembled s) in
          (t.cleaned ≡ true)
          × ((t.code ≡ some 0) ⊎ (t.code ≡ some 2))
          × ((t.code ≡ some 0) ↔ All (λ r. is_borne schema.nodes r ≡ true) results))
  unfolding is_created assembled created
  main-code session schema results made small read started =
      let met = main-verdict (assembled s) pipe in
      let code = assembled-code session schema results made small read started in
      let exit = met.exit ∙ ap some code in
      let tidy : (main (assembled s)).cleaned ≡ true = met.tidy ∙ rw (made) refl in
      let (to, from) = code_for-borne schema results in
      (
        tidy,
        exit-cases _ _ exit,
        (λ h. to (exit-zero _ _ exit h), λ all. exit ∙ ap some (from all)),
      )
