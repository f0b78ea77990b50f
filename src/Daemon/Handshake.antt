-- ===== src/Daemon/Handshake.antt =====
-- The worker of tunstrap/_worker.py and the reader of tunstrap/daemon.py at the two ends of one pipe.
use garuda_tunnel.Base.{
  ◌≡◌, refl, ap, ◌∙◌, true, [], ◌∷◌, ◌++◌, some, Text, text, text_eq, ℕ_discrete, contains, Result,
  ok, err,
}
use garuda_tunnel.Value.{Value, str, Fields, end, field, get}
use garuda_tunnel.Manager.Output.{Report, error_output, output}
use garuda_tunnel.Schemas.{InputSchema}
use garuda_tunnel.Worker.Ipc.{line, frame, Failure}
use garuda_tunnel.Worker.Life.{Refusal, active, refused, World, read_schema, main}
use garuda_tunnel.Worker.Verdict.{
  Verdict, verdict_of, verdict_read, verdict_identified, verdict_created, verdict,
}
use garuda_tunnel.Worker.Refinement.{HasReader, main-verdict}
use garuda_tunnel.Daemon.{
  Loaded, value, message_kinds, is_kind, check_kind, check_message, parse_response,
  read_ipc_response,
}

-- The mapping of a message.
abbrev pub message_fields : Text → Value → Fields
message_fields kind payload = field (text "kind") (str kind) (field (text "payload") payload end)

abbrev pub IsKnown : Verdict → Type 0
IsKnown v = contains message_kinds v.kind ≡ true

verdict_of-IsKnown : (w : World) (report : Result Text Report) → IsKnown (verdict_of w report)
unfolding verdict_of message_kinds text_eq text ℕ_discrete
verdict_of-IsKnown w (err name) = refl
verdict_of-IsKnown w (ok (error_output nodes)) = refl
verdict_of-IsKnown w (ok (output connections warnings)) = refl

verdict_read-IsKnown :
    (w : World) (read : Result Failure InputSchema) → IsKnown (verdict_read w read)
unfolding verdict_read message_kinds text_eq text ℕ_discrete
verdict_read-IsKnown w (err failure) = refl
verdict_read-IsKnown w (ok schema) = verdict_of-IsKnown w (w.start_all schema)

verdict_identified-IsKnown :
    (w : World) (identity : Result Text (Unit {0})) → IsKnown (verdict_identified w identity)
unfolding verdict_identified message_kinds text_eq text ℕ_discrete
verdict_identified-IsKnown w (err name) = refl
verdict_identified-IsKnown w (ok _) = verdict_read-IsKnown w (read_schema w)

verdict_created-IsKnown :
    (w : World) (session : Result Refusal (Unit {0})) → IsKnown (verdict_created w session)
unfolding verdict_created message_kinds text_eq text ℕ_discrete
verdict_created-IsKnown w (err (active dir)) = refl
verdict_created-IsKnown w (err (refused name)) = refl
verdict_created-IsKnown w (ok _) = verdict_identified-IsKnown w w.write_identity

verdict-IsKnown : (w : World) → IsKnown (verdict w)
unfolding verdict
verdict-IsKnown w = verdict_created-IsKnown w w.create_session

check_message-frame :
    (kind : Text) (payload : Value)
    → contains message_kinds kind ≡ true
    → check_message (value (frame kind payload)) ≡ ok (message_fields kind payload)
unfolding check_message check_kind is_kind frame get text_eq text ℕ_discrete
check_message-frame kind payload known = rw (known) refl

parse_response-line :
    (loads : Text → Loaded) (dumps : Value → Text) (v : Value)
    → parse_response loads (line dumps v) ≡ check_message (loads (line dumps v))
unfolding check_message parse_response line
parse_response-line loads dumps v = nonempty (dumps v)
  where
    nonempty :
        (t : Text) → parse_response loads (t ++ (10 ∷ [])) ≡ check_message (loads (t ++ (10 ∷ [])))
    nonempty [] = refl
    nonempty (c ∷ t) = refl

module _ (w : World) (pipe : HasReader w) (loads : Text → Loaded) where
  -- If the parent keeps reading, the pipe can be closed, and the parent's `json.loads` reads back what the worker's `json.dumps` printed
  -- of the message of its verdict, then the parent accepts the bytes in the pipe as that message, and
  -- the worker exits with the code that belongs to it.
  pub read_ipc_response-main :
      (let v = verdict w in
        let message = frame v.kind v.payload in loads (line w.dumps message) ≡ value message)
      → (let v = verdict w in
          (read_ipc_response loads (ok (main w).piped) ≡ ok (message_fields v.kind v.payload))
          × ((main w).code ≡ some v.code))
  unfolding read_ipc_response
  read_ipc_response-main read =
      let v = verdict w in
      let met = main-verdict w pipe in
      (
        ap (parse_response loads) met.message
            ∙ parse_response-line loads w.dumps (frame v.kind v.payload)
            ∙ ap check_message read
            ∙ check_message-frame v.kind v.payload (verdict-IsKnown w),
        met.exit,
      )
