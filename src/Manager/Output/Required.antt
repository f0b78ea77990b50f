-- ===== src/Manager/Output/Required.antt =====
-- What the report of `start_all_and_build_output` in tunstrap/manager.py says of the nodes.
use garuda_tunnel.Base.{
  ◌≡◌, refl, inl, inr, ◌↔◌, Bool, true, not, List, [], ◌∷◌, ◌++◌, Text, text_eq, is_empty,
  if◌then◌else◌, arith, Bool-cases, All,
}
use garuda_tunnel.Base.Dict.{Dict}
use garuda_tunnel.Schemas.{NodeInput, NodeOutput, TunnelWarning}
use garuda_tunnel.Manager.{NodeRuntime}
use garuda_tunnel.Manager.Output.{
  output, is_required, failed_required, successes, connections, skipped, kube_warnings,
  build_output,
}

module _ (nodes : Dict Text NodeInput) where
  -- A node that succeeded or may fail.
  unfoldable pub is_borne : NodeRuntime → Bool
  is_borne r = if r.success then true else not (is_required nodes r.name)

  pub failed_required-none :
      (results : List NodeRuntime)
      → is_empty (failed_required nodes results) ≡ true
      → All (λ r. is_borne r ≡ true) results
  unfolding failed_required is_borne
  failed_required-none [] h = tt
  failed_required-none (r ∷ rs) h = ground (arith, failed_required-none rs)

  pub borne-none :
      (results : List NodeRuntime)
      → All (λ r. is_borne r ≡ true) results
      → is_empty (failed_required nodes results) ≡ true
  unfolding failed_required is_borne
  borne-none [] h = refl
  borne-none (r ∷ rs) (h, hs) = ground (arith, h, borne-none rs hs)

  reported-none :
      (results : List NodeRuntime) (conns : Dict Text NodeOutput) (ws : List TunnelWarning)
      → build_output nodes results ≡ (output conns ws, [])
      → is_empty (failed_required nodes results) ≡ true
  unfolding build_output
  reported-none results conns ws h = elim (Bool-cases (is_empty (failed_required nodes results))) [
    | inl empty ↦ empty
    | inr some_failed ↦ ground arith
  ]

  -- The report has connections, and nothing is closed for it, exactly when each node succeeded
  -- or is optional.
  pub build_output-borne :
      (results : List NodeRuntime)
      → ((conns : Dict Text NodeOutput) × (ws : List TunnelWarning) × (build_output nodes results
            ≡ (output conns ws, [])))
        ↔ All (λ r. is_borne r ≡ true) results
  unfolding build_output
  build_output-borne results = (
    λ (conns, ws, h). failed_required-none results (reported-none results conns ws h),
    λ h. (
      connections (successes results) [],
      skipped nodes results ++ kube_warnings (successes results),
      ground (arith, borne-none results h),
    ),
  )
