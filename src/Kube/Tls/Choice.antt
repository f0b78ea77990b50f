-- ===== src/Kube/Tls/Choice.antt =====
-- The name that `choose_tls_server_name` and `_resolve_tls` of tunstrap/kube.py settle on.
use garuda_tunnel.Base.{
  ℕ, ◌≡◌, refl, inl, inr, sym, ap, ap₂, ◌∙◌, ◌⊎◌, Bool, true, false, not, ◌||◌, List, [], ◌∷◌, ◌++◌,
  Option, none, some, Text, text_eq, contains, arith, Bool-cases, Option-cases, Result-cases,
  Result, ok,
}
use garuda_tunnel.Schemas.{KubeTarget}
use garuda_tunnel.Messages.{RemoteError, Warning}
use garuda_tunnel.Kube.Tls.{
  CertificateNames, sans_from_cert, first_name, choose_tls_server_name, judge, resolve_tls,
}

contains-++ :
    (xs ys : List Text) (x : Text) → contains (xs ++ ys) x ≡ contains xs x || contains ys x
contains-++ [] ys x = refl
contains-++ (y ∷ xs) ys x = ground (arith, contains-++ xs ys x)

first_name-contains :
    (dns ips : List Text) (name : Text) (fellback : Bool)
    → first_name dns ips ≡ (some name, fellback)
    → (contains (dns ++ ips) name ≡ true) × (fellback ≡ true)
unfolding first_name
first_name-contains (d ∷ dns) ips name fellback h = ground arith
first_name-contains [] (i ∷ ips) name fellback h = ground arith
first_name-contains [] [] name fellback h = cc

first_name-none :
    (dns ips : List Text) (fellback : Bool)
    → first_name dns ips ≡ (none, fellback)
    → (dns ≡ []) × (ips ≡ [])
unfolding first_name
first_name-none (d ∷ dns) ips fellback h = cc
first_name-none [] (i ∷ ips) fellback h = cc
first_name-none [] [] fellback h = (refl, refl)

-- The chosen name is among the names of the certificate, and it is the host unless the host is not.
pub choose_tls_server_name-contains :
    (host : Text) (dns ips : List Text) (name : Text) (fellback : Bool)
    → choose_tls_server_name host dns ips ≡ (some name, fellback)
    → (contains (dns ++ ips) name ≡ true)
      × (fellback ≡ not (contains (dns ++ ips) host))
      × (fellback ≡ false → name ≡ host)
unfolding choose_tls_server_name first_name
choose_tls_server_name-contains host dns ips name fellback h =
    elim (Bool-cases (contains dns host || contains ips host)) [
      | inl holds ↦
          let same : host ≡ name = ground arith in
          let kept : fellback ≡ false = ground arith in
          (
            rw (contains-++ dns ips name, ← same) holds,
            rw (contains-++ dns ips host, holds) kept,
            λ _. sym same,
          )
      | inr misses ↦
          let (found, fell) = first_name-contains dns ips name fellback (ground arith) in
          (found, rw (contains-++ dns ips host, misses) fell, λ kept. cc (fell, kept))
    ]

-- No name is chosen exactly for a certificate without names.
pub choose_tls_server_name-none :
    (host : Text) (dns ips : List Text) (fellback : Bool)
    → choose_tls_server_name host dns ips ≡ (none, fellback)
    → (dns ≡ []) × (ips ≡ [])
unfolding choose_tls_server_name first_name
choose_tls_server_name-none host dns ips fellback h =
    elim (Bool-cases (contains dns host || contains ips host)) [
      | inl holds ↦ ground arith
      | inr misses ↦ first_name-none dns ips fellback (ground arith)
    ]

-- What was judged of a choice.
judge-insecure :
    (target : KubeTarget) (label : Text) (choice : Option Text × Bool) (name : Option Text)
    (ws : List Warning)
    → judge target label choice ≡ ((name, true), ws)
    → (choice.0 ≡ none) × (target.insecure_fallback ≡ true)
unfolding judge
judge-insecure target label (none, f) name ws h = ground arith
judge-insecure target label (some c, f) name ws h = cc

judge-name :
    (target : KubeTarget) (label : Text) (choice : Option Text × Bool) (name : Text)
    (insecure : Bool) (ws : List Warning)
    → judge target label choice ≡ ((some name, insecure), ws)
    → (choice.0 ≡ some name) × (insecure ≡ false)
unfolding judge
judge-name target label (none, f) name insecure ws h = ground arith
judge-name target label (some c, f) name insecure ws h = ground arith

resolve_tls-probed :
    (target : KubeTarget) (host : Text) (port : ℕ) (probe : ℕ → Result RemoteError CertificateNames)
    (label : Text) {r : (Option Text × Bool) × List Warning}
    → resolve_tls target host port probe label ≡ ok r
    → target.tls_server_name ≡ none
    → (cert : CertificateNames) × (probe port ≡ ok cert)
      × (judge target label
            (choose_tls_server_name host (sans_from_cert cert).0 (sans_from_cert cert).1)
          ≡ r)
unfolding resolve_tls
resolve_tls-probed target host port probe label h unnamed = elim (Result-cases (probe port)) [
  | inl (cert, probed) ↦ (cert, probed, ground arith)
  | inr (e, fails) ↦ ground arith
]

-- Verification is turned off only by a target that names no server itself and allows it, for a
-- probed certificate without names.
pub resolve_tls-insecure :
    (target : KubeTarget) (host : Text) (port : ℕ) (probe : ℕ → Result RemoteError CertificateNames)
    (label : Text) (name : Option Text) (ws : List Warning)
    → resolve_tls target host port probe label ≡ ok ((name, true), ws)
    → (target.tls_server_name ≡ none)
      × (target.insecure_fallback ≡ true)
      × ((cert : CertificateNames) × (probe port ≡ ok cert) × (sans_from_cert cert ≡ ([], [])))
unfolding resolve_tls
resolve_tls-insecure target host port probe label name ws h =
    elim (Option-cases target.tls_server_name) [
      | inr (given, named) ↦ ground arith
      | inl unnamed ↦
          let (cert, probed, judged) = resolve_tls-probed target host port probe label h unnamed in
          let (no_name, allowed) = judge-insecure target label _ name ws judged in
          let (dns, ips) =
            choose_tls_server_name-none host (sans_from_cert cert).0 (sans_from_cert cert).1
              (choose_tls_server_name host (sans_from_cert cert).0 (sans_from_cert cert).1).1
              (ap
                (λ o. (
                  o,
                  (choose_tls_server_name host (sans_from_cert cert).0 (sans_from_cert cert).1).1,
                ))
                no_name) in
          (unnamed, allowed, (cert, probed, ap₂ (λ a b. (a, b)) dns ips))
    ]

-- A name that is written into the kubeconfig keeps verification on, and is the name that the target
-- gives or a name of the probed certificate: the host itself wherever the certificate has it.
pub resolve_tls-name :
    (target : KubeTarget) (host : Text) (port : ℕ) (probe : ℕ → Result RemoteError CertificateNames)
    (label : Text) (name : Text) (insecure : Bool) (ws : List Warning)
    → resolve_tls target host port probe label ≡ ok ((some name, insecure), ws)
    → (insecure ≡ false)
      × ((target.tls_server_name ≡ some name)
          ⊎ ((cert : CertificateNames) × (probe port ≡ ok cert)
              × (contains ((sans_from_cert cert).0 ++ (sans_from_cert cert).1) name ≡ true)
              × (contains ((sans_from_cert cert).0 ++ (sans_from_cert cert).1) host ≡ true
                  → name ≡ host)))
unfolding resolve_tls
resolve_tls-name target host port probe label name insecure ws h =
    elim (Option-cases target.tls_server_name) [
      | inr (given, named) ↦ (ground arith, inl (ground arith))
      | inl unnamed ↦
          let (cert, probed, judged) = resolve_tls-probed target host port probe label h unnamed in
          let (chosen, secure) = judge-name target label _ name insecure ws judged in
          let (found, fell, kept) =
            choose_tls_server_name-contains host (sans_from_cert cert).0 (sans_from_cert cert).1
              name (choose_tls_server_name host (sans_from_cert cert).0 (sans_from_cert cert).1).1
              (ap
                (λ o. (
                  o,
                  (choose_tls_server_name host (sans_from_cert cert).0 (sans_from_cert cert).1).1,
                ))
                chosen) in
          (secure, inr (cert, probed, found, λ holds. kept (fell ∙ ap not holds)))
    ]
