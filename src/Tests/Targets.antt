-- ===== src/Tests/Targets.antt =====
-- Kube targets and files of a small node.
use garuda_tunnel.Base.{
  ℕ, ◌≡◌, ◌≢◌, ◌⊎◌, refl, Bool, true, false, [], ◌∷◌, ◌++◌, none, some, Text, text, text_eq, nat_eq,
  ℕ_discrete, ◌==◌, contains, if◌then◌else◌, Result, ok, err,
}
use garuda_tunnel.Base.Dict.{Dict, NodupKeys, insert, lookup}
use garuda_tunnel.Base64.{b64encode, sextet_char}
use garuda_tunnel.Value.{Value, Fields, dict, str, field, end, get, set, truthy}
use garuda_tunnel.Messages.{RemoteError, ErrorKind, tls_disabled, tls_fell_back, kube_unreadable}
use garuda_tunnel.Schemas.{KubeTarget, KubeTargetOutput}
use garuda_tunnel.Kube.Config.{parse_document, parse_kubeconfig}
use garuda_tunnel.Kube.Patch.{local_endpoint, patch_view, set_tls_name}
use garuda_tunnel.Kube.Tls.{
  CertificateNames, malformed, names, sans_from_cert, first_name, choose_tls_server_name, judge,
  resolve_tls,
}
use garuda_tunnel.Kube.Tls.Choice.{resolve_tls-insecure, resolve_tls-name}
use garuda_tunnel.Kube.Run.{
  number, Remote, is_caught, Progress, give_up, run_target, run_targets, run_kube_targets,
  fetch_one, fetch_and_parse, max_bytes, over_cap, connect, split_host_port, check_url, host_or,
  port_or_default, judge_tls, finish, target_output, warn_ignored,
}
use garuda_tunnel.Kube.Run.Independence.{
  missing, ports, run_kube_targets-required_failures, run_kube_targets-listeners,
  run_kube_targets-unread, IsPassing,
}
use garuda_tunnel.Tests.Kubeconfigs.{document}

abbrev pub refused : RemoteError
refused = record { kind = ErrorKind.os; class_name = text "OSError"; message = text "refused" }

abbrev pub denied : RemoteError
denied = record {
  kind = ErrorKind.sftp 3;
  class_name = text "PermissionDenied";
  message = text "denied";
}

-- A remote with one kubeconfig, under the target `k`.
unfoldable pub only_k : Text → Result RemoteError (Unit {0})
only_k name =
    if name == text "k" then ok tt else if name == text "s" then err denied else err refused

abbrev pub remote : Remote
remote = record {
  start_sftp = only_k;
  stat = λ name path. ok (some 3);
  read = λ name path n. ok (text "doc");
  forward = λ name host port. ok 8443;
  probe = λ name port. ok (names (text "h" ∷ []) []);
  load = λ raw. some (dict (document (text "https://h")));
  dump = λ d. text "yml";
  urlsplit = λ url.
      some (record { scheme = text "https"; hostname = some (text "h"); port = number 6443 });
}

abbrev pub target : Bool → KubeTarget
target required = record {
  kubeconfig_path = text "/k";
  tls_server_name = none;
  insecure_fallback = true;
  required = required;
}

abbrev pub kube_output : KubeTargetOutput
kube_output = record {
  cluster_name = text "c";
  context_name = text "dev";
  local_port = 8443;
  endpoint = text "https://127.0.0.1:8443";
  tls_server_name = some (text "h");
  certificate_authority_data = text "CA";
  client_certificate_data = [];
  client_key_data = [];
  content_b64 = text "eW1s";
  path = none;
}

abbrev two_targets : Dict Text KubeTarget
two_targets = (text "k", target true) ∷ (text "l", target true) ∷ []

abbrev progress : Progress
progress = record {
  outputs = (text "k", kube_output) ∷ [];
  required_failures = text "l" ∷ [];
  warnings =
      record { node = text "n"; error = kube_unreadable (text "l") refused; skipped = true } ∷ [];
  listeners = 8443 ∷ [];
}

two_targets-NodupKeys : NodupKeys two_targets
unfolding lookup text text_eq ℕ_discrete
two_targets-NodupKeys = (refl, (refl, tt))

ran : run_kube_targets remote (text "n") two_targets ≡ ok progress
unfolding run_kube_targets text run_targets run_target fetch_and_parse fetch_one only_k text_eq
    ℕ_discrete over_cap max_bytes parse_kubeconfig parse_document garuda_tunnel.Kube.Config.text_or
    garuda_tunnel.Kube.Config.full_text get garuda_tunnel.Kube.Config.named_or
    garuda_tunnel.Kube.Config.find_named garuda_tunnel.Kube.Config.get_or_empty truthy
    garuda_tunnel.Kube.Config.find_item garuda_tunnel.Kube.Config.entry_named
    garuda_tunnel.Kube.Config.is_text garuda_tunnel.Kube.Config.references
    garuda_tunnel.Kube.Config.body_of garuda_tunnel.Kube.Config.parse_members
    garuda_tunnel.Kube.Config.build_view garuda_tunnel.Kube.Config.string_field
    garuda_tunnel.Kube.Config.string_value connect split_host_port check_url host_or port_or_default
    resolve_tls insert nat_eq b64encode sextet_char garuda_tunnel.Kube.Config.ignored
    garuda_tunnel.Kube.Config.ignored_in local_endpoint garuda_tunnel.Kube.Patch.patch_body
    garuda_tunnel.Kube.Patch.patch_entry garuda_tunnel.Kube.Patch.patch_item
    garuda_tunnel.Kube.Patch.patch_list patch_view set_tls_name finish give_up is_caught judge_tls
    target_output warn_ignored choose_tls_server_name first_name judge sans_from_cert
    garuda_tunnel.Str.Number.show_fuel garuda_tunnel.Str.Number.show_nat garuda_tunnel.Value.pop set
ran = refl

run_kube_targets-required_failures_example :
    progress.required_failures ≡ missing two_targets progress.outputs
run_kube_targets-required_failures_example =
    run_kube_targets-required_failures remote (text "n") two_targets progress two_targets-NodupKeys
      ran

run_kube_targets-listeners_example : progress.listeners ≡ ports progress.outputs
run_kube_targets-listeners_example =
    run_kube_targets-listeners remote (text "n") two_targets progress two_targets-NodupKeys ran

not_started : fetch_one remote (text "s") (text "/k") ≡ err denied
unfolding fetch_one text only_k text_eq ℕ_discrete
not_started = refl

-- A target that may fail, and whose channel is refused, still ends the run.
run_kube_targets-unread_example :
    (let targets = two_targets ++ ((text "s", target false) ∷ []) in
      (IsPassing denied.kind
        × (run_kube_targets remote (text "n") targets
            ≡ run_targets remote (text "n") [] (record {
              outputs = progress.outputs;
              required_failures =
                  if (target false).required
                  then progress.required_failures ++ (text "s" ∷ [])
                  else progress.required_failures;
              warnings =
                  progress.warnings
                  ++ (record {
                    node = text "n";
                    error = kube_unreadable (text "s") denied;
                    skipped = true;
                  }
                      ∷ []);
              listeners = progress.listeners;
            })))
      ⊎ ((denied.kind ≢ ErrorKind.os)
          × (denied.kind ≢ ErrorKind.timeout)
          × (run_kube_targets remote (text "n") targets ≡ err denied)))
run_kube_targets-unread_example =
    run_kube_targets-unread remote (text "n") two_targets (text "s") (target false) [] progress
      denied ran not_started

-- A probe that finds no name, and one that finds another.
abbrev nameless : ℕ → Result RemoteError CertificateNames
nameless port = ok malformed

abbrev other_name : ℕ → Result RemoteError CertificateNames
other_name port = ok (names (text "o" ∷ []) [])

goes_insecure :
    resolve_tls (target true) (text "h") 8443 nameless (text "k")
    ≡ ok ((none, true), tls_disabled (text "k") ∷ [])
unfolding resolve_tls text judge choose_tls_server_name sans_from_cert first_name
goes_insecure = refl

resolve_tls-insecure_example :
    ((target true).tls_server_name ≡ none)
    × ((target true).insecure_fallback ≡ true)
    × ((cert : CertificateNames) × (nameless 8443 ≡ ok cert) × (sans_from_cert cert ≡ ([], [])))
resolve_tls-insecure_example =
    resolve_tls-insecure (target true) (text "h") 8443 nameless (text "k") none
      (tls_disabled (text "k") ∷ []) goes_insecure

falls_back :
    resolve_tls (target true) (text "h") 8443 other_name (text "k")
    ≡ ok ((some (text "o"), false), tls_fell_back (text "k") (text "o") ∷ [])
unfolding resolve_tls text judge choose_tls_server_name sans_from_cert text_eq ℕ_discrete first_name
falls_back = refl

resolve_tls-name_example :
    (false ≡ false)
    × (((target true).tls_server_name ≡ some (text "o"))
        ⊎ ((cert : CertificateNames) × (other_name 8443 ≡ ok cert)
            × (contains ((sans_from_cert cert).0 ++ (sans_from_cert cert).1) (text "o") ≡ true)
            × (contains ((sans_from_cert cert).0 ++ (sans_from_cert cert).1) (text "h") ≡ true
                → text "o" ≡ text "h")))
resolve_tls-name_example =
    resolve_tls-name (target true) (text "h") 8443 other_name (text "k") (text "o") false
      (tls_fell_back (text "k") (text "o") ∷ []) falls_back
