-- ===== src/Kube/Tls.antt =====
-- `sans_from_cert`, `choose_tls_server_name` and `_resolve_tls` of tunstrap/kube.py.
pub mod Choice
use garuda_tunnel.Base.{
  ℕ, Bool, true, false, ◌||◌, List, [], ◌∷◌, ◌++◌, Option, none, some, Text, text_eq, ◌==◌,
  contains, if◌then◌else◌, Result, ok, err, ◌>>=◌, ◌>>◌,
}
use garuda_tunnel.Schemas.{KubeTarget}
use garuda_tunnel.Messages.{RemoteError, Warning, tls_disabled, tls_fell_back}

-- What the certificate library finds in a certificate.
pub data CertificateNames : Type 0 where
  malformed no_extension other_extension : CertificateNames
  names : List Text → List Text → CertificateNames

unfoldable pub sans_from_cert : CertificateNames → List Text × List Text
sans_from_cert (names dns ips) = (dns, ips)
sans_from_cert _ = ([], [])

unfoldable pub first_name : List Text → List Text → Option Text × Bool
first_name (name ∷ dns) ips = (some name, true)
first_name [] (name ∷ ips) = (some name, true)
first_name [] [] = (none, true)

unfoldable pub choose_tls_server_name : Text → List Text → List Text → Option Text × Bool
choose_tls_server_name original_host dns_sans ip_sans =
    if contains dns_sans original_host || contains ip_sans original_host
    then (some original_host, false)
    else first_name dns_sans ip_sans

-- What `_resolve_tls` does with the choice: the name, whether to go on insecurely, and the warnings.
unfoldable pub judge : KubeTarget → Text → Option Text × Bool → (Option Text × Bool) × List Warning
judge target name (none, fellback) =
    if target.insecure_fallback then ((none, true), tls_disabled name ∷ []) else ((none, false), [])
judge target name (some chosen, fellback) =
    ((some chosen, false), if fellback then tls_fell_back name chosen ∷ [] else [])

-- `probe` is the TLS handshake on the local port with what it finds in the certificate.
unfoldable pub resolve_tls :
    KubeTarget
    → Text
    → ℕ
    → (ℕ → Result RemoteError CertificateNames)
    → Text
    → Result RemoteError ((Option Text × Bool) × List Warning)
resolve_tls target host local_port probe name = elim target.tls_server_name [
  | some given ↦ ok ((some given, false), [])
  | none ↦ do
    cert ← probe local_port
    let sans = sans_from_cert cert
    ok (judge target name (choose_tls_server_name host sans.0 sans.1))
]
