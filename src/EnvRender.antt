-- ===== src/EnvRender.antt =====
-- tunstrap/envrender.py: the `TUNSTRAP_*` variables of an output, and their `export` lines.
-- `upper_wide` is `str.upper` of one character outside ASCII.
pub mod Entries
pub mod Exports
pub mod Collisions
use garuda_tunnel.Base.{
  ℕ, ◌-◌, Bool, true, false, not, ◌&&◌, ◌||◌, List, [], ◌∷◌, ◌++◌, map, Option, none, some, Text,
  text, text_eq, nat_eq, ◌==◌, is_empty, if◌then◌else◌, Result, ok, err, ◌>>=◌, ◌>>◌, leb, ltb,
}
use garuda_tunnel.Base.Dict.{Dict, insert, has_key}
use garuda_tunnel.Str.{join}
use garuda_tunnel.Str.Number.{show_nat}
use garuda_tunnel.Schemas.{OutputSchema, NodeOutput, KubeTargetOutput}

-- The `ValueError`s of `render_env`.
pub data EnvError : Type 0 where
  not_one_node : EnvError
  collision : Text → EnvError
  not_materialized : Text → EnvError

-- `[A-Z0-9]`
unfoldable pub is_upper_alnum : ℕ → Bool
is_upper_alnum c = (leb b'A' c && leb c b'Z') || (leb b'0' c && leb c b'9')

unfoldable pub ascii_upper : ℕ → ℕ
ascii_upper c = if leb b'a' c && leb c b'z' then c - 32 else c

-- `_NON_ALNUM.sub("_", …)` at one character
unfoldable pub sanitised : ℕ → ℕ
sanitised c = if is_upper_alnum c then c else b'_'

-- `put`
unfoldable pub put : Text → Text → Dict Text Text → Result EnvError (Dict Text Text)
put name value env = if has_key name env then err (collision name) else ok (insert name value env)

-- Several calls of `put`, one after the other.
unfoldable pub put_all : Dict Text Text → Dict Text Text → Result EnvError (Dict Text Text)
put_all [] env = ok env
put_all ((name, value) ∷ entries) env = do env' ← put name value env; put_all entries env'

-- The variables that every output has.
unfoldable pub session_entries : OutputSchema → Dict Text Text
session_entries output =
    (text "TUNSTRAP_SESSION_DIR", output.session_dir)
    ∷ (text "TUNSTRAP_PID", show_nat output.pid)
    ∷ []

abbrev pub variable : Text → Text → Text
variable base suffix = text "TUNSTRAP_" ++ (base ++ suffix)

module _ (upper_wide : ℕ → Text) where
  unfoldable pub upper : Text → Text
  upper [] = []
  upper (c ∷ s) = (if ltb c 128 then ascii_upper c ∷ [] else upper_wide c) ++ upper s

  -- `_key`
  unfoldable pub key : Text → Text
  key name = map sanitised (upper name)

  -- The three variables of a forwarded port.
  unfoldable pub port_entries : Text → ℕ → Dict Text Text
  port_entries name port =
      (variable (key name) (text "_HOST"), text "127.0.0.1")
      ∷ (variable (key name) (text "_PORT"), show_nat port)
      ∷ (variable (key name) (text "_ENDPOINT"), text "127.0.0.1:" ++ show_nat port)
      ∷ []

  unfoldable pub render_ports : Dict Text ℕ → Dict Text Text → Result EnvError (Dict Text Text)
  render_ports [] env = ok env
  render_ports ((name, port) ∷ ports) env = do
    env' ← put_all (port_entries name port) env
    render_ports ports env'

  unfoldable pub kube_entries : Text → Text → KubeTargetOutput → Dict Text Text
  kube_entries name path target =
      (variable (key name) (text "_KUBECONFIG"), path)
      ∷ (variable (key name) (text "_ENDPOINT"), target.endpoint)
      ∷ []

  -- The variables of the kube targets, and `kube_paths`.
  unfoldable pub render_kube :
      Dict Text KubeTargetOutput
      → Dict Text Text
      → List Text
      → Result EnvError (Dict Text Text × List Text)
  render_kube [] env paths = ok (env, paths)
  render_kube ((name, target) ∷ targets) env paths = elim target.path [
    | none ↦ err (not_materialized name)
    | some path ↦ do
      env' ← put_all (kube_entries name path target) env
      render_kube targets env' (paths ++ (path ∷ []))
  ]

  -- `KUBECONFIG`, if there are paths
  unfoldable pub put_kubeconfig : Dict Text Text × List Text → Result EnvError (Dict Text Text)
  put_kubeconfig (env, paths) =
      if is_empty paths then ok env else put (text "KUBECONFIG") (join b':' paths) env

  unfoldable pub render_node : OutputSchema → NodeOutput → Result EnvError (Dict Text Text)
  render_node output node = do
    env ← render_ports node.ports (session_entries output)
    done ← render_kube node.kube_targets env []
    put_kubeconfig done

  unfoldable pub render_connections :
      OutputSchema → Dict Text NodeOutput → Result EnvError (Dict Text Text)
  render_connections output ((name, node) ∷ []) = render_node output node
  render_connections output _ = err not_one_node

  unfoldable pub render_env : OutputSchema → Result EnvError (Dict Text Text)
  render_env output = render_connections output output.connections

-- `value.replace("'", "'\\''")`
unfoldable pub shell_single_quote : Text → Text
shell_single_quote [] = []
shell_single_quote (c ∷ s) =
    (if c == 39 then 39 ∷ 92 ∷ 39 ∷ 39 ∷ [] else c ∷ []) ++ shell_single_quote s

-- `export KEY='VALUE'`
unfoldable pub export_line : Text → Text → Text
export_line name value =
    text "export " ++ (name ++ (b'=' ∷ 39 ∷ (shell_single_quote value ++ (39 ∷ []))))

unfoldable pub export_lines : Dict Text Text → List Text
export_lines [] = []
export_lines ((name, value) ∷ env) = export_line name value ∷ export_lines env

unfoldable pub format_exports : Dict Text Text → Text
format_exports env = join 10 (export_lines env) ++ (10 ∷ [])
