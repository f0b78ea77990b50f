-- ===== src/EnvRender/Exports.antt =====
-- `format_exports` of tunstrap/envrender.py, and how a POSIX shell reads its lines.
use garuda_tunnel.Base.{
  ℕ, zero, suc, ◌≡◌, refl, false, [], ◌∷◌, ◌++◌, append_assoc, Option, none, some, Text, text,
  text_eq, nat_eq, ℕ_discrete, ◌==◌, if◌then◌else◌, arith, contains, length, All,
}
use garuda_tunnel.Base.Dict.{Dict, keys}
use garuda_tunnel.Str.{cut_first, join}
use garuda_tunnel.Str.Laws.{cut_first-append}
use garuda_tunnel.EnvRender.{shell_single_quote, export_line, export_lines, format_exports}

-- Where the shell's reader is in a word.
data Place : Type 0 where
  outside inside escaped : Place

-- One word of a shell command and the text behind its newline. Between single quotes every character
-- stands for itself. Outside them a backslash quotes the next character, and any other character but
-- a quote or a newline is refused.
read_word : Place → Text → Option (Text × Text)
read_word place [] = none
read_word outside (c ∷ s) =
    let opened = read_word inside s in
    let quoted = read_word escaped s in
    if c == 10 then some ([], s) else if c == 39 then opened else if c == 92 then quoted else none
read_word inside (c ∷ s) =
    let closed = read_word outside s in
    let more = read_word inside s in
    if c == 39
    then closed
    else elim more [ none ↦ none | some (word, after) ↦ some (c ∷ word, after) ]
read_word escaped (c ∷ s) = elim (read_word outside s) [
  | none ↦ none
  | some (word, after) ↦ some (c ∷ word, after)
]

read_word-quote :
    (value rest : Text)
    → read_word inside (shell_single_quote value ++ (39 ∷ 10 ∷ rest)) ≡ some (value, rest)
unfolding read_word shell_single_quote
read_word-quote [] rest = ground arith
read_word-quote (c ∷ value) rest = ground (arith, read_word-quote value rest)

-- `export NAME=WORD`
read_export : Text → Option (Text × Text × Text)
read_export line = elim (cut_first b' ' line) [
  | none ↦ none
  | some (command, assignment) ↦
      if command == text "export"
      then elim (cut_first b'=' assignment) [
        | none ↦ none
        | some (name, words) ↦ elim (read_word outside words) [
          | none ↦ none
          | some (value, rest) ↦ some (name, value, rest)
        ]
      ]
      else none
]

-- A script of so many `export` lines.
pub read_exports : ℕ → Text → Option (Dict Text Text)
read_exports zero [] = some []
read_exports zero (c ∷ s) = none
read_exports (suc lines) script = elim (read_export script) [
  | none ↦ none
  | some (name, value, rest) ↦ elim (read_exports lines rest) [
    | none ↦ none
    | some env ↦ some ((name, value) ∷ env)
  ]
]

cut_export : (rest : Text) → cut_first b' ' (text "export " ++ rest) ≡ some (text "export", rest)
unfolding cut_first text ℕ_discrete nat_eq
cut_export rest = refl

read_word-word :
    (value rest : Text)
    → read_word outside (39 ∷ (shell_single_quote value ++ (39 ∷ 10 ∷ rest))) ≡ some (value, rest)
unfolding read_word
read_word-word value rest = ground (arith, read_word-quote value rest)

export_line-append :
    (name value rest : Text)
    → export_line name value ++ (10 ∷ rest)
      ≡ text "export " ++ (name ++ (b'=' ∷ 39 ∷ (shell_single_quote value ++ (39 ∷ 10 ∷ rest))))
unfolding export_line
export_line-append name value rest = simp append_assoc

read_export-export_line :
    (name value rest : Text)
    → contains name b'=' ≡ false
    → read_export (export_line name value ++ (10 ∷ rest)) ≡ some (name, value, rest)
unfolding read_export
read_export-export_line name value rest h = ground (
  arith,
  export_line-append name value rest,
  cut_export (name ++ (b'=' ∷ 39 ∷ (shell_single_quote value ++ (39 ∷ 10 ∷ rest)))),
  cut_first-append b'=' name (39 ∷ (shell_single_quote value ++ (39 ∷ 10 ∷ rest))) h,
  read_word-word value rest,
)

-- The lines of a script end in newlines.
format_exports-cons :
    (name value : Text) (e : Text × Text) (env : Dict Text Text)
    → format_exports ((name, value) ∷ e ∷ env)
      ≡ export_line name value ++ (10 ∷ format_exports (e ∷ env))
unfolding format_exports export_lines join
format_exports-cons name value e env = simp append_assoc

-- What a POSIX shell reads from the `export` lines are the variables, each with its value, whatever
-- the values hold; the names have no `=`.
pub read_exports-format_exports :
    (e : Text × Text) (env : Dict Text Text)
    → All (λ name. contains name b'=' ≡ false) (keys (e ∷ env))
    → read_exports (length (e ∷ env)) (format_exports (e ∷ env)) ≡ some (e ∷ env)
unfolding read_exports
read_exports-format_exports (name, value) [] h =
    unfold format_exports export_lines join in
    ground (arith, read_export-export_line name value [] h.0)
read_exports-format_exports (name, value) (e ∷ env) h = ground (
  arith,
  format_exports-cons name value e env,
  read_export-export_line name value (format_exports (e ∷ env)) h.0,
  read_exports-format_exports e env h.1,
)
