-- ===== src/Base64.antt =====
-- `base64.b64encode` on bytes.
use Prim.Native.Nat.{◌/◌, ◌%◌}
use garuda_tunnel.Base.{ℕ, ◌+◌, ◌-◌, ◌*◌, [], ◌∷◌, Text, nat_eq, ◌==◌, ltb, if◌then◌else◌}

-- The character of six bits.
unfoldable pub sextet_char : ℕ → ℕ
sextet_char n =
    if ltb n 26
    then 65 + n
    else if ltb n 52
    then 71 + n
    else if ltb n 62
    then n - 4
    else if n == 62
    then b'+'
    else b'/'

unfoldable pub b64encode : Text → Text
b64encode [] = []
b64encode (a ∷ []) = sextet_char (a / 4) ∷ sextet_char (a % 4 * 16) ∷ b'=' ∷ b'=' ∷ []
b64encode (a ∷ b ∷ []) =
    sextet_char (a / 4) ∷ sextet_char (a % 4 * 16 + b / 16) ∷ sextet_char (b % 16 * 4) ∷ b'=' ∷ []
b64encode (a ∷ b ∷ c ∷ s) =
    sextet_char (a / 4)
    ∷ sextet_char (a % 4 * 16 + b / 16)
    ∷ sextet_char (b % 16 * 4 + c / 64)
    ∷ sextet_char (c % 64)
    ∷ b64encode s
