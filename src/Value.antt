-- ===== src/Value.antt =====
-- The values of a dynamic document: what `json.loads` and the YAML loader return, and what goes into
-- an error's details. A mapping's keys that are no texts are not modelled: the program looks up texts.
pub mod Laws
use garuda_tunnel.Base.{
  ℕ, Bool, true, false, not, List, [], ◌∷◌, Option, none, some, Text, text_eq, nat_eq, ◌==◌, ℤ, pos,
  negsuc, if◌then◌else◌, is_empty,
}

mutual
  pub data Value : Type 0 where
    null : Value
    bool : Bool → Value
    int : ℤ → Value
    str : Text → Value
    -- a float, a date, or another scalar
    scalar : ℕ → Value
    list : Items → Value
    dict : Fields → Value

  pub data Items : Type 0 where
    nil : Items
    cons : Value → Items → Items

  pub data Fields : Type 0 where
    end : Fields
    field : Text → Value → Fields → Fields

-- `bool(v)`; the scalars that are not listed are taken as true, but number 0, which is `0.0`.
unfoldable pub truthy : Value → Bool
truthy null = false
truthy (bool b) = b
truthy (int (pos n)) = not (n == 0)
truthy (int (negsuc n)) = true
truthy (str s) = not (is_empty s)
truthy (scalar n) = not (n == 0)
truthy (list nil) = false
truthy (list (cons v vs)) = true
truthy (dict end) = false
truthy (dict (field k v d)) = true

-- `d.get(k)`; an absent key and one that holds `None` read alike.
unfoldable pub get : Text → Fields → Value
get k end = null
get k (field j v d) = if k == j then v else get k d

-- `d[k] = v`
unfoldable pub set : Text → Value → Fields → Fields
set k v end = field k v end
set k v (field j w d) = if k == j then field k v d else field j w (set k v d)

-- `d.pop(k, None)`, the rest of the dict. Every entry of the key goes; a real dict has at most one.
unfoldable pub pop : Text → Fields → Fields
pop k end = end
pop k (field j w d) = let rest = pop k d in if k == j then rest else field j w rest

-- `isinstance(v, dict)`
abbrev pub as_dict : Value → Option Fields
as_dict (dict d) = some d
as_dict _ = none

-- `isinstance(v, list)`
abbrev pub as_list : Value → Option Items
as_list (list vs) = some vs
as_list _ = none

-- `isinstance(v, str)`
abbrev pub as_str : Value → Option Text
as_str (str s) = some s
as_str _ = none
