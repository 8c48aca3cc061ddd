-- ===== src/Value.antt =====
-- Python's `object` as far as a dict of the program holds it: the values that JSON can carry, with
-- `dict.get`, truth, `isinstance` and `str`.
use scs.Base.{
  ℕ, Bool, true, false, not, ◌==◌, Option, none, some, List, [], ◌∷◌, Text, text_eq, if◌then◌else◌,
}

mutual
  -- `real`: a float that is not zero. `integer`: from zero up; `negative n` is -(n + 1).
  pub data Value : Type 0 where
    null : Value
    boolean : Bool → Value
    integer : ℕ → Value
    negative : ℕ → Value
    real : Text → Value
    text : Text → Value
    array : Values → Value
    object : Fields → Value

  pub data Values : Type 0 where
    nil : Values
    cons : Value → Values → Values

  pub data Fields : Type 0 where
    end : Fields
    field : Text → Value → Fields → Fields

abbrev pub members : Values → List Value
members nil = []
members (cons v vs) = v ∷ members vs

-- `d.get(key)`, where a missing key is told from a null.
unfoldable pub get : Text → Fields → Option Value
get key end = none
get key (field name value rest) =
    let found = get key rest in if text_eq key name then some value else found

abbrev pub or_else {ℓ} : {A : Type ℓ} → A → Option A → A
or_else default none = default
or_else default (some value) = value

-- `d.get(key)`
abbrev pub get_value : Text → Fields → Value
get_value key fields = or_else null (get key fields)

abbrev pub is_blank : Text → Bool
is_blank [] = true
is_blank (c ∷ cs) = false

abbrev pub is_true : Value → Bool
is_true null = false
is_true (boolean b) = b
is_true (integer n) = not (n == 0)
is_true (negative n) = true
is_true (real t) = true
is_true (text t) = not (is_blank t)
is_true (array nil) = false
is_true (array (cons v vs)) = true
is_true (object end) = false
is_true (object (field k v rest)) = true

-- `cast(dict[str, object], v) if isinstance(v, dict) else {}`
abbrev pub as_fields : Value → Fields
as_fields (object fields) = fields
as_fields _ = end

-- `str(v)`; how a value other than a text is printed is `printed`.
abbrev pub str : (Value → Text) → Value → Text
str printed (text t) = t
str printed v = printed v
