-- ===== src/Value.antt =====
-- The Python objects that the program handles: what `json` and the RouterOS API yield. There are
-- no floats among them. A dict keeps the order of its entries.
pub mod Show
use routeros_inspector_mcp.Base.{
  ℕ, zero, suc, String, Bool, true, false, not, Option, none, some, List, [], ◌∷◌, ℤ, pos, negsuc,
  str_eq, int_eq, nat_eq, if◌then◌else◌, ◌&&◌,
}

mutual
  pub data Value : Type 0 where
    null : Value
    bool : Bool → Value
    int : ℤ → Value
    str : String → Value
    arr : Items → Value
    obj : Fields → Value

  -- The keys of a dict, in order, with their values.
  pub data Fields : Type 0 where
    end : Fields
    field : String → Value → Fields → Fields

  -- The members of a list.
  pub data Items : Type 0 where
    nil : Items
    cons : Value → Items → Items

-- `bool(v)`
unfoldable pub truthy : Value → Bool
truthy null = false
truthy (bool b) = b
truthy (int i) = not (int_eq i (pos 0))
truthy (str s) = not (str_eq s "")
truthy (arr nil) = false
truthy (arr (cons v vs)) = true
truthy (obj end) = false
truthy (obj (field k v d)) = true

-- `d.get(k)`, where `none` is a key that is not there.
unfoldable pub get? : String → Fields → Option Value
get? k end = none
get? k (field j v d) = if str_eq j k then some v else get? k d

-- `d.get(k, default)`
unfoldable pub get_or : Fields → String → Value → Value
unfolding get?
get_or d k default = elim (get? k d) [ none ↦ default | some v ↦ v ]

-- `d[k] = v`
unfoldable pub put : String → Value → Fields → Fields
put k v end = field k v end
put k v (field j w d) = if str_eq j k then field j v d else field j w (put k v d)

-- `{**d, **e}`
unfoldable pub merge : Fields → Fields → Fields
unfolding put
merge d end = d
merge d (field k v e) = merge (put k v d) e

abbrev pub to_items : List Value → Items
to_items [] = nil
to_items (v ∷ vs) = cons v (to_items vs)

abbrev pub of_items : Items → List Value
of_items nil = []
of_items (cons v vs) = v ∷ of_items vs

-- Whether a value is that very text, as `==` with a text literal tests it.
unfoldable pub is_str : String → Value → Bool
is_str s (str t) = str_eq t s
is_str s _ = false

-- `v is None`
unfoldable pub is_none : Value → Bool
is_none null = true
is_none _ = false
