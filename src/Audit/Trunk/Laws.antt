-- ===== src/Audit/Trunk/Laws.antt =====
-- What the trunk audit says of the bridge tables and the policy.
use mathlib.Core.Option.{none-ne-some, some-injective}
use mathlib.Core.List.{append-nil, append_assoc}
use routeros_inspector_mcp.Base.{
  String, ◌≡◌, refl, sym, ap, ◌∙◌, inl, inr, Bool, true, false, not, ◌&&◌, Option, none, some, List,
  [], ◌∷◌, ◌++◌, ℤ, ℤ_eq, arith, contains, Bool-cases, if◌then◌else◌, str_eq, eq_iff, string_eq,
  Dict, lookup, keys, lookup-insert,
}
use routeros_inspector_mcp.Value.{bool, str, Fields, get_or}
use routeros_inspector_mcp.Value.Show.{py_str}
use routeros_inspector_mcp.Audit.{split_csv, parse_vlan_ids, is_truthy}
use routeros_inspector_mcp.Audit.Trunk.{ports_by_name, no_tags, tag_ports, tag_row, tag_rows}

-- The VLANs that a port carries tagged, row by row of the bridge table.
unfoldable pub carried_in : String → Fields → List ℤ
carried_in port row =
    if not (is_truthy (get_or row "disabled" (bool false)))
      && contains (split_csv (get_or row "tagged" (str ""))) port
    then parse_vlan_ids (get_or row "vlan_ids" (str ""))
    else []

unfoldable pub carried : String → List Fields → List ℤ
carried port [] = []
carried port (row ∷ vlans) = carried_in port row ++ carried port vlans

if-append : (b : Bool) (v ids : List ℤ) → (if b then v ++ ids else v) ≡ v ++ (if b then ids else [])
if-append true v ids = refl
if-append false v ids = sym (append-nil v)

lookup-tag_ports :
    (port : String) (ps : List String) (ids : List ℤ) (d : Dict (List ℤ)) {vs : List ℤ}
    → lookup port d ≡ some vs
    → lookup port (tag_ports ps ids d) ≡ some (vs ++ (if contains ps port then ids else []))
unfolding tag_ports lookup
lookup-tag_ports port ps ids [] h = absurd (none-ne-some _ h)
lookup-tag_ports port ps ids ((k, v) ∷ d) {vs} h = elim (Bool-cases (str_eq k port)) [
  | inl same ↦
      let here = some-injective v vs (rw (same, if◌then◌else◌) at h) in
      let name = (eq_iff k port).0 same in
      rw (same, if◌then◌else◌) (ap some (rw (if-append (contains ps k) v ids, name, here) refl))
  | inr other ↦
      rw (other, if◌then◌else◌) (lookup-tag_ports port ps ids d (rw (other, if◌then◌else◌) at h))
]

lookup-no_tags :
    (port : String) (trunks : Dict (List ℤ))
    → contains (keys trunks) port ≡ true
    → lookup port (no_tags trunks) ≡ some []
unfolding no_tags lookup keys
lookup-no_tags port [] h = ground arith
lookup-no_tags port ((k, v) ∷ trunks) h =
    ground (arith, lookup-no_tags port trunks, eq_iff port k, eq_iff k port)

carried_in-append :
    (v : List ℤ) (disabled tagged : Bool) (ids : List ℤ)
    → (if disabled then v else v ++ (if tagged then ids else []))
      ≡ v ++ (if not disabled && tagged then ids else [])
carried_in-append v true tagged ids = sym (append-nil v)
carried_in-append v false tagged ids = refl

lookup-if :
    (port : String) (b : Bool) (d e : Dict (List ℤ)) {v w : List ℤ}
    → lookup port d ≡ some v
    → lookup port e ≡ some w
    → lookup port (if b then d else e) ≡ some (if b then v else w)
lookup-if port true d e h k = h
lookup-if port false d e h k = k

lookup-tag_row :
    (port : String) (row : Fields) (d : Dict (List ℤ)) {vs : List ℤ}
    → lookup port d ≡ some vs
    → lookup port (tag_row row d) ≡ some (vs ++ carried_in port row)
unfolding tag_row carried_in
lookup-tag_row port row d {vs} h =
    lookup-if port _ d _ h (lookup-tag_ports port _ _ d h) ∙ ap some (carried_in-append vs _ _ _)

lookup-tag_rows :
    (port : String) (vlans : List Fields) (d : Dict (List ℤ)) {vs : List ℤ}
    → lookup port d ≡ some vs
    → lookup port (tag_rows vlans d) ≡ some (vs ++ carried port vlans)
unfolding tag_rows carried
lookup-tag_rows port [] d {vs} h = h ∙ ap some (sym (append-nil vs))
lookup-tag_rows port (row ∷ vlans) d {vs} h =
    lookup-tag_rows port vlans (tag_row row d) (lookup-tag_row port row d h)
    ∙ ap some (append_assoc vs (carried_in port row) (carried port vlans))

-- After the loops over the bridge table, each trunk port of the policy has the VLANs of the enabled
-- rows that tag it, in the order of the rows.
pub tag_rows-carried :
    (port : String) (vlans : List Fields) (trunks : Dict (List ℤ))
    → contains (keys trunks) port ≡ true
    → lookup port (tag_rows vlans (no_tags trunks)) ≡ some (carried port vlans)
tag_rows-carried port vlans trunks h =
    lookup-tag_rows port vlans (no_tags trunks) (lookup-no_tags port trunks h)

-- The last row of the bridge ports that has the name.
unfoldable pub last_port : String → List Fields → Option Fields
last_port name [] = none
last_port name (port ∷ ports) =
    let later = last_port name ports in
    elim later [
      | some p ↦ some p
      | none ↦ if str_eq (py_str (get_or port "interface" (str ""))) name then some port else none
    ]

abbrev or_else : Option Fields → Option Fields → Option Fields
or_else none o = o
or_else (some p) o = some p

or_else-elim :
    (later : Option Fields) (b : Bool) (port : Fields) (o : Option Fields)
    → or_else later (if b then some port else o)
      ≡ or_else (elim later [ some p ↦ some p | none ↦ if b then some port else none ]) o
or_else-elim (some p) b port o = refl
or_else-elim none true port o = refl
or_else-elim none false port o = refl

lookup-ports_by_name :
    (name : String) (ports : List Fields) (d : Dict Fields)
    → lookup name (ports_by_name ports d) ≡ or_else (last_port name ports) (lookup name d)
unfolding ports_by_name last_port
lookup-ports_by_name name [] d = refl
lookup-ports_by_name name (port ∷ ports) d =
    lookup-ports_by_name name ports _
    ∙ ap (or_else (last_port name ports)) (lookup-insert name _ port d)
    ∙ or_else-elim (last_port name ports) _ port (lookup name d)

or_else-none : (o : Option Fields) → or_else o none ≡ o
or_else-none none = refl
or_else-none (some p) = refl

-- The dict of the bridge ports holds, under each name, the last row that has the name.
pub ports_by_name-last_port :
    (name : String) (ports : List Fields)
    → lookup name (ports_by_name ports []) ≡ last_port name ports
unfolding lookup
ports_by_name-last_port name ports =
    lookup-ports_by_name name ports [] ∙ or_else-none (last_port name ports)
