-- ===== src/Audit/Trunk/Failing.antt =====
-- No finding that the trunk audit makes on a trunk passes.
use routeros_inspector_mcp.Base.{
  String, ◌≢◌, refl, inl, inr, Bool, true, false, List, [], ◌∷◌, ◌++◌, ℤ, ℤ_eq, Option-cases,
  if◌then◌else◌, string_eq, Dict, lookup, All, All-append,
}
use routeros_inspector_mcp.Errors.{
  Result, ok, err, ◌>>=◌, Holds, ok-Holds, err-Holds, if-Holds, >>=-Holds,
}
use routeros_inspector_mcp.Value.{Fields}
use routeros_inspector_mcp.Audit.{Finding, pass, fail, warn}
use routeros_inspector_mcp.Audit.Trunk.{judge_present, judge_trunk, judge_trunks}

abbrev pub NotPass : List Finding → Type 0
NotPass = All (λ (f : Finding). f.status ≢ pass)

fail-ne-pass : fail ≢ pass
fail-ne-pass h = cc

warn-ne-pass : warn ≢ pass
warn-ne-pass h = cc

bind-NotPass :
    (m n : Result (List Finding))
    → Holds NotPass m
    → Holds NotPass n
    → Holds NotPass (m >>= λ found. n >>= λ rest. ok (found ++ rest))
bind-NotPass (ok fs) (ok gs) h k =
    ok-Holds (All-append (λ (f : Finding). f.status ≢ pass) fs gs (h.of refl) (k.of refl))
bind-NotPass (ok fs) (err e) h k = err-Holds
bind-NotPass (err e) n h k = err-Holds

if-NotPass : (b : Bool) (f : Finding) → f.status ≢ pass → NotPass (if b then f ∷ [] else [])
if-NotPass true f h = (h, tt)
if-NotPass false f h = tt

judge_present-NotPass :
    (name : String) (expected tagged : List ℤ) (port : Fields)
    → Holds NotPass (judge_present name expected tagged port)
unfolding judge_present
judge_present-NotPass name expected tagged port =
    if-Holds _ _ _ (ok-Holds (fail-ne-pass, tt))
      (>>=-Holds _ _ λ usual. ok-Holds (if-NotPass _ _ warn-ne-pass))

judge_trunk-NotPass :
    (ports : Dict Fields) (tagged_by_port : Dict (List ℤ)) (name : String) (expected : List ℤ)
    → Holds NotPass (judge_trunk ports tagged_by_port name expected)
unfolding judge_trunk
judge_trunk-NotPass ports tagged_by_port name expected = elim (Option-cases (lookup name ports)) [
  | inl gone ↦ rw (gone, judge_trunk) (ok-Holds (fail-ne-pass, tt))
  | inr (port, present) ↦ rw (present, judge_trunk) (judge_present-NotPass name expected _ port)
]

pub judge_trunks-NotPass :
    (ports : Dict Fields) (tagged_by_port trunks : Dict (List ℤ))
    → Holds NotPass (judge_trunks ports tagged_by_port trunks)
unfolding judge_trunks
judge_trunks-NotPass ports tagged_by_port [] = ok-Holds tt
judge_trunks-NotPass ports tagged_by_port ((name, expected) ∷ trunks) =
    let one = judge_trunk-NotPass ports tagged_by_port name expected in
    let more = judge_trunks-NotPass ports tagged_by_port trunks in
    bind-NotPass (judge_trunk ports tagged_by_port name expected)
      (judge_trunks ports tagged_by_port trunks) one more
