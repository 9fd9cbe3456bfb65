-- ===== src/Api/References/Preserving.antt =====
-- What resolving a reference preserves (`ResolveReferences` of the types of api/v1alpha1).
use openldap_operator.Base.{Bool, true, false, Option, none, some}
use openldap_operator.Go.{Fault}
use openldap_operator.Api.{Resolved}
use openldap_operator.Api.References.{Check, check_rest, check_then}

pub check_then-P :
    {S : Type 0} (P : S → Type 0) (resolve : S → Resolved × S) (rest : S → Check × S)
    → ((s : S) → P s → P (resolve s).1)
    → ((s : S) → P s → P (rest s).1)
    → (s : S) → P s
    → P (check_then resolve rest s).1
unfolding check_then
check_then-P P resolve rest h j s p =
    go (resolve s).0.found (resolve s).0.error (resolve s).1 (h s p)
  where
    go : (b : Bool) (e : Option Fault) (t : _) → P t → P (check_rest b e rest t).1
    go false e t q = q
    go true (some f) t q = q
    go true none t q = j t q
