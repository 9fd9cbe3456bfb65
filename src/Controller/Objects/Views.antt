-- ===== src/Controller/Objects/Views.antt =====
-- What is known of a view that the calls on the cluster leave alone is preserved by them.
use openldap_operator.Base.{String, ◌≡◌, refl, sym, subst}
use openldap_operator.Go.{Result}
use openldap_operator.Go.Preserves.{Preserves}
use openldap_operator.Api.{pending, ready, failed, LdapObject}
use openldap_operator.Controller.{Kube}
use openldap_operator.Controller.Marks.{write_status}
use openldap_operator.Controller.Objects.Lookups.{KubePreserves}
use openldap_operator.Controller.Objects.Gate.{LeavesAlone}

module _ {S L : Type 0} (k : Kube S) (view : S → L) (alone : LeavesAlone k view)
    (ready_marks : (x : L) (o : LdapObject)
      → Preserves (λ s. view s ≡ x) (write_status k o ready ""))
    (F : L → Type 0) where
  of_view :
      {E A : Type 0} {m : S → Result E A × S}
      → ((x : L) → Preserves (λ s. view s ≡ x) m)
      → Preserves (λ s. F (view s)) m
  of_view h = record { at = λ s p. subst F (sym ((h (view s)).at s refl)) p }

  pub view-KubePreserves : KubePreserves k (λ s. F (view s))
  view-KubePreserves = record {
    resolve_object =
        λ ref o s p. subst F (sym ((alone.calls (view s)).resolve_object ref o s refl)) p;
    resolve_local =
        λ ref o s p. subst F (sym ((alone.calls (view s)).resolve_local ref o s refl)) p;
    resolve_secret =
        λ ref o s p. subst F (sym ((alone.calls (view s)).resolve_secret ref o s refl)) p;
    get = λ req. of_view (λ x. (alone.calls x).get req);
    create_or_patch =
        λ o f s p. subst F (sym ((alone.calls (view s)).create_or_patch o f s refl)) p;
    event = λ o t r m s p. subst F (sym ((alone.calls (view s)).event o t r m s refl)) p;
  }

  pub pending-marks : (o : LdapObject) → Preserves (λ s. F (view s)) (write_status k o pending "")
  pending-marks o = of_view (λ x. alone.pending_marks x o)

  pub failed-marks :
      (o : LdapObject) (text : String) → Preserves (λ s. F (view s)) (write_status k o failed text)
  failed-marks o text = of_view (λ x. alone.failed_marks x o text)

  pub ready-marks : (o : LdapObject) → Preserves (λ s. F (view s)) (write_status k o ready "")
  ready-marks o = of_view (λ x. ready_marks x o)
