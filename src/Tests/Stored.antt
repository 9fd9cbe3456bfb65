-- ===== src/Tests/Stored.antt =====
-- CreateOrUpdateEntry on a server that keeps the entries by name.
use openldap_operator.Base.{
  String, ◌==◌, eq_refl, ◌≡◌, refl, subst, sym, ap, ◌∙◌, Bool, true, false, not, Option, none, some,
  List, [], ◌∷◌, arith, if◌then◌else◌,
}
use openldap_operator.Go.{Fault, Result, ok, err}
use openldap_operator.Api.{Phase, unset}
use openldap_operator.Ldap.{Entry, organizational_unit, group, user}
use openldap_operator.Ldap.Goldap.{SearchEntry, SearchRequest, ModifyRequest, Goldap}
use openldap_operator.Ldap.Preserving.{SessionPreserves}
use openldap_operator.Ldap.Upsert.{create_or_update_entry}
use openldap_operator.Ldap.Upsert.Modifications.{Values, replay, optional_values}
use openldap_operator.Ldap.Upsert.RoundTrip.{values_of, first_value}
use openldap_operator.Ldap.Upsert.Updates.{Shows}
use openldap_operator.Ldap.Upsert.Held.{Holds, entry_dn, wanted_search}
use openldap_operator.Tests.Samples.{unit_entry}
use openldap_operator.Tests.Clients.{admin}

-- The entries that the server keeps, by name, and the phase that is stored for an object.
abbrev pub World : Type 0
World = (String → Option Values) × Phase

abbrev pub put : String → Values → World → World
put dn v s = ((λ n. if n == dn then some v else s.0 n), s.1)

-- Absent, or one value that is not empty.
abbrev pub optional_fits : List String → Bool
optional_fits [] = true
optional_fits (w ∷ []) = not (w == "")
optional_fits (w ∷ w' ∷ ws) = false

abbrev pub single : List String → Bool
single (w ∷ []) = true
single _ = false

abbrev pub fits : String → List String → Bool
fits a ws =
    if a == "description"
    then optional_fits ws
    else if a == "mail"
    then optional_fits ws
    else if a == "cn"
    then single ws
    else if a == "sn"
    then single ws
    else true

abbrev pub all_fit : List String → Values → Bool
all_fit [] v = true
all_fit (a ∷ names) v = let rest = all_fit names v in if fits a (v a) then rest else false

abbrev pub shown_entry : String → Values → SearchEntry
shown_entry dn v = record {
  dn = dn;
  get_attribute_value = λ a. first_value (v a);
  get_attribute_values = v;
}

-- An entry is found by its name, where its values are as the client may have written them.
abbrev pub reply : SearchRequest → Option Values → Option (List SearchEntry)
reply q none = some []
reply q (some v) = if all_fit q.attributes v then some (shown_entry q.base_dn v ∷ []) else none

abbrev pub no_such_entry : Fault
no_such_entry = record { text = "LDAP Result Code 32"; not_found = false; result_code = some 32 }

abbrev pub changed : ModifyRequest → World → Option Values → Result Fault (Unit {0}) × World
changed r s none = (err no_such_entry, s)
changed r s (some v) = (ok tt, put r.dn (replay r.changes v) s)

abbrev pub server : Goldap World
server = record {
  dial_url = λ a p s. (ok 7, s);
  set_timeout = λ conn n s. s;
  bind = λ conn u p s. (ok tt, s);
  search = λ conn q s. (record { entries = reply q (s.0 q.base_dn); error = none }, s);
  add = λ conn r s. (ok tt, put r.dn (values_of r.attributes) s);
  modify = λ conn r s. changed r s (s.0 r.dn);
  del = λ conn dn s. (ok tt, ((λ n. if n == dn then none else s.0 n), s.1));
  password_modify = λ conn q s. (ok tt, s);
  close = λ conn s. s;
}

server-session : (dn : String) (o : Option Values) → SessionPreserves server (λ s. s.0 dn ≡ o)
server-session dn o = record {
  dial_url = λ url pool. record { at = λ s h. h };
  set_timeout = λ conn n s h. h;
  bind = λ conn name password. record { at = λ s h. h };
  search = λ conn q s h. h;
  password_modify = λ conn q. record { at = λ s h. h };
  close = λ conn s h. h;
}

pub changed-phase :
    (P : Phase → Type 0) (r : ModifyRequest) (s : World) (o : Option Values)
    → P s.1
    → P (changed r s o).1.1
changed-phase P r s none h = h
changed-phase P r s (some v) h = h

put-same : (n dn : String) (v : Values) (s : World) → n ≡ dn → (put n v s).0 dn ≡ some v
put-same n dn v s e = rw (e, eq_refl dn)

both : (a b : Bool) → (if a then b else false) ≡ true → (a ≡ true) × (b ≡ true)
both a b h = ground arith

of_not : (b : Bool) → not b ≡ true → b ≡ false
of_not true h = cc
of_not false h = refl

optional_fits-values :
    (ws : List String) → optional_fits ws ≡ true → ws ≡ optional_values (first_value ws)
optional_fits-values [] h = refl
optional_fits-values (w ∷ []) h = rw (of_not (w == "") h)
optional_fits-values (w ∷ w' ∷ ws) h = absurd (cc h)

single-value : (ws : List String) → single ws ≡ true → ws ≡ first_value ws ∷ []
single-value [] h = absurd (cc h)
single-value (w ∷ []) h = refl
single-value (w ∷ w' ∷ ws) h = absurd (cc h)

head_of : SearchEntry → Option (List SearchEntry) → SearchEntry
head_of d (some (e ∷ es)) = e
head_of d _ = d

found-fits :
    (q : SearchRequest) (o : Option Values) (e : SearchEntry) (es : List SearchEntry)
    → reply q o ≡ some (e ∷ es)
    → (v : Values) × (o ≡ some v) × (shown_entry q.base_dn v ≡ e) × (all_fit q.attributes v ≡ true)
unfolding head_of
found-fits q none e es h = absurd (cc h)
found-fits q (some v) e es h = by_fit (all_fit q.attributes v) refl h
  where
    by_fit :
        (b : Bool)
        → all_fit q.attributes v ≡ b
        → (if b then some (shown_entry q.base_dn v ∷ []) else none) ≡ some (e ∷ es)
        → (w : Values) × (some v ≡ some w)
          × (shown_entry q.base_dn w ≡ e)
          × (all_fit q.attributes w ≡ true)
    by_fit true f h = (v, refl, ap (head_of e) h, f)
    by_fit false f h = absurd (cc h)

shown-Shows :
    (x : Entry) (v : Values)
    → all_fit (wanted_search x).attributes v ≡ true
    → Shows x (shown_entry (wanted_search x).base_dn v) v
shown-Shows (organizational_unit ou) v h =
    optional_fits-values _ (both (optional_fits (v "description")) true h).0
shown-Shows (group gr) v h =
    let (_, h') = both (single (v "cn")) _ h in
    (optional_fits-values _ (both (optional_fits (v "description")) true h').0, refl)
shown-Shows (user u) v h =
    let (cn, h') = both (single (v "cn")) _ h in
    let (sn, h'') = both (single (v "sn")) _ h' in
    (
      single-value _ cn,
      single-value _ sn,
      optional_fits-values _ (both (optional_fits (v "mail")) true h'').0,
    )

pub server-Holds : (x : Entry) → Holds server x (λ s. s.0 (entry_dn x))
server-Holds x = record {
  session = server-session (entry_dn x);
  found = λ conn s e es h. found s e es h;
  added = λ conn r s t named h.
      ap (λ p. p.1.0 (entry_dn x)) (sym h) ∙ put-same r.dn (entry_dn x) _ s named;
  modified = λ conn r s t v named k h. modified r s t v named k h;
}
  where
    modified :
        (r : ModifyRequest) (s t : World) (v : Values)
        → r.dn ≡ entry_dn x
        → s.0 (entry_dn x) ≡ some v
        → changed r s (s.0 r.dn) ≡ (ok tt, t)
        → t.0 (entry_dn x) ≡ some (replay r.changes v)
    modified r s t v named k h =
        ap (λ p. p.1.0 (entry_dn x)) (sym h ∙ ap (changed r s) (ap s.0 named ∙ k))
        ∙ put-same r.dn (entry_dn x) _ s named

    base : (wanted_search x).base_dn ≡ entry_dn x
    base = search_name x
      where
        search_name : (y : Entry) → (wanted_search y).base_dn ≡ entry_dn y
        search_name (organizational_unit ou) = refl
        search_name (group gr) = refl
        search_name (user u) = refl

    found :
        (s : World) (e : SearchEntry) (es : List SearchEntry)
        → reply (wanted_search x) (s.0 (wanted_search x).base_dn) ≡ some (e ∷ es)
        → (v : Values) × (s.0 (entry_dn x) ≡ some v) × Shows x e v
    found s e es h =
        let (v, is, shows, fit) = found-fits (wanted_search x) _ e es h in
        (v, ap s.0 (sym base) ∙ is, subst (λ y. Shows x y v) shows (shown-Shows x v fit))

-- The unit is there, with another description.
abbrev before : World
before = (
  (λ n.
      if n == "ou=teams,dc=example,dc=com"
      then some (λ a. if a == "description" then "Some teams" ∷ [] else [])
      else none),
  unset,
)

abbrev after : World
after =
    (create_or_update_entry server (λ a b. false) admin (organizational_unit unit_entry) before).1
