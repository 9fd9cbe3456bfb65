-- ===== src/Go/Strings/Pieces.antt =====
-- `Join` after `Split`, and when a replacement can be undone.
use Prim.Native.Char.{Char, code}
use text.Mathlib.TextLemmas.{
  cons-append, nil-append, append_cancel_left, head-eq_of_cons-eq, tail-eq_of_cons-eq, nil≢cons,
}
use mathlib.Core.Path.{ap₂}
use text.Mathlib.TextEquality.{Char-path}
use openldap_operator.Base.{
  ℕ, String, ◌<>◌, ◌≡◌, ◌≢◌, inl, inr, refl, sym, ap, ◌∙◌, true, false, List, [], ◌∷◌, arith,
  nat_eq, Bool-cases,
}
use openldap_operator.Go.Strings.{replace_all, grow, split, join}

split-cons : (s : String) (sep : ℕ) → (p : String) × (ps : List String) × (split s sep ≡ p ∷ ps)
unfolding split
split-cons String.[] sep = ("", [], refl)
split-cons (String.◌∷◌ c s) sep = elim (Bool-cases (nat_eq (code c) sep)) [
  | inl e ↦ ("", split s sep, rw (e, split))
  | inr e ↦ let (p, ps, q) = split-cons s sep in (String.◌∷◌ c p, ps, rw (e, q, split))
]

join-grow :
    (c : Char) (ps : List String) (sep : String) → join (grow c ps) sep ≡ String.◌∷◌ c (join ps sep)
unfolding join grow
join-grow c [] sep = refl
join-grow c (p ∷ []) sep = refl
join-grow c (p ∷ q ∷ ps) sep = cons-append c p _

join-nil-cons :
    (p : String) (ps : List String) (sep : String)
    → join ("" ∷ p ∷ ps) sep ≡ sep <> join (p ∷ ps) sep
unfolding join
join-nil-cons p ps sep = nil-append _

one-append : (c : Char) (s : String) → String.◌∷◌ c "" <> s ≡ String.◌∷◌ c s
one-append c s = cons-append c "" s ∙ ap (String.◌∷◌ c) (nil-append s)

-- Joining what a split gave, with another separator, is the replacement of the separator.
pub join-split :
    (s : String) (sep : ℕ) (new : String) → join (split s sep) new ≡ replace_all s sep new
unfolding split replace_all join
join-split String.[] sep new = refl
join-split (String.◌∷◌ c s) sep new = elim (Bool-cases (nat_eq (code c) sep)) [
  | inl e ↦
      let (p, ps, q) = split-cons s sep in
      rw (e, split)
        ((ap (λ l. join ("" ∷ l) new) q
            ∙ join-nil-cons p ps new
            ∙ ap (λ l. new <> join l new) (sym q))
          ∙ ap (λ t. new <> t) (join-split s sep new))
  | inr e ↦
      rw (e, split)
        (join-grow c (split s sep) new
          ∙ ap (String.◌∷◌ c) (join-split s sep new)
          ∙ sym (one-append c _))
]

-- No character of the text is `k`.
abbrev pub Avoids : ℕ → String → Type 0
Avoids k String.[] = Unit {0}
Avoids k (String.◌∷◌ c s) = (code c ≢ k) × Avoids k s

-- What a text turns into for each character, when a separator is replaced.
replace_all-hit :
    (c : Char) (s : String) (sep : ℕ) (new : String)
    → nat_eq (code c) sep ≡ true
    → replace_all (String.◌∷◌ c s) sep new ≡ new <> replace_all s sep new
unfolding replace_all
replace_all-hit c s sep new e = rw (e, replace_all)

replace_all-miss :
    (c : Char) (s : String) (sep : ℕ) (new : String)
    → nat_eq (code c) sep ≡ false
    → replace_all (String.◌∷◌ c s) sep new ≡ String.◌∷◌ c (replace_all s sep new)
unfolding replace_all
replace_all-miss c s sep new e = rw (e, replace_all) (one-append c _)

-- A replaced separator and a kept character begin differently.
hit-miss :
    (c d : Char) (s t : String) (sep : ℕ) (m : Char) (new : String)
    → nat_eq (code c) sep ≡ true
    → nat_eq (code d) sep ≡ false
    → code d ≢ code m
    → replace_all (String.◌∷◌ c s) sep (String.◌∷◌ m new)
      ≢ replace_all (String.◌∷◌ d t) sep (String.◌∷◌ m new)
hit-miss c d s t sep m new e e' ne h = ne (
    ap code (
      sym (
        head-eq_of_cons-eq (
          sym (cons-append m new _)
          ∙ sym (replace_all-hit c s sep _ e)
          ∙ h
          ∙ replace_all-miss d t sep _ e'))))

-- A replacement that begins with a character which the texts avoid can be undone.
pub replace_all-injective :
    (s t : String) (sep : ℕ) (m : Char) (new : String)
    → Avoids (code m) s
    → Avoids (code m) t
    → replace_all s sep (String.◌∷◌ m new) ≡ replace_all t sep (String.◌∷◌ m new)
    → s ≡ t
unfolding replace_all
replace_all-injective String.[] String.[] sep m new hs ht h = refl
replace_all-injective String.[] (String.◌∷◌ d t) sep m new hs ht h =
    elim (Bool-cases (nat_eq (code d) sep)) [
      | inl e ↦ absurd (nil≢cons (h ∙ replace_all-hit d t sep _ e ∙ cons-append m new _))
      | inr e ↦ absurd (nil≢cons (h ∙ replace_all-miss d t sep _ e))
    ]
replace_all-injective (String.◌∷◌ c s) String.[] sep m new hs ht h =
    elim (Bool-cases (nat_eq (code c) sep)) [
      | inl e ↦ absurd (nil≢cons (sym h ∙ replace_all-hit c s sep _ e ∙ cons-append m new _))
      | inr e ↦ absurd (nil≢cons (sym h ∙ replace_all-miss c s sep _ e))
    ]
replace_all-injective (String.◌∷◌ c s) (String.◌∷◌ d t) sep m new hs ht h =
    elim (Bool-cases (nat_eq (code c) sep)) [
      | inl e ↦ elim (Bool-cases (nat_eq (code d) sep)) [
        | inl e' ↦
            let rest = replace_all-injective s t sep m new hs.1 ht.1 in
            ap₂ String.◌∷◌ (Char-path c d (ground arith)) (
              rest (
                append_cancel_left (String.◌∷◌ m new) _ _
                  (sym (replace_all-hit c s sep _ e) ∙ h ∙ replace_all-hit d t sep _ e')))
        | inr e' ↦ absurd (hit-miss c d s t sep m new e e' ht.0 h)
      ]
      | inr e ↦ elim (Bool-cases (nat_eq (code d) sep)) [
        | inl e' ↦ absurd (hit-miss d c t s sep m new e' e hs.0 (sym h))
        | inr e' ↦
            let both = sym (replace_all-miss c s sep _ e) ∙ h ∙ replace_all-miss d t sep _ e' in
            ap₂ String.◌∷◌ (head-eq_of_cons-eq both)
              (replace_all-injective s t sep m new hs.1 ht.1 (tail-eq_of_cons-eq both))
      ]
    ]
