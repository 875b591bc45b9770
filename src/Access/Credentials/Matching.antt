-- ===== src/Access/Credentials/Matching.antt =====
-- pkg/accesspolicy/policy_cache.go: the loop over the credentials of an Access.
use kube_ssh.Base.{
  ℕ, zero, suc, ◌+◌, ◌≡◌, refl, sym, ap, subst, ◌∙◌, ◌⊎◌, inl, inr, some_inj, true, false, List, [],
  ◌∷◌, some, Result, ok, ◌>>=◌, >>=-eq-ok, ok_inj, get_elem?, if◌then◌else◌, In, arith, Bool-cases,
  Option-cases,
}
use kube_ssh.Text.{Str, elem}
use kube_ssh.Access.{Access, AccessCredential}
use kube_ssh.Access.Credentials.{CredentialMatch, matching_from, credential_match}

-- A credential has the secret among its values.
abbrev pub Holds : (AccessCredential → Result (List Str)) → Str → AccessCredential → Type 0
Holds values_of secret credential =
    (values : List Str) × (values_of credential ≡ ok values) × (elem secret values ≡ true)

module _ (values_of : AccessCredential → Result (List Str)) (secret : Str) where
  matching_from-cons :
      (k : ℕ) (c : AccessCredential) (cs : List AccessCredential) (is : List ℕ)
      → matching_from values_of secret k (c ∷ cs) ≡ ok is
      → (values : List Str) × (rest : List ℕ) × (values_of c ≡ ok values)
        × (matching_from values_of secret (suc k) cs ≡ ok rest)
        × (((elem secret values ≡ true) × (is ≡ k ∷ rest))
            ⊎ ((elem secret values ≡ false) × (is ≡ rest)))
  unfolding matching_from
  matching_from-cons k c cs is h =
      let (values, ev, h1) = >>=-eq-ok (values_of c) _ h in
      let (rest, er, h2) = >>=-eq-ok (matching_from values_of secret (suc k) cs) _ h1 in
      (values, rest, ev, er, split values rest (ok_inj h2))
    where
      split :
          (values : List Str) (rest : List ℕ)
          → (if elem secret values then k ∷ rest else rest) ≡ is
          → ((elem secret values ≡ true) × (is ≡ k ∷ rest))
            ⊎ ((elem secret values ≡ false) × (is ≡ rest))
      split values rest e = elim (Bool-cases (elem secret values)) [
        | inl found ↦ inl (found, ground arith)
        | inr lost ↦ inr (lost, ground arith)
      ]

  matching_from-Holds :
      (k : ℕ) (cs : List AccessCredential) (is : List ℕ) (j : ℕ)
      → matching_from values_of secret k cs ≡ ok is
      → In j is
      → (i : ℕ) × (d : AccessCredential) × (j ≡ k + i)
        × (get_elem? cs i ≡ some d)
        × Holds values_of secret d
  unfolding matching_from
  matching_from-Holds k [] is j h at = absurd (subst (In j) (sym (ok_inj h)) at)
  matching_from-Holds k (c ∷ cs) is j h at =
      let (values, rest, ev, er, e) = matching_from-cons k c cs is h in
      elim e [
        | inl (found, e) ↦ elim (subst (In j) e at) [
          | inl first ↦ (0, c, omega (arith, first), refl, (values, ev, found))
          | inr later ↦
              let (i, d, f, place, holds) = matching_from-Holds (suc k) cs rest j er later in
              (suc i, d, omega (arith, f), place, holds)
        ]
        | inr (lost, e) ↦
            let (i, d, f, place, holds) =
              matching_from-Holds (suc k) cs rest j er (subst (In j) e at) in
            (suc i, d, omega (arith, f), place, holds)
      ]

  matching_from-all :
      (k : ℕ) (cs : List AccessCredential) (is : List ℕ) (i : ℕ) (d : AccessCredential)
      → matching_from values_of secret k cs ≡ ok is
      → get_elem? cs i ≡ some d
      → Holds values_of secret d
      → In (k + i) is
  matching_from-all k [] is i d h place holds = cc
  matching_from-all k (c ∷ cs) is zero d h place (values, ev, found) =
      let (values', rest, ev', er, e) = matching_from-cons k c cs is h in
      elim e [
        | inl (at, e) ↦ subst (In (k + 0)) (sym e) (inl (omega arith))
        | inr (lost, e) ↦ absurd (
            clash values values' (ok_inj (sym ev' ∙ ap values_of (some_inj place) ∙ ev)) found lost)
      ]
    where
      clash :
          (values values' : List Str)
          → values' ≡ values
          → elem secret values ≡ true
          → elem secret values' ≡ false
          → ⊥
      clash values values' e f l = ground arith
  matching_from-all k (c ∷ cs) is (suc i) d h place holds =
      let (values, rest, ev, er, e) = matching_from-cons k c cs is h in
      let later : In (suc k + i) rest = matching_from-all (suc k) cs rest i d er place holds in
      let shifted : In (k + suc i) rest = subst (λ n. In n rest) (omega arith) later in
      elim e [
        | inl (found, e) ↦ subst (In (k + suc i)) (sym e) (inr shifted)
        | inr (lost, e) ↦ subst (In (k + suc i)) (sym e) shifted
      ]

  -- The credential that a match returns, and no other, has the secret.
  abbrev pub Only : Access → AccessCredential → Type 0
  Only a d =
      (i : ℕ) × (get_elem? a.spec.credentials i ≡ some d)
      × Holds values_of secret d
      × ((j : ℕ) (other : AccessCredential)
          → get_elem? a.spec.credentials j ≡ some other
          → Holds values_of secret other
          → j ≡ i)

  credential_match-single :
      (a : Access) (is : List ℕ) (m : CredentialMatch)
      → credential_match a is ≡ ok m
      → (m.access ≡ a)
        × (i : ℕ) × (is ≡ i ∷ [])
        × (get_elem? a.spec.credentials i ≡ some m.credential)
  unfolding credential_match
  credential_match-single a [] m h = cc
  credential_match-single a (i ∷ []) m h = elim (Option-cases (get_elem? a.spec.credentials i)) [
    | inl n ↦ ground arith
    | inr (d, e) ↦ (ground arith, i, refl, ground arith)
  ]
  credential_match-single a (i ∷ j ∷ more) m h = cc

  pub credentials-Only :
      (a : Access) (m : CredentialMatch)
      → (matching_from values_of secret 0 a.spec.credentials >>= credential_match a) ≡ ok m
      → (m.access ≡ a) × Only a m.credential
  credentials-Only a m h =
      let (is, e, h1) = >>=-eq-ok (matching_from values_of secret 0 a.spec.credentials) _ h in
      let (same, i, single, place) = credential_match-single a is m h1 in
      let (i', d, at, place', holds) =
        matching_from-Holds 0 a.spec.credentials is i e (subst (In i) (sym single) (inl refl)) in
      let here : i' ≡ i = omega (arith, at) in
      let this : d ≡ m.credential =
        some_inj (sym place' ∙ ap (get_elem? a.spec.credentials) here ∙ place) in
      (
        same,
        (
          i,
          place,
          subst (Holds values_of secret) this holds,
          λ j other placed its. only j i (
              subst (In (0 + j)) single
                (matching_from-all 0 a.spec.credentials is j other e placed its)),
        ),
      )
    where
      only : (j i : ℕ) → In (0 + j) (i ∷ []) → j ≡ i
      only j i (inl e) = omega (arith, e)
      only j i (inr e) = elim e [ ]
