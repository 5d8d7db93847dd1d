-- ===== src/Baseline/Matched.antt =====
-- When the report matches the reviewed findings (scripts/check-govulncheck.go).
use tenderduty_nos.Prelude.{
  String, true, false, ◌≡◌, ◌↔◌, refl, sym, arith, if◌then◌else◌, [], ◌∷◌, lookup, has, str_eq,
  str_eq→eq, str_eq_refl, Bool-cases, inl, inr, got, subst,
}
use tenderduty_nos.Baseline.{Findings, difference, is_empty, exit_code}

-- Every finding of one set is in another.
pub IsWithin : Findings → Findings → Type 0
IsWithin left right = (id : String) → has id left ≡ true → has id right ≡ true

has-nil : (id : String) → has {V = Unit {0}} id [] ≡ false
unfolding has lookup
has-nil id = refl

has-cons :
    (id j : String) (u : Unit {0}) (m : Findings)
    → has id ((j, u) ∷ m) ≡ (if str_eq id j then true else has id m)
unfolding has lookup
has-cons id j u m = elim (Bool-cases (str_eq id j)) [
  | inl e ↦ rw (has, lookup, e) refl
  | inr e ↦ rw (has, lookup, e) refl
]

difference-IsWithin :
    (left right : Findings) → is_empty (difference left right) ≡ true → IsWithin left right
unfolding difference IsWithin
difference-IsWithin [] right h id m = absurd (ground (arith, m, has-nil id))
difference-IsWithin ((j, u) ∷ left) right h id m = elim (Bool-cases (has j right)) [
  | inr e ↦ absurd (ground (arith, h, e))
  | inl e ↦ elim (Bool-cases (str_eq id j)) [
    | inl f ↦ subst (λ k. has k right ≡ true) (sym (str_eq→eq id j f)) e
    | inr f ↦
        difference-IsWithin left right (ground (arith, h, e)) id
          (ground (arith, m, has-cons id j u left, f))
  ]
]

IsWithin-difference :
    (left right : Findings) → IsWithin left right → is_empty (difference left right) ≡ true
unfolding difference IsWithin
IsWithin-difference [] right w = refl
IsWithin-difference ((j, u) ∷ left) right w =
    let here = w j (ground (arith, has-cons j j u left, str_eq_refl j)) in
    let rest =
      IsWithin-difference left right (λ id m. w id (ground (arith, has-cons id j u left, m))) in
    ground (arith, here, rest)

-- The check passes exactly when the reviewed findings and the reported ones are the same.
pub exit_code_iff :
    (allowed found : Findings)
    → (exit_code (got allowed) (got found) ≡ 0) ↔ (IsWithin found allowed × IsWithin allowed found)
unfolding exit_code
exit_code_iff allowed found = (
  λ h. (
    difference-IsWithin found allowed (ground (arith, h)),
    difference-IsWithin allowed found (ground (arith, h)),
  ),
  λ (a, b).
      ground (arith, IsWithin-difference found allowed a, IsWithin-difference allowed found b),
)
