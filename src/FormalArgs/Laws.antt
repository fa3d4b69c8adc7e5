-- ===== src/FormalArgs/Laws.antt =====
-- What the constructor of FormalArgs collects from the formals.
use rir.Prelude.{
  or_false, or_assoc, ℕ, suc, ◌≡◌, refl, ap, ◌∙◌, inl, inr, Bool, true, false, not, ◌||◌, Option,
  some, List, [], ◌∷◌, ◌++◌, map, Bool-cases, Option-cases, eq_of_some,
}
use rir.Prelude.Eq.{Eq}
use rir.Prelude.Distinct.{any}
use rir.FormalArgs.{FormalArgs, Formal, add_formals, new}

append_assoc {ℓ} : {A : Type ℓ} (xs ys zs : List A) → ((xs ++ ys) ++ zs) ≡ (xs ++ (ys ++ zs))
append_assoc [] ys zs = refl
append_assoc (x ∷ xs) ys zs = ap (◌∷◌ x) (append_assoc xs ys zs)

append_nil {ℓ} : {A : Type ℓ} (xs : List A) → xs ≡ (xs ++ [])
append_nil [] = refl
append_nil (x ∷ xs) = ap (◌∷◌ x) (append_nil xs)

or_true : (a b : Bool) → true ≡ (a || (true || b))
or_true true b = refl
or_true false b = refl

module _ {ℓ} {S : Type ℓ} ⦃e : Eq S⦄ (dots_symbol missing_arg : S) where
  -- What is collected behind what `a` has.
  pub record Collects (fs : List (Formal S)) (a b : FormalArgs S) : Type ℓ where
    pub names : b.names ≡ (a.names ++ map (λ f. f.tag) fs)
    pub dots : b.has_dots ≡ (a.has_dots || any (λ f. e.beq f.tag dots_symbol) fs)
    pub defaults :
        b.has_default_args ≡ (a.has_default_args || any (λ f. not (e.beq f.car missing_arg)) fs)

  add_formals_lem :
      (d : ℕ → Option S) (i : ℕ) (fs : List (Formal S)) (a b : FormalArgs S)
      → add_formals dots_symbol missing_arg d i fs a ≡ some b
      → Collects fs a b
  unfolding add_formals
  add_formals_lem d i [] a b = λ h. rw⁻¹ (eq_of_some h) (record {
    names = append_nil a.names;
    dots = or_false a.has_dots;
    defaults = or_false a.has_default_args;
  })
  add_formals_lem d i (f ∷ fs) a b = elim (Option-cases (d i)) [
    | inl absent ↦ elim (Bool-cases (e.beq f.car missing_arg)) [
      | inl on ↦
          rw (absent, on, add_formals)
            (λ h.
              let w = add_formals_lem d (suc i) fs _ b h in
              record {
                names = w.names ∙ append_assoc a.names (f.tag ∷ []) (map (λ g. g.tag) fs);
                dots =
                    w.dots
                    ∙ or_assoc a.has_dots (e.beq f.tag dots_symbol)
                        (any (λ g. e.beq g.tag dots_symbol) fs);
                defaults = w.defaults ∙ rw on;
              })
      | inr off ↦ rw (absent, off, add_formals) (λ h. absurd (cc))
    ]
    | inr (arg, given) ↦ elim (Bool-cases (e.beq f.car missing_arg)) [
      | inl on ↦ rw (given, on, add_formals) (λ h. absurd (cc))
      | inr off ↦
          rw (given, off, add_formals)
            (λ h.
              let w = add_formals_lem d (suc i) fs _ b h in
              record {
                names = w.names ∙ append_assoc a.names (f.tag ∷ []) (map (λ g. g.tag) fs);
                dots =
                    w.dots
                    ∙ or_assoc a.has_dots (e.beq f.tag dots_symbol)
                        (any (λ g. e.beq g.tag dots_symbol) fs);
                defaults =
                    w.defaults
                    ∙ rw off
                        (or_true a.has_default_args (any (λ g. not (e.beq g.car missing_arg)) fs));
              })
    ]
  ]

  -- Where the constructor passes its assertions, the names are the tags in order, there are dots
  -- exactly if some tag is the dots symbol, and default arguments exactly if some formal has one.
  pub new_lem :
      (d : ℕ → Option S) (fs : List (Formal S)) (b : FormalArgs S)
      → new dots_symbol missing_arg d fs ≡ some b
      → (b.names ≡ map (λ f. f.tag) fs)
        × (b.has_dots ≡ any (λ f. e.beq f.tag dots_symbol) fs)
        × (b.has_default_args ≡ any (λ f. not (e.beq f.car missing_arg)) fs)
  unfolding new
  new_lem d fs b h = let w = add_formals_lem d 0 fs _ b h in (w.names, w.dots, w.defaults)
