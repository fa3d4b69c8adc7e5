-- ===== src/FormalArgs.antt =====
-- rir/src/utils/FormalArgs.h: the formal arguments of a closure, read from the R list of formals
-- and the compiled default arguments of its function.
pub mod Laws
use rir.Prelude.{
  ℕ, suc, ◌+◌, Bool, true, false, ◌||◌, if◌then◌else◌, Option, none, some, List, [], ◌∷◌, ◌++◌,
  length,
}
use rir.Prelude.Eq.{Eq}

pub record FormalArgs {ℓ} (S : Type ℓ) : Type ℓ where
  pub names : List S
  pub default_args : List S
  pub has_default_args : Bool
  pub has_dots : Bool

-- What the code asks R about a formal argument, and the symbols it compares with.
pub record Formal {ℓ} (S : Type ℓ) : Type ℓ where
  pub tag : S
  pub car : S

module _ {ℓ} {S : Type ℓ} ⦃e : Eq S⦄ (dots_symbol missing_arg : S) where
  -- The loop of the constructor from the `i`-th formal on; `default_arg` is Function::defaultArg, as
  -- the container of the compiled argument. A failed assertion is `none`.
  unfoldable pub add_formals :
      (ℕ → Option S) → ℕ → List (Formal S) → FormalArgs S → Option (FormalArgs S)
  add_formals default_arg i [] a = some a
  add_formals default_arg i (f ∷ fs) a =
      let dots = a.has_dots || e.beq f.tag dots_symbol in
      let names = a.names ++ f.tag ∷ [] in
      let with_default = λ (arg : S). add_formals default_arg (suc i) fs (record {
        names = names;
        default_args = a.default_args ++ arg ∷ [];
        has_default_args = true;
        has_dots = dots;
      }) in
      let without = add_formals default_arg (suc i) fs (record {
        names = names;
        default_args = a.default_args ++ missing_arg ∷ [];
        has_default_args = a.has_default_args;
        has_dots = dots;
      }) in
      elim (default_arg i) [
        | some arg ↦ if e.beq f.car missing_arg then none else with_default arg
        | none ↦ if e.beq f.car missing_arg then without else none
      ]

  unfoldable pub new : (ℕ → Option S) → List (Formal S) → Option (FormalArgs S)
  new default_arg fs =
      add_formals default_arg 0 fs
        (record { names = []; default_args = []; has_default_args = false; has_dots = false })

  unfoldable pub nargs : FormalArgs S → ℕ
  nargs a = length a.names
