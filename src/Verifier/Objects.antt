-- ===== src/Verifier/Objects.antt =====
-- rir/src/bc/CodeVerifier.cpp, `verifyFunctionLayout`: the work list of code objects. All parts of
-- a function that passes are verified, and the work list runs empty.
use mathlib.Core.Path.{subst}
use rir.Prelude.{
  ℕ, zero, suc, ◌+◌, ◌<◌, ◌^◌, ◌≡◌, inl, inr, refl, sym, ap, ◌∙◌, true, Option, none, some, List,
  [], ◌∷◌, get_elem?, leb, eq_of_some,
}
use rir.Bytecode.Decode.{Bc, decode}
use rir.Verifier.{ok, check}
use rir.Verifier.Failure.{invalid_type, bad_size}
use rir.Verifier.Run.{ok-neq-fail}
use rir.Verifier.Sound.{Runs, IsSafe, PopsFit, verified_run}
use rir.Verifier.Checks.{ConstantPool, Api, CodeObject, is_promise}
use rir.Verifier.Layout.{
  FunctionObject, verify_code, verify_objects, push_defaults, verify_function_layout,
}
use rir.Verifier.Accepted.{>>=-eq-ok}
use rir.Verifier.Whole.{Member, Sweep, Verified, verify_code_lem}

-- The code objects of a function: its body, its default arguments, and the promises that the
-- instructions of these make.
pub data Part (heap : ℕ → CodeObject) (f : FunctionObject) : ℕ → Type 0 where
  body : Part heap f f.body
  default_arg : (i a : ℕ) → get_elem? f.default_args i ≡ some (some a) → Part heap f a
  promise :
      {o : ℕ} (pc p : ℕ) (b : Bc)
      → Part heap f o
      → Sweep (heap o).bytes (heap o).bytes.code pc
      → decode (heap o).bytes.memory pc ≡ some b
      → is_promise b.bc ≡ true
      → get_elem? (heap o).promises b.immediate.first ≡ some p
      → Part heap f p

push_defaults-kept :
    (args : List (Option ℕ)) (objs : List ℕ) (o : ℕ)
    → Member o objs
    → Member o (push_defaults args objs)
unfolding push_defaults
push_defaults-kept [] objs o m = m
push_defaults-kept (none ∷ args) objs o m = push_defaults-kept args objs o m
push_defaults-kept (some a ∷ args) objs o m = push_defaults-kept args (a ∷ objs) o (inr m)

push_defaults-Member :
    (args : List (Option ℕ)) (objs : List ℕ) (i a : ℕ)
    → get_elem? args i ≡ some (some a)
    → Member a (push_defaults args objs)
unfolding push_defaults
push_defaults-Member [] objs i a e = cc
push_defaults-Member (none ∷ args) objs zero a e = cc
push_defaults-Member (some b ∷ args) objs zero a e =
    push_defaults-kept args (b ∷ objs) a (inl (eq_of_some (eq_of_some (sym e))))
push_defaults-Member (none ∷ args) objs (suc i) a e = push_defaults-Member args objs i a e
push_defaults-Member (some b ∷ args) objs (suc i) a e = push_defaults-Member args (b ∷ objs) i a e

module _ {ℓ} {S : Type ℓ} (api : Api S) (pool : ConstantPool S) (heap : ℕ → CodeObject) where
  -- A code object that comes to its turn, with the rest of the work list behind it.
  record Done (o : ℕ) : Type ℓ where
    out : List ℕ
    verified : Verified api pool (heap o) out
    rounds : ℕ
    finished : verify_objects api pool heap rounds out ≡ ok tt

  verify_objects-Done :
      (n : ℕ) (objs : List ℕ) (o : ℕ)
      → verify_objects api pool heap n objs ≡ ok tt
      → Member o objs
      → Done o
  unfolding verify_objects
  verify_objects-Done zero objs o h m = absurd (ok-neq-fail (sym h))
  verify_objects-Done (suc n) [] o h m = absurd m
  verify_objects-Done (suc n) (q ∷ objs) o h m =
      let (out, e, h') = >>=-eq-ok (verify_code api pool (heap q) objs) _ h in
      let (v, kept) = verify_code_lem api pool (heap q) objs out e in
      elim m [
        | inl s ↦ subst Done (sym s) (record { out = out; verified = v; rounds = n; finished = h' })
        | inr m' ↦ verify_objects-Done n out o h' (kept o m')
      ]

  Part-Done :
      (n : ℕ) (f : FunctionObject) {o : ℕ}
      → verify_objects api pool heap n (push_defaults f.default_args (f.body ∷ [])) ≡ ok tt
      → Part heap f o
      → Done o
  Part-Done n f h body =
      verify_objects-Done n _ f.body h
        (push_defaults-kept f.default_args (f.body ∷ []) f.body (inl refl))
  Part-Done n f h (default_arg i a e) =
      verify_objects-Done n _ a h (push_defaults-Member f.default_args (f.body ∷ []) i a e)
  Part-Done n f h (promise {o} pc p b part s d y e) =
      let done = Part-Done n f h part in
      let x = done.verified.scanned pc s in
      let same : b ≡ x.b = eq_of_some (sym d ∙ x.decoded) in
      verify_objects-Done done.rounds done.out p done.finished (
        x.promised p (ap (λ y. is_promise y.bc) (sym same) ∙ y)
          (ap (λ y. get_elem? (heap o).promises y.immediate.first) (sym same) ∙ e))

  layout-Done :
      (n : ℕ) (f : FunctionObject) {o : ℕ}
      → verify_function_layout api pool heap n f ≡ ok tt
      → Part heap f o
      → Done o
  unfolding verify_function_layout
  layout-Done n f h part =
      let (_, _, h₁) = >>=-eq-ok (check f.is_external invalid_type) _ h in
      let (_, _, h₂) = >>=-eq-ok (check (leb f.size f.xlength) bad_size) _ h₁ in
      Part-Done n f h₂ part

  -- In a function that passes, each part has an acceptable header, reports the stack length that its
  -- code needs, and its instructions, read one behind the other, are as `Accepted` describes them.
  pub Part-Verified :
      (n : ℕ) (f : FunctionObject) {o : ℕ}
      → verify_function_layout api pool heap n f ≡ ok tt
      → Part heap f o
      → (out : List ℕ) × Verified api pool (heap o) out
  Part-Verified n f h part = let done = layout-Done n f h part in (done.out, done.verified)

  -- In a function that passes, every run of each part is safe within the stack length that the part
  -- reports, if that is below 2^31 - 4 and no instruction within the part pops 2^31 values or more.
  pub Part-run :
      (n : ℕ) (f : FunctionObject) {o pc h : ℕ}
      → verify_function_layout api pool heap n f ≡ ok tt
      → Part heap f o
      → (heap o).stack_length + 4 < 2 ^ 31
      → PopsFit (heap o).bytes
      → Runs (heap o).bytes pc h
      → IsSafe (heap o).bytes (heap o).stack_length pc h
  Part-run n f {o} h part room fit r =
      let done = layout-Done n f h part in
      verified_run (heap o).bytes (heap o).stack_length done.verified.heights room fit r
