-- ===== src/Verifier/Accepted.antt =====
-- rir/src/bc/CodeVerifier.cpp: what an instruction that passes all checks is like, said without the
-- check functions.
use rir.Prelude.{
  ℕ, ◌+◌, ◌-◌, ◌^◌, ◌%◌, ◌<◌, ◌≤◌, ◌≡◌, ◌≢◌, inl, inr, refl, sym, ◌∙◌, Bool, true, false, ◌||◌,
  some, List, [], ◌∷◌, zero, suc, ltb, ◌==◌, get_elem?, arith, ==_iff, Bool-cases, Option-cases,
  eq_of_some,
}
use rir.Bytecode.Decode.{Bc, jmp_target}
use rir.Verifier.{Verdict, ok, fail, Failure, check, end_code, ◌>>=◌}
use rir.Verifier.Run.{ok-neq-fail}
use rir.Verifier.Source.{get_src_idx_at}
use rir.Verifier.Checks.{
  Api, ConstantPool, CodeObject, has_sources, check_sources, check_branch, check_variable,
  check_binding, check_cached, check_clear_cache, check_names, check_call, push_promise,
  check_instruction, is_checked_branch, is_variable, is_cached, is_clear, is_promise, is_named_call,
}
use rir.Verifier.Checks.Sources.{required, not_needed}

-- The statements of a sequence that succeeds have all succeeded.
pub >>=-eq-ok {ℓ κ} :
    {V : Type ℓ} {W : Type κ} (v : Verdict V) (next : V → Verdict W) {y : W}
    → (v >>= next) ≡ ok y
    → (x : V) × (v ≡ ok x) × (next x ≡ ok y)
>>=-eq-ok (fail why) next h = absurd (ok-neq-fail (sym h))
>>=-eq-ok (ok x) next h = (x, refl, h)

pub check-eq-ok : (b : Bool) (e : Failure) {u : Unit {0}} → check b e ≡ ok u → b ≡ true
check-eq-ok true e h = refl
check-eq-ok false e h = absurd (ok-neq-fail (sym h))

module _ {ℓ} {S : Type ℓ} (api : Api S) (pool : ConstantPool S) (c : CodeObject) where
  -- An index of a symbol with a name, within the constant pool.
  pub record IsBinding (idx : ℕ) : Type 0 where
    pub within : idx < pool.length
    pub symbol : api.is_symbol (pool.at idx) ≡ true
    pub named : api.name_length (pool.at idx) ≢ 0

  -- The index of the source that is noted for an address.
  abbrev pub source_at : ℕ → ℕ
  source_at pc = get_src_idx_at c.srclist (pc - c.bytes.code)

  -- An instruction at an address as the verifier wants it: with a source where it needs one and none
  -- where it has no use for one, a branch that stays in the code or leads to its end, a variable
  -- that is a symbol with a name, cache places within the cache (where the sum of a range is one of
  -- 32 bits), a promise that is there, and argument names that are symbols or nil.
  pub record Accepted (pc : ℕ) (b : Bc) : Type 0 where
    pub sourced : has_sources b.bc ≡ required → source_at pc ≢ 0
    pub unsourced : has_sources b.bc ≡ not_needed → source_at pc ≡ 0
    pub target :
        is_checked_branch b.bc ≡ true
        → (c.bytes.code ≤ jmp_target pc b) × (jmp_target pc b ≤ end_code c.bytes)
    pub variable : is_variable b.bc ≡ true → IsBinding b.immediate.first
    pub cached :
        is_cached b.bc ≡ true
        → IsBinding b.immediate.first × (b.immediate.second < c.binding_cache_size)
    pub cleared :
        is_clear b.bc ≡ true
        → (b.immediate.first + b.immediate.second) % 2 ^ 32 ≤ c.binding_cache_size
    pub promised :
        is_promise b.bc ≡ true → (p : ℕ) × (get_elem? c.promises b.immediate.first ≡ some p)
    pub names :
        (i n : ℕ)
        → is_named_call b.bc ≡ true
        → get_elem? b.names i ≡ some n
        → n ≢ 0
        → (api.is_symbol (pool.at n) || api.is_nil (pool.at n)) ≡ true

  -- An instruction for which the check functions succeed, all of them.
  pub record Passed (pc : ℕ) (b : Bc) : Type 0 where
    pub sourced : check_sources api pool c pc b ≡ ok tt
    pub inside : check_branch api pool c pc b ≡ ok tt
    pub named : check_variable api pool c b ≡ ok tt
    pub cached : check_cached api pool c b ≡ ok tt
    pub cleared : check_clear_cache api pool c b ≡ ok tt
    pub called : check_call api pool c b ≡ ok tt

  pub check_instruction-Passed :
      (pc : ℕ) (b : Bc) (objs out : List ℕ)
      → check_instruction api pool c pc b objs ≡ ok out
      → Passed pc b × (push_promise api pool c b objs ≡ ok out)
  unfolding check_instruction
  check_instruction-Passed pc b objs out h =
      let (_, s, h₁) = >>=-eq-ok _ _ h in
      let (_, i, h₂) = >>=-eq-ok _ _ h₁ in
      let (_, n, h₃) = >>=-eq-ok _ _ h₂ in
      let (_, k, h₄) = >>=-eq-ok _ _ h₃ in
      let (_, l, h₅) = >>=-eq-ok _ _ h₄ in
      let (o, p, h₆) = >>=-eq-ok _ _ h₅ in
      let (_, d, h₇) = >>=-eq-ok _ _ h₆ in
      (record { sourced = s; inside = i; named = n; cached = k; cleared = l; called = d }, p ∙ h₇)

  check_binding-IsBinding : (idx : ℕ) → check_binding api pool c idx ≡ ok tt → IsBinding idx
  unfolding check_binding
  check_binding-IsBinding idx h =
      let (_, w, h₁) = >>=-eq-ok (check (ltb idx pool.length) _) _ h in
      let (_, s, n) = >>=-eq-ok (check (api.is_symbol (pool.at idx)) _) _ h₁ in
      record {
        within = ground (arith, check-eq-ok _ _ w);
        symbol = check-eq-ok _ _ s;
        named = λ e. cc (check-eq-ok _ _ n, (==_iff (api.name_length (pool.at idx)) 0).1 e);
      }

  names-all :
      (ns : List ℕ) (i n : ℕ)
      → check_names api pool c ns ≡ ok tt
      → get_elem? ns i ≡ some n
      → n ≢ 0
      → (api.is_symbol (pool.at n) || api.is_nil (pool.at n)) ≡ true
  unfolding check_names
  names-all [] i n h e z = cc
  names-all (m ∷ ns) zero n h e z =
      let same : m ≡ n = eq_of_some e in
      let other : (m == 0) ≡ false = ground (arith, z, same) in
      let (_, k, _) =
        >>=-eq-ok (check (api.is_symbol (pool.at m) || api.is_nil (pool.at m)) _) _
          (rw other at h) in
      cc (check-eq-ok _ _ k, same)
  names-all (m ∷ ns) (suc i) n h e z = elim (Bool-cases (m == 0)) [
    | inl y ↦ names-all ns i n (rw y at h) e z
    | inr y ↦
        let (_, _, k) =
          >>=-eq-ok (check (api.is_symbol (pool.at m) || api.is_nil (pool.at m)) _) _ (rw y at h) in
        names-all ns i n k e z
  ]

  promise-exists :
      (b : Bc) (objs out : List ℕ)
      → push_promise api pool c b objs ≡ ok out
      → is_promise b.bc ≡ true
      → (p : ℕ) × (get_elem? c.promises b.immediate.first ≡ some p)
  unfolding push_promise
  promise-exists b objs out h y = elim (Option-cases (get_elem? c.promises b.immediate.first)) [
    | inl n ↦ absurd (ok-neq-fail (sym (rw (y, n) at h)))
    | inr x ↦ x
  ]

  Passed-Accepted :
      (pc : ℕ) (b : Bc) (objs out : List ℕ)
      → Passed pc b
      → push_promise api pool c b objs ≡ ok out
      → Accepted pc b
  unfolding check_sources check_branch check_variable check_cached check_clear_cache check_call
  Passed-Accepted pc b objs out p h = record {
    sourced = λ r e.
        cc (check-eq-ok _ _ (rw (r, check_sources) at p.sourced), (==_iff (source_at pc) 0).1 e);
    unsourced =
        λ r. (==_iff (source_at pc) 0).0 (check-eq-ok _ _ (rw (r, check_sources) at p.sourced));
    target = λ t. ground (arith, check-eq-ok _ _ (rw t at p.inside));
    variable = λ v. check_binding-IsBinding b.immediate.first (rw v at p.named);
    cached = λ v.
        let (_, k, l) =
          >>=-eq-ok (check_binding api pool c b.immediate.first) _ (rw v at p.cached) in
        (check_binding-IsBinding b.immediate.first k, ground (arith, check-eq-ok _ _ l));
    cleared = λ v. ground (arith, check-eq-ok _ _ (rw v at p.cleared));
    promised = promise-exists b objs out h;
    names = λ i n v. names-all b.names i n (rw v at p.called);
  }

  pub check_instruction-Accepted :
      (pc : ℕ) (b : Bc) (objs out : List ℕ)
      → check_instruction api pool c pc b objs ≡ ok out
      → Accepted pc b
  check_instruction-Accepted pc b objs out h =
      let (p, k) = check_instruction-Passed pc b objs out h in Passed-Accepted pc b objs out p k
