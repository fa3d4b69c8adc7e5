-- ===== src/Verifier/Passes.antt =====
-- rir/src/bc/CodeVerifier.cpp: an instruction that is as the verifier wants it passes all checks.
use rir.Prelude.{
  ℕ, ◌+◌, ◌^◌, ◌%◌, ◌≡◌, ◌≢◌, ◌⊎◌, ◌↔◌, inl, inr, refl, true, false, ◌||◌, some, List, [], ◌∷◌, suc,
  leb, ltb, ◌==◌, get_elem?, arith, ==_iff, Bool-cases,
}
use rir.Bytecode.Decode.{Bc, jmp_target}
use rir.Verifier.{ok, end_code}
use rir.Verifier.Checks.{
  Api, ConstantPool, CodeObject, Sources, has_sources, check_sources, check_branch, check_variable,
  check_binding, check_cached, check_clear_cache, check_names, check_call, push_promise,
  check_instruction, is_checked_branch, is_variable, is_cached, is_clear, is_promise, is_named_call,
}
use rir.Verifier.Checks.Sources.{required, not_needed, may}
use rir.Verifier.Accepted.{IsBinding, Accepted, source_at, check_instruction-Accepted}

Sources-cases : (s : Sources) → (s ≡ required) ⊎ (s ≡ not_needed) ⊎ (s ≡ may)
Sources-cases required = inl refl
Sources-cases not_needed = inr (inl refl)
Sources-cases may = inr (inr refl)

module _ {ℓ} {S : Type ℓ} (api : Api S) (pool : ConstantPool S) (c : CodeObject) where
  sources-pass :
      (pc : ℕ) (b : Bc) → Accepted api pool c pc b → check_sources api pool c pc b ≡ ok tt
  unfolding check_sources
  sources-pass pc b v = elim (Sources-cases (has_sources b.bc)) [
    | inl r ↦
        let some_source : (source_at api pool c pc == 0) ≡ false = ground (arith, v.sourced r) in
        rw (r, some_source, check_sources) refl
    | inr (inl n) ↦ rw (n, v.unsourced n, check_sources) refl
    | inr (inr m) ↦ rw (m, check_sources) refl
  ]

  binding-passes : (idx : ℕ) → IsBinding api pool c idx → check_binding api pool c idx ≡ ok tt
  unfolding check_binding
  binding-passes idx v =
      let within : ltb idx pool.length ≡ true = ground (arith, v.within) in
      let named : (api.name_length (pool.at idx) == 0) ≡ false = ground (arith, v.named) in
      rw (within, v.symbol, named) refl

  names-pass :
      (ns : List ℕ)
      → ((i n : ℕ)
          → get_elem? ns i ≡ some n
          → n ≢ 0
          → (api.is_symbol (pool.at n) || api.is_nil (pool.at n)) ≡ true)
      → check_names api pool c ns ≡ ok tt
  unfolding check_names
  names-pass [] all = refl
  names-pass (m ∷ ns) all =
      let rest = names-pass ns (λ i n e z. all (suc i) n e z) in
      elim (Bool-cases (m == 0)) [
        | inl y ↦ rw y rest
        | inr y ↦ rw (y, all 0 m refl (λ e. cc (y, (==_iff m 0).1 e))) rest
      ]

  branch-passes :
      (pc : ℕ) (b : Bc) → Accepted api pool c pc b → check_branch api pool c pc b ≡ ok tt
  unfolding check_branch
  branch-passes pc b v = elim (Bool-cases (is_checked_branch b.bc)) [
    | inl y ↦
        let from : leb c.bytes.code (jmp_target pc b) ≡ true = ground (arith, (v.target y).0) in
        let to : leb (jmp_target pc b) (end_code c.bytes) ≡ true = ground (arith, (v.target y).1) in
        rw (y, from, to) refl
    | inr y ↦ rw y refl
  ]

  variable-passes :
      (pc : ℕ) (b : Bc) → Accepted api pool c pc b → check_variable api pool c b ≡ ok tt
  unfolding check_variable
  variable-passes pc b v = elim (Bool-cases (is_variable b.bc)) [
    | inl y ↦ rw y (binding-passes b.immediate.first (v.variable y))
    | inr y ↦ rw y refl
  ]

  cached-passes : (pc : ℕ) (b : Bc) → Accepted api pool c pc b → check_cached api pool c b ≡ ok tt
  unfolding check_cached
  cached-passes pc b v = elim (Bool-cases (is_cached b.bc)) [
    | inl y ↦
        let within : ltb b.immediate.second c.binding_cache_size ≡ true =
          ground (arith, (v.cached y).1) in
        rw (y, binding-passes b.immediate.first (v.cached y).0, within) refl
    | inr y ↦ rw y refl
  ]

  clear-passes :
      (pc : ℕ) (b : Bc) → Accepted api pool c pc b → check_clear_cache api pool c b ≡ ok tt
  unfolding check_clear_cache
  clear-passes pc b v = elim (Bool-cases (is_clear b.bc)) [
    | inl y ↦
        let within : leb ((b.immediate.first + b.immediate.second) % 2 ^ 32) c.binding_cache_size
            ≡ true =
          ground (arith, v.cleared y) in
        rw (y, within) refl
    | inr y ↦ rw y refl
  ]

  call-passes : (pc : ℕ) (b : Bc) → Accepted api pool c pc b → check_call api pool c b ≡ ok tt
  unfolding check_call
  call-passes pc b v = elim (Bool-cases (is_named_call b.bc)) [
    | inl y ↦ rw y (names-pass b.names (λ i n. v.names i n y))
    | inr y ↦ rw y refl
  ]

  promise-passes :
      (pc : ℕ) (b : Bc) (objs : List ℕ)
      → Accepted api pool c pc b
      → (out : List ℕ) × (push_promise api pool c b objs ≡ ok out)
  unfolding push_promise
  promise-passes pc b objs v = elim (Bool-cases (is_promise b.bc)) [
    | inl y ↦ let (p, e) = v.promised y in (p ∷ objs, rw (y, e) refl)
    | inr y ↦ (objs, rw y refl)
  ]

  -- The checks of one instruction succeed exactly if the instruction is as the verifier wants it.
  pub check_instruction_iff :
      (pc : ℕ) (b : Bc) (objs : List ℕ)
      → ((out : List ℕ) × (check_instruction api pool c pc b objs ≡ ok out))
        ↔ Accepted api pool c pc b
  unfolding check_instruction
  check_instruction_iff pc b objs = (
    λ (out, h). check_instruction-Accepted api pool c pc b objs out h,
    λ v.
        let (out, e) = promise-passes pc b objs v in
        (
          out,
          rw
              (
                sources-pass pc b v,
                branch-passes pc b v,
                variable-passes pc b v,
                cached-passes pc b v,
                clear-passes pc b v,
                e,
                call-passes pc b v,
              )
              refl,
        ),
  )
