-- ===== src/Verifier/Run.antt =====
-- rir/src/bc/CodeVerifier.cpp: what a round of the inner loop of `calculateAndVerifyStack` did.
use mathlib.Core.Path.{subst}
use rir.Prelude.{
  ==_iff, ℕ, ◌+◌, ◌<◌, ◌≡◌, ◌≢◌, ◌⊎◌, inl, inr, refl, sym, true, false, some, ◌∷◌, ◌==◌,
  if◌then◌else◌, arith, Bool-cases, Option-cases,
}
use rir.Bytecode.{fixed_size}
use rir.Bytecode.Decode.{Bc, decode, size, pushes, is_exit, is_jmp, is_cond_jmp, is_uncond_jmp}
use rir.Verifier.{
  Code, State, Search, Verdict, ok, fail, Failure, Next, go_on, leave, after_pops, advance,
  update_max, inside, branch, decode_at, round, add_int, is_negative, push_target,
}
use rir.Verifier.Failure.{out_of_fuel}

pub Verdict-cases {ℓ} :
    {V : Type ℓ} (v : Verdict V) → ((x : V) × (v ≡ ok x)) ⊎ ((why : Failure) × (v ≡ fail why))
Verdict-cases (fail why) = inr (why, refl)
Verdict-cases (ok x) = inl (x, refl)

pub eq_of_ok {ℓ} : {A : Type ℓ} {a b : A} → ok a ≡ ok b → a ≡ b
eq_of_ok p = cc p

pub eq_of_fail {ℓ} : {A : Type ℓ} {f g : Failure} → ◌≡◌ {A = Verdict A} (fail f) (fail g) → f ≡ g
eq_of_fail p = cc p

pub ok-neq-fail {ℓ} : {A : Type ℓ} {a : A} {f : Failure} → ok a ≢ fail f
ok-neq-fail = λ h. cc

-- A round that did not fail: the instruction, the height behind its pops, and the end of the round.
pub record Ran (c : Code) (i : State) (s : Search) (r : Next) : Type 0 where
  pub b : Bc
  pub o : ℕ
  pub within : inside c i.pc ≡ true
  pub decoded : decode c.memory i.pc ≡ some b
  pub popped : after_pops b i.ostack ≡ ok o
  pub enough : is_negative o ≡ false
  pub ended :
      branch b i.pc
        (record { pc = i.pc + size b; ostack = add_int o (pushes b) })
        (record s {
          state = (i.pc, i.ostack) ∷ s.state;
          max = update_max s.max (add_int o (pushes b));
        })
      ≡ ok r

module _ (c : Code) where
  pub round-Ran : (i : State) (s : Search) (r : Next) → round c i s ≡ ok r → Ran c i s r
  unfolding round decode_at advance decode
  round-Ran i s r h = elim (Bool-cases (inside c i.pc)) [
    | inr n ↦ absurd (ok-neq-fail (sym (rw n at h)))
    | inl y ↦ elim (Option-cases (decode c.memory i.pc)) [
      | inl n ↦ absurd (ok-neq-fail (sym (rw (y, n) at h)))
      | inr (b, d) ↦ elim (Verdict-cases (after_pops b i.ostack)) [
        | inr (f, n) ↦ absurd (ok-neq-fail (sym (rw (y, d, n) at h)))
        | inl (o, p) ↦ elim (Bool-cases (is_negative o)) [
          | inl n ↦ absurd (ok-neq-fail (sym (rw (y, d, p, n) at h)))
          | inr e ↦ record {
            b = b;
            o = o;
            within = y;
            decoded = d;
            popped = p;
            enough = e;
            ended = rw (y, d, p, e) at h;
          }
        ]
      ]
    ]
  ]

-- How a round ends: it goes on behind an instruction that is neither an exit nor a jump without a
-- condition, and it leaves behind those.
abbrev pub Ended : Bc → ℕ → State → Search → Next → Type 0
Ended b pc i s (go_on i' s') =
    (is_exit b.bc ≡ false)
    × (is_uncond_jmp b.bc ≡ false)
    × (i' ≡ i)
    × (s' ≡ (if is_jmp b.bc then push_target i pc b s else s))
Ended b pc i s (leave s') =
    ((is_exit b.bc ≡ true) × (i.ostack ≡ 0) × (s' ≡ s))
    ⊎ ((is_exit b.bc ≡ false) × (is_uncond_jmp b.bc ≡ true) × (s' ≡ push_target i pc b s))

pub branch-Ended :
    (b : Bc) (pc : ℕ) (i : State) (s : Search) (r : Next)
    → branch b pc i s ≡ ok r
    → Ended b pc i s r
unfolding branch
branch-Ended b pc i s r h = elim (Bool-cases (is_exit b.bc)) [
  | inl e ↦ elim (Bool-cases (i.ostack == 0)) [
    | inl z ↦
        subst (Ended b pc i s) (eq_of_ok (rw (e, z) at h)) (inl (e, (==_iff i.ostack 0).0 z, refl))
    | inr z ↦ absurd (ok-neq-fail (sym (rw (e, z) at h)))
  ]
  | inr e ↦ elim (Bool-cases (is_uncond_jmp b.bc)) [
    | inl u ↦ subst (Ended b pc i s) (eq_of_ok (rw (e, u) at h)) (inr (e, u, refl))
    | inr u ↦ elim (Bool-cases (is_cond_jmp b.bc)) [
      | inl j ↦ subst (Ended b pc i s) (eq_of_ok (rw (e, u, j) at h)) (e, u, refl, rw j refl)
      | inr j ↦ subst (Ended b pc i s) (eq_of_ok (rw (e, u, j) at h)) (e, u, refl, rw (j, u) refl)
    ]
  ]
]

module _ (c : Code) where
  -- A round never reports that fuel is missing.
  pub round_reports : (i : State) (s : Search) → round c i s ≢ fail out_of_fuel
  unfolding round decode_at advance after_pops branch
  round_reports i s h = ground arith

pub size_pos : (b : Bc) → 0 < size b
unfolding size fixed_size
size_pos b = ground arith
