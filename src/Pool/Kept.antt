-- ===== src/Pool/Kept.antt =====
-- Every call on the constant pool keeps it well formed.
use rir.Prelude.{
  All-mono, ℕ, ◌<◌, ◌≡◌, refl, ap, sym, ◌∙◌, inl, inr, none, some, List, [], ◌∷◌, ◌++◌, length, set,
  arith, Option-cases, Bool-cases, eq_of_some, All, length-append, length-set, ltb,
}
use rir.Prelude.Eq.{Eq, nat_eq}
use rir.SmallMap.{scan}
use rir.SmallMap.Scan.{assoc, assoc-push, assoc-hit}
use rir.Pool.{
  Pool, Step, Steps, max_pool_idx, cp_pool_add, insert, make_space, patch, get_num, get_int,
  is_patchable,
}
use rir.Pool.Step.{inserts, makes_space, patches, gets_num, gets_int}
use rir.Pool.Steps.{done, more}
use rir.Pool.Stable.{
  IsFixed, IsPool, appended, IsFixed-make_space, IsFixed-patch, get_elem?-last, below,
}

module _ {ℓ} {S : Type ℓ} ⦃e : Eq S⦄ where
  -- A step that enters no value keeps the pool well formed if it keeps what is fixed.
  unlisted :
      (p q : Pool S)
      → q.contents ≡ p.contents
      → ((i : ℕ) (v : S) → IsFixed p i v → IsFixed q i v)
      → All (λ j. j < length q.cp) q.patchable
      → IsPool p
      → IsPool q
  unlisted p q c f r w = record {
    known = λ v i h. f i v (w.known v i (sym (ap (λ es. assoc es v) c) ∙ h));
    room = r;
  }

  longer : (p : Pool S) (x : S) → IsPool p → All (λ j. j < length (p.cp ++ x ∷ [])) p.patchable
  longer p x w =
      All-mono (length p.cp) (length (p.cp ++ x ∷ [])) p.patchable
        (omega (arith, length-append p.cp (x ∷ []))) w.room

  IsPool-make_space : (p : Pool S) (nil : S) → IsPool p → IsPool (make_space nil p).1
  unfolding make_space cp_pool_add
  IsPool-make_space p nil w =
      unlisted p _ refl (λ i v f. IsFixed-make_space p v nil i f)
        (omega (arith, length-append p.cp (nil ∷ [])), longer p nil w) w

  patch-set :
      (p q : Pool S) (x : S) (k : ℕ) → patch k x p ≡ some q → q ≡ record p { cp = set p.cp k x }
  unfolding patch
  patch-set p q x k = elim (Bool-cases (is_patchable p k)) [
    | inl on ↦ rw (on, patch) (λ h. sym (eq_of_some h))
    | inr off ↦ rw (off, patch) (λ h. absurd (cc))
  ]

  IsPool-patch : (p q : Pool S) (x : S) (k : ℕ) → patch k x p ≡ some q → IsPool p → IsPool q
  IsPool-patch p q x k h w =
      let shape = patch-set p q x k h in
      unlisted p q (ap (λ r. r.contents) shape) (λ i v f. IsFixed-patch p q v x i k h f)
        (rw (shape, length-set p.cp k x) w.room) w

  scan-none : (es : List (S × ℕ)) (v : S) → assoc es v ≡ none → scan es v ≡ none
  scan-none es v h = elim (Option-cases (scan es v)) [
    | inl q ↦ q
    | inr (i, q) ↦ let (r, given) = assoc-hit es v i q in absurd (cc (given, h))
  ]

  IsPool-insert : (p : Pool S) (x : S) → IsPool p → IsPool (insert x p).1
  unfolding insert cp_pool_add
  IsPool-insert p x w = elim (Option-cases (assoc p.contents x)) [
    | inr (j, old) ↦ rw (old, insert) w
    | inl new ↦ rw (new, insert) (record { known = listed new; room = longer p x w })
  ]
    where
      listed :
          assoc p.contents x ≡ none
          → (v : S) (i : ℕ) → assoc (p.contents ++ (x, length p.cp) ∷ []) v ≡ some i
          → IsFixed
              (record p { cp = p.cp ++ x ∷ []; contents = p.contents ++ (x, length p.cp) ∷ [] })
              i
              v
      listed new v i h =
          let found =
            sym (assoc-push p.contents x (length p.cp) v (scan-none p.contents x new)) ∙ h in
          elim (Bool-cases (e.beq x v)) [
            | inl same ↦
                let here : length p.cp ≡ i = eq_of_some (sym (rw same refl) ∙ found) in
                rw⁻¹ (here, (e.beq_iff x v).0 same)
                  (record {
                    at = get_elem?-last p.cp x;
                    fixed = below p.patchable (length p.cp) w.room;
                  })
            | inr other ↦ appended p _ v x i refl refl (w.known v i (sym (rw other refl) ∙ found))
          ]

  IsPool-get_num :
      (p q : Pool S) (x : S) (n k : ℕ) → get_num n x p ≡ some (k, q) → IsPool p → IsPool q
  unfolding get_num cp_pool_add
  IsPool-get_num p q x n k = elim (Option-cases (assoc p.numbers n)) [
    | inl new ↦ elim (Bool-cases (ltb (length p.cp) max_pool_idx)) [
      | inl on ↦
          rw (new, on, get_num)
            (λ h w.
              rw⁻¹ (ap (λ t. t.1) (eq_of_some h))
                (unlisted p _ refl (λ i v f. appended p _ v x i refl refl f) (longer p x w) w))
      | inr off ↦ rw (new, off, get_num) (λ h w. absurd (cc))
    ]
    | inr (j, old) ↦ rw (old, get_num) (λ h w. rw⁻¹ (ap (λ t. t.1) (eq_of_some h)) w)
  ]

  IsPool-get_int :
      (p q : Pool S) (x : S) (n k : ℕ) → get_int n x p ≡ some (k, q) → IsPool p → IsPool q
  unfolding get_int cp_pool_add
  IsPool-get_int p q x n k = elim (Option-cases (assoc p.ints n)) [
    | inl new ↦ elim (Bool-cases (ltb (length p.cp) max_pool_idx)) [
      | inl on ↦
          rw (new, on, get_int)
            (λ h w.
              rw⁻¹ (ap (λ t. t.1) (eq_of_some h))
                (unlisted p _ refl (λ i v f. appended p _ v x i refl refl f) (longer p x w) w))
      | inr off ↦ rw (new, off, get_int) (λ h w. absurd (cc))
    ]
    | inr (j, old) ↦ rw (old, get_int) (λ h w. rw⁻¹ (ap (λ t. t.1) (eq_of_some h)) w)
  ]

  IsPool-Step : (p q : Pool S) → Step p q → IsPool p → IsPool q
  IsPool-Step p q (inserts x r) w = IsPool-insert p x w
  IsPool-Step p q (makes_space nil r) w = IsPool-make_space p nil w
  IsPool-Step p q (patches k x r t h) w = IsPool-patch p q x k h w
  IsPool-Step p q (gets_num n k x r t h) w = IsPool-get_num p q x n k h w
  IsPool-Step p q (gets_int n k x r t h) w = IsPool-get_int p q x n k h w

  -- Any calls on a well-formed pool leave it well formed: what `insert` knows is at its index and
  -- not patchable, and only entries that exist are patchable.
  pub IsPool-Steps : (p q : Pool S) → Steps p q → IsPool p → IsPool q
  IsPool-Steps p q (done r) w = w
  IsPool-Steps p q (more r s t h hs) w = IsPool-Steps s q hs (IsPool-Step p s h w)
