-- ===== src/Verifier/Closed.antt =====
-- rir/src/bc/CodeVerifier.cpp: what `calculateAndVerifyStack` keeps true. Every height that it noted
-- at an address was checked there, and the heights that follow from it are noted or on the work list.
use mathlib.Core.Path.{subst}
use mathlib.Core.Logic.{⊎_elim}
use rir.Prelude.{
  ℕ, ◌+◌, ◌≤◌, ◌<◌, ◌≡◌, ◌⊎◌, inl, inr, sym, true, false, some, List, [], ◌∷◌, ltb, leb, ◌==◌,
  arith, Bool-cases, eq_of_some, ==_iff, ltb→lt, ◌^◌, ◌++◌,
}
use rir.Bytecode.Decode.{Bc, decode, size, pushes, is_exit, is_jmp, is_uncond_jmp, jmp_target}
use rir.Verifier.{
  Code, State, Search, ok, inside, find, after_pops, add_int, is_negative, update_max, greater,
  biased,
}

-- A height at an address, among those noted and on the work list.
abbrev pub Noted : List (ℕ × ℕ) → ℕ → ℕ → Type 0
Noted [] pc h = ⊥
Noted ((p, o) ∷ m) pc h = ((p ≡ pc) × (o ≡ h)) ⊎ Noted m pc h

abbrev pub Waiting : List State → ℕ → ℕ → Type 0
Waiting [] pc h = ⊥
Waiting (i ∷ q) pc h = ((i.pc ≡ pc) × (i.ostack ≡ h)) ⊎ Waiting q pc h

abbrev pub Known : Search → ℕ → ℕ → Type 0
Known s pc h = Noted s.state pc h ⊎ Waiting s.q pc h

-- What the check of a height at an address has shown, where `K` holds of the heights that are known
-- and `max` is the greatest so far.
pub record Checked (c : Code) (K : ℕ → ℕ → Type 0) (max : ℕ) (pc h : ℕ) : Type 0 where
  pub b : Bc
  pub o : ℕ
  pub within : inside c pc ≡ true
  pub decoded : decode c.memory pc ≡ some b
  pub popped : after_pops b h ≡ ok o
  pub enough : is_negative o ≡ false
  pub bounded : biased (add_int o (pushes b)) ≤ biased max
  pub clear : is_exit b.bc ≡ true → add_int o (pushes b) ≡ 0
  pub falls :
      is_exit b.bc ≡ false → is_uncond_jmp b.bc ≡ false → K (pc + size b) (add_int o (pushes b))
  pub jumps : is_exit b.bc ≡ false → is_jmp b.bc ≡ true → K (jmp_target pc b) (add_int o (pushes b))

pub Checked-mono :
    {c : Code} {K L : ℕ → ℕ → Type 0} {m n pc h : ℕ}
    → ((p o : ℕ) → K p o → L p o)
    → biased m ≤ biased n
    → Checked c K m pc h
    → Checked c L n pc h
Checked-mono f le k = record {
  b = k.b;
  o = k.o;
  within = k.within;
  decoded = k.decoded;
  popped = k.popped;
  enough = k.enough;
  bounded = omega (arith, k.bounded, le);
  clear = k.clear;
  falls = λ e u. f _ _ (k.falls e u);
  jumps = λ e j. f _ _ (k.jumps e j);
}

pub le_of_ltb : (a b : ℕ) → ltb a b ≡ false → b ≤ a
le_of_ltb a b h = ground arith

pub le_of_leb : (a b : ℕ) → leb a b ≡ false → b < a
le_of_leb a b h = ground arith

pub leb_of_lt : (a b : ℕ) → b < a → leb a b ≡ false
leb_of_lt a b h = ground arith

pub ltb_small :
    (m o : ℕ) → is_negative m ≡ false → o < 2 ^ 32 → biased m < biased o → is_negative o ≡ false
ltb_small m o h l g = leb_of_lt (2 ^ 31) o (omega (arith, le_of_leb (2 ^ 31) m h))

pub update_max-ge :
    (m o : ℕ) → (biased m ≤ biased (update_max m o)) × (biased o ≤ biased (update_max m o))
unfolding update_max greater
update_max-ge m o = elim (Bool-cases (ltb (biased m) (biased o))) [
  | inl y ↦ rw y (omega (arith, ltb→lt _ _ y), omega arith)
  | inr n ↦ rw n (omega arith, le_of_ltb (biased m) (biased o) n)
]

pub update_max-small :
    (m o : ℕ) → is_negative m ≡ false → o < 2 ^ 32 → is_negative (update_max m o) ≡ false
unfolding update_max greater
update_max-small m o h l = elim (Bool-cases (ltb (biased m) (biased o))) [
  | inl y ↦ rw y (ltb_small m o h l (ltb→lt _ _ y))
  | inr n ↦ rw n h
]

pub find-Noted : (m : List (ℕ × ℕ)) (pc h : ℕ) → find pc m ≡ some h → Noted m pc h
unfolding find
find-Noted [] pc h e = cc
find-Noted ((p, o) ∷ m) pc h e = elim (Bool-cases (pc == p)) [
  | inl y ↦ inl (sym ((==_iff pc p).0 y), eq_of_some (rw y at e))
  | inr n ↦ inr (find-Noted m pc h (rw n at e))
]

module _ (c : Code) where
  pub record Inv (s : Search) : Type 0 where
    pub checked : (pc h : ℕ) → Noted s.state pc h → Checked c (Known s) s.max pc h
    pub entry : Known s c.code 0
    pub small : is_negative s.max ≡ false

  -- The search with a state put back on the work list.
  abbrev pub with_state : State → Search → Search
  with_state i s = record s { q = i ∷ s.q }

  -- A change of the search that loses no height and does not lower the greatest.
  pub Inv-mono :
      (s t : Search)
      → ((p o : ℕ) → Known s p o → Known t p o)
      → biased s.max ≤ biased t.max
      → is_negative t.max ≡ false
      → ((pc h : ℕ) → Noted t.state pc h → Noted s.state pc h ⊎ Checked c (Known t) t.max pc h)
      → Inv s
      → Inv t
  Inv-mono s t f le n new v = record {
    checked =
        λ pc h k. ⊎_elim (λ old. Checked-mono f le (v.checked pc h old)) (λ x. x) (new pc h k);
    entry = f c.code 0 v.entry;
    small = n;
  }

  pub Waiting-append :
      (xs ys : List State) (p o : ℕ) → Waiting xs p o ⊎ Waiting ys p o → Waiting (xs ++ ys) p o
  Waiting-append [] ys p o (inl h) = absurd h
  Waiting-append [] ys p o (inr h) = h
  Waiting-append (x ∷ xs) ys p o (inl (inl h)) = inl h
  Waiting-append (x ∷ xs) ys p o (inl (inr h)) = inr (Waiting-append xs ys p o (inl h))
  Waiting-append (x ∷ xs) ys p o (inr h) = inr (Waiting-append xs ys p o (inr h))

  -- The search behind a round that put `extra` on the work list.
  abbrev pub behind : State → Search → ℕ → List State → Search
  behind i s n extra = record {
    max = update_max s.max n;
    state = (i.pc, i.ostack) ∷ s.state;
    q = extra ++ s.q;
  }

  pub Known-behind :
      (i : State) (s : Search) (n : ℕ) (extra : List State) (p o : ℕ)
      → Known (with_state i s) p o
      → Known (behind i s n extra) p o
  Known-behind i s n extra p o (inl h) = inl (inr h)
  Known-behind i s n extra p o (inr (inl h)) = inl (inl h)
  Known-behind i s n extra p o (inr (inr h)) = inr (Waiting-append extra s.q p o (inr h))

  pub behind-Inv :
      (i : State) (s : Search) (n : ℕ) (extra : List State)
      → n < 2 ^ 32
      → Checked c (Waiting extra) n i.pc i.ostack
      → Inv (with_state i s)
      → Inv (behind i s n extra)
  behind-Inv i s n extra small k v =
      let (old, new) = update_max-ge s.max n in
      Inv-mono (with_state i s) (behind i s n extra) (Known-behind i s n extra) old
        (update_max-small s.max n v.small small)
        (λ pc h. λ m. elim m [
          | inr m' ↦ inl m'
          | inl (e, e') ↦ inr (
              subst (λ x. Checked c (Known (behind i s n extra)) (behind i s n extra).max x h) e
                (subst (λ x. Checked c (Known (behind i s n extra)) (behind i s n extra).max i.pc x)
                  e' (Checked-mono (λ p o w. inr (Waiting-append extra s.q p o (inl w))) new k)))
        ])
        v
