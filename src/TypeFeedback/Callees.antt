-- ===== src/TypeFeedback/Callees.antt =====
-- The extra pool of a code object, and ObservedCallees::record, which notes pool entries.
use rir.Prelude.{
  All-mono, ℕ, zero, suc, ◌+◌, ◌-◌, ◌*◌, ◌%◌, ◌^◌, ◌≤◌, ◌<◌, ◌≡◌, refl, ap, ap₂, All, All-append,
  Option-cases, ◌∙◌, inl, inr, Bool, true, false, not, ◌||◌, Option, none, some, List, [], ◌∷◌,
  ◌++◌, ltb, ◌==◌, if◌then◌else◌, length, set, get_elem?, arith, Bool-cases, map, tests,
  length-append, length-set, ==_iff, ==_refl, lt→ltb, ltb→lt,
}
use rir.Prelude.Arrays.{get_elem?-set}
use rir.Prelude.Eq.{Eq}
use rir.Prelude.Distinct.{take, take-set, any, push_new}
use rir.TypeFeedback.Slots.{IsNotes, take-note, slot-any}
use rir.TypeFeedback.{
  counter_overflow, ObservedCallees, is_target, record_callee, slot, note, Api, ExtraPool,
  get_entry, grown, add_entry, replicate,
}

module _ {ℓ} {S : Type ℓ} where
  get_elem?-append :
      (xs ys : List S) (i : ℕ) → i < length xs → get_elem? (xs ++ ys) i ≡ get_elem? xs i
  get_elem?-append [] ys i h = absurd (omega (arith, h))
  get_elem?-append (x ∷ xs) ys zero h = refl
  get_elem?-append (x ∷ xs) ys (suc i) h = get_elem?-append xs ys i (omega (arith, h))

doubled : (n : ℕ) → n < 2 ^ 31 → suc n ≤ n + ((if n == 0 then 2 else (n * 2) % 2 ^ 32) - n)
doubled n h = ground arith

-- The entries in use lie within the vector, which may still double in 32 bits.
pub record IsPool {ℓ} {S : Type ℓ} (p : ExtraPool S) : Type 0 where
  pub within : p.size ≤ length p.cells
  pub bounded : length p.cells < 2 ^ 31

module _ {ℓ} {S : Type ℓ} ⦃e : Eq S⦄ (r : Api S) where
  length-replicate : (n : ℕ) (v : S) → length (replicate r n v) ≡ n
  length-replicate zero v = refl
  length-replicate (suc n) v = ap suc (length-replicate n v)

  -- The vector that an entry is written to has a cell for it.
  grown-room : (p : ExtraPool S) → IsPool p → p.size < length (grown r p)
  unfolding grown
  grown-room p w = elim (Bool-cases (length p.cells == p.size)) [
    | inl full ↦
        rw
          (
            full,
            length-append p.cells (
                replicate r
                  ((if length p.cells == 0 then 2 else (length p.cells * 2) % 2 ^ 32)
                    - length p.cells)
                  r.nil),
            length-replicate
                ((if length p.cells == 0 then 2 else (length p.cells * 2) % 2 ^ 32)
                  - length p.cells)
                r.nil,
          )
          (let same = (==_iff (length p.cells) p.size).0 full in
            rw⁻¹ same (doubled (length p.cells) w.bounded))
    | inr free ↦ rw free (grind tests)
  ]

  grown-kept :
      (p : ExtraPool S) (i : ℕ) → i < length p.cells → get_elem? (grown r p) i ≡ get_elem? p.cells i
  unfolding grown
  grown-kept p i h = elim (Bool-cases (length p.cells == p.size)) [
    | inl full ↦ rw full (get_elem?-append p.cells _ i h)
    | inr free ↦ rw free
  ]

  -- The pool after another entry: its size, its entries, and the invariant on them.
  pub record Extends (p q : ExtraPool S) (v : S) : Type ℓ where
    pub sized : q.size ≡ suc p.size
    pub latest : get_entry r q p.size ≡ some v
    pub kept : (i : ℕ) → i < p.size → get_entry r q i ≡ get_entry r p i
    pub within : q.size ≤ length q.cells

  -- addExtraPoolEntry returns the index of the new entry, and keeps the others in place when it
  -- moves them to a larger vector; the pool has fewer than 2^31 cells.
  pub add_entry_lem : (p : ExtraPool S) (v : S) → IsPool p → Extends p (add_entry r p v).1 v
  unfolding add_entry get_entry
  add_entry_lem p v w = record {
    sized = size;
    latest =
        rw (size, at_end) (get_elem?-set (grown r p) p.size p.size v room ∙ rw (==_refl p.size));
    kept = older;
    within = rw (size, length-set (grown r p) p.size v) room;
  }
    where
      size : (p.size + 1) % 2 ^ 32 ≡ suc p.size
      size = omega (arith, w.within, w.bounded)

      room : p.size < length (grown r p)
      room = grown-room p w

      at_end : ltb p.size (suc p.size) ≡ true
      at_end = ground arith

      older : (i : ℕ) → i < p.size → get_entry r (add_entry r p v).1 i ≡ get_entry r p i
      older i h =
          rw (size, lt→ltb i (suc p.size) (omega (arith, h)), lt→ltb i p.size h)
            (get_elem?-set (grown r p) p.size i v room
              ∙ rw before (grown-kept p i (omega (arith, h, w.within))))
        where
          before : (i == p.size) ≡ false
          before = ground (arith, h)

  add_entry-index : (p : ExtraPool S) (v : S) → (add_entry r p v).0 ≡ p.size
  unfolding add_entry
  add_entry-index p v = refl

  -- The comparison of a noted callee.
  abbrev pub is_callee : S → Option S → Bool
  is_callee v none = false
  is_callee v (some u) = e.beq u v

  is_target-is_callee :
      (p : ExtraPool S) (v : S) (i : ℕ) → is_target r p v i ≡ is_callee v (get_entry r p i)
  unfolding is_target
  is_target-is_callee p v i = elim (Option-cases (get_entry r p i)) [
    | inl h ↦ rw (h, is_target)
    | inr (u, h) ↦ rw (h, is_target)
  ]

  any-is_target :
      (p : ExtraPool S) (v : S) (is : List ℕ)
      → any (is_target r p v) is ≡ any (is_callee v) (map (get_entry r p) is)
  any-is_target p v [] = refl
  any-is_target p v (i ∷ is) = ap₂ ◌||◌ (is_target-is_callee p v i) (any-is_target p v is)

  map-kept :
      (p q : ExtraPool S) (v : S) (is : List ℕ)
      → Extends p q v
      → All (λ i. i < p.size) is
      → map (get_entry r q) is ≡ map (get_entry r p) is
  map-kept p q v [] x h = refl
  map-kept p q v (i ∷ is) x h = ap₂ ◌∷◌ (x.kept i h.0) (map-kept p q v is x h.1)

  map-append :
      (p : ExtraPool S) (is js : List ℕ)
      → map (get_entry r p) (is ++ js) ≡ map (get_entry r p) is ++ map (get_entry r p) js
  map-append p [] js = refl
  map-append p (i ∷ is) js = ap (◌∷◌ (get_entry r p i)) (map-append p is js)

  -- The callees that a record has noted.
  abbrev pub noted_callees : ExtraPool S → ObservedCallees → List (Option S)
  noted_callees p o = map (get_entry r p) (take o.num_targets o.targets)

  -- A well-formed record: three slots, and those in use are entries of the pool.
  pub record IsObserved (p : ExtraPool S) (o : ObservedCallees) : Type 0 where
    pub notes : IsNotes o.num_targets o.targets
    pub valid : All (λ i. i < p.size) (take o.num_targets o.targets)

  noted_lem :
      (v : S) (invalidate : Bool) (p : ExtraPool S) (o : ObservedCallees)
      → IsPool p
      → IsObserved p o
      → let (q, seen) = record_callee r v invalidate p o in
        noted_callees q seen ≡ (
          if ltb o.num_targets 3
          then push_new (is_callee v) (some v) (noted_callees p o)
          else noted_callees p o)
  unfolding record_callee
  noted_lem v invalidate p o w x = elim (Bool-cases (ltb o.num_targets 3)) [
    | inl on ↦
        rw
          (
            on,
            take-note o.num_targets (is_target r p v) o.targets (add_entry r p v).0
                (rw x.notes.room (ltb→lt o.num_targets 3 on)) (ltb→lt o.num_targets 3 on),
            slot-any o.num_targets (is_target r p v) o.targets (rw x.notes.room x.notes.within),
          )
          (pushed (any (is_target r p v) (take o.num_targets o.targets))
            ∙ rw (any-is_target p v (take o.num_targets o.targets)))
    | inr off ↦ rw off
  ]
    where
      pushed :
          (b : Bool)
          → map (get_entry r (if not b then (add_entry r p v).1 else p)) (
              if b
              then take o.num_targets o.targets
              else take o.num_targets o.targets ++ (add_entry r p v).0 ∷ [])
            ≡ (if b then noted_callees p o else noted_callees p o ++ some v ∷ [])
      pushed true = refl
      pushed false = rw (
        map-append (add_entry r p v).1 (take o.num_targets o.targets) ((add_entry r p v).0 ∷ []),
        map-kept p (add_entry r p v).1 v (take o.num_targets o.targets) (add_entry_lem p v w)
            x.valid,
        add_entry-index p v,
        (add_entry_lem p v w).latest,
      )

  -- What a record with room becomes, by whether the callee is new.
  open_lem :
      (v : S) (p : ExtraPool S) (o : ObservedCallees) (fresh : Bool)
      → IsPool p
      → IsObserved p o
      → o.num_targets < 3
      → let q = if fresh then (add_entry r p v).1 else p in
        let noted : ℕ × List ℕ =
          if fresh
          then ((o.num_targets + 1) % 4, set o.targets o.num_targets (add_entry r p v).0)
          else (o.num_targets, o.targets) in
        ((i : ℕ) → i < p.size → get_entry r q i ≡ get_entry r p i)
        × IsNotes noted.0 noted.1
        × All (λ i. i < q.size) (take noted.0 noted.1)
        × (q.size ≤ length q.cells)
  open_lem v p o false w x k = ((λ i h. refl), x.notes, x.valid, w.within)
  open_lem v p o true w x k = (
    (add_entry_lem p v w).kept,
    record {
      room = length-set o.targets o.num_targets (add_entry r p v).0 ∙ x.notes.room;
      within = omega (arith, k);
    },
    rw
        (
          bits,
          take-set o.num_targets o.targets (add_entry r p v).0 (rw x.notes.room k),
          (add_entry_lem p v w).sized,
        )
        (All-append (λ i. i < suc p.size) (take o.num_targets o.targets) ((add_entry r p v).0 ∷ [])
          (All-mono p.size (suc p.size) (take o.num_targets o.targets) (omega arith) x.valid)
          (rw (add_entry-index p v) (omega arith), tt)),
    (add_entry_lem p v w).within,
  )
    where
      bits : (o.num_targets + 1) % 4 ≡ suc o.num_targets
      bits = omega (arith, k)

  -- ObservedCallees::record on a well-formed record, in a well-formed pool of fewer than 2^31 cells:
  -- the callees that it has noted are those before, with the callee behind them if it is new and
  -- there is room; the counter of calls goes up to its limit; a full record is marked invalid if the
  -- caller asks for it, and no other one is; the entries of the pool stay where they are, the record
  -- stays well formed, and the entries in use stay within the cells of the pool.
  pub record_callee_lem :
      (v : S) (invalidate : Bool) (p : ExtraPool S) (o : ObservedCallees)
      → IsPool p
      → IsObserved p o
      → let (q, seen) = record_callee r v invalidate p o in
        (noted_callees q seen ≡ (
          if ltb o.num_targets 3
          then push_new (is_callee v) (some v) (noted_callees p o)
          else noted_callees p o))
        × (seen.taken ≡ (if ltb o.taken counter_overflow then o.taken + 1 else o.taken))
        × (seen.invalid ≡ (if ltb o.num_targets 3 then o.invalid else o.invalid || invalidate))
        × ((i : ℕ) → i < p.size → get_entry r q i ≡ get_entry r p i)
        × IsObserved q seen
        × (q.size ≤ length q.cells)
  unfolding record_callee note
  record_callee_lem v invalidate p o w x = elim (Bool-cases (ltb o.num_targets 3)) [
    | inl on ↦
        let (kept, notes, valid, within) =
          open_lem v p o (slot o.num_targets (is_target r p v) o.targets == o.num_targets) w x
            (ltb→lt o.num_targets 3 on) in
        (
          noted_lem v invalidate p o w x,
          rw on refl,
          rw on refl,
          rw on kept,
          rw on (record { notes = notes; valid = valid }),
          rw on within,
        )
    | inr off ↦ (
      noted_lem v invalidate p o w x,
      rw off refl,
      rw off refl,
      rw off (λ i h. refl),
      rw off (record { notes = x.notes; valid = x.valid }),
      rw off w.within,
    )
  ]
