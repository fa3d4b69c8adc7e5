-- ===== src/TypeFeedback/Values.antt =====
-- ObservedValues::record and ObservedTest::record over the values seen at a program point.
use rir.Prelude.{
  or_false, or_assoc, ℕ, ◌%◌, ◌^◌, ◌≤◌, ◌≡◌, refl, ap, ap₂, sym, ◌∙◌, inl, inr, Bool, true, false,
  not, ◌||◌, List, [], ◌∷◌, ltb, ◌==◌, if◌then◌else◌, length, arith, Bool-cases, map, tests,
}
use rir.Prelude.Eq.{Eq}
use rir.Prelude.Distinct.{
  take, any, push_new, push_new-room, push_new-full, length-take, length-take_le,
}
use rir.TypeFeedback.{
  Api, Seen, ObservedValues, fresh_values, slot, fast_vecelt_ok, record_test, see_true, see_false,
  record_value,
}
use rir.TypeFeedback.Seen.{unseen, only_true, only_false, both}
use rir.TypeFeedback.Slots.{IsNotes, take-note, note-IsNotes}

-- The noted types.
abbrev pub types : ObservedValues → List ℕ
types o = take o.num_types o.seen

-- The distinct numbers of a list, in the order of their first appearance, behind others.
abbrev pub distinct_after : List ℕ → List ℕ → List ℕ
distinct_after xs [] = xs
distinct_after xs (t ∷ ts) = distinct_after (push_new (λ s. s == t) t xs) ts

-- A flag that covers another one may absorb it.
or_absorb : (a o b n : Bool) → (a || o) ≡ a → (a || (o || b) || n) ≡ (a || (b || n))
or_absorb true o b n h = refl
or_absorb false o b n h = rw h

or_covers : (a o b n : Bool) → ((a || (o || b) || n) || (o || b)) ≡ (a || (o || b) || n)
or_covers true o b n = refl
or_covers false true b n = refl
or_covers false false true n = refl
or_covers false false false true = refl
or_covers false false false false = refl

module _ {ℓ} {S : Type ℓ} ⦃e : Eq S⦄ (r : Api S) where
  -- A record of each value in turn.
  abbrev pub record_values : List S → ObservedValues → ObservedValues
  record_values [] o = o
  record_values (v ∷ vs) o = record_values vs (record_value r v o)

  unfoldable pub type_byte : S → ℕ
  type_byte v = r.type_of v % 2 ^ 8

  unfoldable pub noted_types : S → ObservedValues → List ℕ
  noted_types v o =
      if ltb o.num_types 3
      then push_new (λ s. s == type_byte v) (type_byte v) (types o)
      else types o

  pub record_value-types :
      (v : S) (o : ObservedValues)
      → IsNotes o.num_types o.seen
      → types (record_value r v o) ≡ noted_types v o
  unfolding record_value noted_types type_byte
  record_value-types v o w = elim (Bool-cases (ltb o.num_types 3)) [
    | inl on ↦ rw on (
        take-note o.num_types (λ s. s == r.type_of v % 2 ^ 8) o.seen (r.type_of v % 2 ^ 8)
          (rw w.room (grind tests)) (grind tests))
    | inr off ↦ rw off
  ]

  record_value-IsNotes :
      (v : S) (o : ObservedValues)
      → IsNotes o.num_types o.seen
      → let p = record_value r v o in IsNotes p.num_types p.seen
  unfolding record_value
  record_value-IsNotes v o w = elim (Bool-cases (ltb o.num_types 3)) [
    | inl on ↦ rw on (
        note-IsNotes o.num_types (slot o.num_types (λ s. s == r.type_of v % 2 ^ 8) o.seen) o.seen
          (r.type_of v % 2 ^ 8) (grind tests) w)
    | inr off ↦ rw off w
  ]

  step :
      (v : S) (o : ObservedValues) (xs : List ℕ)
      → IsNotes o.num_types o.seen
      → types o ≡ take 3 xs
      → types (record_value r v o) ≡ take 3 (push_new (λ s. s == type_byte v) (type_byte v) xs)
  unfolding noted_types
  step v o xs w h = elim (Bool-cases (ltb o.num_types 3)) [
    | inl on ↦
        rw (record_value-types v o w, on, h)
          (sym (
            push_new-room 3 (λ s. s == type_byte v) (type_byte v) xs
              (rw⁻¹ h (rw measured (grind tests)))))
    | inr off ↦
        rw (record_value-types v o w, off, h)
          (sym (push_new-full 3 (λ s. s == type_byte v) (type_byte v) xs (full off)))
  ]
    where
      measured : length (types o) ≡ o.num_types
      measured = length-take o.num_types o.seen (rw w.room w.within)

      full : ltb o.num_types 3 ≡ false → 3 ≤ length xs
      full off =
          let bound = length-take_le 3 xs in
          let same = sym (ap length h) ∙ measured in grind (tests, bound, same)

  observed_types :
      (vs : List S) (o : ObservedValues) (xs : List ℕ)
      → IsNotes o.num_types o.seen
      → types o ≡ take 3 xs
      → types (record_values vs o) ≡ take 3 (distinct_after xs (map type_byte vs))
  observed_types [] o xs w h = h
  observed_types (v ∷ vs) o xs w h =
      observed_types vs (record_value r v o) (push_new (λ s. s == type_byte v) (type_byte v) xs)
        (record_value-IsNotes v o w) (step v o xs w h)

  unfoldable pub not_scalar : S → Bool
  not_scalar v = not (r.xlength v == 1)

  unfoldable pub attributed : S → Bool
  attributed v = r.is_object v || not (e.beq (r.attrib v) r.nil)

  -- What the flags are after the records, from a record whose objects have attributes.
  observed_flags :
      (vs : List S) (o : ObservedValues)
      → (o.attribs || o.object) ≡ o.attribs
      → let p = record_values vs o in
        (p.not_scalar ≡ (o.not_scalar || any not_scalar vs))
        × (p.object ≡ (o.object || any r.is_object vs))
        × (p.attribs ≡ (o.attribs || any attributed vs))
        × (p.not_fast_vecelt ≡ (o.not_fast_vecelt || any (λ v. not (fast_vecelt_ok r v)) vs))
  unfolding record_value not_scalar attributed
  observed_flags [] o h =
      (or_false o.not_scalar, or_false o.object, or_false o.attribs, or_false o.not_fast_vecelt)
  observed_flags (v ∷ vs) o h =
      let (scalar, object, attribs, fast) = observed_flags vs (record_value r v o) cover in
      (
        scalar ∙ or_assoc o.not_scalar (not_scalar v) (any not_scalar vs),
        object ∙ or_assoc o.object (r.is_object v) (any r.is_object vs),
        attribs
            ∙ ap (λ x. x || any attributed vs) absorb
            ∙ or_assoc o.attribs (attributed v) (any attributed vs),
        fast
            ∙ or_assoc o.not_fast_vecelt (not (fast_vecelt_ok r v))
                (any (λ u. not (fast_vecelt_ok r u)) vs),
      )
    where
      attr : Bool
      attr = not (e.beq (r.attrib v) r.nil)

      cover :
          ((o.attribs || (o.object || r.is_object v) || attr) || (o.object || r.is_object v))
          ≡ (o.attribs || (o.object || r.is_object v) || attr)
      cover = or_covers o.attribs o.object (r.is_object v) attr

      absorb :
          (o.attribs || (o.object || r.is_object v) || attr)
          ≡ (o.attribs || (r.is_object v || attr))
      absorb = or_absorb o.attribs o.object (r.is_object v) attr h

  -- Recording values one after the other in a reset record notes the first three distinct types,
  -- in the order of their first appearance, and each flag exactly if some value has the property;
  -- an object counts as one with attributes.
  pub record_values_lem :
      (vs : List S)
      → let p = record_values vs fresh_values in
        (types p ≡ take 3 (distinct_after [] (map type_byte vs)))
        × (p.not_scalar ≡ any not_scalar vs)
        × (p.object ≡ any r.is_object vs)
        × (p.attribs ≡ any attributed vs)
        × (p.not_fast_vecelt ≡ any (λ v. not (fast_vecelt_ok r v)) vs)
  record_values_lem vs =
      let (scalar, object, attribs, fast) = observed_flags vs fresh_values refl in
      (
        observed_types vs fresh_values [] (record { room = refl; within = omega arith }) refl,
        scalar,
        object,
        attribs,
        fast,
      )

-- The bits that ObservedTest::seen stands for: a value other than FALSE was seen, and one other
-- than TRUE.
abbrev pub summary : Bool → Bool → Seen
summary false false = unseen
summary true false = only_true
summary false true = only_false
summary true true = both

on_true : (a b : Bool) → see_true (summary a b) ≡ summary (a || true) (b || false)
on_true false false = refl
on_true true false = refl
on_true false true = refl
on_true true true = refl

on_false : (a b : Bool) → see_false (summary a b) ≡ summary (a || false) (b || true)
on_false false false = refl
on_false true false = refl
on_false false true = refl
on_false true true = refl

neither : (a b : Bool) → both ≡ summary (a || true) (b || true)
neither false false = refl
neither true false = refl
neither false true = refl
neither true true = refl

module _ {ℓ} {S : Type ℓ} ⦃e : Eq S⦄ (r : Api S) where
  abbrev pub record_tests : List S → Seen → Seen
  record_tests [] seen = seen
  record_tests (v ∷ vs) seen = record_tests vs (record_test r v seen)

  unfoldable pub not_true : S → Bool
  not_true v = not (e.beq v r.true_value)

  unfoldable pub not_false : S → Bool
  not_false v = not (e.beq v r.false_value)

  record_test-summary :
      (v : S) (a b : Bool)
      → e.beq r.true_value r.false_value ≡ false
      → record_test r v (summary a b) ≡ summary (a || not_false v) (b || not_true v)
  unfolding record_test not_true not_false
  record_test-summary v a b h = elim (Bool-cases (e.beq v r.true_value)) [
    | inl t ↦
        rw (t, ap (λ x. e.beq x r.false_value) ((e.beq_iff v r.true_value).0 t) ∙ h) (on_true a b)
    | inr f ↦ elim (Bool-cases (e.beq v r.false_value)) [
      | inl on ↦ rw (f, on) (on_false a b)
      | inr off ↦ rw (f, off) (neither a b)
    ]
  ]

  observed_tests :
      (vs : List S) (a b : Bool)
      → e.beq r.true_value r.false_value ≡ false
      → record_tests vs (summary a b) ≡ summary (a || any not_false vs) (b || any not_true vs)
  observed_tests [] a b h = ap₂ summary (or_false a) (or_false b)
  observed_tests (v ∷ vs) a b h =
      ap (record_tests vs) (record_test-summary v a b h)
      ∙ observed_tests vs (a || not_false v) (b || not_true v) h
      ∙ ap₂ summary (or_assoc a (not_false v) (any not_false vs))
          (or_assoc b (not_true v) (any not_true vs))

  -- If R_TrueValue is not R_FalseValue, recording conditions one after the other ends in None for none, in OnlyTrue or OnlyFalse if all
  -- are the one value, and in Both otherwise, whatever their order.
  pub record_tests_lem :
      (vs : List S)
      → e.beq r.true_value r.false_value ≡ false
      → record_tests vs unseen ≡ summary (any not_false vs) (any not_true vs)
  record_tests_lem vs h = observed_tests vs false false h
