-- ===== src/Prelude/Maps.antt =====
-- The keys of a map, and tests of equality for keys that are built from others.
use mathlib.Core.Path.{◌≡◌, refl, sym, ap, ◌∙◌, ap₂}
use mathlib.Core.Logic.{◌↔◌, inl, inr}
use mathlib.Core.Bool.{Bool, true, false, ◌&&◌, ◌||◌}
use mathlib.Core.Option.{none}
use mathlib.Core.List.{List, [], ◌∷◌}
use silverwind.Prelude.Tests.{if◌then◌else◌, Bool-cases}
use silverwind.Prelude.Text.{is_some}
use silverwind.Prelude.Lists.{select}
use silverwind.Prelude.Assoc.{Eq, lookup, insert, lookup-insert_self}

-- The test of a type whose values can be read back from those of another.
abbrev pub eq_by {ℓ κ} :
    {A : Type ℓ} {B : Type κ} (f : A → B) (g : B → A) → ((a : A) → g (f a) ≡ a) → Eq B → Eq A
eq_by f g h e = record {
  beq = λ a b. e.beq (f a) (f b);
  beq_iff = λ a b. (
    λ t. sym (h a) ∙ (ap g ((e.beq_iff (f a) (f b)).0 t) ∙ h b),
    λ s. (e.beq_iff (f a) (f b)).1 (ap f s),
  );
}

pub both_true : (a b : Bool) → a && b ≡ true → (a ≡ true) × (b ≡ true)
both_true true b e = (refl, e)
both_true false b e = cc

abbrev pub pair_eq {ℓ κ} : {A : Type ℓ} {B : Type κ} → Eq A → Eq B → Eq (A × B)
pair_eq d e = record {
  beq = λ p q. d.beq p.0 q.0 && e.beq p.1 q.1;
  beq_iff = λ p q. (
    λ t.
        let (x, y) = both_true (d.beq p.0 q.0) (e.beq p.1 q.1) t in
        ap₂ (λ a b. (a, b)) ((d.beq_iff p.0 q.0).0 x) ((e.beq_iff p.1 q.1).0 y),
    λ s. rw ((d.beq_iff p.0 q.0).1 (ap (λ p. p.0) s)) ((e.beq_iff p.1 q.1).1 (ap (λ p. p.1) s)),
  );
}

unfoldable pub same_list {ℓ} : {A : Type ℓ} → Eq A → List A → List A → Bool
same_list e [] [] = true
same_list e (a ∷ xs) (b ∷ ys) = e.beq a b && same_list e xs ys
same_list e _ _ = false

pub same_list_iff {ℓ} :
    {A : Type ℓ} (e : Eq A) (xs ys : List A) → (same_list e xs ys ≡ true) ↔ (xs ≡ ys)
unfolding same_list
same_list_iff e [] [] = (λ t. refl, λ s. refl)
same_list_iff e [] (b ∷ ys) = (λ t. cc, λ s. cc)
same_list_iff e (a ∷ xs) [] = (λ t. cc, λ s. cc)
same_list_iff e (a ∷ xs) (b ∷ ys) = (
  λ t.
      let (x, y) = both_true (e.beq a b) (same_list e xs ys) t in
      ap₂ (λ a as_. a ∷ as_) ((e.beq_iff a b).0 x) ((same_list_iff e xs ys).0 y),
  λ s. rw ((e.beq_iff a b).1 cc) ((same_list_iff e xs ys).1 cc),
)

abbrev pub list_eq {ℓ} : {A : Type ℓ} → Eq A → Eq (List A)
list_eq e = record { beq = same_list e; beq_iff = same_list_iff e }

pub or_true : (b : Bool) → b || true ≡ true
or_true true = refl
or_true false = refl

pub or_false : (b : Bool) → b || false ≡ b
or_false true = refl
or_false false = refl

pub or_assoc : (a b c : Bool) → (a || b) || c ≡ a || (b || c)
or_assoc true b c = refl
or_assoc false b c = refl

module _ {ℓ κ} {K : Type ℓ} {V : Type κ} ⦃e : Eq K⦄ where
  -- `map.contains_key(k)`.
  unfoldable pub contains : K → List (K × V) → Bool
  unfolding lookup
  contains k m = is_some (lookup k m)

  pub lookup-insert_other :
      (j k : K) (v : V) (m : List (K × V))
      → e.beq j k ≡ false
      → lookup k (insert j v m) ≡ lookup k m
  unfolding lookup insert
  lookup-insert_other j k v [] h = rw h refl
  lookup-insert_other j k v ((i, w) ∷ m) h = elim (Bool-cases (e.beq i j)) [
    | inl same ↦ rw same (rw (ap (λ x. e.beq x k) ((e.beq_iff i j).0 same) ∙ h) refl)
    | inr other ↦ rw other (elim (Bool-cases (e.beq i k)) [
      | inl here ↦ rw here refl
      | inr on ↦ rw on (lookup-insert_other j k v m h)
    ])
  ]

  -- Entries that a test of their keys keeps.
  pub lookup-select :
      (p : K × V → Bool) (q : K → Bool) (k : K) (m : List (K × V))
      → ((x : K × V) → p x ≡ q x.0)
      → lookup k (select p m) ≡ (if q k then lookup k m else none)
  unfolding lookup
  lookup-select p q k [] h = elim (Bool-cases (q k)) [ inl on ↦ rw on refl | inr off ↦ rw off refl ]
  lookup-select p q k ((j, v) ∷ m) h = elim (Bool-cases (e.beq j k)) [
    | inl here ↦ elim (Bool-cases (q k)) [
      | inl on ↦ rw (h (j, v) ∙ (ap q ((e.beq_iff j k).0 here) ∙ on)) (rw here (rw on refl))
      | inr off ↦
          rw (h (j, v) ∙ (ap q ((e.beq_iff j k).0 here) ∙ off))
            (lookup-select p q k m h ∙ rw off refl)
    ]
    | inr other ↦ elim (Bool-cases (q j)) [
      | inl on ↦ rw (h (j, v) ∙ on) (rw other (lookup-select p q k m h))
      | inr off ↦ rw (h (j, v) ∙ off) (rw other (lookup-select p q k m h))
    ]
  ]

  pub contains-insert :
      (j k : K) (v : V) (m : List (K × V)) → contains k (insert j v m) ≡ contains k m || e.beq j k
  unfolding contains
  contains-insert j k v m = elim (Bool-cases (e.beq j k)) [
    | inl same ↦
        rw
          (ap (λ x. lookup x (insert j v m)) (sym ((e.beq_iff j k).0 same))
            ∙ lookup-insert_self j v m)
          (rw same (sym (or_true (is_some (lookup k m)))))
    | inr other ↦
        rw (lookup-insert_other j k v m other) (rw other (sym (or_false (is_some (lookup k m)))))
  ]

  pub contains-cons :
      (j k : K) (v : V) (m : List (K × V)) → contains k ((j, v) ∷ m) ≡ e.beq j k || contains k m
  unfolding contains lookup
  contains-cons j k v m = elim (Bool-cases (e.beq j k)) [
    | inl same ↦ rw same refl
    | inr other ↦ rw other refl
  ]
