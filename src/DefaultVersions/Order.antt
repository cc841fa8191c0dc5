-- ===== src/DefaultVersions/Order.antt =====
-- The order in which the default version is chosen.
use crates_io.Prelude.{
  ℕ, ◌<◌, ◌≤◌, ◌≡◌, ◌⊎◌, inl, inr, refl, sym, ◌∙◌, subst, Option, none, some, List, [], ◌∷◌, Bool,
  true, false, ◌&&◌, ◌||◌, ◌==◌, ltb, if◌then◌else◌, Any, All, All-imp, here, there, arith,
  Bool-cases, ==_iff,
}
use crates_io.Publish.Labels.{DefaultVersion, flag_lt, flag_eq, lex}
use crates_io.DefaultVersions.{
  SemverOrd, same_number, comes_before, first_of, calculate_default_version,
}

-- The classes of versions, the best one highest: neither yanked nor a pre-release, a pre-release
-- that is not yanked, a yanked release, a yanked pre-release.
abbrev pub class_of : Bool → Bool → ℕ
class_of false false = 3
class_of false true = 2
class_of true false = 1
class_of true true = 0

abbrev pub class : SemverOrd → DefaultVersion → ℕ
class ord v = class_of v.yanked (ord.is_prerelease v.num)

-- Another version is no better: of a lower class, or of the same class with no higher number, and
-- at the same number with no higher id.
abbrev pub NoBetter : SemverOrd → DefaultVersion → DefaultVersion → Type 0
NoBetter ord v w =
    (class ord w < class ord v)
    ⊎ ((class ord w ≡ class ord v)
        × (ord.lower v.num w.num ≡ false)
        × ((ord.lower w.num v.num ≡ true) ⊎ (w.id ≤ v.id)))

-- One of the versions, than which none is better.
abbrev pub IsDefault : SemverOrd → List DefaultVersion → DefaultVersion → Type 0
IsDefault ord versions v = Any (λ w. w ≡ v) versions × All (NoBetter ord v) versions

-- The flags, in one number.
by_class :
    (y p y' p' r : Bool)
    → lex (flag_lt y y') (flag_eq y y') (lex (flag_lt p p') (flag_eq p p') r)
      ≡ (ltb (class_of y' p') (class_of y p) || class_of y' p' == class_of y p && r)
by_class true true true true r = refl
by_class true true true false r = refl
by_class true true false true r = refl
by_class true true false false r = refl
by_class true false true true r = refl
by_class true false true false r = refl
by_class true false false true r = refl
by_class true false false false r = refl
by_class false true true true r = refl
by_class false true true false r = refl
by_class false true false true r = refl
by_class false true false false r = refl
by_class false false true true r = refl
by_class false false true false r = refl
by_class false false false true r = refl
by_class false false false false r = refl

module _ (ord : SemverOrd) where
  -- The order at the same flags.
  abbrev numbers : DefaultVersion → DefaultVersion → Bool
  numbers a b = lex (ord.lower b.num a.num) (same_number ord a.num b.num) (ltb b.id a.id)

  comes_before-class :
      (a b : DefaultVersion)
      → comes_before ord a b
        ≡ (ltb (class ord b) (class ord a) || class ord b == class ord a && numbers a b)
  unfolding comes_before
  comes_before-class a b =
      by_class a.yanked (ord.is_prerelease a.num) b.yanked (ord.is_prerelease b.num) (numbers a b)

  numbers-false :
      (v w : DefaultVersion)
      → numbers w v ≡ false
      → (ord.lower v.num w.num ≡ false) × ((ord.lower w.num v.num ≡ true) ⊎ (w.id ≤ v.id))
  numbers-false v w h = elim (Bool-cases (ord.lower w.num v.num)) [
    | inl e ↦ (ground (arith, h), inl e)
    | inr e ↦ (ground (arith, h), inr (ground (arith, h, e)))
  ]

  pub not_before : (v w : DefaultVersion) → comes_before ord w v ≡ false → NoBetter ord v w
  not_before v w h =
      let h' : (ltb (class ord v) (class ord w) || class ord v == class ord w && numbers w v)
          ≡ false =
        sym (comes_before-class w v) ∙ h in
      elim (by_order (class ord w) (class ord v) (numbers w v) h') [
        | inl less ↦ inl less
        | inr (same, level) ↦
            let (higher, older) = numbers-false v w level in inr (same, higher, older)
      ]
    where
      by_order :
          (m n : ℕ) (b : Bool)
          → (ltb n m || n == m && b) ≡ false
          → (m < n) ⊎ ((m ≡ n) × (b ≡ false))
      by_order m n b h = elim (Bool-cases (n == m)) [
        | inl e ↦ inr (sym ((==_iff n m).0 e), ground (arith, h, e))
        | inr e ↦ inl (ground (arith, h, e))
      ]

  numbers-cotransitive :
      (a b c : DefaultVersion) → numbers a b ≡ false → numbers b c ≡ false → numbers a c ≡ false
  numbers-cotransitive a b c h k =
      let ba : ord.lower b.num a.num ≡ false = ground (arith, h) in
      let cb : ord.lower c.num b.num ≡ false = ground (arith, k) in
      let ca = ord.comparable c.num b.num a.num cb ba in
      elim (Bool-cases (ord.lower a.num c.num)) [
        | inl e ↦ ground (arith, ca, e)
        | inr e ↦
            let ab = ord.comparable a.num c.num b.num e cb in
            let bc = ord.comparable b.num a.num c.num ba e in
            ground (arith, h, k, ab, bc, ba, cb, ca, e)
      ]

  cotransitive :
      (a b c : DefaultVersion)
      → comes_before ord a b ≡ false
      → comes_before ord b c ≡ false
      → comes_before ord a c ≡ false
  cotransitive a b c h k =
      comes_before-class a c
      ∙ three (class ord a) (class ord b) (class ord c) (numbers a b) (numbers b c) (numbers a c)
          (sym (comes_before-class a b) ∙ h) (sym (comes_before-class b c) ∙ k)
          (numbers-cotransitive a b c)
    where
      three :
          (l m n : ℕ) (x y z : Bool)
          → (ltb m l || m == l && x) ≡ false
          → (ltb n m || n == m && y) ≡ false
          → (x ≡ false → y ≡ false → z ≡ false)
          → (ltb n l || n == l && z) ≡ false
      three l m n x y z h k f = elim (Bool-cases (n == l)) [
        | inr e ↦ ground (arith, h, k, e)
        | inl e ↦
            let same : n ≡ l = (==_iff n l).0 e in
            let mid : m ≡ l = ground (arith, h, k, same) in
            let x' : x ≡ false = ground (arith, h, mid) in
            let y' : y ≡ false = ground (arith, k, mid, same) in ground (arith, f x' y', same)
      ]

  irreflexive : (a : DefaultVersion) → comes_before ord a a ≡ false
  irreflexive a = comes_before-class a a ∙ ground (arith, ord.irreflexive a.num)

  numbers-asymmetric : (a b : DefaultVersion) → numbers a b ≡ true → numbers b a ≡ false
  numbers-asymmetric a b h = elim (Bool-cases (ord.lower b.num a.num)) [
    | inl e ↦ ground (arith, e, ord.asymmetric b.num a.num e)
    | inr e ↦ ground (arith, h, e)
  ]

  asymmetric : (a b : DefaultVersion) → comes_before ord a b ≡ true → comes_before ord b a ≡ false
  asymmetric a b h =
      comes_before-class b a
      ∙ turned (class ord a) (class ord b) (numbers a b) (numbers b a)
          (sym (comes_before-class a b) ∙ h) (numbers-asymmetric a b)
    where
      turned :
          (l m : ℕ) (x y : Bool)
          → (ltb m l || m == l && x) ≡ true
          → (x ≡ true → y ≡ false)
          → (ltb l m || l == m && y) ≡ false
      turned l m true y h f = ground (arith, h, f refl)
      turned l m false y h f = ground (arith, h)

  -- The first version in the order of the query has none before it.
  abbrev pub FirstOf : List DefaultVersion → Option DefaultVersion → Type 0
  FirstOf versions none = versions ≡ []
  FirstOf versions (some v) =
      Any (λ w. w ≡ v) versions × All (λ w. comes_before ord w v ≡ false) versions

  chosen :
      (b : Bool) (v n : DefaultVersion) (versions : List DefaultVersion)
      → comes_before ord n v ≡ b
      → FirstOf versions (some n)
      → FirstOf (v ∷ versions) (some (if b then n else v))
  chosen true v n versions e (found, first) = (there found, (asymmetric n v e, first))
  chosen false v n versions e (found, first) =
      (here refl, (irreflexive v, All-imp (λ w h. cotransitive w n v h e) versions first))

  pub calculate-FirstOf :
      (versions : List DefaultVersion) → FirstOf versions (calculate_default_version ord versions)
  unfolding calculate_default_version
  calculate-FirstOf [] = refl
  calculate-FirstOf (v ∷ versions) =
      add (calculate_default_version ord versions) (calculate-FirstOf versions)
    where
      add :
          (o : Option DefaultVersion)
          → FirstOf versions o
          → FirstOf (v ∷ versions) (some (first_of ord v o))
      add none e =
          (here refl, (irreflexive v, subst (All (λ w. comes_before ord w v ≡ false)) (sym e) tt))
      add (some n) h = chosen (comes_before ord n v) v n versions refl h
