-- ===== src/History/Keeps.antt =====
-- What later tables keep of earlier ones.
use crates_io.Prelude.{
  ℕ, ◌<◌, ◌≤◌, ◌≡◌, refl, sym, ◌∙◌, ap, ◌⊎◌, inl, inr, List, [], ◌∷◌, map, none, false, All,
  All-imp, Any, Any-imp, here, there, arith,
}
use crates_io.Database.Krate.{Crate}
use crates_io.Yank.{Version}
use crates_io.Publish.Tables.{Tables}
use crates_io.Deletion.Rows.{HasCrate}

-- All that a version is published with.
abbrev pub settle : Version → Version
settle v = record v { yanked = false; yank_message = none }

abbrev pub crate_id_of : Crate → ℕ
crate_id_of krate = krate.id

-- A version as it was published.
abbrev pub HasRelease : Tables → Version → Type 0
HasRelease s v = Any (λ w. settle w ≡ settle v) s.registry.versions

-- Ids that were given out are not given again; and a version is what it was, as long as its crate is there.
pub record Keeps (s s' : Tables) : Type 0 where
  pub crate_ids : s.next_crate_id ≤ s'.next_crate_id
  pub version_ids : s.next_version_id ≤ s'.next_version_id
  pub crates : All (λ k. (s.next_crate_id ≤ k.id) ⊎ HasCrate s k.id) s'.registry.rows.crates
  pub versions : All (λ v. (s.next_version_id ≤ v.id) ⊎ HasRelease s v) s'.registry.versions
  pub stays :
      All
        (λ v. v.crate_id < s.next_crate_id → HasRelease s' v ⊎ (¬ HasCrate s' v.crate_id))
        s.registry.versions

pub All-self : {A : Type 0} (xs : List A) → All (λ x. Any (λ y. y ≡ x) xs) xs
All-self [] = tt
All-self (x ∷ xs) = (here refl, All-imp (λ y a. there a) xs (All-self xs))

All-Any :
    {A : Type 0} {P Q : A → Type 0} {R : Type 0}
    → ((x : A) → P x → Q x → R)
    → (xs : List A) → All P xs
    → Any Q xs
    → R
All-Any f [] h a = elim a [ ]
All-Any f (x ∷ xs) h (here q) = f x h.0 q
All-Any f (x ∷ xs) h (there a) = All-Any f xs h.1 a

module _ (s t u : Tables) (p : Keeps s t) (q : Keeps t u) where
  crate_before : (c : ℕ) → HasCrate u c → (s.next_crate_id ≤ c) ⊎ HasCrate s c
  crate_before c a =
      All-Any {R = (s.next_crate_id ≤ c) ⊎ HasCrate s c}
        (λ k since e. elim since [
          | inl newer ↦ inl (omega (arith, newer, e, p.crate_ids))
          | inr there_then ↦
              All-Any {R = (s.next_crate_id ≤ c) ⊎ HasCrate s c}
                (λ l before e'. elim before [
                  | inl newer ↦ inl (omega (arith, newer, e, e'))
                  | inr b ↦ inr (Any-imp (λ m x. x ∙ e' ∙ e) b)
                ])
                t.registry.rows.crates p.crates there_then
        ])
        u.registry.rows.crates q.crates a

  version_before :
      (v : Version)
      → (t.next_version_id ≤ v.id) ⊎ HasRelease t v
      → (s.next_version_id ≤ v.id) ⊎ HasRelease s v
  version_before v (inl newer) = inl (omega (arith, newer, p.version_ids))
  version_before v (inr a) =
      All-Any {R = (s.next_version_id ≤ v.id) ⊎ HasRelease s v}
        (λ w before e. elim before [
          | inl newer ↦ inl (omega (arith, newer, ap (λ (x : Version). x.id) e))
          | inr b ↦ inr (Any-imp (λ x e'. e' ∙ e) b)
        ])
        t.registry.versions p.versions a

  still_gone : (c : ℕ) → c < s.next_crate_id → ¬ HasCrate t c → ¬ HasCrate u c
  still_gone c below n a =
      All-Any {R = ⊥}
        (λ k since e. elim since [
          | inl newer ↦ omega (arith, below, newer, e, p.crate_ids)
          | inr b ↦ n (Any-imp (λ l e'. e' ∙ e) b)
        ])
        u.registry.rows.crates q.crates a

  version_after :
      (v : Version)
      → v.crate_id < s.next_crate_id
      → HasRelease t v ⊎ (¬ HasCrate t v.crate_id)
      → HasRelease u v ⊎ (¬ HasCrate u v.crate_id)
  version_after v below (inr n) = inr (still_gone v.crate_id below n)
  version_after v below (inl a) =
      All-Any {R = HasRelease u v ⊎ (¬ HasCrate u v.crate_id)}
        (λ w after e.
          let same : w.crate_id ≡ v.crate_id = ap (λ (x : Version). x.crate_id) e in
          elim (after (omega (arith, below, same, p.crate_ids))) [
            | inl b ↦ inl (Any-imp (λ x e'. e' ∙ e) b)
            | inr n ↦ inr (λ b. n (Any-imp (λ k e'. e' ∙ sym same) b))
          ])
        t.registry.versions q.stays a

  pub Keeps-chain : Keeps s u
  Keeps-chain = record {
    crate_ids = omega (arith, p.crate_ids, q.crate_ids);
    version_ids = omega (arith, p.version_ids, q.version_ids);
    crates = every_crate u.registry.rows.crates (λ k a. crate_before k.id a);
    versions = All-imp version_before u.registry.versions q.versions;
    stays = All-imp (λ v f below. version_after v below (f below)) s.registry.versions p.stays;
  }
    where
      every_crate :
          (crates : List Crate)
          → ((k : Crate)
              → Any (λ (l : Crate). l.id ≡ k.id) crates
              → (s.next_crate_id ≤ k.id) ⊎ HasCrate s k.id)
          → All (λ k. (s.next_crate_id ≤ k.id) ⊎ HasCrate s k.id) crates
      every_crate [] f = tt
      every_crate (k ∷ crates) f = (f k (here refl), every_crate crates (λ l a. f l (there a)))

-- Where an image of a list is the same, each item has one with its image.
pub same_image :
    {A B : Type 0} (f : A → B) (xs ys : List A)
    → map f ys ≡ map f xs
    → All (λ y. Any (λ x. f x ≡ f y) xs) ys
same_image f xs [] e = tt
same_image f [] (y ∷ ys) e = cc
same_image f (x ∷ xs) (y ∷ ys) e =
    let first : f y ≡ f x = cc e in
    let rest : map f ys ≡ map f xs = cc e in
    (here (sym first), All-imp (λ z a. there a) ys (same_image f xs ys rest))

-- The same crates and versions, but for what a crate says of itself and what is yanked.
abbrev pub SameReleases : Tables → Tables → Type 0
SameReleases s s' =
    (map crate_id_of s'.registry.rows.crates ≡ map crate_id_of s.registry.rows.crates)
    × (map settle s'.registry.versions ≡ map settle s.registry.versions)
    × (s'.next_crate_id ≡ s.next_crate_id)
    × (s'.next_version_id ≡ s.next_version_id)

pub SameReleases-Keeps : (s s' : Tables) → SameReleases s s' → Keeps s s'
SameReleases-Keeps s s' (crates, versions, next_crate, next_version) = record {
  crate_ids = omega arith;
  version_ids = omega arith;
  crates =
      All-imp (λ k a. inr a) s'.registry.rows.crates
        (same_image crate_id_of s.registry.rows.crates s'.registry.rows.crates crates);
  versions =
      All-imp (λ v a. inr a) s'.registry.versions
        (same_image settle s.registry.versions s'.registry.versions versions);
  stays =
      All-imp (λ v a below. inl a) s.registry.versions
        (same_image settle s'.registry.versions s.registry.versions (sym versions));
}
