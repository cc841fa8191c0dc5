-- ===== src/Deletion/Rows.antt =====
-- src/controllers/krate/delete.rs: the rows behind a deletion.
use crates_io.Prelude.{
  ℤ, Text, Option, keep, none, some, ℕ, ◌≡◌, ◌≢◌, refl, ◌∙◌, ap, List, [], ◌∷◌, Bool, true, false,
  not, All, Any, Any-imp, Any-keep, All-keep, here, there, arith, ◌==◌, ==_iff, ◌||◌,
}
use crates_io.Database.Krate.{Crate}
use crates_io.Yank.{Version}
use crates_io.Publish.Tables.{Tables, DependencyRow}
use crates_io.Deletion.{Archive, mail, is_version_id, without_owners, without_versions, delete_rows}

module _ (s : Tables) where
  -- The tables have a crate, a version, with the id.
  abbrev pub HasCrate : ℕ → Type 0
  HasCrate id = Any (λ (k : Crate). k.id ≡ id) s.registry.rows.crates

  abbrev pub HasVersion : ℕ → Type 0
  HasVersion id = Any (λ (v : Version). v.id ≡ id) s.registry.versions

  abbrev pub HasVersionOf : ℕ → ℕ → Type 0
  HasVersionOf crate_id id =
      Any (λ (v : Version). (v.id ≡ id) × (v.crate_id ≡ crate_id)) s.registry.versions

  -- Every row whose column refers to a crate or a version by a foreign key names one that there is, and a default version is
  -- a version of its crate.
  pub record IsReferential : Type 0 where
    pub owners : All (λ o. HasCrate o.crate_id) s.registry.rows.crate_owners
    pub invitations : All (λ i. HasCrate i.crate_id) s.registry.rows.crate_owner_invitations
    pub versions : All (λ (v : Version). HasCrate v.crate_id) s.registry.versions
    pub actions : All (λ a. HasVersion a.version_id) s.registry.version_owner_actions
    pub publishers : All (λ row. HasVersion row.0) s.versions_published_by
    pub dependencies :
        All (λ (d : DependencyRow). HasCrate d.crate_id × HasVersion d.version_id) s.dependencies
    pub defaults :
        All
          (λ row. HasCrate row.crate_id × HasVersionOf row.crate_id row.version_id)
          s.default_versions
    pub keywords : All (λ row. HasCrate row.0) s.crates_keywords
    pub categories : All (λ row. HasCrate row.0) s.crates_categories

not-false : (b : Bool) → not b ≡ true → b ≡ false
not-false true h = cc
not-false false h = refl

differs : (a b : ℕ) → not (a == b) ≡ true → a ≢ b
differs a b h e = ground (arith, h, e)

module _ (id : ℕ) (s : Tables) where
  -- Another crate stays.
  crate_stays : (c : ℕ) → not (c == id) ≡ true → HasCrate s c → HasCrate (delete_rows id s) c
  unfolding delete_rows without_versions without_owners
  crate_stays c other a =
      (Any-keep (λ (k : Crate). not (k.id == id)) s.registry.rows.crates).1
        (Any-imp (λ k e. (ap (λ n. not (n == id)) e ∙ other, e)) a)

  -- A version of another crate stays.
  version_stays :
      (v : ℕ)
      → not (is_version_id id s.registry.versions v) ≡ true
      → HasVersion s v
      → HasVersion (delete_rows id s) v
  unfolding delete_rows without_versions
  version_stays v other a =
      (Any-keep (λ (w : Version). not (w.crate_id == id)) s.registry.versions).1
        (stays s.registry.versions (not-false _ other) a)
    where
      stays :
          (versions : List Version)
          → is_version_id id versions v ≡ false
          → Any (λ (w : Version). w.id ≡ v) versions
          → Any (λ (w : Version). (not (w.crate_id == id) ≡ true) × (w.id ≡ v)) versions
      stays [] h b = elim b [ ]
      stays (w ∷ versions) h (here e) = here (ground (arith, h, e, ==_iff w.id v), e)
      stays (w ∷ versions) h (there b) = there (stays versions (ground (arith, h)) b)

  default_stays :
      (c v : ℕ) → not (c == id) ≡ true → HasVersionOf s c v → HasVersionOf (delete_rows id s) c v
  unfolding delete_rows without_versions
  default_stays c v other a =
      (Any-keep (λ (w : Version). not (w.crate_id == id)) s.registry.versions).1
        (Any-imp (λ w e. (ap (λ n. not (n == id)) e.1 ∙ other, e)) a)

  neither : (a b : Bool) → not (a || b) ≡ true → (not a ≡ true) × (not b ≡ true)
  neither a b h = (ground (arith, h), ground (arith, h))

  pub delete_rows-IsReferential : IsReferential s → IsReferential (delete_rows id s)
  unfolding delete_rows without_versions without_owners
  delete_rows-IsReferential r = record {
    owners =
        All-keep (λ o. not (o.crate_id == id)) (λ o e h. crate_stays o.crate_id e h)
          s.registry.rows.crate_owners r.owners;
    invitations =
        All-keep (λ i. not (i.crate_id == id)) (λ i e h. crate_stays i.crate_id e h)
          s.registry.rows.crate_owner_invitations r.invitations;
    versions =
        All-keep (λ (v : Version). not (v.crate_id == id)) (λ v e h. crate_stays v.crate_id e h)
          s.registry.versions r.versions;
    actions =
        All-keep (λ a. not (is_version_id id s.registry.versions a.version_id))
          (λ a e h. version_stays a.version_id e h) s.registry.version_owner_actions r.actions;
    publishers =
        All-keep (λ row. not (is_version_id id s.registry.versions row.0))
          (λ row e h. version_stays row.0 e h) s.versions_published_by r.publishers;
    dependencies =
        All-keep
          (λ (d : DependencyRow).
            not (d.crate_id == id || is_version_id id s.registry.versions d.version_id))
          (λ d e h.
            let (at, from) =
              neither (d.crate_id == id) (is_version_id id s.registry.versions d.version_id) e in
            (crate_stays d.crate_id at h.0, version_stays d.version_id from h.1))
          s.dependencies r.dependencies;
    defaults =
        All-keep (λ row. not (row.crate_id == id))
          (λ row e h.
            (crate_stays row.crate_id e h.0, default_stays row.crate_id row.version_id e h.1))
          s.default_versions r.defaults;
    keywords =
        All-keep (λ row. not (row.0 == id)) (λ row e h. crate_stays row.0 e h) s.crates_keywords
          r.keywords;
    categories =
        All-keep (λ row. not (row.0 == id)) (λ row e h. crate_stays row.0 e h) s.crates_categories
          r.categories;
  }

pub gone : (id : ℕ) (s : Tables) → ¬ HasCrate (delete_rows id s) id
unfolding delete_rows without_versions without_owners
gone id s a =
    no_crate s.registry.rows.crates
      ((Any-keep (λ (k : Crate). not (k.id == id)) s.registry.rows.crates).0 a)
  where
    no_crate :
        (crates : List Crate)
        → ¬ Any (λ (k : Crate). (not (k.id == id) ≡ true) × (k.id ≡ id)) crates
    no_crate [] b = elim b [ ]
    no_crate (k ∷ crates) (here h) = differs k.id id h.0 h.1
    no_crate (k ∷ crates) (there b) = no_crate crates b

pub mail-tables :
    (to : Option Text) (krate : Crate) (s : Archive) → (mail to krate s).tables ≡ s.tables
mail-tables none krate s = refl
mail-tables (some recipient) krate s = refl

pub mail-downloads :
    (to : Option Text) (krate : Crate) (s : Archive)
    → (mail to krate s).crate_downloads ≡ s.crate_downloads
mail-downloads none krate s = refl
mail-downloads (some recipient) krate s = refl

-- The rows of the numbers of downloads, too, are of crates that there are.
abbrev pub HasCrates : Tables → List (ℕ × ℤ) → Type 0
HasCrates s downloads = All (λ row. HasCrate s row.0) downloads

abbrev pub RefersTo : Archive → Type 0
RefersTo a = IsReferential a.tables × HasCrates a.tables a.crate_downloads

pub delete_rows-HasCrates :
    (id : ℕ) (s : Tables) (downloads : List (ℕ × ℤ))
    → HasCrates s downloads
    → HasCrates (delete_rows id s) (keep (λ row. not (row.0 == id)) downloads)
delete_rows-HasCrates id s downloads h =
    All-keep (λ (row : ℕ × ℤ). not (row.0 == id)) (λ row e k. crate_stays id s row.0 e k) downloads
      h
