-- ===== src/Publish/Numbers.antt =====
-- Numbers of versions, without their build metadata.
use crates_io.Prelude.{
  ◌≡◌, refl, sym, ◌∙◌, ap, subst, ◌⊎◌, inl, inr, Text, Option, none, some, List, [], ◌∷◌, ◌++◌, any,
  true, false, text_eq_iff, All, Any, here, there, arith, ==_iff, Lacks, split_once,
  split_once-none, split_once-some, split_once_sound, Lacks-of_none,
}
use crates_io.Yank.{Version}
use crates_io.Publish.Rows.{before, strip_build_metadata, is_version_of}

-- The number without its build metadata, which follow a `+`.
abbrev pub IsStripped : Text → Text → Type 0
IsStripped num part =
    Lacks b'+' part × ((num ≡ part) ⊎ ((build : Text) × (num ≡ part ++ b'+' ∷ build)))

-- The same crate, and the same number but for build metadata.
abbrev pub SameNumber : Version → Version → Type 0
SameNumber v w =
    (v.crate_id ≡ w.crate_id) × ((part : Text) × IsStripped v.num part × IsStripped w.num part)

by_split :
    (num : Text) (o : Option (Text × Text))
    → split_once b'+' num ≡ o
    → IsStripped num (before num o)
by_split num none e = (Lacks-of_none b'+' num e, inl refl)
by_split num (some (part, build)) e =
    let (whole, lacks) = split_once_sound b'+' num part build e in (lacks, inr (build, whole))

pub strip_build_metadata-IsStripped : (num : Text) → IsStripped num (strip_build_metadata num)
unfolding strip_build_metadata
strip_build_metadata-IsStripped num = by_split num (split_once b'+' num) refl

-- A number has one part without build metadata.
same_part : (num a b : Text) → IsStripped num a → IsStripped num b → a ≡ b
same_part num a b (lacks, whole) (lacks', whole') =
    sym (part num a lacks whole) ∙ part num b lacks' whole'
  where
    part :
        (num a : Text)
        → Lacks b'+' a
        → (num ≡ a) ⊎ ((build : Text) × (num ≡ a ++ b'+' ∷ build))
        → before num (split_once b'+' num) ≡ a
    part num a lacks (inl e) = rw (split_once-none b'+' num (subst (Lacks b'+') (sym e) lacks)) e
    part num a lacks (inr (build, e)) =
        ap (before num) (ap (split_once b'+') e ∙ split_once-some b'+' a build lacks)

clashes :
    (v w : Version)
    → IsStripped v.num v.num_no_build
    → IsStripped w.num w.num_no_build
    → SameNumber v w
    → is_version_of v.crate_id v.num v.num_no_build w ≡ true
clashes v w stripped stripped' (crate, (part, of_v, of_w)) =
    let num : w.num_no_build ≡ v.num_no_build =
      same_part w.num w.num_no_build part stripped' of_w
      ∙ sym (same_part v.num v.num_no_build part stripped of_v) in
    rw
      (
        (==_iff w.crate_id v.crate_id).1 (sym crate),
        (text_eq_iff w.num_no_build v.num_no_build).1 num,
      )
      (ground arith)

-- A version that clashes with none is alone with its number.
pub is_alone :
    (v : Version) (versions : List Version)
    → IsStripped v.num v.num_no_build
    → any (is_version_of v.crate_id v.num v.num_no_build) versions ≡ false
    → All (λ w. IsStripped w.num w.num_no_build) versions
    → ¬ Any (SameNumber v) versions
is_alone v [] stripped free h a = elim a [ ]
is_alone v (w ∷ versions) stripped free h (here same) =
    ground (arith, free, clashes v w stripped h.0 same)
is_alone v (w ∷ versions) stripped free h (there a) =
    is_alone v versions stripped (ground (arith, free)) h.1 a
