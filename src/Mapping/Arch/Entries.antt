-- ===== src/Mapping/Arch/Entries.antt =====
-- One more entry in the lists of `Construct` (src/mapping/arch-properties.cpp).
use mathlib.Core.Option.{some-injective}
use mathlib.Core.List.Memᴰ
use timeloop.Prelude.{
  ℕ, zero, suc, ◌+◌, ◌<◌, ◌≡◌, refl, sym, ap, ◌∙◌, ◌⊎◌, inl, inr, Bool, true, false, some, List, [],
  ◌∷◌, ◌++◌, Memᴰ, length, get_elem?, get_elem?-append_cases, get_elem?-append_left,
  get_elem?-append_right, get_elem?-lt-length, arith,
}
use timeloop.Mapping.Arch.{FanOut, ArchProperties, fanout}

-- Where a tiling level of this kind stands in the maps.
abbrev pub Found : ArchProperties → Bool → ℕ → ℕ → Type 0
Found props false storage tiling = get_elem? props.temporal_to_tiling storage ≡ some tiling
Found props true storage tiling = Memᴰ (storage, tiling) props.spatial_to_tiling

-- The tiling level is of this kind and belongs to this storage level.
abbrev pub IsLevel : ArchProperties → Bool → ℕ → ℕ → Type 0
IsLevel props spatial storage tiling =
    (get_elem? props.spatial_mask tiling ≡ some spatial)
    × (get_elem? props.tiling_to_storage tiling ≡ some storage)

-- The maps of the levels, after the first `n` storage levels of these fan-outs.
pub record Placed (fs : List FanOut) (n : ℕ) (props : ArchProperties) : Type 0 where
  pub masks : length props.spatial_mask ≡ length props.tiling_to_storage
  pub flat_masks : length props.two_d_spatial_mask ≡ length props.spatial_mask
  pub temporal_length : length props.temporal_to_tiling ≡ n
  pub back :
      (spatial : Bool) (storage tiling : ℕ)
      → IsLevel props spatial storage tiling
      → Found props spatial storage tiling
  pub temporal : (i : ℕ) → i < n → (t : ℕ) × Found props false i t × IsLevel props false i t
  pub spatial :
      (i : ℕ) (f : FanOut)
      → i < n
      → get_elem? fs i ≡ some f
      → 1 < fanout f
      → (t : ℕ) × Found props true i t × IsLevel props true i t × Found props false i (t + 1)

-- One more entry at the end of a list.
pub get-old :
    {A : Type 0} (xs : List A) (x : A) (i : ℕ) {a : A}
    → get_elem? xs i ≡ some a
    → get_elem? (xs ++ (x ∷ [])) i ≡ some a
get-old xs x i h = get_elem?-append_left xs (x ∷ []) i (get_elem?-lt-length xs i h) ∙ h

pub get-new : {A : Type 0} (xs : List A) (x : A) → get_elem? (xs ++ (x ∷ [])) (length xs) ≡ some x
get-new xs x = ap (get_elem? (xs ++ (x ∷ []))) (omega arith) ∙ get_elem?-append_right xs (x ∷ []) 0

pub get-cases :
    {A : Type 0} (xs : List A) (x : A) (i : ℕ) {a : A}
    → get_elem? (xs ++ (x ∷ [])) i ≡ some a
    → (get_elem? xs i ≡ some a) ⊎ ((i ≡ length xs) × (a ≡ x))
get-cases xs x i {a} h = elim (get_elem?-append_cases xs (x ∷ []) i h) [
  | inl (_, old) ↦ inl old
  | inr (zero, place, e) ↦ inr (omega arith, sym (some-injective _ _ e))
  | inr (suc j, place, e) ↦ cc
]

pub Memᴰ-left : {A : Type 0} {a : A} (xs ys : List A) → Memᴰ a xs → Memᴰ a (xs ++ ys)
Memᴰ-left (x ∷ xs) ys (Memᴰ.head e) = Memᴰ.head e
Memᴰ-left (x ∷ xs) ys (Memᴰ.tail m) = Memᴰ.tail (Memᴰ-left xs ys m)
Memᴰ-left [] ys m = absurd (Memᴰ.not-nil m)

pub Memᴰ-last : {A : Type 0} (xs : List A) (x : A) → Memᴰ x (xs ++ (x ∷ []))
Memᴰ-last [] x = Memᴰ.head refl
Memᴰ-last (y ∷ ys) x = Memᴰ.tail (Memᴰ-last ys x)
