-- ===== src/Database/Paging.antt =====
-- The offset of a page, and where it wraps.
use go_utilities.Base.{
  ℕ, suc, ◌+◌, ◌*◌, ◌/◌, ◌%◌, ◌^◌, ◌≤◌, ◌<◌, ◌≡◌, refl, sym, subst, ◌∙◌, ◌↔◌, arith, false, ltb,
}
use native.Mathlib.Nat.{div-add-mod, mod-lt}
use go_utilities.Base.Int.{pos, to_int32, to_int32_fits, to_int32_of_fits, FitsInt32}
use go_utilities.Database.{new_pagination}

-- the offset before it wraps
offset_lem :
    (before size : ℕ)
    → (new_pagination (pos (suc before)) (pos size)).offset ≡ to_int32 (pos (before * size))
unfolding new_pagination
offset_lem before size = rw first refl
  where
    first : ltb (suc before) 1 ≡ false
    first = ground arith

-- For any page from the first and any page size of at least 0: the offset is the number of rows on
-- the pages before exactly when that number is in the range of an `int32`.
pub new_pagination-offset :
    (before size : ℕ)
    → ((new_pagination (pos (suc before)) (pos size)).offset ≡ pos (before * size))
      ↔ (before * size < 2 ^ 31)
new_pagination-offset before size = (
  λ h. in_range (before * size) (sym (offset_lem before size) ∙ h),
  λ h. offset_lem before size ∙ to_int32_of_fits (pos (before * size)) h,
)
  where
    in_range : (n : ℕ) → to_int32 (pos n) ≡ pos n → n < 2 ^ 31
    in_range n h = subst FitsInt32 h (to_int32_fits (pos n))

-- Of pages of a positive size, the page `i / size + 1` is the one that holds row `i`, for every row
-- in the range of an `int32`.
pub new_pagination-holds :
    (size i : ℕ)
    → 0 < size
    → i < 2 ^ 31
    → (offset : ℕ) × ((new_pagination (pos (suc (i / size))) (pos size)).offset ≡ pos offset)
      × (offset ≤ i)
      × (i < offset + size)
new_pagination-holds size i positive small =
    let whole : size * (i / size) + i % size ≡ i = div-add-mod i size in
    let rest : i % size < size = mod-lt i positive in
    (
      i / size * size,
      (new_pagination-offset (i / size) size).1 (grind (arith, whole)),
      grind (arith, whole),
      grind (arith, whole, rest),
    )
