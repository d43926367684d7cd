-- ===== src/Paginate/Pager/Windows.antt =====
-- The pages of a list: which rows each of them shows.
use gobase.Base.{
  ℕ, suc, ◌+◌, ◌*◌, ◌%◌, ◌^◌, ◌≤◌, ◌<◌, ◌≡◌, refl, ap, ◌∙◌, subst, inl, inr, true, false, arith,
  ltb, if◌then◌else◌, Bool-cases, nat_comparable, bool_comparable, list_comparable,
}
use gobase.Base.{ap₂}
use gobase.Base.Int.{ℤ, pos, negsuc, ltb_ℤ, leb_ℤ, ◌*ℤ◌}
use gobase.Paginate.Options.{QueryConfig}
use gobase.Paginate.Pager.{PageSizes, uint64, page_size_of, window_of, apply_pager}

-- The sizes that a program may set: the default is at least 1, and so is the largest, an int.
abbrev pub IsSizes : PageSizes → Type 0
IsSizes sizes =
    (leb_ℤ (pos 1) sizes.default_page_size ≡ true)
    × (leb_ℤ (pos 1) sizes.max_page_size ≡ true)
    × (ltb_ℤ sizes.max_page_size (pos (2 ^ 63)) ≡ true)

-- A page size that a window may have.
abbrev pub IsPageSize : ℤ → ℤ → Type 0
IsPageSize most size =
    (n : ℕ) × (size ≡ pos n) × (1 ≤ n) × (leb_ℤ (pos n) most ≡ true) × (n < 2 ^ 63)

capped-IsPageSize :
    (most size : ℤ)
    → leb_ℤ (pos 1) size ≡ true
    → leb_ℤ (pos 1) most ≡ true
    → ltb_ℤ most (pos (2 ^ 63)) ≡ true
    → IsPageSize most (if ltb_ℤ most size then most else size)
capped-IsPageSize (negsuc m) size a b c = ground arith
capped-IsPageSize (pos m) (negsuc n) a b c = ground arith
capped-IsPageSize (pos m) (pos n) a b c = elim (Bool-cases (ltb m n)) [
  | inl above ↦
      let e : ltb_ℤ (pos m) (pos n) ≡ true = ground arith in
      rw e (m, refl, ground arith, ground arith, ground arith)
  | inr within ↦
      let e : ltb_ℤ (pos m) (pos n) ≡ false = ground arith in
      rw e (n, refl, ground arith, ground arith, ground arith)
]

page_size_of-IsPageSize :
    (sizes : PageSizes) (asked : ℤ)
    → IsSizes sizes
    → IsPageSize sizes.max_page_size (page_size_of sizes asked)
unfolding page_size_of
page_size_of-IsPageSize sizes asked (d, m, top) = elim (Bool-cases (leb_ℤ asked (pos 0))) [
  | inl unset ↦
      rw (page_size_of, unset)
        (capped-IsPageSize sizes.max_page_size sizes.default_page_size d m top)
  | inr chosen ↦
      rw (page_size_of, chosen)
        (capped-IsPageSize sizes.max_page_size asked (positive asked chosen) m top)
]
  where
    positive : (asked : ℤ) → leb_ℤ asked (pos 0) ≡ false → leb_ℤ (pos 1) asked ≡ true
    positive (pos n) h = ground arith
    positive (negsuc n) h = ground arith

pos_times : (p n : ℕ) → pos p *ℤ pos n ≡ pos (p * n)
unfolding ◌*ℤ◌
pos_times p n = ground arith

window_of_exact :
    (n p : ℕ)
    → n < 2 ^ 63
    → p * n < 2 ^ 64
    → window_of (pos n) (pos p) ≡ record { limit = n; offset = p * n }
unfolding window_of
window_of_exact n p small fits =
    let a : n % 2 ^ 64 ≡ n = omega (arith, small) in
    let b : p * n % 2 ^ 64 ≡ p * n = omega (arith, fits) in
    let positive : ltb_ℤ (pos p) (pos 0) ≡ false = ground arith in
    rw (positive, pos_times p n, a, b) refl

apply_pager_at :
    (sizes : PageSizes) (cfg : QueryConfig) (n p : ℕ)
    → page_size_of sizes cfg.page_size ≡ pos n
    → cfg.page ≡ pos p
    → n < 2 ^ 63
    → p * n < 2 ^ 64
    → apply_pager sizes cfg ≡ record { limit = n; offset = p * n }
unfolding apply_pager
apply_pager_at sizes cfg n p size page small fits =
    ap₂ window_of size page ∙ window_of_exact n p small fits

limit-apply_pager :
    (sizes : PageSizes) (cfg : QueryConfig) (n : ℕ)
    → page_size_of sizes cfg.page_size ≡ pos n
    → n < 2 ^ 63
    → (apply_pager sizes cfg).limit ≡ n
unfolding apply_pager window_of
limit-apply_pager sizes cfg n size small =
    let a : n % 2 ^ 64 ≡ n = omega (arith, small) in ap uint64 size ∙ a

-- With sizes of at least 1 each, the largest below 2^63, a page has at least one row and at most
-- as many as the largest size, the rows of a page start at its number times that many, and the
-- next page starts where it ends, as long as the end is below 2^64.
pub apply_pager_pages :
    (sizes : PageSizes) (cfg : QueryConfig) (p : ℕ)
    → IsSizes sizes
    → cfg.page ≡ pos p
    → suc p * (apply_pager sizes cfg).limit < 2 ^ 64
    → (1 ≤ (apply_pager sizes cfg).limit)
      × (leb_ℤ (pos (apply_pager sizes cfg).limit) sizes.max_page_size ≡ true)
      × ((apply_pager sizes cfg).offset ≡ p * (apply_pager sizes cfg).limit)
      × ((apply_pager sizes (record cfg { page = pos (suc p) })).limit
          ≡ (apply_pager sizes cfg).limit)
      × ((apply_pager sizes (record cfg { page = pos (suc p) })).offset
          ≡ (apply_pager sizes cfg).offset + (apply_pager sizes cfg).limit)
apply_pager_pages sizes cfg p h page fits =
    let (n, size, least, most, small) = page_size_of-IsPageSize sizes cfg.page_size h in
    let end : suc p * n < 2 ^ 64 =
      subst (λ k. suc p * k < 2 ^ 64) (limit-apply_pager sizes cfg n size small) fits in
    let here = apply_pager_at sizes cfg n p size page small (omega (arith, end)) in
    let next =
      apply_pager_at sizes (record cfg { page = pos (suc p) }) n (suc p) size refl small end in
    rw (here, next) (least, most, refl, refl, omega arith)
