-- ===== src/DataTable/Pages.antt =====
-- The pages of a list in web/src/pages/Admin/components/AdminDataTable.tsx.
use linkflow_v.Prelude.{
  ℕ, zero, suc, ◌+◌, ◌-◌, ◌*◌, ◌/◌, ◌%◌, ◌≤◌, ◌<◌, ◌≡◌, String, Option, none, some, Bool, arith,
  Option-cases, inl, inr, ◌⊎◌, refl,
}
use Prim.Native.Nat.{max}
use native.Mathlib.Omega.{div_any}
use native.Mathlib.Nat.{mod-lt}
use linkflow_v.DataTable.{Pagination, total_pages, handle_jump_page, previous_page, next_page}

pages_of_quotient :
    (total k q r : ℕ)
    → suc k * q + r ≡ total + k
    → r < suc k
    → (1 ≤ max 1 q)
      × (total ≤ max 1 q * suc k)
      × ((total ≡ 0) × (max 1 q ≡ 1) ⊎ ((max 1 q - 1) * suc k < total))
pages_of_quotient zero k zero r e h = (omega arith, omega arith, inl (refl, refl))
pages_of_quotient (suc n) k zero r e h = (omega arith, omega arith, inr (omega arith))
pages_of_quotient zero k (suc q) r e h = absurd (omega arith)
pages_of_quotient (suc n) k (suc q) r e h =
    let w : max 1 (suc q) ≡ suc q = omega arith in
    let w' : suc q - 1 ≡ q = omega arith in rw (w, w') (omega arith, omega arith, inr (omega arith))

-- Where a page has at least one row to hold, there is at least one page and the pages hold all rows.
-- A list without rows has one page; in a list with rows the pages before the last do not hold all
-- of them, so that no page is empty.
pub total_pages-bounds :
    (total page_size : ℕ)
    → 1 ≤ page_size
    → (1 ≤ total_pages total page_size)
      × (total ≤ total_pages total page_size * page_size)
      × ((total ≡ 0) × (total_pages total page_size ≡ 1)
          ⊎ ((total_pages total page_size - 1) * page_size < total))
unfolding total_pages
total_pages-bounds total zero h = absurd (omega arith)
total_pages-bounds total (suc k) h =
    let z : suc k - 1 ≡ k = omega arith in
    rw z (
      pages_of_quotient total k ((total + k) / suc k) ((total + k) % suc k)
        (div_any (total + k) (suc k)) (mod-lt (total + k) (omega arith)))

one-le-total_pages : (total page_size : ℕ) → 1 ≤ total_pages total page_size
unfolding total_pages
one-le-total_pages total page_size = omega arith

-- A page that exists.
abbrev pub IsPage : ℕ → ℕ → Option ℕ → Type 0
IsPage total page_size none = Unit
IsPage total page_size (some page) = (1 ≤ page) × (page ≤ total_pages total page_size)

-- The three ways to ask for a page.
pub data Control : Type 0 where
  jump previous next : Control

abbrev pub press : ℕ → ℕ → (String → Option ℕ) → Bool → ℕ → Control → Pagination → Pagination
press total page_size of_text loading page jump s = handle_jump_page total page_size of_text s
press total page_size of_text loading page previous s = previous_page loading page s
press total page_size of_text loading page next s = next_page total page_size loading page s

-- From a page that exists, no control of the table asks for a page that does not exist.
pub press-IsPage :
    (total page_size : ℕ) (of_text : String → Option ℕ) (loading : Bool) (page : ℕ) (c : Control)
    (s : Pagination)
    → IsPage total page_size (some page)
    → IsPage total page_size s.requested
    → IsPage total page_size (press total page_size of_text loading page c s).requested
unfolding handle_jump_page previous_page next_page
press-IsPage total page_size of_text loading page jump s p h =
    elim (Option-cases (of_text s.jump_page)) [
      | inl e ↦ rw (e, IsPage) h
      | inr (n, e) ↦ rw (e, IsPage) (ground (arith, one-le-total_pages total page_size))
    ]
press-IsPage total page_size of_text loading page previous s p h =
    ground (arith, one-le-total_pages total page_size)
press-IsPage total page_size of_text loading page next s p h =
    ground (arith, one-le-total_pages total page_size)
