-- ===== src/Stores/AdminUi/Sections.antt =====
-- The section names of web/src/stores/adminUiStore.ts tell the sections apart.
use linkflow_v.Prelude.{
  ◌≡◌, String, Bool-cases, inl, inr, true, refl, ap, ◌↔◌, true, Option, some, ◌==◌, eq_iff, find,
}
use linkflow_v.Stores.AdminUi.{
  AdminSectionId, overview, section_text, valid_section_ids, same_section,
}

-- The section of a text.
abbrev pub section_of : AdminSectionId → Option AdminSectionId
section_of id = find (λ j. section_text j == section_text id) valid_section_ids

pub section_of_lem : (id : AdminSectionId) → section_of id ≡ some id
section_of_lem overview = refl
section_of_lem _ = refl

section_text-injective : (a b : AdminSectionId) → section_text a ≡ section_text b → a ≡ b
section_text-injective a b e =
    let lookup =
      λ (t : String). find (λ (j : AdminSectionId). section_text j == t) valid_section_ids in
    cc (section_of_lem a, section_of_lem b, ap lookup e)

pub same_section_iff : (a b : AdminSectionId) → (same_section a b ≡ true) ↔ (a ≡ b)
unfolding same_section
same_section_iff a b =
    (λ h. section_text-injective a b ((eq_iff _ _).0 h), λ e. (eq_iff _ _).1 (ap section_text e))

pub same_section_self : (a : AdminSectionId) → same_section a a ≡ true
same_section_self a = (same_section_iff a a).1 refl

pub same_section_sym : (a b : AdminSectionId) → same_section a b ≡ same_section b a
same_section_sym a b = elim (Bool-cases (same_section a b)) [
  | inl p ↦ rw ((same_section_iff a b).0 p) refl
  | inr p ↦ elim (Bool-cases (same_section b a)) [
    | inl q ↦ rw ((same_section_iff b a).0 q) refl
    | inr q ↦ rw (p, q) refl
  ]
]

-- Equal sections are told from a third alike.
pub same_section_same :
    (a b c : AdminSectionId) → same_section a b ≡ true → same_section a c ≡ same_section c b
same_section_same a b c p = rw ((same_section_iff a b).0 p) (same_section_sym b c)
