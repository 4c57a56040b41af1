-- ===== src/Chase/Templates/Seeded.antt =====
-- What a firm without templates of its own is given.
use mtd_backend.Common.{
  String, List, [], ◌∷◌, ◌++◌, ◌≡◌, ◌∙◌, refl, inl, inr, arith, find_all, Bool-cases, ok,
}
use text.Mathlib.TextPositions.{eq_refl}
use mtd_backend.Chase.Templates.{
  ChaseTemplate, CreateChaseTemplateDto, is_live_of, live_templates, seeds, default_templates,
  list_from, list,
}

cons_is_not_nil : (x : ChaseTemplate) (xs : List ChaseTemplate) → ¬ (x ∷ xs ≡ [])
cons_is_not_nil x xs e = ground arith

module _ (new_id : CreateChaseTemplateDto → String) (tenant_id : String) where
  live-seeds :
      (dtos : List CreateChaseTemplateDto)
      → live_templates tenant_id (seeds new_id tenant_id dtos) ≡ seeds new_id tenant_id dtos
  unfolding find_all seeds
  live-seeds [] = refl
  live-seeds (dto ∷ dtos) = rw (eq_refl tenant_id, live-seeds dtos) refl

  live-append :
      (s ts : List ChaseTemplate)
      → live_templates tenant_id s ≡ []
      → live_templates tenant_id (s ++ ts) ≡ live_templates tenant_id ts
  unfolding find_all
  live-append [] ts h = refl
  live-append (x ∷ s) ts h = elim (Bool-cases (is_live_of tenant_id x)) [
    | inl e ↦ absurd (cons_is_not_nil x (live_templates tenant_id s) (rw e at h))
    | inr e ↦ rw e (live-append s ts (rw e at h))
  ]

  -- A firm that has no template yet is given the five default ones.
  pub list-seeds :
      (s : List ChaseTemplate)
      → live_templates tenant_id s ≡ []
      → list new_id tenant_id s ≡ (
        ok (seeds new_id tenant_id default_templates),
        s ++ seeds new_id tenant_id default_templates,
      )
  unfolding list list_from
  list-seeds s h =
      let after =
        live-append s (seeds new_id tenant_id default_templates) h ∙ live-seeds default_templates in
      rw (h, after) refl
