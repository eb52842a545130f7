-- ===== src/Lifecycle/Stored.antt =====
-- The rows that a run adds for a family.
use mathlib.Core.Path.{subst}
use mathlib.Core.List.{append-nil, append_assoc}
use amz_command_center.Base.{
  All, Bool-cases, List, Option, String, [], ap, false, inl, inr, map, ok, raised, refl, sym, ℕ,
  ◌++◌, ◌∙◌, ◌∷◌, ◌≡◌, ◌⊎◌,
}
use amz_command_center.Number.{Number, ticks}
use amz_command_center.Lifecycle.Defs.{Finding, Thresholds}
use amz_command_center.Lifecycle.Revive.{recommendation_refused}
use amz_command_center.Lifecycle.Run.{
  LifecycleRun, Recommendation, accepts_recommendation, count_label, label_of, recommendation_of,
  store_family, store_findings,
}

module _ {W : Type 0} ⦃n : Number W⦄ where
  -- The rows that are added: one for each finding, behind the others and of the given date.
  abbrev pub Adds :
      ℕ → List (Finding W) → List (Recommendation W) → List (Recommendation W) → Type 0
  Adds through fs rows after =
      (added : List (Recommendation W)) × (after ≡ rows ++ added)
      × All (λ row. row.data_through ≡ through) added
      × (map (λ row. row.finding) added ≡ fs)

  -- One of the findings is refused, behind the rows of those before it.
  pub record Refuses (numeric : W → Option W) (fs : List (Finding W))
      (rows : List (Recommendation W)) : Type 0 where
    pub before : List (Recommendation W)
    pub row : Recommendation W
    pub after : List (Finding W)
    pub split : fs ≡ map (λ (r : Recommendation W). r.finding) before ++ row.finding ∷ after
    pub refused : accepts_recommendation numeric (rows ++ before) row ≡ false

  store_findings_lem :
      (numeric : W → Option W) (t : Thresholds W) (family : String) (through : ℕ)
      (fs : List (Finding W)) (run : LifecycleRun) (rows : List (Recommendation W))
      → ((end : LifecycleRun × List (Recommendation W)) × (store_findings numeric t family through
              fs run rows
            ≡ ok end)
          × Adds through fs rows end.1)
        ⊎ ((store_findings numeric t family through fs run rows ≡ raised recommendation_refused)
            × Refuses numeric fs rows)
  unfolding store_findings
  store_findings_lem numeric t family through [] run rows =
      inl ((run, rows), refl, ([], sym (append-nil rows), tt, refl))
  store_findings_lem numeric t family through (f ∷ fs) run rows =
      let row = recommendation_of t through run f in
      let next = record run { decisions = count_label (label_of family f) run.decisions } in
      elim (Bool-cases (accepts_recommendation numeric rows row)) [
        | inr e ↦ inr (
          rw (store_findings, e) refl,
          record {
            before = [];
            row = row;
            after = fs;
            split = refl;
            refused = rw (append-nil rows) e;
          },
        )
        | inl e ↦ elim (store_findings_lem numeric t family through fs next (rows ++ row ∷ [])) [
          | inl (end, q, (added, k, h, m)) ↦ inl (
            end,
            rw (store_findings, e) q,
            (row ∷ added, k ∙ append_assoc rows (row ∷ []) added, (refl, h), ap (λ l. f ∷ l) m),
          )
          | inr (q, r) ↦ inr (
            rw (store_findings, e) q,
            record {
              before = row ∷ r.before;
              row = r.row;
              after = r.after;
              split = ap (λ l. f ∷ l) r.split;
              refused =
                  subst (λ l. accepts_recommendation numeric l r.row ≡ false)
                    (append_assoc rows (row ∷ []) r.before) r.refused;
            },
          )
        ]
      ]

  pub store_family_lem :
      (numeric : W → Option W) (t : Thresholds W) (family : String) (through : ℕ)
      (fs : List (Finding W)) (at : LifecycleRun × List (Recommendation W))
      → ((end : LifecycleRun × List (Recommendation W)) × (store_family numeric t family through fs
              at
            ≡ ok end)
          × Adds through fs at.1 end.1)
        ⊎ ((store_family numeric t family through fs at ≡ raised recommendation_refused)
            × Refuses numeric fs at.1)
  unfolding store_family
  store_family_lem numeric t family through fs (run, rows) =
      store_findings_lem numeric t family through fs _ rows
