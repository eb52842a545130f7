-- ===== src/Freshness/Usable.antt =====
-- When a rule may use its sources.
use mathlib.Core.Path.{subst}
use amz_command_center.Base.{
  All, All-imp, Bool-cases, List, Option, Option-cases, String, [], ap, arith, false, inl, inr,
  is_some, length, none, opt_str_eq, refl, some, str_eq_iff, sym, true, ℕ, ◌*◌, ◌-◌, ◌==◌, ◌∙◌, ◌∷◌,
  ◌≡◌, ◌≢◌, ◌≤◌, ◌⊎◌,
}
use amz_command_center.Freshness.Defs.{
  LoadTables, RequiredLoad, SourceFreshness, assess, first_fault, is_empty_list, is_usable, least,
  load_fault, min_of, required_rows, resolve_source_freshness, scope_datasets, source_unsettled,
  values_of, with_value,
}
use amz_command_center.StateMachine.{hour}

-- A load that is complete, finished and good, not beyond the date `through` and not before `loaded`.
pub record IsLoaded (through loaded : ℕ) (row : RequiredLoad) : Type 0 where
  pub complete : (d : ℕ) × (row.last_complete_date ≡ some d) × (through ≤ d)
  pub finished : (m : ℕ) × (row.finished_at ≡ some m) × (loaded ≤ m)
  pub good_mark : row.last_status ≡ some "success"
  pub good_run : row.run_status ≡ some "success"

is_success : (s : Option String) → opt_str_eq s (some "success") ≡ true → s ≡ some "success"
unfolding opt_str_eq
is_success none e = cc
is_success (some s) e = ap some ((str_eq_iff s "success").0 e)

-- What the loop lets pass.
record Passes (row : RequiredLoad) : Type 0 where
  complete : is_some row.last_complete_date ≡ true
  finished : is_some row.finished_at ≡ true
  good_mark : row.last_status ≡ some "success"
  good_run : row.run_status ≡ some "success"

load_fault-Passes :
    (datasets : List String) (row : RequiredLoad) → load_fault datasets row ≡ none → Passes row
unfolding load_fault
load_fault-Passes datasets row e = record {
  complete = ground arith;
  finished = ground arith;
  good_mark = is_success row.last_status (ground arith);
  good_run = is_success row.run_status (ground arith);
}

first_fault-Passes :
    (datasets : List String) (rows : List RequiredLoad)
    → first_fault datasets rows ≡ none
    → All Passes rows
unfolding first_fault
first_fault-Passes datasets [] e = tt
first_fault-Passes datasets (row ∷ rows) e = elim (Option-cases (load_fault datasets row)) [
  | inl q ↦ (
    load_fault-Passes datasets row q,
    first_fault-Passes datasets rows (sym (rw (first_fault, q) refl) ∙ e),
  )
  | inr (f, q) ↦ absurd (ground (arith, q))
]

least-le : (vs : List ℕ) → All (λ v. least vs ≤ v) vs
least-le [] = tt
least-le (v ∷ []) = (omega arith, tt)
least-le (v ∷ w ∷ vs) =
    let below : All (λ u. least (w ∷ vs) ≤ u) (w ∷ vs) = least-le (w ∷ vs) in
    (ground arith, All-imp _ _ (w ∷ vs) (λ u e. ground arith) below)

-- What holds of the values of a column that no row lacks.
column-All :
    (P : ℕ → Type 0) (column : RequiredLoad → Option ℕ) (rows : List RequiredLoad)
    → All P (values_of column rows)
    → All (λ row. is_some (column row) ≡ true) rows
    → All (λ row. (v : ℕ) × (column row ≡ some v) × P v) rows
column-All P column [] h k = tt
column-All P column (row ∷ rows) h k = elim (Option-cases (column row)) [
  | inl q ↦ absurd (ground arith)
  | inr (v, q) ↦
      let h' : All P (v ∷ values_of column rows) =
        subst (λ o. All P (with_value o (values_of column rows))) q h in
      ((v, q, h'.0), column-All P column rows h'.1 k.1)
]

rows-IsLoaded :
    (through loaded : ℕ) (rows : List RequiredLoad)
    → All Passes rows
    → All (λ row. (d : ℕ) × (row.last_complete_date ≡ some d) × (through ≤ d)) rows
    → All (λ row. (m : ℕ) × (row.finished_at ≡ some m) × (loaded ≤ m)) rows
    → All (IsLoaded through loaded) rows
rows-IsLoaded through loaded [] p c f = tt
rows-IsLoaded through loaded (row ∷ rows) p c f = (
  record { complete = c.0; finished = f.0; good_mark = p.0.good_mark; good_run = p.0.good_run },
  rows-IsLoaded through loaded rows p.1 c.1 f.1,
)

loads_lem :
    (rows : List RequiredLoad) (cutoff : ℕ)
    → All Passes rows
    → All
        (IsLoaded
          (min_of (least (values_of (λ (r : RequiredLoad). r.last_complete_date) rows)) cutoff)
          (least (values_of (λ (r : RequiredLoad). r.finished_at) rows)))
        rows
loads_lem rows cutoff p =
    let dates = values_of (λ (r : RequiredLoad). r.last_complete_date) rows in
    rows-IsLoaded _ _ rows p
      (column-All (λ d. min_of (least dates) cutoff ≤ d) _ rows
        (All-imp _ _ dates (λ d e. ground arith) (least-le dates))
        (All-imp _ _ rows (λ row e. e.complete) p))
      (column-All _ _ rows (least-le _) (All-imp _ _ rows (λ row e. e.finished) p))

-- The sources that a rule may use: they are there, each required load is good and complete up to the
-- date that the rule looks at, and the oldest is young enough.
pub record IsUsableSource (db : LoadTables) (tenant scope : String) (now cutoff hours : ℕ)
    (s : SourceFreshness) : Type 0 where
  pub through : ℕ
  pub loaded : ℕ
  pub dated : s.data_through ≡ some through
  pub timed : s.data_loaded_at ≡ some loaded
  pub settled : through ≤ cutoff
  pub young : now - loaded ≤ hours * hour
  pub mapped : scope_datasets scope ≢ []
  pub loads : All (IsLoaded through loaded) (required_rows db tenant (scope_datasets scope))
  pub single :
      length (required_rows db tenant (scope_datasets scope)) ≡ length (scope_datasets scope)

-- What the dates and the age leave.
assess_lem :
    (datasets : List String) (now cutoff hours : ℕ) (rows : List RequiredLoad)
    → let s = assess datasets now cutoff hours rows in
      let loaded = least (values_of (λ (r : RequiredLoad). r.finished_at) rows) in
      let through =
        min_of (least (values_of (λ (r : RequiredLoad). r.last_complete_date) rows)) cutoff in
      (s.state ≢ source_unsettled)
      × (is_usable s.state ≡ true
          → (s.data_through ≡ some through)
            × (s.data_loaded_at ≡ some loaded)
            × (through ≤ cutoff)
            × (now - loaded ≤ hours * hour))
unfolding assess
assess_lem datasets now cutoff hours rows = (ground arith, λ u. ground arith)

load_fault_state :
    (datasets : List String) (row : RequiredLoad) (f : SourceFreshness)
    → load_fault datasets row ≡ some f
    → (is_usable f.state ≡ false) × (f.state ≢ source_unsettled)
unfolding load_fault
load_fault_state datasets row f e = ground arith

first_fault_state :
    (datasets : List String) (rows : List RequiredLoad) (f : SourceFreshness)
    → first_fault datasets rows ≡ some f
    → (is_usable f.state ≡ false) × (f.state ≢ source_unsettled)
unfolding first_fault
first_fault_state datasets [] f e = cc
first_fault_state datasets (row ∷ rows) f e = elim (Option-cases (load_fault datasets row)) [
  | inl q ↦ first_fault_state datasets rows f (sym (rw (first_fault, q) refl) ∙ e)
  | inr (g, q) ↦ load_fault_state datasets row f (q ∙ sym (rw (first_fault, q) refl) ∙ e)
]

module _ (db : LoadTables) (tenant scope : String) (now cutoff hours : ℕ) where
  resolved_lem :
      ((resolve_source_freshness db tenant scope now cutoff hours).state ≢ source_unsettled)
      × (is_usable (resolve_source_freshness db tenant scope now cutoff hours).state ≡ true
          → IsUsableSource db tenant scope now cutoff hours
              (resolve_source_freshness db tenant scope now cutoff hours))
  unfolding resolve_source_freshness
  resolved_lem =
      let datasets = scope_datasets scope in
      let rows = required_rows db tenant datasets in
      elim (Bool-cases (is_empty_list datasets)) [
        | inl a ↦ rw (resolve_source_freshness, a) (cc, λ u. absurd (cc))
        | inr a ↦ elim (Bool-cases (length rows == length datasets)) [
          | inr b ↦ rw (resolve_source_freshness, a, b) (cc, λ u. absurd (cc))
          | inl b ↦ elim (Option-cases (first_fault datasets rows)) [
            | inr (f, c) ↦
                let (e, g) = first_fault_state datasets rows f c in
                rw (resolve_source_freshness, a, b, c) (g, λ u. absurd (cc))
            | inl c ↦
                let (e, g) = assess_lem datasets now cutoff hours rows in
                rw (resolve_source_freshness, a, b, c)
                  (
                    e,
                    λ u. record {
                      through = _;
                      loaded = _;
                      dated = (g u).0;
                      timed = (g u).1;
                      settled = (g u).2;
                      young = (g u).3;
                      mapped = λ z. cc;
                      loads = loads_lem rows cutoff (first_fault-Passes datasets rows c);
                      single = ground arith;
                    },
                  )
          ]
        ]
      ]

  -- The sources of a scope are not usable, and not called source_unsettled, which is never returned; or
  -- they are usable, settled, young enough, and each required load is good and complete up to the date.
  pub resolve_source_freshness-IsUsableSource :
      let s = resolve_source_freshness db tenant scope now cutoff hours in
      ((is_usable s.state ≡ false) × (s.state ≢ source_unsettled))
      ⊎ ((is_usable s.state ≡ true) × IsUsableSource db tenant scope now cutoff hours s)
  resolve_source_freshness-IsUsableSource =
      let s = resolve_source_freshness db tenant scope now cutoff hours in
      elim (Bool-cases (is_usable s.state)) [
        | inl e ↦ inr (e, resolved_lem.1 e)
        | inr e ↦ inl (e, resolved_lem.0)
      ]
