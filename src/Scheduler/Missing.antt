-- ===== src/Scheduler/Missing.antt =====
-- The catch-up plan has just the days that no successful run covers.
use text.Mathlib.TextPositions.{eq_refl}
use amz_command_center.Base.{
  All, All-imp, Bool, Bool-cases, List, Option, Option-cases, String, [], ap, arith, exists, false,
  if◌then◌else◌, inl, inr, insert_by, leb, ltb, none, not, ok, refl, select, some, sort_by, str_eq,
  suc, true, zero, ℕ, ◌&&◌, ◌++◌, ◌+◌, ◌-◌, ◌==◌, ◌||◌, ◌∷◌, ◌≡◌, ◌≤◌,
}
use amz_command_center.Scheduler.CatchUp.{
  CatchUpPlan, PipelineRun, build_catch_up_plan, date_range, days_from, is_in, is_successful,
  missing_dates, plans_for, run_dates, selected_datasets, successful_run_dates,
}

exists-append :
    {A : Type 0} (p : A → Bool) (xs ys : List A)
    → exists p (xs ++ ys) ≡ (exists p xs || exists p ys)
exists-append p [] ys = refl
exists-append p (x ∷ xs) ys = ground (arith, exists-append p xs ys)

exists-insert_by :
    {A : Type 0} (p : A → Bool) (before : A → A → Bool) (x : A) (xs : List A)
    → exists p (insert_by before x xs) ≡ (p x || exists p xs)
unfolding insert_by
exists-insert_by p before x [] = ground arith
exists-insert_by p before x (y ∷ ys) = ground (arith, exists-insert_by p before x ys)

exists-sort_by :
    {A : Type 0} (p : A → Bool) (before : A → A → Bool) (xs : List A)
    → exists p (sort_by before xs) ≡ exists p xs
unfolding sort_by
exists-sort_by p before [] = refl
exists-sort_by p before (x ∷ xs) =
    ground (arith, exists-insert_by p before x (sort_by before xs), exists-sort_by p before xs)

-- The members of a difference.
in-select : (d : ℕ) (p : ℕ → Bool) (xs : List ℕ) → is_in d (select p xs) ≡ (is_in d xs && p d)
in-select d p [] = refl
in-select d p (x ∷ xs) = elim (Bool-cases (d == x)) [
  | inl e ↦ let same : d ≡ x = ground arith in ground (arith, in-select d p xs, ap p same)
  | inr e ↦ ground (arith, in-select d p xs)
]

in-days_from :
    (d first count : ℕ) → is_in d (days_from first count) ≡ (leb first d && ltb d (first + count))
unfolding days_from
in-days_from d first zero = ground arith
in-days_from d first (suc count) = ground (arith, in-days_from d (suc first) count)

in-date_range : (d start end : ℕ) → is_in d (date_range start end) ≡ (leb start d && leb d end)
unfolding date_range
in-date_range d start end = ground (arith, in-days_from d start (end - start + 1))

-- A successful run of the dataset covers the day.
abbrev pub covers : String → String → ℕ → PipelineRun → Bool
covers tenant dataset d r =
    str_eq r.tenant_id tenant
    && str_eq r.dataset dataset
    && str_eq r.status "success"
    && elim r.date_from [
      | none ↦ false
      | some first ↦ elim r.date_to [ none ↦ false | some last ↦ leb first d && leb d last ]
    ]

abbrev pub is_covered : List PipelineRun → String → String → ℕ → Bool
is_covered runs tenant dataset d = exists (covers tenant dataset d) runs

in-run_dates :
    (tenant dataset : String) (d start end : ℕ) (r : PipelineRun)
    → (leb start d && leb d end) ≡ true
    → (is_successful tenant dataset start end r && is_in d (run_dates start end r))
      ≡ covers tenant dataset d r
unfolding run_dates
in-run_dates tenant dataset d start end r h = elim (Option-cases r.date_from) [
  | inl e ↦ rw e (ground arith)
  | inr (first, e) ↦ elim (Option-cases r.date_to) [
    | inl f ↦ rw (e, f) (ground arith)
    | inr (last, f) ↦
        let current = if ltb first start then start else first in
        let final = if ltb end last then end else last in
        rw (run_dates, e, f) (ground (arith, in-days_from d current (final + 1 - current)))
  ]
]

in-successful_run_dates :
    (runs : List PipelineRun) (tenant dataset : String) (d start end : ℕ)
    → (leb start d && leb d end) ≡ true
    → is_in d (successful_run_dates runs tenant dataset start end)
      ≡ is_covered runs tenant dataset d
unfolding successful_run_dates
in-successful_run_dates [] tenant dataset d start end h = refl
in-successful_run_dates (r ∷ runs) tenant dataset d start end h =
    let rest = in-successful_run_dates runs tenant dataset d start end h in
    let this = in-run_dates tenant dataset d start end r h in
    elim (Bool-cases (is_successful tenant dataset start end r)) [
      | inl e ↦ rw e (
          ground (
            arith,
            exists-append (λ x. d == x) (run_dates start end r)
                (successful_run_dates runs tenant dataset start end),
          ))
      | inr e ↦ rw e (ground arith)
    ]

-- A day is missing exactly when it lies in the window and no successful run covers it.
pub missing_dates-covered :
    (runs : List PipelineRun) (tenant dataset : String) (d start end : ℕ)
    → is_in d (missing_dates runs tenant dataset start end)
      ≡ (leb start d && leb d end && not (is_covered runs tenant dataset d))
unfolding missing_dates
missing_dates-covered runs tenant dataset d start end =
    let present = successful_run_dates runs tenant dataset start end in
    let expected = date_range start end in
    let sorted = exists-sort_by (λ x. d == x) ltb (select (λ x. not (is_in x present)) expected) in
    let kept = in-select d (λ x. not (is_in x present)) expected in
    let range = in-date_range d start end in
    elim (Bool-cases (leb start d && leb d end)) [
      | inl h ↦ ground (arith, in-successful_run_dates runs tenant dataset d start end h)
      | inr h ↦ ground arith
    ]

-- What the days of a plan are: in the window, and not covered.
abbrev pub IsMissed : List PipelineRun → String → ℕ → ℕ → CatchUpPlan → Type 0
IsMissed runs tenant start end p =
    (d : ℕ)
    → is_in d p.dates ≡ true
    → (start ≤ d) × (d ≤ end) × (is_covered runs tenant p.dataset d ≡ false)

-- A plan of the dataset has the day.
abbrev pub is_planned : String → ℕ → CatchUpPlan → Bool
is_planned dataset d p = str_eq p.dataset dataset && is_in d p.dates

plans_for-IsMissed :
    (runs : List PipelineRun) (tenant : String) (start end : ℕ) (datasets : List String)
    → All (IsMissed runs tenant start end) (plans_for runs tenant start end datasets)
unfolding plans_for
plans_for-IsMissed runs tenant start end [] = tt
plans_for-IsMissed runs tenant start end (dataset ∷ rest) =
    go (missing_dates runs tenant dataset start end) refl
      (plans_for-IsMissed runs tenant start end rest)
  where
    go :
        (dates : List ℕ)
        → missing_dates runs tenant dataset start end ≡ dates
        → All (IsMissed runs tenant start end) (plans_for runs tenant start end rest)
        → All (IsMissed runs tenant start end) (plans_for runs tenant start end (dataset ∷ rest))
    go [] e h = rw (plans_for, e) h
    go (x ∷ xs) e h =
        rw (plans_for, e)
          (
            λ d i.
                let q = missing_dates-covered runs tenant dataset d start end in
                let here = ap (is_in d) e in (ground arith, ground arith, ground arith),
            h,
          )

plans_for_complete :
    (runs : List PipelineRun) (tenant : String) (start end d : ℕ) (datasets : List String)
    → start ≤ d
    → d ≤ end
    → All
        (λ dataset.
          is_covered runs tenant dataset d ≡ false
          → exists (is_planned dataset d) (plans_for runs tenant start end datasets) ≡ true)
        datasets
unfolding plans_for
plans_for_complete runs tenant start end d [] a b = tt
plans_for_complete runs tenant start end d (dataset ∷ rest) a b =
    go (missing_dates runs tenant dataset start end) refl
      (plans_for_complete runs tenant start end d rest a b)
  where
    go :
        (dates : List ℕ)
        → missing_dates runs tenant dataset start end ≡ dates
        → All
            (λ other.
              is_covered runs tenant other d ≡ false
              → exists (is_planned other d) (plans_for runs tenant start end rest) ≡ true)
            rest
        → All
            (λ other.
              is_covered runs tenant other d ≡ false
              → exists (is_planned other d) (plans_for runs tenant start end (dataset ∷ rest))
                ≡ true)
            (dataset ∷ rest)
    go [] e h =
        let q = missing_dates-covered runs tenant dataset d start end in
        let here = ap (is_in d) e in
        (λ c. ground arith, All-imp _ _ rest (λ other k c. rw (plans_for, e) (k c)) h)
    go (x ∷ xs) e h =
        let q = missing_dates-covered runs tenant dataset d start end in
        let here = ap (is_in d) e in
        (
          λ c. rw (plans_for, e) (ground (arith, eq_refl dataset)),
          All-imp _ _ rest (λ other k c. rw (plans_for, e) (ground (arith, k c))) h,
        )

-- For a window of at least one day that does not start before the calendar, a plan is returned; its
-- days are days of the window that no successful run of the dataset covers, and for each dataset
-- asked for they are all of them.
pub build_catch_up_plan_complete :
    (runs : List PipelineRun) (tenant : String) (today days : ℕ) (datasets : Option (List String))
    → 1 ≤ days
    → days ≤ today
    → (plans : List CatchUpPlan) × (build_catch_up_plan runs tenant today days datasets ≡ ok plans)
      × All (IsMissed runs tenant (today - days) (today - 1)) plans
      × ((d : ℕ)
          → today - days ≤ d
          → d ≤ today - 1
          → All
              (λ dataset.
                is_covered runs tenant dataset d ≡ false
                → exists (is_planned dataset d) plans ≡ true)
              (selected_datasets datasets))
unfolding build_catch_up_plan
build_catch_up_plan_complete runs tenant today days datasets h k =
    let selected = selected_datasets datasets in
    (
      plans_for runs tenant (today - days) (today - 1) selected,
      ground arith,
      plans_for-IsMissed runs tenant (today - days) (today - 1) selected,
      λ d a b. plans_for_complete runs tenant (today - days) (today - 1) d selected a b,
    )
