-- ===== src/Retry/Release.antt =====
-- What a release does to the table of actions, and where the database refuses it.
use Prim.Native.String.{◌++◌ as append}
use mathlib.Core.Path.{subst}
use amz_command_center.Base.{
  All, All-imp, Bool, Bool-cases, List, Option, Option-cases, String, [], ap, arith, exists, false,
  if◌then◌else◌, inl, inr, length, length-take, ltb, map, none, not, ok, opt_str_eq, raised, refl,
  select, select-All, some, sort_by, sort_by-All, str_eq_iff, sym, take-All, take-cases, true, ℕ,
  ◌&&◌, ◌++◌, ◌∙◌, ◌∷◌, ◌≡◌, ◌≤◌, ◌⊎◌, Among, All-select, All-sort_by, Among-All,
}
use amz_command_center.StateMachine.{failed, status_eq}
use amz_command_center.Audit.{key_or}
use amz_command_center.Retry.Defs.{
  Failing, Queue, RetryWorld, due_before, due_rows, entity_taken, has_key, is_due, is_sibling,
  is_taken, release_all, release_due_retries, release_of, release_one, release_row, reopened,
}

module _ {W : Type 0} where
  -- The key of the row is among those of the chosen rows.
  abbrev pub is_chosen : String → List (Failing W) → Failing W → Bool
  is_chosen tenant chosen row = exists (λ c. has_key tenant c.action.id row) chosen

  -- The row as one release leaves it: reopened if it is chosen and failed, else as it was.
  abbrev pub released : String → ℕ → List (Failing W) → Failing W → Failing W
  released tenant now chosen row =
      if is_chosen tenant chosen row && status_eq row.action.status failed
      then record (reopened row) { last_retry_at = some now }
      else row

  released-row :
      (tenant : String) (now : ℕ) (c : Failing W) (chosen : List (Failing W)) (row : Failing W)
      → released tenant now chosen (release_row tenant now c.action.id row)
        ≡ released tenant now (c ∷ chosen) row
  unfolding release_row status_eq
  released-row tenant now c chosen row = ground arith

  map_fuse :
      (tenant : String) (now : ℕ) (c : Failing W) (chosen rows : List (Failing W))
      → map (released tenant now chosen) (map (release_row tenant now c.action.id) rows)
        ≡ map (released tenant now (c ∷ chosen)) rows
  map_fuse tenant now c chosen [] = refl
  map_fuse tenant now c chosen (row ∷ rows) =
      rw (released-row tenant now c chosen row, map_fuse tenant now c chosen rows) refl

  map_same :
      (tenant : String) (now : ℕ) (rows : List (Failing W))
      → map (released tenant now []) rows ≡ rows
  map_same tenant now [] = refl
  map_same tenant now (row ∷ rows) = rw (map_same tenant now rows) refl

  -- After the rows before it, an update is refused: another open change has its entity.
  abbrev pub IsRefused : String → ℕ → List (Failing W) → List (Failing W) → Type 0
  IsRefused tenant now chosen rows =
      (before : List (Failing W)) × (row : Failing W) × (after : List (Failing W)) × (chosen
        ≡ before ++ row ∷ after)
      × (is_taken row (map (released tenant now before) rows) ≡ true)

  release_all-cases :
      (w : RetryWorld W) (tenant : String) (now : ℕ) (key : String) (chosen : List (Failing W))
      (q : Queue W)
      → ((q' : Queue W) × (release_all w tenant now key chosen q ≡ ok q')
          × (q'.rows ≡ map (released tenant now chosen) q.rows))
        ⊎ ((release_all w tenant now key chosen q ≡ raised entity_taken)
            × IsRefused tenant now chosen q.rows)
  unfolding release_all
  release_all-cases w tenant now key [] q = inl (q, refl, sym (map_same tenant now q.rows))
  release_all-cases w tenant now key (c ∷ chosen) q = elim (Bool-cases (is_taken c q.rows)) [
    | inl e ↦
        inr (rw (release_all, e) refl, ([], c, chosen, refl, rw (map_same tenant now q.rows) e))
    | inr e ↦ elim (release_all-cases w tenant now key chosen (release_one w tenant now key c q)) [
      | inl (q', h, k) ↦ inl (q', rw (release_all, e) h, k ∙ map_fuse tenant now c chosen q.rows)
      | inr (h, (before, row, after, k, taken)) ↦ inr (
        rw (release_all, e) h,
        (
          c ∷ before,
          row,
          after,
          ap (λ l. c ∷ l) k,
          subst (λ l. is_taken row l ≡ true) (map_fuse tenant now c before q.rows) taken,
        ),
      )
    ]
  ]

  -- What the query asks of a row, and that nobody else has locked it.
  pub record IsDue (w : RetryWorld W) (tenant : String) (now : ℕ) (rows : List (Failing W))
      (row : Failing W) : Type 0 where
    pub at : ℕ
    pub of_tenant : row.action.tenant_id ≡ tenant
    pub has_failed : row.action.status ≡ failed
    pub not_dead : row.dead_lettered_at ≡ none
    pub transient : row.failure_classification ≡ some "transient"
    pub scheduled : row.next_attempt_at ≡ some at
    pub reached : at ≤ now
    pub alone : exists (is_sibling row) rows ≡ false
    pub unlocked : w.is_locked row ≡ false

  module _ (w : RetryWorld W) (tenant : String) (now : ℕ) (rows : List (Failing W)) where
    due_lem :
        (row : Failing W)
        → (is_due tenant now rows row && not (w.is_locked row)) ≡ true
        → IsDue w tenant now rows row
    unfolding is_due opt_str_eq
    due_lem row e = elim (Option-cases row.next_attempt_at) [
      | inl h ↦ absurd (ground (arith, h))
      | inr (t, h) ↦ elim (Option-cases row.failure_classification) [
        | inl k ↦ absurd (ground (arith, k))
        | inr (s, k) ↦ record {
          at = t;
          of_tenant = (str_eq_iff row.action.tenant_id tenant).0 (ground arith);
          has_failed = ground arith;
          not_dead = ground arith;
          transient = k ∙ ap some ((str_eq_iff s "transient").0 (ground (arith, k)));
          scheduled = h;
          reached = ground (arith, h);
          alone = ground arith;
          unlocked = ground arith;
        }
      ]
    ]

    wanted_lem :
        (row : Failing W)
        → IsDue w tenant now rows row
        → (is_due tenant now rows row && not (w.is_locked row)) ≡ true
    unfolding is_due opt_str_eq
    wanted_lem row d =
        let mine = (str_eq_iff row.action.tenant_id tenant).1 d.of_tenant in
        ground (
          arith, d, mine, d.has_failed, d.not_dead, d.transient, d.scheduled, d.reached, d.alone,
          d.unlocked,
        )

    -- Every row that the query finds, unless the limit is reached.
    all-IsDue :
        (limit : ℕ)
        → (length (due_rows w tenant limit now rows) ≡ limit)
          ⊎ All
              (λ row. IsDue w tenant now rows row → Among row (due_rows w tenant limit now rows))
              rows
    unfolding due_rows
    all-IsDue limit =
        let found = select (λ row. is_due tenant now rows row && not (w.is_locked row)) rows in
        let chosen = due_rows w tenant limit now rows in
        elim (take-cases limit (sort_by due_before found)) [
          | inl e ↦ inl e
          | inr e ↦ inr (
              All-imp _ _ rows (λ row h d. h (wanted_lem row d))
                (All-select (λ row. Among row chosen) _ rows
                  (All-sort_by _ due_before found
                    (subst (λ l. All (λ row. Among row chosen) l) e (Among-All chosen)))))
        ]

  -- With a limit of one or more a release takes the rows that are due, failed of a transient cause,
  -- no dead letters, not locked and without another open change of their entity: all of them, or as
  -- many as the limit. Either it reopens just these, pending and not approved, and every other row
  -- of the table is as it was; or the unique index on the open changes of an entity refuses one of
  -- them once those before it are reopened, and it raises.
  pub release_due_retries-IsDue :
      (w : RetryWorld W) (tenant : String) (limit now : ℕ) (key : Option String) (q : Queue W)
      → 1 ≤ limit
      → (chosen : List (Failing W)) × (length chosen ≤ limit)
        × All (IsDue w tenant now q.rows) chosen
        × ((length chosen ≡ limit)
            ⊎ All (λ row. IsDue w tenant now q.rows row → Among row chosen) q.rows)
        × (((q' : Queue W) × (release_due_retries w tenant limit now key q
                ≡ ok (map release_of chosen, q'))
              × (q'.rows ≡ map (released tenant now chosen) q.rows))
            ⊎ ((release_due_retries w tenant limit now key q ≡ raised entity_taken)
                × IsRefused tenant now chosen q.rows))
  unfolding release_due_retries due_rows
  release_due_retries-IsDue w tenant limit now key q h =
      let chosen = due_rows w tenant limit now q.rows in
      let found = select (λ row. is_due tenant now q.rows row && not (w.is_locked row)) q.rows in
      let low : ltb limit 1 ≡ false = ground (arith, h) in
      let correlation = key_or key (append "retry-release:" w.new_key) in
      (
        chosen,
        length-take limit (sort_by due_before found),
        take-All _ limit (sort_by due_before found) (
            sort_by-All _ due_before found
              (select-All (IsDue w tenant now q.rows) _ q.rows (due_lem w tenant now q.rows))),
        all-IsDue w tenant now q.rows limit,
        elim (release_all-cases w tenant now correlation chosen q) [
          | inl (q', e, k) ↦ inl (q', rw (release_due_retries, low, e) refl, k)
          | inr (e, k) ↦ inr (rw (release_due_retries, low, e) refl, k)
        ],
      )
