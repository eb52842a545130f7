-- ===== src/HumanControl/Ownership.antt =====
-- When automation may touch an entity, and how a one-time control gives the entity back.
use text.Mathlib.TextPositions.{eq_refl}
use text.Mathlib.TextEquality.{eq_iff}
use amz_command_center.Base.{
  All, List, Option, String, [], arith, false, none, opt_str_eq, refl, some, str_eq, str_eq_iff,
  true, ℕ, ◌<◌, ◌↔◌, ◌∙◌, ◌∷◌, ◌≡◌, ◌≢◌, select, best-cons,
}
use amz_command_center.HumanControl.Defs.{
  Control, ControlEvent, Controls, TextCase, active_control, automated, complete_one_time_control,
  completion, control_by_id, event_before, event_of, find_control, latest_state,
}

opt_str_eq_iff : (a b : Option String) → (opt_str_eq a b ≡ true) ↔ (a ≡ b)
unfolding opt_str_eq
opt_str_eq_iff none none = (λ h. refl, λ h. refl)
opt_str_eq_iff none (some t) = (λ h. cc, λ h. cc)
opt_str_eq_iff (some s) none = (λ h. cc, λ h. cc)
opt_str_eq_iff (some s) (some t) = ground (arith, str_eq_iff s t)

-- The control applies, has not ended, and is not the one that the action is linked to.
abbrev pub Holds : Option Control → String → Option String → Controls → Type 0
Holds found tenant link db =
    (c : Control) × (found ≡ some c)
    × (latest_state tenant c.id db.events ≢ some "AUTOMATED")
    × (link ≢ some c.id)

-- Every event of the control happened before `now`.
abbrev pub AllBefore : String → String → ℕ → List ControlEvent → Type 0
AllBefore tenant control now events =
    All (λ e. e.occurred_at < now) (select (event_of tenant control) events)

before_completion :
    (tenant event_id : String) (c : Control) (now : ℕ) (es : List ControlEvent)
    → All (λ e. e.occurred_at < now) es
    → All (λ e. event_before e (completion tenant c event_id now) ≡ false) es
before_completion tenant event_id c now [] h = tt
before_completion tenant event_id c now (e ∷ es) h =
    (ground arith, before_completion tenant event_id c now es h.1)

latest_state-completion :
    (tenant event_id : String) (c : Control) (now : ℕ) (events : List ControlEvent)
    → AllBefore tenant c.id now events
    → latest_state tenant c.id (completion tenant c event_id now ∷ events) ≡ some "AUTOMATED"
unfolding latest_state
latest_state-completion tenant event_id c now events h = rw (
  eq_refl tenant,
  eq_refl c.id,
  best-cons event_before (completion tenant c event_id now) (select (event_of tenant c.id) events)
      (before_completion tenant event_id c now (select (event_of tenant c.id) events) h),
)

-- A one-time control of this tenant, found by its key, that is under way: its last state is no end.
pub record IsUnderWay (tenant : String) (c : Control) (now : ℕ) (db : Controls) : Type 0 where
  pub keyed : control_by_id tenant c.id db.rows ≡ some c
  pub named : str_eq c.id "" ≡ false
  pub once : c.duration ≡ "one_time"
  pub last : String
  pub latest : latest_state tenant c.id db.events ≡ some last
  pub not_ended : str_eq last "AUTOMATED" ≡ false
  pub past : AllBefore tenant c.id now db.events

pub completed : String → Control → String → ℕ → Controls → Controls
completed tenant c event_id now db = record db {
  events = completion tenant c event_id now ∷ db.events;
}

complete_lem :
    (tenant event_id : String) (c : Control) (now : ℕ) (db : Controls)
    → IsUnderWay tenant c now db
    → complete_one_time_control tenant (some c.id) event_id now db
      ≡ some (completed tenant c event_id now db)
unfolding complete_one_time_control completed
complete_lem tenant event_id c now db u =
    ground
      (arith, eq_iff c.duration "one_time", eq_iff "AUTOMATED" u.last, eq_iff u.last "AUTOMATED")

find_control-completed :
    ⦃t : TextCase⦄ (tenant entity_type entity_id scope event_id : String) (c : Control) (now : ℕ)
    (db : Controls)
    → find_control tenant entity_type entity_id scope (completed tenant c event_id now db)
      ≡ find_control tenant entity_type entity_id scope db
unfolding find_control completed
find_control-completed tenant entity_type entity_id scope event_id c now db = refl

active_control_ended :
    ⦃t : TextCase⦄ (tenant entity_type entity_id scope : String) (link : Option String)
    (c : Control) (later : ℕ) (db : Controls)
    → find_control tenant entity_type entity_id scope db ≡ some c
    → latest_state tenant c.id db.events ≡ some "AUTOMATED"
    → active_control tenant entity_type entity_id scope link later db ≡ automated
unfolding active_control
active_control_ended tenant entity_type entity_id scope link c later db e l =
    ground (arith, opt_str_eq_iff (latest_state tenant c.id db.events) (some "AUTOMATED"))

-- An ended control cannot be completed again.
pub complete_ended :
    (tenant event_id : String) (c : Control) (now : ℕ) (db : Controls)
    → control_by_id tenant c.id db.rows ≡ some c
    → str_eq c.id "" ≡ false
    → c.duration ≡ "one_time"
    → latest_state tenant c.id db.events ≡ some "AUTOMATED"
    → complete_one_time_control tenant (some c.id) event_id now db ≡ none
unfolding complete_one_time_control
complete_ended tenant event_id c now db k n d l = ground (arith, eq_iff c.duration "one_time")

-- Once the action linked to a one-time control under way has succeeded, the entity is automated
-- again for every action; and a second action linked to the same control makes the database raise.
pub complete_releases :
    ⦃t : TextCase⦄ (tenant entity_type entity_id scope event_id other_id : String)
    (link : Option String) (c : Control) (now other later : ℕ) (db : Controls)
    → IsUnderWay tenant c now db
    → find_control tenant entity_type entity_id scope db ≡ some c
    → (db' : Controls) × (complete_one_time_control tenant (some c.id) event_id now db ≡ some db')
      × (active_control tenant entity_type entity_id scope link later db' ≡ automated)
      × (complete_one_time_control tenant (some c.id) other_id other db' ≡ none)
complete_releases tenant entity_type entity_id scope event_id other_id link c now other later db u
      e =
    let db' = completed tenant c event_id now db in
    let ended : latest_state tenant c.id db'.events ≡ some "AUTOMATED" =
      unfold completed in latest_state-completion tenant event_id c now db.events u.past in
    let kept : control_by_id tenant c.id db'.rows ≡ some c = unfold completed in u.keyed in
    (
      db',
      complete_lem tenant event_id c now db u,
      active_control_ended tenant entity_type entity_id scope link c later db'
          (find_control-completed tenant entity_type entity_id scope event_id c now db ∙ e) ended,
      complete_ended tenant other_id c other db' kept u.named u.once ended,
    )
