-- ===== src/Tests/Freshness.antt =====
-- A keyword load that is complete up to the day 6, and finished an hour before the tenth day.
use amz_command_center.Base.{
  [], false, none, opt_str_eq, refl, some, true, ◌*◌, ◌-◌, ◌∷◌, ◌≡◌, ◌≢◌, ◌⊎◌,
}
use amz_command_center.Number.{ticks}
use amz_command_center.StateMachine.{day, hour}
use amz_command_center.Freshness.{
  LoadTables, fresh, is_usable, resolve_source_freshness, source_unsettled,
}
use amz_command_center.Freshness.Usable.{IsUsableSource, resolve_source_freshness-IsUsableSource}

abbrev loaded_tables : LoadTables
loaded_tables = record {
  watermarks =
      record {
        tenant_id = "t-1";
        dataset = "ads_sp_keyword_daily";
        last_complete_date = some 6;
        last_status = some "success";
      }
      ∷ [];
  runs =
      record {
        tenant_id = "t-1";
        dataset = "ads_sp_keyword_daily";
        status = "success";
        started_at = 1;
        finished_at = some (10 * day - hour);
        rows_loaded = some 3;
        error = none;
        date_from = some 6;
        date_to = some 6;
      }
      ∷ [];
}

resolve_source_freshness-IsUsableSource_example :
    let s = resolve_source_freshness loaded_tables "t-1" "keyword" (10 * day) 7 48 in
    ((is_usable s.state ≡ false) × (s.state ≢ source_unsettled))
    ⊎ ((is_usable s.state ≡ true) × IsUsableSource loaded_tables "t-1" "keyword" (10 * day) 7 48 s)
resolve_source_freshness-IsUsableSource_example =
    resolve_source_freshness-IsUsableSource loaded_tables "t-1" "keyword" (10 * day) 7 48

loaded_lem : (resolve_source_freshness loaded_tables "t-1" "keyword" (10 * day) 7 48).state ≡ fresh
unfolding resolve_source_freshness opt_str_eq
loaded_lem = refl
