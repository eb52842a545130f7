-- ===== src/Tests/Settings.antt =====
-- A row of settings that is complete and within the ranges.
use amz_command_center.Base.{ok, refl, ◌≡◌}
use amz_command_center.Number.{ticks}
use amz_command_center.Json.{find, float_of, get}
use amz_command_center.Samples.{open_config, open_row, same_case, ticks_repr, token_redactor}
use amz_command_center.Settings.{
  bool_field, check_ranges, float_field, int_field, missing_fields, typed_values, validated_values,
}
use amz_command_center.Settings.Ranges.{IsRead, IsValid, validated_values-IsValid}

validated_lem : validated_values open_row ≡ ok open_config
unfolding validated_values typed_values bool_field int_field float_field check_ranges missing_fields
    get find float_of
validated_lem = refl

validated_values-IsValid_example : IsValid open_config × IsRead open_row open_config
validated_values-IsValid_example = validated_values-IsValid open_row validated_lem
