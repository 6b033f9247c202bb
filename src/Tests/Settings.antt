-- ===== src/Tests/Settings.antt =====
-- src/config.c: lines of a properties file.
use chowder.Prelude.Text.{all, codes}
use chowder.Prelude.{
  arith, some, get_elem?, ◌≡◌, refl, List, [], ◌∷◌, ◌++◌, true, false, replicate, ok,
}
use chowder.Config.{ConfigValue, cv_bool, Field, unset, bool, config_mappings}
use chowder.Config.Read.{
  config_ok, read_server_properties, set_default_server_properties, process_line, with_line,
  process_data,
}
use chowder.Config.Laws.{process_line-setting}
use chowder.Config.Whole.{read_fields, read_server_properties-set_default_server_properties}

abbrev no_fields : List Field
no_fields = replicate 36 unset

abbrev pvp : ConfigValue
pvp = record { prop_name = codes "pvp"; default = cv_bool true }

process_line-setting_example :
    process_line (codes "pvp" ++ b'=' ∷ (codes "false" ++ b'\n' ∷ 0 ∷ [])) no_fields
    ≡ ok (
        with_line
          (codes "pvp" ++ 0 ∷ (codes "false" ++ 0 ∷ 0 ∷ []))
          (process_data (cv_bool true) 4 (codes "false") no_fields))
unfolding config_mappings all
process_line-setting_example =
    process_line-setting 4 pvp (codes "false") (0 ∷ []) no_fields refl refl

read_server_properties-set_default_server_properties_example :
    read_server_properties
      (replicate 1024 0)
      (some ((set_default_server_properties (codes "now" ++ b'\n' ∷ []) no_fields).0))
      no_fields
    ≡ ok (config_ok, read_fields 0 config_mappings no_fields)
unfolding all
read_server_properties-set_default_server_properties_example =
    read_server_properties-set_default_server_properties (codes "now") (replicate 1024 0) no_fields
      no_fields (omega arith) refl

-- What it reads: `enable-command-block` is set, and `pvp` is not.
read_fields_negated :
    (get_elem? (read_fields 0 config_mappings no_fields) 1 ≡ some (bool true))
    × (get_elem? (read_fields 0 config_mappings no_fields) 4 ≡ some (bool false))
unfolding read_fields config_mappings
read_fields_negated = (refl, refl)
