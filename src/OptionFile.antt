-- ===== src/OptionFile.antt =====
-- src/configuration.c: the path of an option in an option file, the type of its setting, and the
-- way a multiple choice is read and written, and the loop that reads a file.
pub mod Path
pub mod Choice
mod Listed
pub mod RoundTrip
pub mod Reading
pub mod LastRow
pub mod Spares
pub mod Groups
pub mod GroupLoop
use hawk.Prelude.{◌≡◌, refl, Outcome, ok, aborted}
use hawk.Metadata.Variable.{
  VariableType, type_real, type_int, type_string, type_multiple_choice, type_bool, type_group,
  type_image, type_slice, type_vector_real, type_vector_int, type_existing_filename, type_filename,
  type_directory_name, type_map_real,
}

-- The types of libconfig.h that the options use.
pub data ConfigType : Type 0 where
  config_group config_int config_float config_string config_bool config_array : ConfigType
  config_list : ConfigType

unfoldable pub get_config_type : VariableType → Outcome ConfigType
get_config_type type_real = ok config_float
get_config_type type_int = ok config_int
get_config_type type_filename = ok config_string
get_config_type type_existing_filename = ok config_string
get_config_type type_directory_name = ok config_string
get_config_type type_string = ok config_string
get_config_type type_multiple_choice = ok config_string
get_config_type type_bool = ok config_bool
get_config_type type_group = ok config_group
get_config_type type_vector_real = ok config_array
get_config_type type_vector_int = ok config_array
get_config_type type_map_real = ok config_list
get_config_type type_image = aborted
get_config_type type_slice = aborted
