-- ===== src/Metadata/Variable.antt =====
-- include/configuration.h, `VariableMetadata`: a row of the table of the options.
-- A row shows the fields that the modelled functions read; the display name, the identifier, the
-- documentation, the dependencies and the properties of the choices are left out. The pointer to
-- the parent is the chain of groups that it leads through, up to the row with Id_Root. The lists of
-- names and values are one list of pairs, up to the NULL after the last name. A variable is known by
-- the field of `global_options` that its address points to.
use Prim.Native.String.{String}
use hawk.Prelude.{ℕ, List, [], ◌∷◌, ℤ, Option, some}
use hawk.MathParser.Table.{codes}

pub data VariableType : Type 0 where
  type_real type_int type_string type_multiple_choice type_bool type_group type_image : VariableType
  type_slice type_vector_real type_vector_int type_existing_filename type_filename : VariableType
  type_directory_name type_map_real : VariableType

pub data Property : Type 0 where
  settable_before_run settable_during_run gettable_before_run gettable_during_run : Property
  mandatory deprecated advanced with_special_value experimental : Property

pub data Group : Type 0 where
  root : Group
  group : List ℕ → Group → Group

pub record Choice : Type 0 where
  pub name : List ℕ
  pub value : ℤ

pub record VariableMetadata : Type 0 where
  pub variable_name : List ℕ
  pub variable_type : VariableType
  pub parent : Option Group
  pub variable_properties : List Property
  pub choices : List Choice
  pub variable_address : Option (List ℕ)

-- The enumerators of libspimage that the table uses.
pub record Engines : Type 0 where
  pub automatic : ℤ
  pub cpu : ℤ
  pub cuda : ℤ

abbrev pub always : List Property
always = settable_before_run ∷ settable_during_run ∷ gettable_before_run ∷ gettable_during_run ∷ []

abbrev pub before_run : List Property
before_run = settable_before_run ∷ gettable_before_run ∷ gettable_during_run ∷ []

abbrev pub field : String → Option (List ℕ)
field name = some (codes name)

abbrev pub choice : String → ℤ → Choice
choice name v = record { name = codes name; value = v }

abbrev pub row :
    String → VariableType → Option Group → List Property → Option (List ℕ) → VariableMetadata
row name type parent properties address = record {
  variable_name = codes name;
  variable_type = type;
  parent = parent;
  variable_properties = properties;
  choices = [];
  variable_address = address;
}

abbrev pub choice_row :
    String
    → VariableType
    → Option Group
    → List Property
    → List Choice
    → Option (List ℕ)
    → VariableMetadata
choice_row name type parent properties choices address =
    record (row name type parent properties address) { choices = choices }

abbrev pub input_data_group : Group
input_data_group = group (codes "input_data") root

abbrev pub initial_support_group : Group
initial_support_group = group (codes "initial_support") root

abbrev pub logging_group : Group
logging_group = group (codes "logging") root

abbrev pub phasing_method_group : Group
phasing_method_group = group (codes "phasing_method") root

abbrev pub support_update_method_group : Group
support_update_method_group = group (codes "support_update_method") root

abbrev pub initial_image_group : Group
initial_image_group = group (codes "initial_image") root
