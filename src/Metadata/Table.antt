-- ===== src/Metadata/Table.antt =====
-- src/metadata.c: the table `variable_metadata`, in its order.
mod First
mod Second
mod Third
mod Fourth
use hawk.Prelude.{List, ◌++◌}
use hawk.Metadata.Variable.{VariableMetadata, Engines}
use First.{rows_0, rows_10, rows_20, rows_31}
use Second.{rows_43, rows_55, rows_66, rows_76}
use Third.{rows_86, rows_96, rows_106, rows_116}
use Fourth.{rows_125, rows_135}

abbrev pub variable_metadata : Engines → List VariableMetadata
variable_metadata engines =
    rows_0
    ++ rows_10
    ++ rows_20
    ++ rows_31
    ++ rows_43
    ++ rows_55
    ++ rows_66
    ++ rows_76
    ++ rows_86
    ++ rows_96
    ++ rows_106
    ++ rows_116
    ++ rows_125
    ++ rows_135 engines
