-- ===== src/Rfa/Errors.antt =====
-- The names of the severities and classes of RFA's exceptions: src/error.cc.
use psych.Prelude.Bytes.{Bytes, codes}

-- `rfa::common::Exception::…`; `other` is a number that has no case
pub data Severity : Type 0 where
  error warning information other : Severity

pub data Classification : Type 0 where
  anticipated internal external incorrect_api_usage configuration_error other : Classification

unfoldable pub severity_string : Severity → Bytes
severity_string error = codes "Error"
severity_string warning = codes "Warning"
severity_string information = codes "Information"
severity_string Severity.other = codes "(Unknown)"

unfoldable pub classification_string : Classification → Bytes
classification_string anticipated = codes "Anticipated"
classification_string internal = codes "Internal"
classification_string external = codes "External"
classification_string incorrect_api_usage = codes "IncorrectAPIUsage"
classification_string configuration_error = codes "ConfigurationError"
classification_string Classification.other = codes "(Unknown)"
