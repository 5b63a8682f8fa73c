-- ===== src/Alert.antt =====
-- core-rs/core/src/alert.rs. A text is the list of its bytes. The message of an alert is kept as the
-- values that `format!` prints; the score and the window are floats, whose type is a parameter.
use netmon_polyglot.Prelude.{ℕ, Option, List, String}
use netmon_polyglot.Net.{IpAddr}

abbrev pub Text : Type 0
Text = List ℕ

pub data Severity : Type 0 where
  low medium high critical : Severity

pub data AlertSource : Type 0 where
  rule anomaly : AlertSource

-- `"{src}: {observed} {what} in {}s"`
pub record RuleMessage (F : Type 0) : Type 0 where
  pub src : IpAddr
  pub observed : ℕ
  pub what : String
  pub window_secs : F

-- Of a rule, or `"{host}: anomaly score {score:.2} ({reason})"` of an anomaly.
pub data Message (F : Type 0) : Type 0 where
  of_rule : RuleMessage F → Message F
  of_anomaly : Text → F → Text → Message F

pub record Alert (F : Type 0) : Type 0 where
  pub ts_us : ℕ
  pub source : AlertSource
  pub severity : Severity
  pub rule_id : Text
  pub message : Message F
  pub src : Option IpAddr
  pub score : F
