-- ===== src/Base/Json.antt =====
-- What the sources use of `encoding/json`, at one type.
use mathlib.Core.Option.{Option}
use codewire.Base.Text.{Text}

pub record Json (A : Type 0) : Type 0 where
  pub marshal : A → Option Text
  pub unmarshal : Text → Option A
