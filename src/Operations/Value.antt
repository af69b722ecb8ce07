-- ===== src/Operations/Value.antt =====
-- What Go holds as `any` and `map[string]any` after `encoding/json`: nil, booleans, numbers, texts,
-- arrays and objects. A finite `float64` is an integer over a power of two.
use agentsmith_fs_control_pl.Prelude.{ℕ, Bool, ℤ}
use agentsmith_fs_control_pl.Text.{Text}

mutual
  pub data Value : Type 0 where
    nil : Value
    boolean : Bool → Value
    integer : ℤ → Value
    float : ℤ → ℕ → Value
    number : Text → Value
    text : Text → Value
    array : Items → Value
    object : Members → Value

  pub data Items : Type 0 where
    end : Items
    item : Value → Items → Items

  pub data Members : Type 0 where
    no_members : Members
    member : Text → Value → Members → Members
