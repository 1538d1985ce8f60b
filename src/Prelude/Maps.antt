-- ===== src/Prelude/Maps.antt =====
-- Total maps by a Boolean key test.
use mathlib.Core.Bool.{Bool}
use kltn_high_concurrency_co.Prelude.Tests.{if◌then◌else◌}

module _ {ℓ κ} {K : Type ℓ} {V : Type κ} (same : K → K → Bool) where
  abbrev pub update : (K → V) → K → V → K → V
  update m k v j = if same k j then v else m j
