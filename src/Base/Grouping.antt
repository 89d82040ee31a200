-- ===== src/Base/Grouping.antt =====
-- Rows that are added up in groups, one for each key: the shared accumulator of
-- backend/src/modules/commerce/commerce-read.service.ts and of backend/src/modules/paid/paid-read.service.ts, on
-- the entries of the map in the order of their insertion.
pub mod Laws
use content_hub.Base.{Bool, List, [], ◌∷◌, if◌then◌else◌}

module _ {C T K : Type 0} (zero : C → T) (add : C → T → T) (same : K → K → Bool) where
  -- `accumulate`, where `zero` is the fresh total of a row and `add` adds a row to a total.
  unfoldable pub accumulate : K → C → List (K × T) → List (K × T)
  accumulate key c [] = (key, add c (zero c)) ∷ []
  accumulate key c ((k, existing) ∷ groups) =
      if same k key then (k, add c existing) ∷ groups else (k, existing) ∷ accumulate key c groups

  -- The loop over the rows.
  unfoldable pub group_loop : (C → K) → List C → List (K × T) → List (K × T)
  group_loop key [] groups = groups
  group_loop key (c ∷ cs) groups = group_loop key cs (accumulate (key c) c groups)
