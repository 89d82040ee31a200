-- ===== src/Commerce/Lawful/Steps.antt =====
-- What every request of backend/src/modules/commerce has in common: checks of the publish flow, and the audit.
use content_hub.Base.{ℕ, ap}
use content_hub.Base.Effects.{M, Result, ok, err, feed, ◌>>=◌, ◌>>◌, return, modify}
use content_hub.Base.Effects.Passing.{Decides}
use content_hub.Base.Effects.Keeping.{Guards, passes, throws}
use content_hub.Publish.Store.{Store, AuditAction}
use content_hub.Commerce.Market.{Market, on_store, note}
use content_hub.Commerce.Lawful.{IsLawful}

-- A check of the publish flow, on the store.
pub store_guards :
    {A : Type 0} {m : M Store A} {P : A → Type 0} {s : Market}
    → IsLawful s
    → Decides m s.store P
    → Guards IsLawful (on_store m) s P
store_guards {s = s} i (Decides.passes a runs p) =
    passes a (ap (λ r. (r.0, record s { store = r.1 })) runs) p
store_guards {s = s} i (Decides.throws e t refused) =
    throws e (record s { store = t }) (ap (λ r. (r.0, record s { store = r.1 })) refused) i

-- The audit of a success touches no table of the shop.
noted_result :
    {A : Type 0} (user_id : ℕ) (action : AuditAction) (r : Result A × Market)
    → IsLawful r.1
    → IsLawful (feed r (λ x. modify (note user_id action) >> return x)).1
unfolding note
noted_result user_id action (ok a, s) i = i
noted_result user_id action (err e, s) i = i

pub noted :
    {A : Type 0} (user_id : ℕ) (action : AuditAction) (m : M Market A) (s : Market)
    → IsLawful (m s).1
    → IsLawful ((m >>= λ x. modify (note user_id action) >> return x) s).1
noted user_id action m s i = noted_result user_id action (m s) i
