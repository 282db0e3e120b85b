-- ===== src/Tests/Internal.antt =====
-- The listing of the partners behind the internal API's authentication.
use naesb_edi.Base.{◌≡◌, ◌⊎◌, List, [], ◌∷◌, ok, err, codes}
use naesb_edi.Effects.{Action}
use naesb_edi.Exceptions.{Exception}
use naesb_edi.Internal.{
  Credentials, PartnerSummary, AreConfigured, guarded, list_partners, guarded-AreConfigured,
}
use naesb_edi.Partners.{PartnerRegistry, registry}
use naesb_edi.Tests.Fixtures.{outside, settings, partner}

abbrev credentials : Credentials
credentials = record { username = codes "key"; password = codes "key" }

abbrev route : Action PartnerRegistry (List PartnerSummary)
route partners = (ok (list_partners partners), partners)

guarded-AreConfigured_example :
    (AreConfigured outside.auth outside.environ settings credentials
      × (guarded outside.auth outside.environ settings credentials route (registry (partner ∷ []))
          ≡ route (registry (partner ∷ []))))
    ⊎ ((e : Exception) × (guarded outside.auth outside.environ settings credentials route
            (registry (partner ∷ []))
          ≡ (err e, registry (partner ∷ []))))
guarded-AreConfigured_example =
    guarded-AreConfigured outside.auth outside.environ settings credentials route
      (registry (partner ∷ []))
